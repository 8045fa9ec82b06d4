-- ===== src/Tests/Sessions.antt =====
-- Runs of a session's worker.
use etcdv3client.Prelude.{
  leb, ◌∷◌, List, ◌≤◌, ℕ, pos, ◌≡◌, refl, true, false, some, [], arith, ◌==◌, ◌||◌, ◌⊎◌,
}
use etcdv3client.Session.Options.{default_options}
use etcdv3client.Session.{
  new_session, try_revoke, LeaseState, grant_and_keep_alive, try_keep_alive, revoke_rounds,
}
use etcdv3client.Session.View.{View, fresh, IsSound, IsServing, watching}
use etcdv3client.Session.Patience.{patient}
use etcdv3client.Session.Hope.{Hope, Kind, watched}
use etcdv3client.Session.Liveness.{worker-CameAlive}
use etcdv3client.Session.Counter.{counting_revoke, counting_revoke-try_revoke}
use etcdv3client.Session.Worker.{IsFinished, worker-IsSound, worker-Returns, try_keep_alive-Returns}
use etcdv3client.Effect.{lease_grant, Call, Reply, finished, wait, close_event}
use etcdv3client.Session.Calling.{
  Shared, running, calling, unstarted, Operation, grant_call, close_call, operate, successes,
  Refused,
}
use etcdv3client.Session.Requests.{requests}
use etcdv3client.Session.Requests.Worker.{grant_and_keep_alive-Obeys}
use etcdv3client.Effect.Protocol.{Obeys}
use etcdv3client.Session.Callers.{grants_once, close_ends}
use etcdv3client.Effect.Logic.{Holds, here, next}
use etcdv3client.Effect.Run.{Environment, run, Returns, both}
use etcdv3client.Tests.Data.{nobody, reply, client, good, codes}

abbrev pub first : LeaseState
first = record { id = pos 0; ttl = pos 0 }

-- The close event is seen once patience has ended.
abbrev answer : (c : Call) → View × ℕ → Reply c
answer c s = reply c (s.0.stopped || s.1 == 0) nobody

answer-Allowed : (c : Call) (s : View × ℕ) → (both watching patient).Allowed c (answer c s) s
answer-Allowed (finished w) s = (λ e. ground arith, λ e. ground arith)
answer-Allowed (wait w d) s = (λ e. ground arith, λ e. ground arith)
answer-Allowed _ s = (tt, tt)

abbrev server : Environment (both watching patient)
server = record {
  W = Unit {0};
  answer = λ c s w. answer c s;
  advance = λ c s w. tt;
  allowed = λ c s w. answer-Allowed c s;
}

worker-Returns_example :
    Returns
      (λ l s. IsFinished first (revoke_rounds default_options) l s.0)
      (run
        (both watching patient)
        server
        (grant_and_keep_alive client 4 9 default_options first)
        (fresh, 3)
        tt)
worker-Returns_example = worker-Returns client 4 9 default_options first server tt 3 (omega arith)

-- The worker, after the server has granted lease 7 and the events have been set.
abbrev granted_view : View
granted_view = record fresh { expired_set = false; alive_set = true; lease = some (pos 7) }

worker-IsSound_example : IsSound granted_view
unfolding grant_and_keep_alive
worker-IsSound_example = worker-IsSound client 4 9 default_options first (
    next tt
      (next tt
        (next false
          (next (good, record { id = pos 7; ttl = pos 60; error = [] })
            (next 1
              (next false (next 1 (next false here (λ e. ground arith)) tt) (λ e. ground arith)) tt)
            tt)
          (λ e. ground arith))
        tt)
      tt)

try_keep_alive-Returns_example :
    Returns
      (λ l' s.
        IsServing s.0 × (s.0.lease ≡ some l'.id) × ((s.0.stopped ≡ true) ⊎ (s.0.lost ≡ true)))
      (run
        (both watching patient)
        server
        (try_keep_alive client
          (close_event 9)
          default_options
          4
          (record { id = pos 7; ttl = pos 60 }))
        (granted_view, 3)
        tt)
try_keep_alive-Returns_example =
    try_keep_alive-Returns client (close_event 9) default_options 4
      (record { id = pos 7; ttl = pos 60 }) granted_view
      (record {
        not_closed = refl;
        is_alive = refl;
        not_expired = refl;
        has_lease = λ e. ground arith;
        none_revoked = refl;
        not_reopened = refl;
      })
      refl server tt 3 (omega arith)

abbrev calls : List Operation
calls = grant_call 9 default_options ∷ close_call ∷ grant_call 9 default_options ∷ []

grants_once_example :
    Holds calling
      (λ r w. (successes codes [] [] r.0 ≡ w.started) × (w.started ≤ 1))
      (operate codes [] [] calls (new_session client))
      unstarted
grants_once_example = grants_once codes [] [] client calls

-- The worker is running.
abbrev granted_shared : Shared
granted_shared = record { closed_set = false; thread = running; started = 1 }

close_ends_example :
    Holds calling
      (Refused codes [] [] granted_shared)
      (operate codes [] [] (close_call ∷ calls) (record { client = client; granted = true }))
      granted_shared
close_ends_example =
    close_ends codes [] [] calls (record { client = client; granted = true }) granted_shared refl

grant_and_keep_alive-Obeys_example :
    Obeys requests
      (λ _ _. Unit {0})
      (grant_and_keep_alive client 4 9 default_options first)
      (record { stopped = false; id = pos 0; ttl = pos 60; named = pos 0 })
grant_and_keep_alive-Obeys_example = grant_and_keep_alive-Obeys client 4 9 default_options first

-- Grants fail as often as they may, and the close event is seen as soon as it may be.
abbrev hopeful_answer : (c : Call) → Hope → Reply c
hopeful_answer (lease_grant stub context req) s =
    (record good { is_ok = s.failures == 0 }, record { id = pos 7; ttl = pos 60; error = [] })
hopeful_answer c s = reply c (leb s.patience 1) nobody

hopeful_answer-Kind : (c : Call) (s : Hope) → Kind 1 c (hopeful_answer c s) s
hopeful_answer-Kind (finished w) s = (λ e. ground arith, λ e. ground arith)
hopeful_answer-Kind (wait w d) s = (λ e. ground arith, λ e. ground arith)
hopeful_answer-Kind (lease_grant stub context req) s = λ e. ground arith
hopeful_answer-Kind _ s = tt

abbrev hopeful_server : Environment (watched 1)
hopeful_server = record {
  W = Unit {0};
  answer = λ c s w. hopeful_answer c s;
  advance = λ c s w. tt;
  allowed = λ c s w. hopeful_answer-Kind c s;
}

worker-CameAlive_example :
    Returns
      (λ l s. s.came_alive ≡ true)
      (run
        (watched 1)
        hopeful_server
        (grant_and_keep_alive client 7 9 default_options first)
        (record { patience = 6; failures = 1; came_alive = false })
        tt)
worker-CameAlive_example =
    worker-CameAlive client 7 9 default_options first 1 1 hopeful_server tt (omega arith)

counting_revoke-try_revoke_example :
    counting_revoke client default_options 2147483647 first
    ≡ try_revoke client default_options first
counting_revoke-try_revoke_example =
    counting_revoke-try_revoke client default_options 2147483647 first (omega arith) (omega arith)
