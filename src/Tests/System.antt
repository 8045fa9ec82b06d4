-- ===== src/Tests/System.antt =====
-- Runs of a session with its threads.
use etcdv3client.Prelude.{◌≡◌, refl, ◌<◌, ℕ, suc, pos, true, false, [], arith}
use etcdv3client.Session.Options.{default_options}
use etcdv3client.Session.{Session, grant_and_keep_alive}
use etcdv3client.Session.Methods.{grant, close}
use etcdv3client.Session.Calling.{is_joinable}
use etcdv3client.Session.System.{
  Setting, System, absent, granting, enter_grant, enter_close, grant_calls, grant_returns,
  close_calls, close_returns, worker_step, caller_step, calls, returns, Steps, stay, later, start,
}
use etcdv3client.Session.System.Safety.{IsOver, HasLease, after_close, alive_session, one_worker}
use etcdv3client.Session.System.Progress.{WillClose}
use etcdv3client.Session.System.Unblocked.{no_dead_end}
use etcdv3client.Session.System.Phases.{changing, live, Follows, session-Follows}
use etcdv3client.Effect.{ret}
use etcdv3client.Tests.Data.{client, good, codes}

abbrev setting : Setting
setting = record {
  lib = codes;
  closed_text = [];
  granted_text = [];
  rounds = 4;
  patience = 3;
  first = record { id = pos 0; ttl = pos 0 };
}

left : (n : ℕ) {A : Type 0} → A → 0 < suc n
left n a = omega arith

abbrev begin : System setting
begin = start setting client

-- Grant, up to the call that starts the thread.
unfoldable granting_run : (s : System setting) × Steps setting begin s
unfolding grant
granting_run = (
  _,
  later (later stay (caller_step (enter_grant 9 default_options)))
      (caller_step (grant_calls false refl)),
)

one_worker_example : (granting_run.0.worker ≡ absent) × (granting_run.0.shared.started ≡ 0)
unfolding granting_run
one_worker_example =
    one_worker setting (omega arith) granting_run.1 9 default_options
      (λ _. ret (0, record { client = client; granted = true })) refl

-- Grant, and the worker until the session is about to be alive.
unfoldable waking_run : (s : System setting) × Steps setting begin s
unfolding grant grant_and_keep_alive
waking_run = (
  _,
  later
      (later
        (later
          (later
            (later
              (later
                (later
                  (later
                    (later
                      (later (later stay (caller_step (enter_grant 9 default_options)))
                        (caller_step (grant_calls false refl)))
                      (caller_step (grant_calls tt tt)))
                    (caller_step grant_returns))
                  (worker_step (calls false refl (left 2))))
                (worker_step (calls 1 tt tt)))
              (worker_step (calls false refl (left 1))))
            (worker_step (calls 1 tt tt)))
          (worker_step (calls (good, record { id = pos 7; ttl = pos 60; error = [] }) tt tt)))
        (worker_step (calls false refl (left 0))))
      (worker_step (calls tt tt tt)),
)

-- Now it is.
unfoldable alive_run : (s : System setting) × Steps setting begin s
unfolding waking_run
alive_run = (_, later waking_run.1 (worker_step (calls tt tt tt)))

alive_session_example :
    (alive_run.0.memory.expired_set ≡ false)
    × HasLease setting alive_run.0.worker
    × (alive_run.0.returned ≡ false)
unfolding alive_run
alive_session_example = alive_session setting (omega arith) alive_run.1 refl

session-Follows_example :
    Follows
      (record { phase = changing; is_closed = false; over = false })
      (record { phase = live; is_closed = false; over = false })
unfolding waking_run
session-Follows_example =
    session-Follows setting (omega arith) waking_run.1 (worker_step (calls tt tt tt))

no_dead_end_example : WillClose setting granting_run.0
no_dead_end_example = no_dead_end setting (omega arith) granting_run.1

-- Grant and Close, with the worker in between.
unfoldable closed_run : (s : System setting) × Steps setting begin s
unfolding grant grant_and_keep_alive close
closed_run = (
  _,
  later
      (later
        (later
          (later
            (later
              (later
                (later
                  (later
                    (later
                      (later
                        (later
                          (later
                            (later
                              (later (later stay (caller_step (enter_grant 9 default_options)))
                                (caller_step (grant_calls false refl)))
                              (caller_step (grant_calls tt tt)))
                            (caller_step grant_returns))
                          (caller_step enter_close))
                        (caller_step (close_calls tt tt)))
                      (caller_step (close_calls true refl)))
                    (worker_step (calls true refl (left 2))))
                  (worker_step (calls 1 tt tt)))
                (worker_step (calls 2 tt tt)))
              (worker_step (calls good tt tt)))
            (worker_step (calls tt tt tt)))
          (worker_step returns))
        (caller_step (close_calls tt tt)))
      (caller_step close_returns),
)

after_close_example :
    (closed_run.0.memory.closed_set ≡ true)
    × (closed_run.0.memory.alive_set ≡ false)
    × (closed_run.0.memory.expired_set ≡ true)
    × IsOver setting closed_run.0.worker
    × (is_joinable closed_run.0.shared.thread ≡ false)
    × ((r : ℕ × Session) → closed_run.0.caller ≡ granting (ret r) → codes.code r.0 ≡ 1001)
unfolding closed_run
after_close_example = after_close setting (omega arith) closed_run.1 refl
