-- ===== src/Session/Worker.antt =====
-- The whole worker thread: GrantAndKeepAlive with all that it calls.
use etcdv3client.Prelude.{ℕ, ◌≤◌, ◌<◌, ◌≡◌, refl, true, false, ◌⊎◌, inr, arith, replicate, some}
use etcdv3client.Client.{Client}
use etcdv3client.Session.Options.{SessionOptions}
use etcdv3client.Session.{
  LeaseState, session_loop, try_revoke, try_keep_alive, revoke_rounds, grant_and_keep_alive,
}
use etcdv3client.Session.View.{View, fresh, IsSound, IsServing, watching, Confirmed}
use etcdv3client.Session.KeepingAlive.{Kept, try_keep_alive-Kept}
use etcdv3client.Session.Looping.{Stopped, session_loop-Stopped}
use etcdv3client.Session.Revoking.{Revoked, try_revoke-Revoked}
use etcdv3client.Session.Patience.{patient, Within}
use etcdv3client.Session.Termination.{grant_and_keep_alive-ends, try_keep_alive-ends}
use etcdv3client.Effect.{Prog, Waitable, close_event}
use etcdv3client.Effect.Logic
use etcdv3client.Effect.Logic.{Holds, Reach, Holds-Reach, Holds-Invariant}
use etcdv3client.Effect.Run.{Environment, run, Returns, Returns-run, both, Holds-both}

-- What the worker leaves: the session is closed and expired, and its lease has been asked to be revoked at
-- most `most` times, and only until the server answered OK or NOT_FOUND.
pub record IsFinished (first : LeaseState) (most : ℕ) (l : LeaseState) (v : View) : Type 0 where
  pub is_closed : v.closed_set ≡ true
  pub not_alive : v.alive_set ≡ false
  pub is_expired : v.expired_set ≡ true
  pub is_stopped : v.stopped ≡ true
  pub not_reopened : v.reopened ≡ false
  pub confirmed : Confirmed first l v
  pub made : ℕ
  pub requests : v.revoked ≡ replicate made l.id
  pub bounded : made ≤ most
  pub exhausted : ((0 < made) × (v.settled ≡ true)) ⊎ (made ≡ most)

revoke_rounds-same :
    (o o' : SessionOptions)
    → o'.revoke_max_retry_times ≡ o.revoke_max_retry_times
    → revoke_rounds o' ≡ revoke_rounds o
unfolding revoke_rounds
revoke_rounds-same o o' e = rw e

close_after_revoke :
    (first l : LeaseState) (most : ℕ) (v : View)
    → Revoked first l most tt v
    → IsFinished first most l (record v { closed_set = true })
close_after_revoke first l most v (made, h) = record {
  is_closed = refl;
  not_alive = h.ending.not_alive;
  is_expired = h.ending.is_expired;
  is_stopped = h.ending.is_stopped;
  not_reopened = h.ending.not_reopened;
  confirmed = h.ending.confirmed;
  made = made;
  requests = h.ending.requests;
  bounded = h.bounded;
  exhausted = h.exhausted;
}

pub IsFinished-IsSound :
    (first l : LeaseState) (most : ℕ) (v : View) → IsFinished first most l v → IsSound v
IsFinished-IsSound first l most v h = record {
  exclusive = λ e. absurd (ground arith);
  leased = λ e. absurd (ground arith);
  unrevoked = λ e. absurd (ground arith);
  stays_closed = h.not_reopened;
  ended = λ _. (h.not_alive, h.is_expired, h.is_stopped);
}

module _ (client : Client) (n context : ℕ) (options : SessionOptions) (first : LeaseState) where
  pub worker-IsFinished :
      Holds watching
        (IsFinished first (revoke_rounds options))
        (grant_and_keep_alive client n context options first)
        fresh
  unfolding grant_and_keep_alive
  worker-IsFinished =
      Logic.bind watching
        (Stopped client (close_event context) first options.revoke_max_retry_times) Goal
        (session_loop client (close_event context) n n options first) _ fresh
        (session_loop-Stopped client (close_event context) first options.revoke_max_retry_times n n
          options first fresh (ground arith) (inr (refl, refl)) refl)
        (λ r v sound stopped.
          Logic.bind watching (Revoked first r.1 (revoke_rounds r.0)) Goal
            (try_revoke client r.0 r.1) _ v
            (try_revoke-Revoked client r.0 first r.1 v (ground arith))
            (λ u w sound' done. (
              sound',
              λ _ _.
                  let most : revoke_rounds r.0 ≡ revoke_rounds options =
                    revoke_rounds-same options r.0 stopped.3 in
                  let end = close_after_revoke first r.1 (revoke_rounds r.0) w done in
                  (IsFinished-IsSound first r.1 (revoke_rounds r.0) _ end, rw (← most) end),
            )))
    where
      Goal : LeaseState → View → Type 0
      Goal = IsFinished first (revoke_rounds options)

  -- At every point of every run of the worker thread, whatever is answered to its calls (a close event once
  -- seen finished stays so): if the alive event is set, then the expired event is not, the server has
  -- confirmed a lease, and no request to revoke a lease has been made; the closed event has never been
  -- reset; and once the worker has set it, the alive event is reset, the expired event is set and the close
  -- event has been seen.
  pub worker-IsSound :
      {q : Prog LeaseState} {v : View}
      → Reach watching (grant_and_keep_alive client n context options first) fresh q v
      → IsSound v
  worker-IsSound {q} {v} r =
      Holds-Invariant watching (IsFinished first (revoke_rounds options)) q v
        (Holds-Reach watching (IsFinished first (revoke_rounds options)) worker-IsFinished r)

  -- The worker thread ends, if the close event is reported unfinished fewer than `n` times, `n` being the
  -- rounds that each loop is given. It then has set the closed and expired events and reset the alive
  -- event, its lease is the last one that the server confirmed, or the initial one if there was none, and
  -- every request to revoke named that lease: at most `revoke_rounds` requests, the last of which was
  -- answered by OK or NOT_FOUND unless there were that many.
  pub worker-Returns :
      (e : Environment (both watching patient)) (w : e.W) (p : ℕ)
      → p < n
      → Returns
          (λ l s. IsFinished first (revoke_rounds options) l s.0)
          (run
            (both watching patient)
            e
            (grant_and_keep_alive client n context options first)
            (fresh, p)
            w)
  worker-Returns e w p lt =
      Returns-run (both watching patient) e (λ s h. h.1)
        (λ l s. IsFinished first (revoke_rounds options) l s.0)
        (grant_and_keep_alive client n context options first) (fresh, p) w
        (Logic.mono (both watching patient)
          (λ l s. IsFinished first (revoke_rounds options) l s.0 × Unit {0})
          (λ l s. IsFinished first (revoke_rounds options) l s.0)
          (grant_and_keep_alive client n context options first) (fresh, p)
          (Holds-both watching patient (IsFinished first (revoke_rounds options)) (λ _ _. Unit {0})
            (grant_and_keep_alive client n context options first) fresh p worker-IsFinished
            (grant_and_keep_alive-ends client n context options first p lt))
          (λ l s _ h. h.0))

-- TryKeepAlive, started while the session is alive with a confirmed lease, returns if the close event is
-- reported unfinished fewer than `n` times, `n` being the rounds that each loop is given. It leaves the
-- session alive with the lease that was confirmed last, and either the close event has been seen or the
-- stream ended with NOT_FOUND.
pub try_keep_alive-Returns :
    (client : Client) (event : Waitable) (options : SessionOptions) (n : ℕ) (l : LeaseState)
    (v : View)
    → IsServing v
    → v.lease ≡ some l.id
    → (e : Environment (both watching patient)) (w : e.W) (p : ℕ) → p < n
    → Returns
        (λ l' s.
          IsServing s.0 × (s.0.lease ≡ some l'.id) × ((s.0.stopped ≡ true) ⊎ (s.0.lost ≡ true)))
        (run (both watching patient) e (try_keep_alive client event options n l) (v, p) w)
try_keep_alive-Returns client event options n l v serving conf e w p lt =
    Returns-run (both watching patient) e (λ s h. h.1) (λ l' s. Kept client event l' s.0)
      (try_keep_alive client event options n l) (v, p) w
      (Logic.mono (both watching patient) (λ l' s. Kept client event l' s.0 × Within p l' s.1)
        (λ l' s. Kept client event l' s.0) (try_keep_alive client event options n l) (v, p)
        (Holds-both watching patient (Kept client event) (Within p)
          (try_keep_alive client event options n l) v p
          (try_keep_alive-Kept client event options n l v serving conf)
          (try_keep_alive-ends client event options n l p p lt (omega arith)))
        (λ l' s _ h. h.0))
