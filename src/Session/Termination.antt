-- ===== src/Session/Termination.antt =====
-- The worker ends, given more rounds than the close event is reported unfinished.
use etcdv3client.Prelude.{ℕ, zero, suc, ◌≤◌, ◌<◌, arith, ◌==◌, ◌||◌}
use etcdv3client.Client.{Client}
use etcdv3client.Session.Options.{SessionOptions, set_ttl, set_lease}
use etcdv3client.Session.{
  LeaseState, KeepAliveEnd, returns, breaks, grpc_not_found, try_grant, keep_alive_loop,
  connect_loop, try_keep_alive, serve, session_loop, revoke_loop, revoke_rounds, try_revoke,
  grant_and_keep_alive,
}
use etcdv3client.Effect.{ret, Waitable, close_event}
use etcdv3client.Effect.Logic
use etcdv3client.Effect.Logic.{Model, Holds}
use etcdv3client.Session.Patience.{
  tick, patient, Within, context-patient, try_grant-ends, keep_alive_loop-ends,
}

module _ (client : Client) (event : Waitable) (options : SessionOptions) where
  connect_loop-ends :
      (inner n backoff : ℕ) (l : LeaseState) (p b : ℕ)
      → p < inner
      → p < n
      → p ≤ b
      → Holds patient (Within b) (connect_loop client event options inner n backoff l) p
  unfolding connect_loop
  connect_loop-ends inner zero backoff l p b lt' lt le = absurd (omega arith)
  connect_loop-ends inner (suc n) backoff l p b lt' lt le = (
    tt,
    λ stop ok.
        Logic.branch patient (Within b) _ stop _ _ (λ e. (tt, ground arith))
          (λ e. context-patient (Within b) options.get_grpc_client_context_func _ _ λ context. (
            tt,
            λ stream _.
                Logic.bind patient (Within (tick stop p)) (Within b)
                  (keep_alive_loop client event options inner backoff context stream l) _ _
                  (keep_alive_loop-ends client event options inner backoff context stream l
                    (tick stop p) (tick stop p) (ground arith) (omega arith))
                  (after
                    (λ l' q le'.
                      connect_loop-ends inner n backoff l' q b (ground arith) (ground arith)
                        (ground arith))
                    (ground arith)),
          )),
  )
    where
      after :
          {q₀ : ℕ}
          → ((l' : LeaseState) (q : ℕ)
              → q ≤ q₀
              → Holds patient (Within b) (connect_loop client event options inner n backoff l') q)
          → q₀ ≤ b
          → (end : KeepAliveEnd) (q : ℕ) → Unit {0}
          → q ≤ q₀
          → Holds patient
              (Within b)
              (elim end [
                | returns l' ↦ ret l'
                | breaks l' ↦ connect_loop client event options inner n backoff l'
              ])
              q
      after again le (returns l') q _ le' = (tt, omega arith)
      after again le (breaks l') q _ le' = again l' q le'

  pub try_keep_alive-ends :
      (n : ℕ) (l : LeaseState) (p b : ℕ)
      → p < n
      → p ≤ b
      → Holds patient (Within b) (try_keep_alive client event options n l) p
  unfolding try_keep_alive
  try_keep_alive-ends n l p b lt le =
      (tt, λ backoff _. connect_loop-ends n n backoff l p b lt lt le)

module _ (client : Client) (event : Waitable) where
  serve-ends :
      (options : SessionOptions) (n : ℕ) (l : LeaseState) (p : ℕ)
      → p < n
      → Holds patient (Within p) (serve client event n options l) p
  unfolding serve
  serve-ends options n l p lt = (
    tt,
    λ _ _. (
      tt,
      λ _ _.
          Logic.bind patient (Within p) (Within p) (try_keep_alive client event options n l) _ _
            (try_keep_alive-ends client event options n l p p lt (omega arith))
            (λ l' q _ le. (tt, λ _ _. (tt, λ _ _. (tt, le)))),
    ),
  )

  abbrev pub Any : SessionOptions × LeaseState → ℕ → Type 0
  Any r p = Unit {0}

  session_loop-ends :
      (inner n : ℕ) (options : SessionOptions) (l : LeaseState) (p : ℕ)
      → p < inner
      → p < n
      → Holds patient Any (session_loop client event inner n options l) p
  unfolding session_loop
  session_loop-ends inner zero options l p lt' lt = absurd (omega arith)
  session_loop-ends inner (suc n) options l p lt' lt = (
    tt,
    λ stop ok.
        Logic.branch patient Any _ stop _ _ (λ e. (tt, tt))
          (λ e.
            Logic.bind patient (Within (tick stop p)) Any (try_grant client event options inner l) _
              _
              (try_grant-ends client event options inner l (tick stop p) (tick stop p)
                (ground arith) (omega arith))
              (λ l' q _ le. (
                tt,
                λ stop' ok'.
                    Logic.branch patient Any _ stop' _ _
                      (λ e'.
                        session_loop-ends inner n (renew l') l' (tick stop' q) (ground arith)
                          (ground arith))
                      (λ e'.
                        Logic.bind patient (Within (tick stop' q)) Any
                          (serve client event inner (renew l') l') _ _
                          (serve-ends (renew l') inner l' (tick stop' q) (ground arith))
                          (λ l'' u _ le'.
                            session_loop-ends inner n (renew l') l'' u (ground arith)
                              (ground arith))),
              ))),
  )
    where
      renew : LeaseState → SessionOptions
      renew l' = set_ttl (set_lease options l'.id) l'.ttl

module _ (client : Client) (options : SessionOptions) (l : LeaseState) where
  revoke_loop-ends :
      (rounds backoff : ℕ) (p : ℕ)
      → Holds patient (λ _ _. Unit {0}) (revoke_loop client options rounds backoff l) p
  unfolding revoke_loop
  revoke_loop-ends zero backoff p = (tt, tt)
  revoke_loop-ends (suc rounds) backoff p =
      context-patient (λ _ _. Unit {0}) options.get_grpc_client_context_func _ p
        λ context. (
          tt,
          λ status _.
              Logic.branch patient (λ _ _. Unit {0}) p
                (status.is_ok || status.error_code == grpc_not_found) _ _ (λ e. (tt, tt))
                (λ e. (tt, λ _ _. (tt, λ d _. (tt, λ _ _. revoke_loop-ends rounds backoff p)))),
        )

  try_revoke-ends : (p : ℕ) → Holds patient (λ _ _. Unit {0}) (try_revoke client options l) p
  unfolding try_revoke
  try_revoke-ends p = (tt, λ backoff _. revoke_loop-ends (revoke_rounds options) backoff p)

-- While the close event is reported unfinished fewer than `n` times, `n` rounds for each loop are enough.
pub grant_and_keep_alive-ends :
    (client : Client) (n context : ℕ) (options : SessionOptions) (first : LeaseState) (p : ℕ)
    → p < n
    → Holds patient (λ _ _. Unit {0}) (grant_and_keep_alive client n context options first) p
unfolding grant_and_keep_alive
grant_and_keep_alive-ends client n context options first p lt =
    Logic.bind patient (Any client (close_event context)) (λ _ _. Unit {0})
      (session_loop client (close_event context) n n options first) _ p
      (session_loop-ends client (close_event context) n n options first p lt lt)
      (λ r q _ _.
        Logic.bind patient (λ _ _. Unit {0}) (λ _ _. Unit {0}) (try_revoke client r.0 r.1) _ q
          (try_revoke-ends client r.0 r.1 q) (λ _ u _ _. (tt, λ _ _. (tt, tt))))
