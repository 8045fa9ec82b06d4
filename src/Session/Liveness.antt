-- ===== src/Session/Liveness.antt =====
-- The session comes alive: the worker gets its lease where the server grants one in the end and the
-- session is not closed before.
use etcdv3client.Prelude.{ℕ, zero, suc, ◌+◌, ◌*◌, ◌≤◌, ◌<◌, ◌≡◌, refl, true, false, arith}
use etcdv3client.Client.{Client}
use etcdv3client.Session.Options.{SessionOptions, set_lease, set_ttl}
use etcdv3client.Session.{
  LeaseState, grant_loop, try_grant, try_keep_alive, serve, session_loop, try_revoke,
  grant_and_keep_alive,
}
use etcdv3client.Session.Patience.{patient, tick}
use etcdv3client.Session.Termination.{grant_and_keep_alive-ends}
use etcdv3client.Effect.{Waitable, close_event}
use etcdv3client.Effect.Logic
use etcdv3client.Effect.Logic.{Model, Holds}
use etcdv3client.Effect.Run.{Environment, run, Returns, Returns-run, Holds-over}
use etcdv3client.Session.Hope.{
  Hope, hopeful, CameAlive, stays-CameAlive, context-hopeful, use_up-tick, Kind-WithinPatience,
  watched,
}

module _ (rest : ℕ) (client : Client) (event : Waitable) where
  abbrev Quiet : LeaseState → Hope → Type 0
  Quiet l s = rest < s.patience

  module _ (options : SessionOptions) where
    grant_loop-Quiet :
        (n backoff : ℕ) (l : LeaseState) (s : Hope)
        → 2 * s.failures + 2 + rest ≤ s.patience
        → Holds (hopeful rest) Quiet (grant_loop client event options n backoff l) s
    unfolding grant_loop
    grant_loop-Quiet zero backoff l s enough = (tt, tt)
    grant_loop-Quiet (suc n) backoff l s enough = (
      tt,
      λ stop ok.
          Logic.branch (hopeful rest) Quiet _ stop _ _
            (λ e. absurd (let late = ok.0 e in omega arith))
            (λ e. context-hopeful rest Quiet options.get_grpc_client_context_func _ _ λ context. (
              tt,
              λ r fails.
                  Logic.branch (hopeful rest) Quiet _ r.0.is_ok _ _ (λ e'. (tt, ground arith))
                    (λ e'. (
                      tt,
                      λ _ _. (
                        tt,
                        λ d _. (
                          tt,
                          λ stop' ok'.
                              Logic.branch (hopeful rest) Quiet _ stop' _ _
                                (λ e''. absurd (
                                  let late : tick stop s.patience ≤ rest = ok'.0 e'' in
                                  ground arith))
                                (λ e''.
                                  grant_loop-Quiet n backoff l _
                                    (let some_left = fails e' in ground arith)),
                        ),
                      ),
                    )),
            )),
    )

    try_grant-Quiet :
        (n : ℕ) (l : LeaseState) (s : Hope)
        → 2 * s.failures + 2 + rest ≤ s.patience
        → Holds (hopeful rest) Quiet (try_grant client event options n l) s
    unfolding try_grant
    try_grant-Quiet n l s enough = (tt, λ backoff _. grant_loop-Quiet n backoff l s enough)

  serve-CameAlive :
      (n : ℕ) (options : SessionOptions) (l : LeaseState) (s : Hope)
      → Holds (hopeful rest) CameAlive (serve client event n options l) s
  unfolding serve
  serve-CameAlive n options l s = (
    tt,
    λ _ _. (
      tt,
      λ _ _.
          Logic.bind (hopeful rest) CameAlive CameAlive (try_keep_alive client event options n l) _
            _
            (stays-CameAlive rest (try_keep_alive client event options n l)
              (record s { came_alive = true }) refl)
            (λ l' t _ came. (tt, λ _ _. (tt, λ _ _. (tt, came)))),
    ),
  )

  session_loop-CameAlive :
      (inner n : ℕ) (options : SessionOptions) (l : LeaseState) (s : Hope)
      → 2 * s.failures + 3 + rest ≤ s.patience
      → Holds (hopeful rest) CameAlive (session_loop client event inner n options l) s
  unfolding session_loop
  session_loop-CameAlive inner zero options l s enough = (tt, tt)
  session_loop-CameAlive inner (suc n) options l s enough = (
    tt,
    λ stop ok.
        Logic.branch (hopeful rest) CameAlive _ stop _ _
          (λ e. absurd (let late = ok.0 e in omega arith))
          (λ e.
            Logic.bind (hopeful rest) Quiet CameAlive (try_grant client event options inner l) _ _
              (try_grant-Quiet options inner l _ (ground arith))
              (λ l' t _ quiet. (
                tt,
                λ stop' ok'.
                    Logic.branch (hopeful rest) CameAlive _ stop' _ _
                      (λ e'. absurd (let late = ok'.0 e' in omega arith))
                      (λ e'.
                        Logic.bind (hopeful rest) CameAlive CameAlive
                          (serve client event inner (renew l') l') _
                          (record t { patience = tick stop' t.patience })
                          (serve-CameAlive inner (renew l') l'
                            (record t { patience = tick stop' t.patience }))
                          (λ l'' u _ came.
                            stays-CameAlive rest (session_loop client event inner n (renew l') l'')
                              u came)),
              ))),
  )
    where
      renew : LeaseState → SessionOptions
      renew l' = set_ttl (set_lease options l'.id) l'.ttl

-- At most `f` requests to grant a lease fail, at least the first `2 * f + 3` and fewer than `n` questions
-- for the close event are answered by "unfinished", `n` being the rounds that each loop is given. Then
-- the worker thread ends, and has set the alive event in the meantime, whatever else is answered.
pub worker-CameAlive :
    (client : Client) (n context : ℕ) (options : SessionOptions) (first : LeaseState) (f rest : ℕ)
    (e : Environment (watched rest)) (w : e.W)
    → 2 * f + 3 + rest < n
    → Returns
        (λ l s. s.came_alive ≡ true)
        (run
          (watched rest)
          e
          (grant_and_keep_alive client n context options first)
          (record { patience = 2 * f + 3 + rest; failures = f; came_alive = false })
          w)
unfolding grant_and_keep_alive
worker-CameAlive client n context options first f rest e w lt =
    Returns-run (watched rest) e (λ s h. h.1) (λ l s. s.came_alive ≡ true)
      (grant_and_keep_alive client n context options first) start w
      (Logic.mono (watched rest) (λ l s. (s.came_alive ≡ true) × Unit {0})
        (λ l s. s.came_alive ≡ true) (grant_and_keep_alive client n context options first) start
        (Holds-over (hopeful rest) patient (λ s. s.patience) use_up-tick (Kind-WithinPatience rest)
          CameAlive (λ _ _. Unit {0}) (grant_and_keep_alive client n context options first) start
          (Logic.bind (hopeful rest) CameAlive CameAlive
            (session_loop client (close_event context) n n options first) _ start
            (session_loop-CameAlive rest client (close_event context) n n options first start
              (omega arith))
            (λ r t _ came.
              Logic.bind (hopeful rest) CameAlive CameAlive (try_revoke client r.0 r.1) _ t
                (stays-CameAlive rest (try_revoke client r.0 r.1) t came)
                (λ _ u _ came'. (tt, λ _ _. (tt, came')))))
          (grant_and_keep_alive-ends client n context options first (2 * f + 3 + rest) lt))
        (λ l s _ h. h.0))
  where
    start : Hope
    start = record { patience = 2 * f + 3 + rest; failures = f; came_alive = false }
