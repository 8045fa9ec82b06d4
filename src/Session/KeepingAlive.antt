-- ===== src/Session/KeepingAlive.antt =====
-- TryKeepAlive: what it keeps while it runs, and what it leaves when it returns.
use etcdv3client.Prelude.{
  ℕ, zero, suc, ◌≡◌, refl, subst, true, Option, none, some, arith, ◌==◌, ◌⊎◌,
}
use etcdv3client.Client.{Client}
use etcdv3client.Session.Options.{SessionOptions}
use mathlib.Core.Option
use etcdv3client.Proto.Lease.{LeaseKeepAliveResponse}
use etcdv3client.Session.{
  LeaseState, KeepAliveEnd, returns, breaks, grpc_not_found, exchange, exchange_failed,
  keep_alive_loop, connect_loop, try_keep_alive,
}
use etcdv3client.Session.View.{View, observe, IsSound, watching, IsServing, IsServing-IsSound}
use etcdv3client.Effect.{keep_alive_read, ret, Waitable}
use etcdv3client.Effect.Logic
use etcdv3client.Effect.Logic.{Holds}
use etcdv3client.Session.Granting.{context-Holds}

module _ (client : Client) (event : Waitable) where
  -- What an exchange on the stream leaves: the lease of the answer, if there is one.
  abbrev pub Exchanged : LeaseState → Option LeaseState → View → Type 0
  Exchanged l none v = IsServing v × (v.lease ≡ some l.id)
  Exchanged l (some l') v = IsServing v × (v.lease ≡ some l'.id)

  exchange-Exchanged :
      (options : SessionOptions) (stream : ℕ) (l : LeaseState) (v : View)
      → IsServing v
      → v.lease ≡ some l.id
      → Holds watching (Exchanged l) (exchange client event options stream l) v
  unfolding exchange
  exchange-Exchanged options stream l v serving conf = (
    IsServing-IsSound v serving,
    λ written _.
        Logic.branch watching (Exchanged l) v written _ _ (λ e. (IsServing-IsSound v serving, read))
          (λ e. (IsServing-IsSound v serving, (serving, conf))),
  )
    where
      read :
          (r : Option LeaseKeepAliveResponse)
          → Unit {0}
          → Holds watching
              (Exchanged l)
              (ret (Option.map (λ rsp. record { id = rsp.id; ttl = rsp.ttl }) r))
              (observe (keep_alive_read stream) r v)
      read none _ = (IsServing-IsSound v serving, (serving, conf))
      read (some rsp) _ = (ground arith, (ground arith, refl))

  -- The function returns only if the close event was seen or the stream ended with NOT_FOUND.
  abbrev pub Ended : KeepAliveEnd → View → Type 0
  Ended (returns l) v = IsServing v × (v.lease ≡ some l.id) × ((v.stopped ≡ true) ⊎ (v.lost ≡ true))
  Ended (breaks l) v = IsServing v × (v.lease ≡ some l.id)

  exchange_failed-Ended :
      (options : SessionOptions) (backoff stream : ℕ) (l : LeaseState) (v : View)
      → IsServing v
      → v.lease ≡ some l.id
      → Holds watching Ended (exchange_failed client event options backoff stream l) v
  unfolding exchange_failed
  exchange_failed-Ended options backoff stream l v serving conf = (
    IsServing-IsSound v serving,
    λ status _.
        Logic.branch watching Ended _ (status.error_code == grpc_not_found) _ _ (λ e. ground arith)
          (λ e. (ground arith, λ _ _. (ground arith, λ d _. (ground arith, λ _ _. ground arith)))),
  )

  keep_alive_loop-Ended :
      (options : SessionOptions) (n backoff context stream : ℕ) (l : LeaseState) (v : View)
      → IsServing v
      → v.lease ≡ some l.id
      → Holds watching Ended (keep_alive_loop client event options n backoff context stream l) v
  unfolding keep_alive_loop
  keep_alive_loop-Ended options zero backoff context stream l v serving conf =
      (IsServing-IsSound v serving, tt)
  keep_alive_loop-Ended options (suc n) backoff context stream l v serving conf = (
    IsServing-IsSound v serving,
    λ d _. (
      IsServing-IsSound v serving,
      λ stop _.
          Logic.branch watching Ended _ stop _ _
            (λ e. (ground arith, λ _ _. (ground arith, λ status _. ground arith)))
            (λ e.
              Logic.bind watching (Exchanged l) Ended (exchange client event options stream l) _ _
                (exchange-Exchanged options stream l _ (ground arith) conf)
                (λ answer w sound ex.
                  Logic.branch_option watching Ended w answer _ _
                    (λ none_e.
                      let ex' = subst (λ a. Exchanged l a w) none_e ex in
                      exchange_failed-Ended options backoff stream l w ex'.0 ex'.1)
                    (λ l' some_e.
                      let ex' = subst (λ a. Exchanged l a w) some_e ex in
                      (
                        sound,
                        λ _ _.
                            keep_alive_loop-Ended options n backoff context stream l' w ex'.0 ex'.1,
                      )))),
    ),
  )

  abbrev pub Kept : LeaseState → View → Type 0
  Kept l v = IsServing v × (v.lease ≡ some l.id) × ((v.stopped ≡ true) ⊎ (v.lost ≡ true))

  connect_loop-Kept :
      (options : SessionOptions) (inner n backoff : ℕ) (l : LeaseState) (v : View)
      → IsServing v
      → v.lease ≡ some l.id
      → Holds watching Kept (connect_loop client event options inner n backoff l) v
  unfolding connect_loop
  connect_loop-Kept options inner zero backoff l v serving conf = (IsServing-IsSound v serving, tt)
  connect_loop-Kept options inner (suc n) backoff l v serving conf = (
    IsServing-IsSound v serving,
    λ stop _.
        Logic.branch watching Kept _ stop _ _ (λ e. ground arith)
          (λ e.
            context-Holds Kept options.get_grpc_client_context_func _ _ (ground arith) λ context. (
              ground arith,
              λ stream _.
                  Logic.bind watching Ended Kept
                    (keep_alive_loop client event options inner backoff context stream l) _ _
                    (keep_alive_loop-Ended options inner backoff context stream l _ (ground arith)
                      conf)
                    (after (connect_loop-Kept options inner n backoff)),
            )),
  )
    where
      after :
          ((l' : LeaseState) (w : View)
            → IsServing w
            → w.lease ≡ some l'.id
            → Holds watching Kept (connect_loop client event options inner n backoff l') w)
          → (end : KeepAliveEnd) (w : View) → IsSound w
          → Ended end w
          → Holds watching Kept
              (elim end [
                | returns l' ↦ ret l'
                | breaks l' ↦ connect_loop client event options inner n backoff l'
              ])
              w
      after again (returns l') w sound ended = (sound, ended)
      after again (breaks l') w sound ended = again l' w ended.0 ended.1

  -- TryKeepAlive returns only if the close event was seen or the stream ended with NOT_FOUND.
  pub try_keep_alive-Kept :
      (options : SessionOptions) (n : ℕ) (l : LeaseState) (v : View)
      → IsServing v
      → v.lease ≡ some l.id
      → Holds watching Kept (try_keep_alive client event options n l) v
  unfolding try_keep_alive
  try_keep_alive-Kept options n l v serving conf = (
    IsServing-IsSound v serving,
    λ backoff _. connect_loop-Kept options n n backoff l v serving conf,
  )
