-- ===== src/Session/Requests/KeepingAlive.antt =====
-- The requests to keep a lease alive.
use mathlib.Core.Option
use etcdv3client.Prelude.{ℕ, zero, suc, refl, Option, none, some, ◌==◌}
use etcdv3client.Client.{Client}
use etcdv3client.Session.Options.{SessionOptions}
use etcdv3client.Session.{
  LeaseState, KeepAliveEnd, returns, breaks, grpc_not_found, read_answer, exchange, exchange_failed,
  keep_alive_loop, connect_loop,
}
use etcdv3client.Proto.Lease.{LeaseKeepAliveResponse}
use etcdv3client.Effect.{Prog, Waitable}
use etcdv3client.Effect.Protocol
use etcdv3client.Effect.Protocol.{Protocol, Obeys}
use etcdv3client.Session.Requests.{
  Told, answered, asked, requests, Knows, Knows-asked, with_context,
}

-- What the worker's options keep to while a lease is kept alive; its own lease is `l`.
module _ (client : Client) (event : Waitable) (kept options : SessionOptions) where
  abbrev Answered : LeaseState → Option LeaseState → Told → Type 0
  Answered l none s = Knows kept l s
  Answered l (some l') s = Knows kept l' s

  exchange-Answered :
      (stream : ℕ) (l : LeaseState) (s : Told)
      → Knows kept l s
      → Obeys requests (Answered l) (exchange client event options stream l) s
  unfolding exchange read_answer
  exchange-Answered stream l s h = (
    h.1,
    λ written. Protocol.branch requests (Answered l) written _ _ s (λ e. (tt, answers)) (λ e. h),
  )
    where
      answers :
          (rsp : Option LeaseKeepAliveResponse)
          → Answered l (Option.map (λ r. record { id = r.id; ttl = r.ttl }) rsp) (answered rsp s)
      answers none = h
      answers (some rsp) = (h.0, refl)

  branch-Answered :
      {A : Type 0} (Q : A → Told → Type 0) (l : LeaseState) (o : Option LeaseState) (p : Prog A)
      (f : LeaseState → Prog A) (s : Told)
      → Answered l o s
      → (Knows kept l s → Obeys requests Q p s)
      → ((l' : LeaseState) → Knows kept l' s → Obeys requests Q (f l') s)
      → Obeys requests Q (elim o [ some l' ↦ f l' | none ↦ p ]) s
  branch-Answered Q l none p f s a h k = h a
  branch-Answered Q l (some l') p f s a h k = k l' a

  abbrev Ended : KeepAliveEnd → Told → Type 0
  Ended (returns l) s = Knows kept l s
  Ended (breaks l) s = Knows kept l s

  exchange_failed-Ended :
      (backoff stream : ℕ) (l : LeaseState) (s : Told)
      → Knows kept l s
      → Obeys requests Ended (exchange_failed client event options backoff stream l) s
  unfolding exchange_failed
  exchange_failed-Ended backoff stream l s h = (
    tt,
    λ status.
        Protocol.branch requests Ended (status.error_code == grpc_not_found) _ _ s (λ _. h)
          (λ _. (tt, λ _. (tt, λ d. (tt, λ _. h)))),
  )

  keep_alive_loop-Ended :
      (n backoff context stream : ℕ) (l : LeaseState) (s : Told)
      → Knows kept l s
      → Obeys requests Ended (keep_alive_loop client event options n backoff context stream l) s
  unfolding keep_alive_loop
  keep_alive_loop-Ended zero backoff context stream l s h = tt
  keep_alive_loop-Ended (suc n) backoff context stream l s h = (
    tt,
    λ d. (
      tt,
      λ stop.
          let k = Knows-asked kept l s stop h in
          Protocol.branch requests Ended stop _ _ (asked stop s) (λ _. (tt, λ _. (tt, λ _. k)))
            (λ _.
              Protocol.bind requests (Answered l) Ended (exchange client event options stream l) _
                (asked stop s) (exchange-Answered stream l (asked stop s) k)
                (λ answer t a.
                  branch-Answered Ended l answer _ _ t a (exchange_failed-Ended backoff stream l t)
                    (λ l' k'. (tt, λ _. keep_alive_loop-Ended n backoff context stream l' t k')))),
    ),
  )

  branch_end :
      {A : Type 0} (Q : A → Told → Type 0) (end : KeepAliveEnd) (f g : LeaseState → Prog A)
      (s : Told)
      → Ended end s
      → ((l : LeaseState) → Knows kept l s → Obeys requests Q (f l) s)
      → ((l : LeaseState) → Knows kept l s → Obeys requests Q (g l) s)
      → Obeys requests Q (elim end [ returns l ↦ f l | breaks l ↦ g l ]) s
  branch_end Q (returns l) f g s e h k = h l e
  branch_end Q (breaks l) f g s e h k = k l e

  pub connect_loop-Knows :
      (inner n backoff : ℕ) (l : LeaseState) (s : Told)
      → Knows kept l s
      → Obeys requests (Knows kept) (connect_loop client event options inner n backoff l) s
  unfolding connect_loop
  connect_loop-Knows inner zero backoff l s h = tt
  connect_loop-Knows inner (suc n) backoff l s h = (
    tt,
    λ stop.
        let k = Knows-asked kept l s stop h in
        Protocol.branch requests (Knows kept) stop _ _ (asked stop s) (λ _. k)
          (λ _.
            with_context (Knows kept) options.get_grpc_client_context_func _ (asked stop s)
              λ context. (
                tt,
                λ stream.
                    Protocol.bind requests Ended (Knows kept)
                      (keep_alive_loop client event options inner backoff context stream l) _
                      (asked stop s)
                      (keep_alive_loop-Ended inner backoff context stream l (asked stop s) k)
                      (λ end t e.
                        branch_end (Knows kept) end _ _ t e (λ l' k'. k')
                          (λ l' k'. connect_loop-Knows inner n backoff l' t k')),
              )),
  )
