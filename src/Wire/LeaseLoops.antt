-- ===== src/Wire/LeaseLoops.antt =====
-- TryGrant and TryKeepAlive of a session's worker on the wire.
use mathlib.Core.Option
use etcdv3client.Prelude.{
  ℕ, zero, suc, ◌≡◌, refl, sym, ap, subst, true, false, Option, none, some, not, ◌==◌,
}
use etcdv3client.Client.{Client}
use etcdv3client.Session.Options.{SessionOptions}
use etcdv3client.Session.{
  LeaseState, KeepAliveEnd, returns, breaks, grpc_not_found, grant_loop, read_answer, exchange,
  exchange_failed, keep_alive_loop, connect_loop,
}
use etcdv3client.Effect.{ret, Waitable}
use etcdv3client.Wire
use etcdv3client.Effect.Protocol
use etcdv3client.Effect.Protocol.{Obeys}
use etcdv3client.Wire.{Wire, idle, streaming, IsIdle, Closed, wire, is_none}

module _ (client : Client) (event : Waitable) (options : SessionOptions) where
  pub grant_loop-Obeys :
      (n backoff : ℕ) (l : LeaseState) (w : Wire)
      → IsIdle w
      → Obeys (wire client) Closed (grant_loop client event options n backoff l) w
  unfolding grant_loop
  grant_loop-Obeys zero backoff l w h = tt
  grant_loop-Obeys (suc n) backoff l w h = (
    tt,
    λ stop.
        Protocol.branch (wire client) Closed stop _ _ w (λ _. h)
          (λ _.
            Wire.with_context client false Closed options.get_grpc_client_context_func _ w h
              (λ context. (
                (refl, refl),
                λ answer.
                    Protocol.branch (wire client) Closed answer.0.is_ok _ _ (idle none) (λ _. tt)
                      (λ _. (
                        tt,
                        λ _. (
                          tt,
                          λ d. (
                            tt,
                            λ stop'.
                                Protocol.branch (wire client) Closed stop' _ _ (idle none) (λ _. tt)
                                  (λ _. grant_loop-Obeys n backoff l (idle none) tt),
                          ),
                        ),
                      )),
              ))),
  )

  is_none-map : {A B : Type 0} (f : A → B) (o : Option A) → is_none o ≡ is_none (Option.map f o)
  is_none-map f none = refl
  is_none-map f (some a) = refl

  -- After a request and its answer, or a failure of either, after which the stream is over.
  exchange-Obeys :
      (context stream : ℕ) (l : LeaseState)
      → Obeys
          (wire client)
          (λ answer w. w ≡ streaming stream context false false (is_none answer))
          (exchange client event options stream l)
          (streaming stream context false false false)
  unfolding exchange read_answer
  exchange-Obeys context stream l = (
    (refl, refl, refl, refl),
    λ written.
        Protocol.branch (wire client)
          (λ answer w. w ≡ streaming stream context false false (is_none answer)) written _ _
          (streaming stream context written false (not written))
          (λ e. (
            (refl, e, ap not e),
            λ answer. ap (streaming stream context false false) (is_none-map _ answer),
          ))
          (λ e. ap (λ b. streaming stream context b false (not b)) e),
  )

  exchange_failed-Obeys :
      (backoff context stream : ℕ) (l : LeaseState)
      → Obeys
          (wire client)
          Closed
          (exchange_failed client event options backoff stream l)
          (streaming stream context false false true)
  unfolding exchange_failed
  exchange_failed-Obeys backoff context stream l = (
    (refl, refl),
    λ status.
        Protocol.branch (wire client) Closed (status.error_code == grpc_not_found) _ _ (idle none)
          (λ _. tt) (λ _. (tt, λ _. (tt, λ d. (tt, λ _. tt)))),
  )

  keep_alive_loop-Obeys :
      (n backoff context stream : ℕ) (l : LeaseState)
      → Obeys
          (wire client)
          Closed
          (keep_alive_loop client event options n backoff context stream l)
          (streaming stream context false false false)
  unfolding keep_alive_loop
  keep_alive_loop-Obeys zero backoff context stream l = tt
  keep_alive_loop-Obeys (suc n) backoff context stream l = (
    tt,
    λ d. (
      tt,
      λ stop.
          Protocol.branch (wire client) Closed stop _ _ (streaming stream context false false false)
            (λ _. (refl, λ _. ((refl, refl), λ _. tt)))
            (λ _.
              Protocol.bind (wire client)
                (λ answer w. w ≡ streaming stream context false false (is_none answer)) Closed
                (exchange client event options stream l) _
                (streaming stream context false false false) (exchange-Obeys context stream l)
                (λ answer w e. subst (Obeys (wire client) Closed _) (sym e) (
                  Protocol.branch_reply (wire client) Closed answer _ _
                    (λ o. streaming stream context false false (is_none o))
                    (exchange_failed-Obeys backoff context stream l)
                    (λ l'. (tt, λ _. keep_alive_loop-Obeys n backoff context stream l'))))),
    ),
  )

  pub connect_loop-Obeys :
      (inner n backoff : ℕ) (l : LeaseState) (w : Wire)
      → IsIdle w
      → Obeys (wire client) Closed (connect_loop client event options inner n backoff l) w
  unfolding connect_loop
  connect_loop-Obeys inner zero backoff l w h = tt
  connect_loop-Obeys inner (suc n) backoff l w h = (
    tt,
    λ stop.
        Protocol.branch (wire client) Closed stop _ _ w (λ _. h)
          (λ _.
            Wire.with_context client false Closed options.get_grpc_client_context_func _ w h
              (λ context. (
                (refl, refl),
                λ stream.
                    Protocol.bind (wire client) Closed Closed
                      (keep_alive_loop client event options inner backoff context stream l) _ _
                      (keep_alive_loop-Obeys inner backoff context stream l)
                      (after (λ l' v k. connect_loop-Obeys inner n backoff l' v k)),
              ))),
  )
    where
      after :
          ((l' : LeaseState) (v : Wire)
            → IsIdle v
            → Obeys (wire client) Closed (connect_loop client event options inner n backoff l') v)
          → (end : KeepAliveEnd) (v : Wire) → IsIdle v
          → Obeys
              (wire client)
              Closed
              (elim end [
                | returns l' ↦ ret l'
                | breaks l' ↦ connect_loop client event options inner n backoff l'
              ])
              v
      after again (returns l') v k = k
      after again (breaks l') v k = again l' v k
