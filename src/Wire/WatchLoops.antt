-- ===== src/Wire/WatchLoops.antt =====
-- The loops inside of `Watch` of an election on the wire.
use etcdv3client.Prelude.{ℕ, zero, suc, refl, sym, subst, Bool, false, true, none, some}
use etcdv3client.Bytes.{Bytes}
use etcdv3client.Status.{StatusLibrary}
use etcdv3client.Prefix.{CharKind}
use etcdv3client.Client.{Client}
use etcdv3client.Watch.{WatchOptions}
use etcdv3client.Proto.Watch.{EventType}
use etcdv3client.Election.{
  get_leader, ReadEnd, found, again, stopped, fetch_loop, find_event, read_failed, read_loop,
  watch_loop,
}
use etcdv3client.Election.Node.{ElectionNode, ElectionWatchOptions}
use etcdv3client.Effect.{ret}
use etcdv3client.Wire
use etcdv3client.Effect.Protocol
use etcdv3client.Effect.Protocol.{Obeys}
use etcdv3client.Wire.{Wire, idle, streaming, IsIdle, Closed, Spent, wire_of, loose_wire, is_none}

module _ (lib : StatusLibrary) (c : CharKind) (client : Client) (ctx : ℕ) (key_prefix : Bytes)
    (options : ElectionWatchOptions) where
  pub get_leader-Obeys :
      (early : Bool) (context : ℕ) (node : ElectionNode)
      → Obeys
          (wire_of client early)
          Spent
          (get_leader lib c client context key_prefix node)
          (idle (some context))
  unfolding get_leader
  get_leader-Obeys early context node = (
    (refl, refl),
    λ answer.
        Protocol.branch (wire_of client early) Spent answer.0.is_ok _ _ (idle none) (λ _. refl)
          (λ _. refl),
  )

  pub fetch_loop-Obeys :
      (n backoff : ℕ) (node : ElectionNode) (w : Wire)
      → IsIdle w
      → Obeys
          (loose_wire client)
          Closed
          (fetch_loop lib c client ctx key_prefix options n backoff node)
          w
  unfolding fetch_loop
  fetch_loop-Obeys zero backoff node w h = tt
  fetch_loop-Obeys (suc n) backoff node w h =
      Wire.with_context client true Closed options.get_grpc_client_context_func _ w h (λ context.
        Protocol.bind (loose_wire client) Spent Closed
          (get_leader lib c client context key_prefix node) _ (idle (some context))
          (get_leader-Obeys true context node)
          (λ r v spent.
            let k : IsIdle v = subst IsIdle (sym spent) tt in
            Protocol.branch (loose_wire client) Closed (lib.is_ok r.0) _ _ v (λ _. k)
              (λ _. (
                tt,
                λ _. (
                  tt,
                  λ d. (
                    tt,
                    λ stop.
                        Protocol.branch (loose_wire client) Closed stop _ _ v (λ _. k)
                          (λ _. fetch_loop-Obeys n backoff r.1 v k),
                  ),
                ),
              ))))

  read_failed-Obeys :
      (backoff context stream : ℕ)
      → Obeys
          (loose_wire client)
          Closed
          (read_failed lib c client ctx key_prefix options backoff stream)
          (streaming stream context false true true)
  unfolding read_failed
  read_failed-Obeys backoff context stream = (
    (refl, refl),
    λ status. (
      tt,
      λ _. (
        tt,
        λ d. (
          tt,
          λ stop.
              Protocol.branch (loose_wire client) Closed stop _ _ (idle none) (λ _. tt) (λ _. tt),
        ),
      ),
    ),
  )

  read_loop-Obeys :
      (n backoff context stream : ℕ) (t : EventType)
      → Obeys
          (loose_wire client)
          Closed
          (read_loop lib c client ctx key_prefix options n backoff stream t)
          (streaming stream context false true false)
  unfolding read_loop
  read_loop-Obeys zero backoff context stream t = tt
  read_loop-Obeys (suc n) backoff context stream t = (
    (refl, refl, refl),
    λ answer.
        Protocol.branch_reply (loose_wire client) Closed answer _ _
          (λ o. streaming stream context false true (is_none o))
          (read_failed-Obeys backoff context stream)
          (λ rsp.
            Protocol.branch_option (loose_wire client) Closed (find_event t rsp.events) _ _
              (streaming stream context false true false)
              (read_loop-Obeys n backoff context stream t) (λ revision. ((refl, refl), λ _. tt))),
  )

  pub watch_loop-Obeys :
      (inner n backoff : ℕ) (o : WatchOptions) (t : EventType) (w : Wire)
      → IsIdle w
      → Obeys
          (loose_wire client)
          Closed
          (watch_loop lib c client ctx key_prefix options inner n backoff o t)
          w
  unfolding watch_loop
  watch_loop-Obeys inner zero backoff o t w h = tt
  watch_loop-Obeys inner (suc n) backoff o t w h =
      Wire.with_context client true Closed options.get_grpc_client_context_func _ w h (λ context. (
        (refl, refl),
        λ stream. (
          (refl, refl, refl),
          λ _.
              Protocol.bind (loose_wire client) Closed Closed
                (read_loop lib c client ctx key_prefix options inner backoff stream t) _
                (streaming stream context false true false)
                (read_loop-Obeys inner backoff context stream t)
                (after (λ v k. watch_loop-Obeys inner n backoff o t v k)),
        ),
      ))
    where
      after :
          ((v : Wire)
            → IsIdle v
            → Obeys
                (loose_wire client)
                Closed
                (watch_loop lib c client ctx key_prefix options inner n backoff o t)
                v)
          → (end : ReadEnd) (v : Wire) → IsIdle v
          → Obeys
              (loose_wire client)
              Closed
              (elim end [
                | found revision ↦ ret (some revision)
                | again ↦ watch_loop lib c client ctx key_prefix options inner n backoff o t
                | stopped ↦ ret none
              ])
              v
      after more (found revision) v k = k
      after more again v k = more v k
      after more stopped v k = k
