-- ===== src/Wire/Lease.antt =====
-- The worker of a session on the wire.
use etcdv3client.Prelude.{ℕ, zero, suc, refl, false, none, ◌==◌, ◌||◌}
use etcdv3client.Client.{Client}
use etcdv3client.Session.Options.{SessionOptions, set_ttl, set_lease}
use etcdv3client.Session.{
  LeaseState, grpc_not_found, try_grant, try_keep_alive, serve, session_loop, revoke_loop,
  revoke_rounds, try_revoke, grant_and_keep_alive,
}
use etcdv3client.Effect.{Waitable, close_event}
use etcdv3client.Wire
use etcdv3client.Effect.Protocol
use etcdv3client.Effect.Protocol.{Obeys}
use etcdv3client.Wire.{Wire, idle, streaming, IsIdle, Closed, wire}
use etcdv3client.Wire.LeaseLoops.{grant_loop-Obeys, connect_loop-Obeys}

module _ (client : Client) (event : Waitable) where
  serve-Obeys :
      (options : SessionOptions) (n : ℕ) (l : LeaseState) (w : Wire)
      → IsIdle w
      → Obeys (wire client) Closed (serve client event n options l) w
  unfolding serve try_keep_alive
  serve-Obeys options n l w h = (
    h,
    λ _. (
      h,
      λ _.
          Protocol.bind (wire client) Closed Closed (try_keep_alive client event options n l) _ w
            (tt, λ backoff. connect_loop-Obeys client event options n n backoff l w h)
            (λ l' v k. (k, λ _. (k, λ _. k))),
    ),
  )

  session_loop-Obeys :
      (inner n : ℕ) (options : SessionOptions) (l : LeaseState) (w : Wire)
      → IsIdle w
      → Obeys (wire client) Closed (session_loop client event inner n options l) w
  unfolding session_loop try_grant
  session_loop-Obeys inner zero options l w h = tt
  session_loop-Obeys inner (suc n) options l w h = (
    tt,
    λ stop.
        Protocol.branch (wire client) Closed stop _ _ w (λ _. h)
          (λ _.
            Protocol.bind (wire client) Closed Closed (try_grant client event options inner l) _ w
              (tt, λ backoff. grant_loop-Obeys client event options inner backoff l w h)
              (λ l' v k. (
                tt,
                λ stop'.
                    Protocol.branch (wire client) Closed stop' _ _ v
                      (λ _. session_loop-Obeys inner n (renew l') l' v k)
                      (λ _.
                        Protocol.bind (wire client) Closed Closed
                          (serve client event inner (renew l') l') _ v
                          (serve-Obeys (renew l') inner l' v k)
                          (λ l'' u k'. session_loop-Obeys inner n (renew l') l'' u k')),
              ))),
  )
    where
      renew : LeaseState → SessionOptions
      renew l' = set_ttl (set_lease options l'.id) l'.ttl

module _ (client : Client) (options : SessionOptions) (l : LeaseState) where
  revoke_loop-Obeys :
      (rounds backoff : ℕ) (w : Wire)
      → IsIdle w
      → Obeys (wire client) Closed (revoke_loop client options rounds backoff l) w
  unfolding revoke_loop
  revoke_loop-Obeys zero backoff w h = h
  revoke_loop-Obeys (suc rounds) backoff w h =
      Wire.with_context client false Closed options.get_grpc_client_context_func _ w h (λ context. (
        (refl, refl),
        λ status.
            Protocol.branch (wire client) Closed
              (status.is_ok || status.error_code == grpc_not_found) _ _ (idle none) (λ _. tt)
              (λ _.
                (tt, λ _. (tt, λ d. (tt, λ _. revoke_loop-Obeys rounds backoff (idle none) tt)))),
      ))

-- On the wire the worker keeps to the rules, whatever the replies: a gRPC context that it got serves for
-- one request, each request goes to the client's stub for leases, a keep-alive stream is written and read
-- in turn until one of these fails, is finished only after that or after it has been cancelled by its own
-- context, and is finished before the worker asks for another context, sleeps, sets an event or ends.
pub worker-Obeys :
    (client : Client) (n context : ℕ) (options : SessionOptions) (first : LeaseState)
    → Obeys (wire client) Closed (grant_and_keep_alive client n context options first) (idle none)
unfolding grant_and_keep_alive try_revoke
worker-Obeys client n context options first =
    Protocol.bind (wire client) Closed Closed
      (session_loop client (close_event context) n n options first) _ (idle none)
      (session_loop-Obeys client (close_event context) n n options first (idle none) tt)
      (λ r w h.
        Protocol.bind (wire client) Closed Closed (try_revoke client r.0 r.1) _ w
          (tt, λ backoff. revoke_loop-Obeys client r.0 r.1 (revoke_rounds r.0) backoff w h)
          (λ _ v k. (k, λ _. k)))
