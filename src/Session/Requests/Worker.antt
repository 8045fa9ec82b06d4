-- ===== src/Session/Requests/Worker.antt =====
-- The requests of the worker from its start to its end.
use etcdv3client.Prelude.{ℕ, zero, suc, ◌≡◌, refl, false, ◌==◌, ◌||◌}
use etcdv3client.Client.{Client}
use etcdv3client.Session.Options.{SessionOptions, set_ttl, set_lease}
use etcdv3client.Session.{
  LeaseState, grpc_not_found, try_grant, try_keep_alive, serve, session_loop, revoke_loop,
  revoke_rounds, try_revoke, grant_and_keep_alive,
}
use etcdv3client.Effect.{Waitable, close_event}
use etcdv3client.Effect.Protocol
use etcdv3client.Effect.Protocol.{Protocol, Obeys}
use etcdv3client.Session.Requests.KeepingAlive.{connect_loop-Knows}
use etcdv3client.Session.Requests.{
  Told, asked, requests, Knows, Knows-asked, with_context, Granted, grant_loop-Granted,
}

module _ (client : Client) (event : Waitable) where
  serve-Knows :
      (n : ℕ) (options : SessionOptions) (l : LeaseState) (s : Told)
      → Knows options l s
      → Obeys requests (Knows options) (serve client event n options l) s
  unfolding serve try_keep_alive
  serve-Knows n options l s h = (
    tt,
    λ _. (
      tt,
      λ _.
          Protocol.bind requests (Knows options) (Knows options)
            (try_keep_alive client event options n l) _ s
            (tt, λ backoff. connect_loop-Knows client event options options n n backoff l s h)
            (λ l' t k. (tt, λ _. (tt, λ _. k))),
    ),
  )

  abbrev KnowsBoth : SessionOptions × LeaseState → Told → Type 0
  KnowsBoth r s = Knows r.0 r.1 s

  session_loop-Knows :
      (inner n : ℕ) (options : SessionOptions) (l : LeaseState) (s : Told)
      → Knows options l s
      → Obeys requests KnowsBoth (session_loop client event inner n options l) s
  unfolding session_loop try_grant
  session_loop-Knows inner zero options l s h = tt
  session_loop-Knows inner (suc n) options l s h = (
    tt,
    λ stop.
        let k = Knows-asked options l s stop h in
        Protocol.branch requests KnowsBoth stop _ _ (asked stop s) (λ _. k)
          (λ _.
            Protocol.bind requests Granted KnowsBoth (try_grant client event options inner l) _
              (asked stop s)
              (
                tt,
                λ backoff. grant_loop-Granted client event options inner backoff l (asked stop s) k,
              )
              (λ l' t g. (
                tt,
                λ stop'.
                    let k' = Knows-asked (renew l') l' t stop' g in
                    Protocol.branch requests KnowsBoth stop' _ _ (asked stop' t)
                      (λ _. session_loop-Knows inner n (renew l') l' (asked stop' t) k')
                      (λ _.
                        Protocol.bind requests (Knows (renew l')) KnowsBoth
                          (serve client event inner (renew l') l') _ (asked stop' t)
                          (serve-Knows inner (renew l') l' (asked stop' t) k')
                          (λ l'' u k''. session_loop-Knows inner n (renew l') l'' u k'')),
              ))),
  )
    where
      renew : LeaseState → SessionOptions
      renew l' = set_ttl (set_lease options l'.id) l'.ttl

module _ (client : Client) (options : SessionOptions) (l : LeaseState) where
  abbrev Any : Unit {0} → Told → Type 0
  Any _ s = Unit {0}

  revoke_loop-Obeys :
      (rounds backoff : ℕ) (s : Told)
      → l.id ≡ s.named
      → Obeys requests Any (revoke_loop client options rounds backoff l) s
  unfolding revoke_loop
  revoke_loop-Obeys zero backoff s h = tt
  revoke_loop-Obeys (suc rounds) backoff s h =
      with_context Any options.get_grpc_client_context_func _ s λ context. (
        h,
        λ status.
            Protocol.branch requests Any (status.is_ok || status.error_code == grpc_not_found) _ _ s
              (λ _. tt)
              (λ _. (tt, λ _. (tt, λ d. (tt, λ _. revoke_loop-Obeys rounds backoff s h)))),
      )

-- Whatever the replies, the worker names in its requests what it has been told. Each request to grant a
-- lease, while the close event has not been reported finished, has the lease and the time to live that were
-- granted last, at first those of the options. Each request to keep a lease alive and each request to revoke
-- one has the lease that an answer named last, before the first such answer the one that `lease_` held at the
-- start.
pub grant_and_keep_alive-Obeys :
    (client : Client) (n context : ℕ) (options : SessionOptions) (first : LeaseState)
    → Obeys requests
        (λ _ _. Unit {0})
        (grant_and_keep_alive client n context options first)
        (record { stopped = false; id = options.lease; ttl = options.ttl; named = first.id })
unfolding grant_and_keep_alive try_revoke
grant_and_keep_alive-Obeys client n context options first =
    Protocol.bind requests (KnowsBoth client (close_event context)) (λ _ _. Unit {0})
      (session_loop client (close_event context) n n options first) _ _
      (session_loop-Knows client (close_event context) n n options first _
        (λ _. (refl, refl), refl))
      (λ r s h.
        Protocol.bind requests (λ _ _. Unit {0}) (λ _ _. Unit {0}) (try_revoke client r.0 r.1) _ s
          (tt, λ backoff. revoke_loop-Obeys client r.0 r.1 (revoke_rounds r.0) backoff s h.1)
          (λ _ t _. (tt, λ _. tt)))
