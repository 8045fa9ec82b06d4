-- ===== src/Session/Looping.antt =====
-- The loop of GrantAndKeepAlive.
use etcdv3client.Prelude.{ℕ, ℤ, zero, suc, ◌≡◌, true, some, arith, ◌⊎◌, inl}
use etcdv3client.Client.{Client}
use etcdv3client.Session.Options.{SessionOptions, set_ttl, set_lease}
use etcdv3client.Session.{LeaseState, try_grant, try_keep_alive, serve, session_loop}
use etcdv3client.Session.View.{View, watching, IsIdle, Confirmed, IsIdle-IsSound}
use etcdv3client.Effect.{Waitable}
use etcdv3client.Effect.Logic
use etcdv3client.Effect.Logic.{Holds}
use etcdv3client.Session.Granting.{Granted, try_grant-Granted}
use etcdv3client.Session.KeepingAlive.{Kept, try_keep_alive-Kept}

module _ (client : Client) (event : Waitable) (first : LeaseState) where
  abbrev pub Served : LeaseState → View → Type 0
  Served l v = IsIdle v × (v.lease ≡ some l.id) × ((v.stopped ≡ true) ⊎ (v.lost ≡ true))

  serve-Served :
      (options : SessionOptions) (n : ℕ) (l : LeaseState) (v : View)
      → IsIdle v
      → v.lease ≡ some l.id
      → Holds watching Served (serve client event n options l) v
  unfolding serve
  serve-Served options n l v idle conf = (
    IsIdle-IsSound v idle,
    λ _ _. (
      ground arith,
      λ _ _.
          Logic.bind watching (Kept client event) Served (try_keep_alive client event options n l) _
            _ (try_keep_alive-Kept client event options n l _ (ground arith) conf)
            (λ l' w sound kept. (sound, λ _ _. (ground arith, λ _ _. ground arith))),
    ),
  )

  abbrev pub Stopped : ℤ → SessionOptions × LeaseState → View → Type 0
  Stopped max r v =
      IsIdle v × Confirmed first r.1 v × (v.stopped ≡ true) × (r.0.revoke_max_retry_times ≡ max)

  pub session_loop-Stopped :
      (max : ℤ) (inner n : ℕ) (options : SessionOptions) (l : LeaseState) (v : View)
      → IsIdle v
      → Confirmed first l v
      → options.revoke_max_retry_times ≡ max
      → Holds watching (Stopped max) (session_loop client event inner n options l) v
  unfolding session_loop
  session_loop-Stopped max inner zero options l v idle conf same = (IsIdle-IsSound v idle, tt)
  session_loop-Stopped max inner (suc n) options l v idle conf same = (
    IsIdle-IsSound v idle,
    λ stop _.
        Logic.branch watching (Stopped max) _ stop _ _ (λ e. ground arith)
          (λ e.
            Logic.bind watching (Granted client event first) (Stopped max)
              (try_grant client event options inner l) _ _
              (try_grant-Granted client event first options inner l _ (ground arith) conf)
              (λ l' w sound granted. (
                sound,
                λ stop' allowed.
                    Logic.branch watching (Stopped max) _ stop' _ _
                      (λ e'.
                        session_loop-Stopped max inner n (renew l') l' _ (ground arith) granted.1
                          same)
                      (λ e'.
                        Logic.bind watching Served (Stopped max)
                          (serve client event inner (renew l') l') _ _
                          (serve-Served (renew l') inner l' _ (ground arith) (ground arith))
                          (λ l'' u sound' served.
                            session_loop-Stopped max inner n (renew l') l'' u served.0
                              (inl served.1) same)),
              ))),
  )
    where
      renew : LeaseState → SessionOptions
      renew l' = set_ttl (set_lease options l'.id) l'.ttl
