-- ===== src/Session/Granting.antt =====
-- TryGrant: what it leaves when it returns.
use etcdv3client.Prelude.{ℕ, zero, suc, ◌≡◌, true, Option, none, some, arith, ◌⊎◌}
use etcdv3client.Client.{Client}
use etcdv3client.Session.Options.{SessionOptions, ContextFunction}
use etcdv3client.Session.{LeaseState, grant_loop, try_grant}
use etcdv3client.Session.View.{View, IsSound, watching, IsIdle, Confirmed, IsIdle-IsSound}
use etcdv3client.Effect.{Prog, ◌>>=◌, get_grpc_client_context, Waitable}
use etcdv3client.Effect.Logic
use etcdv3client.Effect.Logic.{Holds}

-- Making a gRPC context changes nothing.
pub context-Holds :
    {A : Type 0} (Q : A → View → Type 0) (f : Option ContextFunction) (k : ℕ → Prog A) (v : View)
    → IsSound v
    → ((context : ℕ) → Holds watching Q (k context) v)
    → Holds watching Q (get_grpc_client_context f >>= k) v
unfolding get_grpc_client_context
context-Holds Q none k v sound h = (sound, λ r _. h r)
context-Holds Q (some f) k v sound h = (sound, λ r _. h r)

module _ (client : Client) (event : Waitable) (first : LeaseState) where
  abbrev pub Granted : LeaseState → View → Type 0
  Granted l v = IsIdle v × Confirmed first l v × ((v.stopped ≡ true) ⊎ (v.lease ≡ some l.id))

  grant_loop-Granted :
      (options : SessionOptions) (n backoff : ℕ) (l : LeaseState) (v : View)
      → IsIdle v
      → Confirmed first l v
      → Holds watching Granted (grant_loop client event options n backoff l) v
  unfolding grant_loop
  grant_loop-Granted options zero backoff l v idle conf = (IsIdle-IsSound v idle, tt)
  grant_loop-Granted options (suc n) backoff l v idle conf = (
    IsIdle-IsSound v idle,
    λ stop _.
        Logic.branch watching Granted _ stop _ _ (λ e. ground arith)
          (λ e.
            context-Holds Granted options.get_grpc_client_context_func _ _ (ground arith) λ context.
              (
                ground arith,
                λ r _.
                    Logic.branch watching Granted _ r.0.is_ok _ _ (λ ok. ground arith)
                      (λ failed. (
                        ground arith,
                        λ _ _. (
                          ground arith,
                          λ d _. (
                            ground arith,
                            λ stop' _.
                                Logic.branch watching Granted _ stop' _ _ (λ e'. ground arith)
                                  (λ e'.
                                    grant_loop-Granted options n backoff l _ (ground arith)
                                      (ground arith)),
                          ),
                        ),
                      )),
              )),
  )

  pub try_grant-Granted :
      (options : SessionOptions) (n : ℕ) (l : LeaseState) (v : View)
      → IsIdle v
      → Confirmed first l v
      → Holds watching Granted (try_grant client event options n l) v
  unfolding try_grant
  try_grant-Granted options n l v idle conf =
      (IsIdle-IsSound v idle, λ backoff _. grant_loop-Granted options n backoff l v idle conf)
