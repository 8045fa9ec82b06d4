-- ===== src/Session/Revoking.antt =====
-- TryRevoke: how often it asks, for which lease, and when it stops.
use etcdv3client.Prelude.{
  ℕ, zero, suc, ◌+◌, ◌≤◌, ◌<◌, ◌≡◌, true, false, ◌||◌, ◌==◌, ◌⊎◌, inl, inr, arith, replicate,
}
use etcdv3client.Client.{Client}
use etcdv3client.Session.Options.{SessionOptions}
use etcdv3client.Session.{LeaseState, grpc_not_found, revoke_loop, revoke_rounds, try_revoke}
use etcdv3client.Session.View.{View, IsSound, watching, Confirmed}
use etcdv3client.Session.Granting.{context-Holds}
use etcdv3client.Effect.Logic
use etcdv3client.Effect.Logic.{Holds}

-- The session is over and `made` requests to revoke its lease have been made.
pub record IsEnding (first l : LeaseState) (made : ℕ) (v : View) : Type 0 where
  pub not_closed : v.closed_set ≡ false
  pub not_alive : v.alive_set ≡ false
  pub is_expired : v.expired_set ≡ true
  pub is_stopped : v.stopped ≡ true
  pub not_reopened : v.reopened ≡ false
  pub confirmed : Confirmed first l v
  pub requests : v.revoked ≡ replicate made l.id

-- Some `made` requests, `most` at most, and the last one was settled unless there were `most`.
pub record IsRevoked (first l : LeaseState) (most : ℕ) (made : ℕ) (v : View) : Type 0 where
  pub ending : IsEnding first l made v
  pub bounded : made ≤ most
  pub exhausted : ((0 < made) × (v.settled ≡ true)) ⊎ (made ≡ most)

abbrev pub Revoked : LeaseState → LeaseState → ℕ → Unit {0} → View → Type 0
Revoked first l most _ v = (made : ℕ) × IsRevoked first l most made v

IsEnding-IsSound :
    (first l : LeaseState) (made : ℕ) (v : View) → IsEnding first l made v → IsSound v
IsEnding-IsSound first l made v h = ground arith

module _ (client : Client) (options : SessionOptions) (first l : LeaseState) (most : ℕ) where
  revoke_loop-Revoked :
      (rounds made backoff : ℕ) (v : View)
      → made + rounds ≡ most
      → IsEnding first l made v
      → Holds watching (Revoked first l most) (revoke_loop client options rounds backoff l) v
  unfolding revoke_loop
  revoke_loop-Revoked zero made backoff v total h = (
    IsEnding-IsSound first l made v h,
    (made, record { ending = h; bounded = omega arith; exhausted = inr (omega arith) }),
  )
  revoke_loop-Revoked (suc rounds) made backoff v total h =
      context-Holds (Revoked first l most) options.get_grpc_client_context_func _ v
        (IsEnding-IsSound first l made v h)
        λ context. (
          IsEnding-IsSound first l made v h,
          λ status _.
              Logic.branch watching (Revoked first l most) _
                (status.is_ok || status.error_code == grpc_not_found) _ _
                (λ e. (
                  ground arith,
                  (
                    suc made,
                    record {
                      ending = ground arith;
                      bounded = omega arith;
                      exhausted = inl (omega arith, e);
                    },
                  ),
                ))
                (λ e. (
                  ground arith,
                  λ _ _. (
                    ground arith,
                    λ d _. (
                      ground arith,
                      λ _ _.
                          revoke_loop-Revoked rounds (suc made) backoff _ (omega arith)
                            (ground arith),
                    ),
                  ),
                )),
        )

module _ (client : Client) (options : SessionOptions) (first l : LeaseState) where
  pub try_revoke-Revoked :
      (v : View)
      → IsEnding first l 0 v
      → Holds watching (Revoked first l (revoke_rounds options)) (try_revoke client options l) v
  unfolding try_revoke
  try_revoke-Revoked v h = (
    IsEnding-IsSound first l 0 v h,
    λ backoff _.
        revoke_loop-Revoked client options first l (revoke_rounds options) (revoke_rounds options) 0
          backoff v (omega arith) h,
  )
