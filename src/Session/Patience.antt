-- ===== src/Session/Patience.antt =====
-- The loops of the worker end: a model counts how often the close event may still be reported unfinished,
-- and each round of each loop asks for it.
use etcdv3client.Prelude.{
  ℕ, zero, suc, ◌-◌, ◌≤◌, ◌<◌, ◌≡◌, Bool, false, Option, none, some, arith, if◌then◌else◌, ◌==◌,
}
use etcdv3client.Client.{Client}
use etcdv3client.Session.Options.{SessionOptions, ContextFunction}
use etcdv3client.Session.{
  LeaseState, grpc_not_found, grant_loop, try_grant, exchange, exchange_failed, keep_alive_loop,
}
use etcdv3client.Effect.{
  Call, Reply, finished, wait, Prog, ◌>>=◌, get_grpc_client_context, Waitable,
}
use etcdv3client.Effect.Logic
use etcdv3client.Effect.Logic.{Model, Holds}

abbrev pub tick : Bool → ℕ → ℕ
tick r p = if r then p else p - 1

abbrev pub spend : (c : Call) → Reply c → ℕ → ℕ
spend (finished w) r p = tick r p
spend (wait w d) r p = tick r p
spend _ r p = p

-- "Unfinished" is answered only while patience is left.
abbrev pub WithinPatience : (c : Call) → Reply c → ℕ → Type 0
WithinPatience (finished w) r p = r ≡ false → 0 < p
WithinPatience (wait w d) r p = r ≡ false → 0 < p
WithinPatience _ r p = Unit {0}

-- No run may use up its rounds.
abbrev pub patient : Model
patient = record {
  State = ℕ;
  observe = spend;
  Allowed = WithinPatience;
  Invariant = λ p. Unit {0};
  Starved = λ p. ⊥;
}

abbrev pub Within : {A : Type 0} → ℕ → A → ℕ → Type 0
Within p a q = q ≤ p

pub context-patient :
    {A : Type 0} (Q : A → ℕ → Type 0) (f : Option ContextFunction) (k : ℕ → Prog A) (p : ℕ)
    → ((context : ℕ) → Holds patient Q (k context) p)
    → Holds patient Q (get_grpc_client_context f >>= k) p
unfolding get_grpc_client_context
context-patient Q none k p h = (tt, λ r _. h r)
context-patient Q (some f) k p h = (tt, λ r _. h r)

module _ (client : Client) (event : Waitable) (options : SessionOptions) where
  grant_loop-ends :
      (n backoff : ℕ) (l : LeaseState) (p b : ℕ)
      → p < n
      → p ≤ b
      → Holds patient (Within b) (grant_loop client event options n backoff l) p
  unfolding grant_loop
  grant_loop-ends zero backoff l p b lt le = absurd (omega arith)
  grant_loop-ends (suc n) backoff l p b lt le = (
    tt,
    λ stop ok.
        Logic.branch patient (Within b) _ stop _ _ (λ e. (tt, ground arith))
          (λ e. context-patient (Within b) options.get_grpc_client_context_func _ _ λ context. (
            tt,
            λ r _.
                Logic.branch patient (Within b) _ r.0.is_ok _ _ (λ e'. (tt, ground arith))
                  (λ e'. (
                    tt,
                    λ _ _. (
                      tt,
                      λ d _. (
                        tt,
                        λ stop' ok'.
                            Logic.branch patient (Within b) _ stop' _ _ (λ e''. (tt, ground arith))
                              (λ e''.
                                grant_loop-ends n backoff l _ b (ground arith) (ground arith)),
                      ),
                    ),
                  )),
          )),
  )

  pub try_grant-ends :
      (n : ℕ) (l : LeaseState) (p b : ℕ)
      → p < n
      → p ≤ b
      → Holds patient (Within b) (try_grant client event options n l) p
  unfolding try_grant
  try_grant-ends n l p b lt le = (tt, λ backoff _. grant_loop-ends n backoff l p b lt le)

  exchange-ends :
      (stream : ℕ) (l : LeaseState) (p : ℕ)
      → Holds patient (Within p) (exchange client event options stream l) p
  unfolding exchange
  exchange-ends stream l p = (
    tt,
    λ written _.
        Logic.branch patient (Within p) p written _ _ (λ e. (tt, λ r _. (tt, omega arith)))
          (λ e. (tt, omega arith)),
  )

  exchange_failed-ends :
      (backoff stream : ℕ) (l : LeaseState) (p b : ℕ)
      → p ≤ b
      → Holds patient (Within b) (exchange_failed client event options backoff stream l) p
  unfolding exchange_failed
  exchange_failed-ends backoff stream l p b le = (
    tt,
    λ status _.
        Logic.branch patient (Within b) p (status.error_code == grpc_not_found) _ _ (λ e. (tt, le))
          (λ e. (tt, λ _ _. (tt, λ d _. (tt, λ _ _. (tt, le))))),
  )

  pub keep_alive_loop-ends :
      (n backoff context stream : ℕ) (l : LeaseState) (p b : ℕ)
      → p < n
      → p ≤ b
      → Holds patient (Within b) (keep_alive_loop client event options n backoff context stream l) p
  unfolding keep_alive_loop
  keep_alive_loop-ends zero backoff context stream l p b lt le = absurd (omega arith)
  keep_alive_loop-ends (suc n) backoff context stream l p b lt le = (
    tt,
    λ d _. (
      tt,
      λ stop ok.
          Logic.branch patient (Within b) _ stop _ _
            (λ e. (tt, λ _ _. (tt, λ status _. (tt, ground arith))))
            (λ e.
              Logic.bind patient (Within (p - 1)) (Within b)
                (exchange client event options stream l) _ _ (rw e (exchange-ends stream l (p - 1)))
                (λ answer q _ le'.
                  Logic.branch_option patient (Within b) q answer _ _
                    (λ _. exchange_failed-ends backoff stream l q b (omega arith))
                    (λ l' _. (
                      tt,
                      λ _ _.
                          keep_alive_loop-ends n backoff context stream l' q b (ground arith)
                            (omega arith),
                    )))),
    ),
  )
