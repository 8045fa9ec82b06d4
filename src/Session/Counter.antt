-- ===== src/Session/Counter.antt =====
-- The counter of TryRevoke in etcdv3client/session.cc, an int that `++retry_times` must not take beyond its
-- maximum.
use mathlib.Core.Path.{fun_ext}
use etcdv3client.Prelude.{
  ℕ, zero, suc, ◌+◌, ◌-◌, ◌<◌, ℤ, pos, ◌≡◌, refl, ap, true, false, ◌||◌, ◌==◌, ◌==ℤ◌, ltb_ℤ, ◌<ℤ◌,
  arith, if◌then◌else◌, Bool-cases, inl, inr, pos_part,
}
use etcdv3client.Client.{Client}
use etcdv3client.Lease.{client_lease_revoke}
use etcdv3client.Session.{
  LeaseState, grpc_not_found, revoke_default_max_retry_times, revoke_rounds, revoke_loop,
  try_revoke, back_off_failed,
}
use etcdv3client.Session.Options.{SessionOptions}
use etcdv3client.Effect.{
  Prog, ret, out_of_fuel, perform, ◌>>=◌, ◌>>◌, get_grpc_client_context, new_back_off, sleep_for,
}

-- `revoke_max_retry_times`, by default where the option is 0.
unfoldable pub revoke_max : SessionOptions → ℤ
revoke_max options =
    if options.revoke_max_retry_times ==ℤ pos 0
    then revoke_default_max_retry_times
    else options.revoke_max_retry_times

module _ (client : Client) (options : SessionOptions) where
  -- `while (++retry_times <= revoke_max_retry_times)`, where `room` is what is left between `retry_times`
  -- and the maximum of an int. An increment without room has no defined behaviour, and so no result.
  unfoldable pub counting_loop : ℕ → ℕ → ℕ → LeaseState → Prog (Unit {0})
  unfolding get_grpc_client_context client_lease_revoke back_off_failed revoke_max
  counting_loop zero retry_times backoff l = out_of_fuel
  counting_loop (suc room) retry_times backoff l =
      if ltb_ℤ (revoke_max options) (pos (suc retry_times)) then ret tt else do
        context ← get_grpc_client_context options.get_grpc_client_context_func
        status ← client_lease_revoke client context l.id
        if status.is_ok || status.error_code == grpc_not_found then ret tt else do
          d ← back_off_failed backoff
          perform (sleep_for d)
          counting_loop room (suc retry_times) backoff l

  -- TryRevoke, with an int whose maximum is `int_max`.
  unfoldable pub counting_revoke : ℕ → LeaseState → Prog (Unit {0})
  unfolding counting_loop
  counting_revoke int_max l = do
    backoff ← perform (new_back_off options.retry_min_wait_time options.retry_max_wait_time)
    counting_loop int_max 0 backoff l

  bind_cong :
      {A B : Type 0} (p : Prog A) (f g : A → Prog B) → ((a : A) → f a ≡ g a) → p >>= f ≡ p >>= g
  bind_cong p f g h = ap (λ k. p >>= k) (fun_ext h)

  counting_loop-revoke_loop :
      (room retry_times rounds backoff : ℕ) (l : LeaseState)
      → 0 < room
      → revoke_max options <ℤ pos (retry_times + room)
      → rounds ≡ pos_part (revoke_max options) - retry_times
      → counting_loop room retry_times backoff l ≡ revoke_loop client options rounds backoff l
  unfolding counting_loop revoke_loop
  counting_loop-revoke_loop zero retry_times rounds backoff l more lt e = absurd (omega arith)
  counting_loop-revoke_loop (suc room) retry_times zero backoff l more lt e =
      let stops : ltb_ℤ (revoke_max options) (pos (suc retry_times)) ≡ true = ground arith in
      rw stops refl
  counting_loop-revoke_loop (suc room) retry_times (suc rounds) backoff l more lt e =
      let goes_on : ltb_ℤ (revoke_max options) (pos (suc retry_times)) ≡ false = ground arith in
      rw goes_on (
        bind_cong (get_grpc_client_context options.get_grpc_client_context_func) _ _ λ context.
          bind_cong (client_lease_revoke client context l.id) _ _ λ status.
            ap
              (λ rest.
                if status.is_ok || status.error_code == grpc_not_found
                then ret tt
                else do d ← back_off_failed backoff; perform (sleep_for d); rest)
              (counting_loop-revoke_loop room (suc retry_times) rounds backoff l (ground arith)
                (ground arith) (ground arith)))

  revoke_max-revoke_rounds :
      (int_max : ℕ)
      → 3 < int_max
      → options.revoke_max_retry_times <ℤ pos int_max
      → (revoke_max options <ℤ pos (0 + int_max))
        × (revoke_rounds options ≡ pos_part (revoke_max options) - 0)
  unfolding revoke_max revoke_rounds
  revoke_max-revoke_rounds int_max h lt =
      elim (Bool-cases (options.revoke_max_retry_times ==ℤ pos 0)) [
        | inl e ↦ rw e (omega arith, omega arith)
        | inr e ↦ rw e (omega arith, omega arith)
      ]

  -- Where the maximum that the options give is below that of an int, TryRevoke with a counter that is an
  -- int is the same program as TryRevoke with the rounds that are left, so that the counter does not
  -- overflow.
  pub counting_revoke-try_revoke :
      (int_max : ℕ) (l : LeaseState)
      → 3 < int_max
      → options.revoke_max_retry_times <ℤ pos int_max
      → counting_revoke int_max l ≡ try_revoke client options l
  unfolding counting_revoke try_revoke
  counting_revoke-try_revoke int_max l h lt =
      let bounds = revoke_max-revoke_rounds int_max h lt in
      bind_cong (perform (new_back_off options.retry_min_wait_time options.retry_max_wait_time)) _ _
        λ backoff.
          counting_loop-revoke_loop int_max 0 (revoke_rounds options) backoff l (omega arith)
            bounds.0 bounds.1
