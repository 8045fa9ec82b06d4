-- ===== src/Session/Hope.antt =====
-- Runs of a worker in which the server grants a lease in the end and the session is not closed before.
use etcdv3client.Prelude.{
  ℕ, ◌-◌, ◌≤◌, ◌<◌, ◌≡◌, refl, Bool, true, false, Option, none, some, if◌then◌else◌,
}
use etcdv3client.Session.Options.{ContextFunction}
use etcdv3client.Session.Patience.{patient, tick, spend, WithinPatience}
use etcdv3client.Effect.{
  Call, Reply, Prog, ret, call, out_of_fuel, ◌>>=◌, get_grpc_client_context, finished, wait,
  lease_grant, set, alive,
}
use etcdv3client.Effect.Logic.{Model, Holds}
use etcdv3client.Effect.Run.{over}

-- How many questions for the close event may still be answered by "unfinished", how many grants may still
-- fail, and whether the alive event has been set.
pub record Hope : Type 0 where
  pub patience : ℕ
  pub failures : ℕ
  pub came_alive : Bool

abbrev pub use_up : (c : Call) → Reply c → Hope → Hope
use_up (finished w) r s = record s { patience = tick r s.patience }
use_up (wait w d) r s = record s { patience = tick r s.patience }
use_up (lease_grant stub context req) r s = record s {
  failures = if r.0.is_ok then s.failures else s.failures - 1;
}
use_up (set alive) r s = record s { came_alive = true }
use_up _ r s = s

-- The close event is not seen before patience is down to `rest`, and is seen in the end.
abbrev pub Timely : ℕ → Bool → Hope → Type 0
Timely rest r s = (r ≡ true → s.patience ≤ rest) × (r ≡ false → 0 < s.patience)

abbrev pub Kind : ℕ → (c : Call) → Reply c → Hope → Type 0
Kind rest (finished w) r s = Timely rest r s
Kind rest (wait w d) r s = Timely rest r s
Kind rest (lease_grant stub context req) r s = r.0.is_ok ≡ false → 0 < s.failures
Kind rest _ r s = Unit {0}

abbrev pub hopeful : ℕ → Model
hopeful rest = record {
  State = Hope;
  observe = use_up;
  Allowed = Kind rest;
  Invariant = λ s. Unit {0};
  Starved = λ s. Unit {0};
}

abbrev pub CameAlive : {A : Type 0} → A → Hope → Type 0
CameAlive a s = s.came_alive ≡ true

use_up-CameAlive :
    (c : Call) (r : Reply c) (s : Hope) → s.came_alive ≡ true → (use_up c r s).came_alive ≡ true
use_up-CameAlive (finished w) r s h = h
use_up-CameAlive (wait w d) r s h = h
use_up-CameAlive (lease_grant stub context req) r s h = h
use_up-CameAlive (set alive) r s h = refl
use_up-CameAlive _ r s h = h

pub use_up-tick :
    (c : Call) (r : Reply c) (s : Hope) → (use_up c r s).patience ≡ spend c r s.patience
use_up-tick (finished w) r s = refl
use_up-tick (wait w d) r s = refl
use_up-tick (lease_grant stub context req) r s = refl
use_up-tick (set alive) r s = refl
use_up-tick _ r s = refl

pub Kind-WithinPatience :
    (rest : ℕ) (c : Call) (r : Reply c) (s : Hope) → Kind rest c r s → WithinPatience c r s.patience
Kind-WithinPatience rest (finished w) r s h = h.1
Kind-WithinPatience rest (wait w d) r s h = h.1
Kind-WithinPatience rest _ r s h = tt

abbrev pub watched : ℕ → Model
watched rest = over (hopeful rest) patient (λ s. s.patience) use_up-tick (Kind-WithinPatience rest)

module _ (rest : ℕ) where
  -- What the worker does later does not undo that it came alive.
  pub stays-CameAlive :
      {A : Type 0} (p : Prog A) (s : Hope)
      → s.came_alive ≡ true
      → Holds (hopeful rest) CameAlive p s
  stays-CameAlive (ret a) s h = (tt, h)
  stays-CameAlive (call c k) s h =
      (tt, λ r _. stays-CameAlive (k r) (use_up c r s) (use_up-CameAlive c r s h))
  stays-CameAlive out_of_fuel s h = (tt, tt)

  pub context-hopeful :
      {A : Type 0} (Q : A → Hope → Type 0) (f : Option ContextFunction) (k : ℕ → Prog A) (s : Hope)
      → ((context : ℕ) → Holds (hopeful rest) Q (k context) s)
      → Holds (hopeful rest) Q (get_grpc_client_context f >>= k) s
  unfolding get_grpc_client_context
  context-hopeful Q none k s h = (tt, λ r _. h r)
  context-hopeful Q (some f) k s h = (tt, λ r _. h r)
