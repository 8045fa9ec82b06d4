-- ===== src/Effect/Run.antt =====
-- Running a program in an environment, and two models at once.
use etcdv3client.Prelude.{◌≡◌, sym, subst}
use etcdv3client.Effect.{Call, Reply, Prog, ret, call, out_of_fuel}
use etcdv3client.Effect.Logic.{Model, Holds}

-- An environment answers a call; its answers may depend on a state `W` of its own and on the model's.
pub record Environment (m : Model) : Type 1 where
  pub W : Type 0
  pub answer : (c : Call) → m.State → W → Reply c
  pub advance : (c : Call) → m.State → W → W
  pub allowed : (c : Call) (s : m.State) (w : W) → m.Allowed c (answer c s w) s

-- How a run ends: it returned, it used up its rounds, or a call of it is not answered.
pub data Outcome (A S : Type 0) : Type 0 where
  returned : A → S → Outcome A S
  starved : Outcome A S
  blocked : Outcome A S

module _ (m : Model) (e : Environment m) {A : Type 0} where
  unfoldable pub run : Prog A → m.State → e.W → Outcome A m.State
  run (ret a) s w = returned a s
  run (call c k) s w = run (k (e.answer c s w)) (m.observe c (e.answer c s w) s) (e.advance c s w)
  run out_of_fuel s w = starved

-- The run returned, and what it returned with meets `Q`.
abbrev pub Returns : {A S : Type 0} → (A → S → Type 0) → Outcome A S → Type 0
Returns Q (returned a s) = Q a s
Returns Q starved = ⊥
Returns Q blocked = ⊥

module _ (m : Model) (e : Environment m) (never : (s : m.State) → ¬ m.Starved s) {A : Type 0}
    (Q : A → m.State → Type 0) where
  -- Where a model never admits that the rounds are used up, every run returns.
  pub Returns-run : (p : Prog A) (s : m.State) (w : e.W) → Holds m Q p s → Returns Q (run m e p s w)
  unfolding run
  Returns-run (ret a) s w h = h.1
  Returns-run (call c k) s w h =
      Returns-run (k (e.answer c s w)) (m.observe c (e.answer c s w) s) (e.advance c s w)
        (h.1 (e.answer c s w) (e.allowed c s w))
  Returns-run out_of_fuel s w h = never s h.1

-- Two models side by side.
abbrev pub both : Model → Model → Model
both m n = record {
  State = m.State × n.State;
  observe = λ c r s. (m.observe c r s.0, n.observe c r s.1);
  Allowed = λ c r s. m.Allowed c r s.0 × n.Allowed c r s.1;
  Invariant = λ s. m.Invariant s.0 × n.Invariant s.1;
  Starved = λ s. m.Starved s.0 × n.Starved s.1;
}

module _ (m n : Model) {A : Type 0} (Q : A → m.State → Type 0) (R : A → n.State → Type 0) where
  pub Holds-both :
      (p : Prog A) (s : m.State) (t : n.State)
      → Holds m Q p s
      → Holds n R p t
      → Holds (both m n) (λ a u. Q a u.0 × R a u.1) p (s, t)
  Holds-both (ret a) s t h k = ((h.0, k.0), (h.1, k.1))
  Holds-both (call c f) s t h k = (
    (h.0, k.0),
    λ r ok. Holds-both (f r) (m.observe c r s) (n.observe c r t) (h.1 r ok.0) (k.1 r ok.1),
  )
  Holds-both out_of_fuel s t h k = ((h.0, k.0), (h.1, k.1))

-- A model that tells more than another, by a view of its states, and allows no more.
module _ (n m : Model) (view : n.State → m.State)
    (same : (c : Call) (r : Reply c) (s : n.State)
      → view (n.observe c r s) ≡ m.observe c r (view s))
    (fewer : (c : Call) (r : Reply c) (s : n.State)
      → n.Allowed c r s
      → m.Allowed c r (view s)) where
  abbrev pub over : Model
  over = record n { Starved = λ s. n.Starved s × m.Starved (view s) }

  -- What holds in either model holds in the one that tells more.
  pub Holds-over :
      {A : Type 0} (Q : A → n.State → Type 0) (R : A → m.State → Type 0) (p : Prog A) (s : n.State)
      → Holds n Q p s
      → Holds m R p (view s)
      → Holds over (λ a t. Q a t × R a (view t)) p s
  Holds-over Q R (ret a) s h k = (h.0, (h.1, k.1))
  Holds-over Q R (call c f) s h k = (
    h.0,
    λ r ok.
        Holds-over Q R (f r) (n.observe c r s) (h.1 r ok)
          (subst (Holds m R (f r)) (sym (same c r s)) (k.1 r (fewer c r s ok))),
  )
  Holds-over Q R out_of_fuel s h k = (h.0, (h.1, k.1))
