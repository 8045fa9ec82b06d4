-- ===== src/Effect/Logic.antt =====
-- Reasoning about programs. A model follows what has been called so far in a state of its own, says which
-- replies it allows, what must hold at every point of a run, and whether a run may use up its rounds.
use etcdv3client.Prelude.{◌≡◌, refl, Bool, true, false, Option, none, some, if◌then◌else◌}
use etcdv3client.Effect.{Call, Reply, Prog, ret, call, out_of_fuel, ◌>>=◌}

pub record Model : Type 1 where
  pub State : Type 0
  pub observe : (c : Call) → Reply c → State → State
  pub Allowed : (c : Call) → Reply c → State → Type 0
  pub Invariant : State → Type 0
  pub Starved : State → Type 0

-- Runs of a program from a state of the model: the program and the state that are reached.
pub data Reach (m : Model) {A : Type 0} (p : Prog A) (s : m.State) : Prog A → m.State → Type 0 where
  here : Reach m p s p s
  next :
      {c : Call} {k : Reply c → Prog A} {t : m.State} (r : Reply c)
      → Reach m p s (call c k) t
      → m.Allowed c r t
      → Reach m p s (k r) (m.observe c r t)

-- Every call that a program can make meets `P`.
abbrev pub Every : {A : Type 0} → (Call → Type 0) → Prog A → Type 0
Every P (ret a) = Unit {0}
Every P (call c k) = P c × ((r : Reply c) → Every P (k r))
Every P out_of_fuel = Unit {0}

pub Every-branch :
    (P : Call → Type 0) {A : Type 0} (b : Bool) (p q : Prog A)
    → Every P p
    → Every P q
    → Every P (if b then p else q)
Every-branch P true p q h k = h
Every-branch P false p q h k = k

module _ (m : Model) where
  -- In every run of the program from the state: the invariant holds at every point, a run that returns
  -- meets the postcondition, and a run uses up its rounds only where the model admits that.
  abbrev pub Holds : {A : Type 0} → (A → m.State → Type 0) → Prog A → m.State → Type 0
  Holds Q (ret a) s = m.Invariant s × Q a s
  Holds Q (call c k) s =
      m.Invariant s × ((r : Reply c) → m.Allowed c r s → Holds Q (k r) (m.observe c r s))
  Holds Q out_of_fuel s = m.Invariant s × m.Starved s

  module _ {A B : Type 0} (Q : A → m.State → Type 0) (R : B → m.State → Type 0) where
    pub bind :
        (p : Prog A) (f : A → Prog B) (s : m.State)
        → Holds Q p s
        → ((a : A) (t : m.State) → m.Invariant t → Q a t → Holds R (f a) t)
        → Holds R (p >>= f) s
    bind (ret a) f s h rest = rest a s h.0 h.1
    bind (call c k) f s h rest = (h.0, λ r ok. bind (k r) f (m.observe c r s) (h.1 r ok) rest)
    bind out_of_fuel f s h rest = h

  module _ {A : Type 0} (Q : A → m.State → Type 0) where
    pub mono :
        (R : A → m.State → Type 0) (p : Prog A) (s : m.State)
        → Holds Q p s
        → ((a : A) (t : m.State) → m.Invariant t → Q a t → R a t)
        → Holds R p s
    mono R (ret a) s h weaken = (h.0, weaken a s h.0 h.1)
    mono R (call c k) s h weaken = (h.0, λ r ok. mono R (k r) (m.observe c r s) (h.1 r ok) weaken)
    mono R out_of_fuel s h weaken = h

    -- What holds of a program holds of every program that its runs reach.
    pub Holds-Reach :
        {p : Prog A} {s : m.State} {q : Prog A} {t : m.State}
        → Holds Q p s
        → Reach m p s q t
        → Holds Q q t
    Holds-Reach h here = h
    Holds-Reach h (next r reached ok) = (Holds-Reach h reached).1 r ok

    pub Holds-Invariant : (p : Prog A) (s : m.State) → Holds Q p s → m.Invariant s
    Holds-Invariant (ret a) s h = h.0
    Holds-Invariant (call c k) s h = h.0
    Holds-Invariant out_of_fuel s h = h.0

  -- A branch, and a program that makes one call and goes on.
  module _ {A : Type 0} (Q : A → m.State → Type 0) (s : m.State) where
    pub branch :
        (b : Bool) (p q : Prog A)
        → (b ≡ true → Holds Q p s)
        → (b ≡ false → Holds Q q s)
        → Holds Q (if b then p else q) s
    branch true p q yes_case no_case = yes_case refl
    branch false p q yes_case no_case = no_case refl

    pub branch_option :
        {B : Type 0} (o : Option B) (p : Prog A) (f : B → Prog A)
        → (o ≡ none → Holds Q p s)
        → ((b : B) → o ≡ some b → Holds Q (f b) s)
        → Holds Q (elim o [ none ↦ p | some b ↦ f b ]) s
    branch_option none p f none_case some_case = none_case refl
    branch_option (some b) p f none_case some_case = some_case b refl
