-- ===== src/Effect/Protocol.antt =====
-- Programs that make only the calls that a protocol allows, by what has been called and replied so far.
use etcdv3client.Prelude.{◌≡◌, refl, Bool, true, false, Option, none, some, if◌then◌else◌}
use etcdv3client.Effect.Logic.{Model, Reach, here, next}
use etcdv3client.Effect.{Call, Reply, Prog, ret, call, out_of_fuel, ◌>>=◌}

pub record Protocol : Type 1 where
  pub State : Type 0
  pub follow : (c : Call) → Reply c → State → State
  pub Legal : Call → State → Type 0

module _ (p : Protocol) where
  open p use {State, follow, Legal}

  -- Every call that the program makes is legal, whatever the replies, and where it returns the postcondition
  -- holds.
  abbrev pub Obeys : {A : Type 0} → (A → p.State → Type 0) → Prog A → p.State → Type 0
  Obeys Q (ret a) s = Q a s
  Obeys Q (call c k) s = p.Legal c s × ((r : Reply c) → Obeys Q (k r) (p.follow c r s))
  Obeys Q out_of_fuel s = Unit {0}

  pub bind :
      {A B : Type 0} (Q : A → State → Type 0) (R : B → State → Type 0) (q : Prog A) (f : A → Prog B)
      (s : State)
      → Obeys Q q s
      → ((a : A) (t : State) → Q a t → Obeys R (f a) t)
      → Obeys R (q >>= f) s
  bind Q R (ret a) f s h rest = rest a s h
  bind Q R (call c k) f s h rest = (h.0, λ r. bind Q R (k r) f (follow c r s) (h.1 r) rest)
  bind Q R out_of_fuel f s h rest = h

  module _ {A : Type 0} (Q : A → State → Type 0) where
    pub branch :
        (b : Bool) (q r : Prog A) (s : State)
        → (b ≡ true → Obeys Q q s)
        → (b ≡ false → Obeys Q r s)
        → Obeys Q (if b then q else r) s
    branch true q r s h k = h refl
    branch false q r s h k = k refl

    pub branch_option :
        {B : Type 0} (o : Option B) (q : Prog A) (f : B → Prog A) (s : State)
        → Obeys Q q s
        → ((b : B) → Obeys Q (f b) s)
        → Obeys Q (elim o [ none ↦ q | some b ↦ f b ]) s
    branch_option none q f s h k = h
    branch_option (some b) q f s h k = k b

    -- Where the state depends on the option as well.
    pub branch_reply :
        {B : Type 0} (o : Option B) (q : Prog A) (f : B → Prog A) (s : Option B → State)
        → Obeys Q q (s none)
        → ((b : B) → Obeys Q (f b) (s (some b)))
        → Obeys Q (elim o [ none ↦ q | some b ↦ f b ]) (s o)
    branch_reply none q f s h k = h
    branch_reply (some b) q f s h k = k b

  -- The runs of the protocol in which `Allowed` says what a call may be answered.
  abbrev pub answered_by : ((c : Call) → Reply c → State → Type 0) → Model
  answered_by Allowed = record {
    State = State;
    observe = follow;
    Allowed = Allowed;
    Invariant = λ s. Unit {0};
    Starved = λ s. Unit {0};
  }

  -- What such a run reaches obeys the protocol as well, and has an invariant that the answers preserve.
  pub Obeys-Reach :
      {A : Type 0} (Q : A → State → Type 0) (Allowed : (c : Call) → Reply c → State → Type 0)
      (I : State → Type 0)
      → ((c : Call) (r : Reply c) (s : State) → Allowed c r s → I s → I (follow c r s))
      → {q : Prog A} {s : State} {q' : Prog A} {t : State} → Obeys Q q s
      → I s
      → Reach (answered_by Allowed) q s q' t
      → Obeys Q q' t × I t
  Obeys-Reach Q Allowed I keeps obeys holds here = (obeys, holds)
  Obeys-Reach Q Allowed I keeps obeys holds (next {c} {k} {t} r reached ok) =
      let before = Obeys-Reach Q Allowed I keeps obeys holds reached in
      (before.0.1 r, keeps c r t ok before.1)
