-- ===== src/Session/System/Phases.antt =====
-- What the events of a session show to a user, as a small state machine, and that a session follows it.
use etcdv3client.Prelude.{◌<◌, ◌≡◌, refl, Bool, true, false, arith, ◌⊎◌, inl, inr}
use etcdv3client.Client.{Client}
use etcdv3client.Session.System.{
  Setting, Memory, Worker, effect, WorkerMove, calls, returns, Caller, System, CallerMove,
  enter_grant, enter_close, grant_calls, grant_returns, close_calls, close_returns, Step,
  worker_step, caller_step, context_finishes, Steps, later, start,
}
use etcdv3client.Session.System.Contracts.{Discreet}
use etcdv3client.Session.System.Core.{WorkerMove-Working}
use etcdv3client.Session.System.Invariant.{Pending, Steps-Inv, start-Inv}
use etcdv3client.Session.System.Safety.{IsOver, after_close, alive_session}
use etcdv3client.Effect.{Call, closed, alive, expired, set, reset}

-- Expired, between two events, or alive.
pub data Phase : Type 0 where
  lost changing live : Phase

-- `over`: a call of Close has returned.
pub record Observed : Type 0 where
  pub phase : Phase
  pub is_closed : Bool
  pub over : Bool

-- A session is lost first and may come alive and be lost again, always with a moment in between at which
-- neither event is set. It can be closed once, in any phase, and is over only when it is closed and lost.
pub data Turn : Observed → Observed → Type 0 where
  begins :
      {c : Bool}
      → Turn
          (record { phase = lost; is_closed = c; over = false })
          (record { phase = changing; is_closed = c; over = false })
  comes_alive :
      {c : Bool}
      → Turn
          (record { phase = changing; is_closed = c; over = false })
          (record { phase = live; is_closed = c; over = false })
  falters :
      {c : Bool}
      → Turn
          (record { phase = live; is_closed = c; over = false })
          (record { phase = changing; is_closed = c; over = false })
  expires :
      {c : Bool}
      → Turn
          (record { phase = changing; is_closed = c; over = false })
          (record { phase = lost; is_closed = c; over = false })
  closes :
      {p : Phase}
      → Turn
          (record { phase = p; is_closed = false; over = false })
          (record { phase = p; is_closed = true; over = false })
  ends :
      Turn
        (record { phase = lost; is_closed = true; over = false })
        (record { phase = lost; is_closed = true; over = true })

abbrev pub phase_of : Bool → Bool → Phase
phase_of true e = live
phase_of false true = lost
phase_of false false = changing

abbrev pub view_of : Bool → Bool → Bool → Bool → Observed
view_of a e c o = record { phase = phase_of a e; is_closed = c; over = o }

abbrev pub observed : {x : Setting} → System x → Observed
observed s = view_of s.memory.alive_set s.memory.expired_set s.memory.closed_set s.returned

abbrev pub Follows : Observed → Observed → Type 0
Follows a b = (a ≡ b) ⊎ Turn a b

set_closed : (a e c : Bool) → Follows (view_of a e c false) (view_of a e true false)
set_closed a e true = inl refl
set_closed a e false = inr closes

-- The alive and the expired event are not set at once.
abbrev Apart : Bool → Bool → Type 0
Apart a e = a ≡ true → e ≡ false

set_alive : (a e c : Bool) → Apart true e → Follows (view_of a e c false) (view_of true e c false)
set_alive true e c h = inl refl
set_alive false true c h = absurd (ground (arith, h refl))
set_alive false false c h = inr comes_alive

reset_alive : (a e c : Bool) → Apart a e → Follows (view_of a e c false) (view_of false e c false)
reset_alive false e c h = inl refl
reset_alive true true c h = absurd (ground (arith, h refl))
reset_alive true false c h = inr falters

set_expired : (a e c : Bool) → Apart a true → Follows (view_of a e c false) (view_of a true c false)
set_expired true e c h = absurd (ground (arith, h refl))
set_expired false true c h = inl refl
set_expired false false c h = inr expires

reset_expired : (a e c : Bool) → Apart a e → Follows (view_of a e c false) (view_of a false c false)
reset_expired true e c h = inl refl
reset_expired false true c h = inr begins
reset_expired false false c h = inl refl

abbrev look : Memory → Bool → Observed
look m o = view_of m.alive_set m.expired_set m.closed_set o

effect-Follows :
    (call : Call) (m : Memory)
    → Apart m.alive_set m.expired_set
    → Apart (effect call m).alive_set (effect call m).expired_set
    → (m.closed_set ≡ true → (effect call m).closed_set ≡ true)
    → Follows (look m false) (look (effect call m) false)
effect-Follows (set closed) m h k stays = set_closed m.alive_set m.expired_set m.closed_set
effect-Follows (set alive) m h k stays = set_alive m.alive_set m.expired_set m.closed_set k
effect-Follows (set expired) m h k stays = set_expired m.alive_set m.expired_set m.closed_set k
effect-Follows (reset closed) m h k stays = inl (ground arith)
effect-Follows (reset alive) m h k stays = reset_alive m.alive_set m.expired_set m.closed_set h
effect-Follows (reset expired) m h k stays = reset_expired m.alive_set m.expired_set m.closed_set h
effect-Follows _ m h k stays = inl refl

module _ (x : Setting) where
  over_stays : {m m' : Memory} {w w' : Worker} {A : Type 0} → WorkerMove m w m' w' → IsOver x w → A
  over_stays (calls r a p) h = absurd h
  over_stays returns h = absurd h

  worker-Follows :
      {m m' : Memory} {w w' : Worker}
      → WorkerMove m w m' w'
      → Apart m.alive_set m.expired_set
      → Apart m'.alive_set m'.expired_set
      → (m.closed_set ≡ true → m'.closed_set ≡ true)
      → Follows (look m false) (look m' false)
  worker-Follows {m} (calls {c} r a p) h k stays = effect-Follows c m h k stays
  worker-Follows returns h k stays = inl refl

  -- A call of Grant or Close sets the closed event at most.
  Discreet-Follows :
      (call : Call) (m : Memory) (o : Bool)
      → Discreet call
      → (o ≡ true → m.closed_set ≡ true)
      → Follows (look m o) (look (effect call m) o)
  Discreet-Follows (set closed) m true d h = inl (rw (h refl))
  Discreet-Follows (set closed) m false d h = set_closed m.alive_set m.expired_set m.closed_set
  Discreet-Follows (set alive) m o d h = absurd d
  Discreet-Follows (set expired) m o d h = absurd d
  Discreet-Follows (reset closed) m o d h = absurd d
  Discreet-Follows (reset alive) m o d h = absurd d
  Discreet-Follows (reset expired) m o d h = absurd d
  Discreet-Follows _ m o d h = inl refl

  -- Close returns.
  return-Follows :
      (m : Memory) (o : Bool)
      → (m.closed_set ≡ true)
      → (m.alive_set ≡ false)
      → (m.expired_set ≡ true)
      → Follows (look m o) (look m true)
  return-Follows m true c a e = inl refl
  return-Follows m false c a e = inr (rw (c, a, e) ends)

  caller-Follows :
      {s t : System x} {b c : Caller x}
      → CallerMove x s b t c
      → Pending x s.shared s.session s.returned b
      → (s.returned ≡ true → s.memory.closed_set ≡ true)
      → (t.returned ≡ true
          → (t.memory.closed_set ≡ true)
            × (t.memory.alive_set ≡ false)
            × (t.memory.expired_set ≡ true))
      → Follows (observed s) (observed t)
  caller-Follows (enter_grant context options) h stays last = inl refl
  caller-Follows enter_close h stays last = inl refl
  caller-Follows {s} (grant_calls {c} r a) h stays last =
      Discreet-Follows c s.memory s.returned h.0.0 stays
  caller-Follows {s} (close_calls {c} r a) h stays last =
      Discreet-Follows c s.memory s.returned h.0.0 stays
  caller-Follows grant_returns h stays last = inl refl
  caller-Follows {s} close_returns h stays last =
      let (c, a, e) = last refl in return-Follows s.memory s.returned c a e

  -- The worker moves only while no call of Close has returned.
  still_working :
      {m m' : Memory} {w w' : Worker} (o : Bool)
      → WorkerMove m w m' w'
      → (o ≡ true → IsOver x w)
      → (o ≡ false → Follows (look m false) (look m' false))
      → Follows (look m o) (look m' o)
  still_working true mv h k = over_stays mv (h refl)
  still_working false mv h k = k refl

  -- If the worker's loops have more rounds than the close event is reported unfinished to it (`patience`):
  -- the threads of a session, in any order of their steps, follow the state machine: a step from a state
  -- that they can reach leaves what is observed as it is, or makes one turn.
  pub session-Follows :
      {client : Client} {s t : System x}
      → x.patience < x.rounds
      → Steps x (start x client) s
      → Step x s t
      → Follows (observed s) (observed t)
  session-Follows {client} {s} enough reached (worker_step mv) =
      let inv = Steps-Inv x enough reached (start-Inv x client) in
      still_working s.returned mv (λ e. (after_close x enough reached e).3)
        (λ _.
          worker-Follows mv (λ e. (alive_session x enough reached e).0)
            (λ e. (alive_session x enough (later reached (worker_step mv)) e).0)
            (WorkerMove-Working x mv inv.core.working).1)
  session-Follows {client} {s} enough reached (caller_step mv) =
      let inv = Steps-Inv x enough reached (start-Inv x client) in
      caller-Follows mv inv.pending (λ e. (after_close x enough reached e).0)
        (λ e. let a = after_close x enough (later reached (caller_step mv)) e in (a.0, a.1, a.2))
  session-Follows enough reached context_finishes = inl refl
