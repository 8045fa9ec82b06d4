-- ===== src/Session/System.antt =====
-- A session in use (etcdv3client/session.cc): its worker thread and the threads that call Grant and Close,
-- one call at a time in any order. `Grant` and `Close` hold the mutex from the first line to the last, so at
-- most one thread is inside of them; any number may wait, which changes nothing.
pub mod Contracts
pub mod Core
pub mod Invariant
pub mod Safety
pub mod Progress
pub mod Phases
pub mod Unblocked
use etcdv3client.Prelude.{ℕ, ◌≡◌, Bool, true, false, ◌||◌}
use etcdv3client.Bytes.{Bytes}
use etcdv3client.Status.{StatusLibrary}
use etcdv3client.Client.{Client}
use etcdv3client.Session.Options.{SessionOptions}
use etcdv3client.Session.{LeaseState, Session, new_session, grant_and_keep_alive}
use etcdv3client.Session.Methods.{grant, close}
use etcdv3client.Session.View.{View, fresh}
use etcdv3client.Session.Calling.{Shared, follow, is_joinable, unstarted}
use etcdv3client.Session.Patience.{WithinPatience, patient}
use etcdv3client.Session.View.{watching}
use etcdv3client.Effect.{
  Call, Reply, Prog, ret, call, SessionEvent, closed, alive, expired, set, reset, is_set, finished,
  wait, start_thread, joinable, join,
}
use etcdv3client.Effect.Run.{both}

-- What a session in use is given: the status library, the texts of Grant's messages, the rounds of the
-- worker's loops, how often the close event is reported unfinished to the worker at most, and what `lease_`
-- and `lease_ttl_` hold before a lease is granted.
pub record Setting : Type 1 where
  pub lib : StatusLibrary
  pub closed_text : Bytes
  pub granted_text : Bytes
  pub rounds : ℕ
  pub patience : ℕ
  pub first : LeaseState

-- The events of the session, and whether the context that was given to Grant is done.
pub record Memory : Type 0 where
  pub closed_set : Bool
  pub alive_set : Bool
  pub expired_set : Bool
  pub context_finished : Bool

-- The worker: what is left of its program, and what its calls have told so far. It has its own copy of the
-- options.
pub data Worker : Type 0 where
  absent : Worker
  running : SessionOptions → Prog LeaseState → View × ℕ → Worker
  ended : SessionOptions → LeaseState → View × ℕ → Worker

abbrev pub read : Memory → SessionEvent → Bool
read m closed = m.closed_set
read m alive = m.alive_set
read m expired = m.expired_set

abbrev pub write : SessionEvent → Bool → Memory → Memory
write closed b m = record m { closed_set = b }
write alive b m = record m { alive_set = b }
write expired b m = record m { expired_set = b }

-- `WaitAny` of the context and `closed_`, the only thing that the methods of a session wait for.
abbrev pub is_finished : Memory → Bool
is_finished m = m.closed_set || m.context_finished

-- What a call does to the events.
abbrev pub effect : Call → Memory → Memory
effect (set e) m = write e true m
effect (reset e) m = write e false m
effect _ m = m

-- What the events say of a reply. Replies of the server and of the clock are free.
abbrev pub Answers : Memory → (c : Call) → Reply c → Type 0
Answers m (is_set e) r = r ≡ read m e
Answers m (finished w) r = r ≡ is_finished m
Answers m (wait w d) r = r ≡ is_finished m
Answers m _ r = Unit {0}

pub data WorkerMove (m : Memory) : Worker → Memory → Worker → Type 0 where
  calls :
      {options : SessionOptions} {c : Call} {k : Reply c → Prog LeaseState} {v : View × ℕ}
      (r : Reply c)
      → Answers m c r
      → WithinPatience c r v.1
      → WorkerMove m
          (running options (call c k) v)
          (effect c m)
          (running options (k r) ((both watching patient).observe c r v))
  returns :
      {options : SessionOptions} {l : LeaseState} {v : View × ℕ}
      → WorkerMove m (running options (ret l) v) m (ended options l v)

abbrev pub HasEnded : Worker → Type 0
HasEnded (ended options l v) = Unit {0}
HasEnded _ = ⊥

module _ (x : Setting) where
  -- The thread inside of Grant or Close, with what is left of the method.
  pub data Caller : Type 0 where
    outside : Caller
    granting : Prog (x.lib.Status × Session) → Caller
    closing : Prog (Unit {0}) → Caller

  -- `returned`: a call of Close has returned.
  pub record System : Type 0 where
    pub memory : Memory
    pub worker : Worker
    pub shared : Shared
    pub session : Session
    pub returned : Bool
    pub caller : Caller

  -- A call of join waits until the worker has ended.
  abbrev pub CallerAnswers : System → (c : Call) → Reply c → Type 0
  CallerAnswers s joinable r = r ≡ is_joinable s.shared.thread
  CallerAnswers s join r = HasEnded s.worker
  CallerAnswers s c r = Answers s.memory c r

  abbrev pub launch : Call → Session → Worker → Worker
  launch (start_thread context options) session w =
      running options (grant_and_keep_alive session.client x.rounds context options x.first)
        (fresh, x.patience)
  launch _ session w = w

  abbrev pub act : (c : Call) → Reply c → System → System
  act c r s = record s {
    memory = effect c s.memory;
    worker = launch c s.session s.worker;
    shared = follow c r s.shared;
  }

  pub data CallerMove (s : System) : Caller → System → Caller → Type 0 where
    enter_grant :
        (context : ℕ) (options : SessionOptions)
        → CallerMove s outside s
            (granting (grant x.lib x.closed_text x.granted_text context options s.session))
    enter_close : CallerMove s outside s (closing close)
    grant_calls :
        {c : Call} {k : Reply c → Prog (x.lib.Status × Session)} (r : Reply c)
        → CallerAnswers s c r
        → CallerMove s (granting (call c k)) (act c r s) (granting (k r))
    grant_returns :
        {r : x.lib.Status × Session}
        → CallerMove s (granting (ret r)) (record s { session = r.1 }) outside
    close_calls :
        {c : Call} {k : Reply c → Prog (Unit {0})} (r : Reply c)
        → CallerAnswers s c r
        → CallerMove s (closing (call c k)) (act c r s) (closing (k r))
    close_returns :
        {u : Unit {0}} → CallerMove s (closing (ret u)) (record s { returned = true }) outside

  pub data Step (s : System) : System → Type 0 where
    worker_step :
        {m : Memory} {w : Worker}
        → WorkerMove s.memory s.worker m w
        → Step s (record s { memory = m; worker = w })
    caller_step :
        {t : System} {c : Caller} → CallerMove s s.caller t c → Step s (record t { caller = c })
    context_finishes : Step s (record s { memory = record s.memory { context_finished = true } })

  -- Session(client)
  abbrev pub start : Client → System
  start client = record {
    memory = record {
      closed_set = false;
      alive_set = false;
      expired_set = true;
      context_finished = false;
    };
    worker = absent;
    shared = unstarted;
    session = new_session client;
    returned = false;
    caller = outside;
  }

  pub data Steps (s : System) : System → Type 0 where
    stay : Steps s s
    later : {t u : System} → Steps s t → Step t u → Steps s u
