-- ===== src/Session/System/Core.antt =====
-- What the worker and the events of a session in use keep to.
use etcdv3client.Prelude.{ℕ, suc, ◌≤◌, ◌<◌, ◌≡◌, refl, true, false, arith, subst, sym, ◌∙◌}
use etcdv3client.Session.Options.{SessionOptions}
use etcdv3client.Session.{Session, revoke_rounds}
use etcdv3client.Session.View.{View, fresh, watching, StaysFinished}
use etcdv3client.Session.Patience.{patient}
use etcdv3client.Session.Termination.{grant_and_keep_alive-ends}
use etcdv3client.Session.Worker.{IsFinished, worker-IsFinished}
use etcdv3client.Session.Calling.{Thread, Shared, calling, follow}
use etcdv3client.Session.System.{
  Setting, Memory, Worker, absent, running, ended, is_finished, effect, Answers, WorkerMove, calls,
  returns, HasEnded, System, CallerAnswers, act, launch,
}
use etcdv3client.Effect.{
  Call, Reply, closed, alive, expired, set, reset, is_set, finished, wait, start_thread, joinable,
  join,
}
use etcdv3client.Effect.Logic
use etcdv3client.Effect.Logic.{Model, Holds, Every, Every-branch, Holds-Invariant}
use etcdv3client.Effect.Run.{both, Holds-both}
use etcdv3client.Session.System.Contracts.{Discreet}

-- The worker's view of the events is right.
pub record Agrees (v : View) (m : Memory) : Type 0 where
  pub alive_seen : v.alive_set ≡ m.alive_set
  pub expired_seen : v.expired_set ≡ m.expired_set
  pub closed_seen : v.closed_set ≡ true → m.closed_set ≡ true
  pub stop_seen : v.stopped ≡ true → is_finished m ≡ true

-- A worker that has been told to stop is told so again.
Agrees-StaysFinished :
    (c : Call) (r : Reply c) (v : View) (m : Memory)
    → Agrees v m
    → Answers m c r
    → StaysFinished c r v
Agrees-StaysFinished (finished w) r v m h a = λ seen. a ∙ h.stop_seen seen
Agrees-StaysFinished (wait w d) r v m h a = λ seen. a ∙ h.stop_seen seen
Agrees-StaysFinished _ r v m h a = tt

-- The worker's calls keep its view right, and the closed event set.
Agrees-follow :
    (c : Call) (r : Reply c) (v : View) (m : Memory)
    → Agrees v m
    → Answers m c r
    → (watching.observe c r v).reopened ≡ false
    → Agrees (watching.observe c r v) (effect c m)
      × (m.closed_set ≡ true → (effect c m).closed_set ≡ true)
Agrees-follow (set closed) r v m h a e = (ground arith, λ e'. ground arith)
Agrees-follow (set alive) r v m h a e = (ground arith, λ e'. ground arith)
Agrees-follow (set expired) r v m h a e = (ground arith, λ e'. ground arith)
Agrees-follow (reset closed) r v m h a e = absurd (ground arith)
Agrees-follow (reset alive) r v m h a e = (ground arith, λ e'. ground arith)
Agrees-follow (reset expired) r v m h a e = (ground arith, λ e'. ground arith)
Agrees-follow (finished w) r v m h a e = (ground arith, λ e'. ground arith)
Agrees-follow (wait w d) r v m h a e = (ground arith, λ e'. ground arith)
Agrees-follow _ r v m h a e = (ground arith, λ e'. ground arith)

abbrev pub launched : Thread → ℕ
launched Thread.absent = 0
launched Thread.running = 1
launched Thread.joined = 1

-- The state of the thread object against that of the thread.
abbrev pub Handle : Thread → Worker → Type 0
Handle Thread.absent absent = Unit {0}
Handle Thread.running (running o q v) = Unit {0}
Handle Thread.running (ended o l v) = Unit {0}
Handle Thread.joined (ended o l v) = Unit {0}
Handle _ _ = ⊥

module _ (x : Setting) where
  abbrev pub Working : Worker → Memory → Type 0
  Working absent m = (m.alive_set ≡ false) × (m.expired_set ≡ true)
  Working (running o q v) m =
      Holds (both watching patient) (λ l u. IsFinished x.first (revoke_rounds o) l u.0) q v
      × Agrees v.0 m
  Working (ended o l v) m = IsFinished x.first (revoke_rounds o) l v.0 × Agrees v.0 m

  pub record Core (m : Memory) (w : Worker) (sh : Shared) : Type 0 where
    pub working : Working w m
    pub handle : Handle sh.thread w
    pub counted : sh.started ≡ launched sh.thread
    pub known : sh.closed_set ≡ true → m.closed_set ≡ true

  pub WorkerMove-Working :
      {m m' : Memory} {w w' : Worker}
      → WorkerMove m w m' w'
      → Working w m
      → Working w' m' × (m.closed_set ≡ true → m'.closed_set ≡ true)
  WorkerMove-Working {m} (calls {options} {c} {k} {v} r a p) h =
      let next = h.0.1 r (Agrees-StaysFinished c r v.0 m h.1 a, p) in
      let sound =
        (Holds-Invariant (both watching patient)
          (λ l u. IsFinished x.first (revoke_rounds options) l u.0) (k r)
          ((both watching patient).observe c r v) next).0 in
      let seen = Agrees-follow c r v.0 m h.1 a sound.stays_closed in ((next, seen.0), seen.1)
  WorkerMove-Working returns h = ((h.0.1, h.1), λ e. e)

  pub WorkerMove-Handle :
      {m m' : Memory} {w w' : Worker} (t : Thread) → WorkerMove m w m' w' → Handle t w → Handle t w'
  WorkerMove-Handle Thread.absent (calls r a p) h = h
  WorkerMove-Handle Thread.running (calls r a p) h = tt
  WorkerMove-Handle Thread.joined (calls r a p) h = h
  WorkerMove-Handle Thread.absent returns h = h
  WorkerMove-Handle Thread.running returns h = tt
  WorkerMove-Handle Thread.joined returns h = tt

  -- What a call of Grant or Close may be answered is what its contract allows.
  pub Consistent-answer :
      (s : System x) (c : Call) (r : Reply c)
      → (s.shared.closed_set ≡ true → s.memory.closed_set ≡ true)
      → CallerAnswers x s c r
      → calling.Allowed c r s.shared
  Consistent-answer s (is_set closed) r known a = λ e. a ∙ known e
  Consistent-answer s joinable r known a = a
  Consistent-answer s _ r known a = tt

  pub Working-closed :
      (w : Worker) (m : Memory) → Working w m → Working w (record m { closed_set = true })
  Working-closed absent m h = h
  Working-closed (running o q v) m h = (h.0, ground arith)
  Working-closed (ended o l v) m h = (h.0, ground arith)

  pub Working-context :
      (w : Worker) (m : Memory) → Working w m → Working w (record m { context_finished = true })
  Working-context absent m h = h
  Working-context (running o q v) m h = (h.0, ground arith)
  Working-context (ended o l v) m h = (h.0, ground arith)

  pub none_running :
      (t : Thread) (w : Worker) (n : ℕ) → n ≡ launched t → suc n ≤ 1 → Handle t w → w ≡ absent
  none_running Thread.absent absent n e le h = refl
  none_running Thread.absent (running o q v) n e le h = absurd h
  none_running Thread.absent (ended o l v) n e le h = absurd h
  none_running Thread.running w n e le h = absurd (omega arith)
  none_running Thread.joined w n e le h = absurd (omega arith)

  Handle-joined :
      (w : Worker) (t : Thread)
      → HasEnded w
      → Handle t w
      → Handle Thread.joined w × (launched t ≡ 1)
  Handle-joined absent t e h = absurd e
  Handle-joined (running o q v) t e h = absurd e
  Handle-joined (ended o l v) Thread.absent e h = absurd h
  Handle-joined (ended o l v) Thread.running e h = (tt, refl)
  Handle-joined (ended o l v) Thread.joined e h = (tt, refl)

  module _ (enough : x.patience < x.rounds) where
    -- A thread that is started has its whole program before it.
    start-Working :
        (session : Session) (context : ℕ) (options : SessionOptions) (w : Worker) (m : Memory)
        → w ≡ absent
        → Working w m
        → Working (launch x (start_thread context options) session w) m
    start-Working session context options w m e h =
        let idle : (m.alive_set ≡ false) × (m.expired_set ≡ true) =
          subst (λ w'. Working w' m) e h in
        (
          Logic.mono (both watching patient)
              (λ l u. IsFinished x.first (revoke_rounds options) l u.0 × Unit {0})
              (λ l u. IsFinished x.first (revoke_rounds options) l u.0) _ (fresh, x.patience)
              (Holds-both watching patient (IsFinished x.first (revoke_rounds options))
                (λ _ _. Unit {0}) _ fresh x.patience
                (worker-IsFinished session.client x.rounds context options x.first)
                (grant_and_keep_alive-ends session.client x.rounds context options x.first
                  x.patience enough))
              (λ l u _ q. q.0),
          record {
            alive_seen = sym idle.0;
            expired_seen = sym idle.1;
            closed_seen = λ e'. cc;
            stop_seen = λ e'. cc;
          },
        )

    pub act-Core :
        (s : System x) (c : Call) (r : Reply c)
        → Core s.memory s.worker s.shared
        → Discreet c
        → CallerAnswers x s c r
        → (follow c r s.shared).started ≤ 1
        → Core (act x c r s).memory (act x c r s).worker (act x c r s).shared
    act-Core s (set closed) r h d a most = record {
      working = Working-closed s.worker s.memory h.working;
      handle = h.handle;
      counted = h.counted;
      known = λ e. refl;
    }
    act-Core s (set alive) r h d a most = absurd d
    act-Core s (set expired) r h d a most = absurd d
    act-Core s (reset closed) r h d a most = absurd d
    act-Core s (reset alive) r h d a most = absurd d
    act-Core s (reset expired) r h d a most = absurd d
    act-Core s (is_set closed) r h d a most = record {
      working = h.working;
      handle = h.handle;
      counted = h.counted;
      known = λ e. ground (arith, h.known);
    }
    act-Core s (start_thread context options) r h d a most = record {
      working =
          start-Working s.session context options s.worker s.memory
            (none_running s.shared.thread s.worker s.shared.started h.counted most h.handle)
            h.working;
      handle = tt;
      counted = omega arith;
      known = h.known;
    }
    act-Core s join r h d a most =
        let done = Handle-joined s.worker s.shared.thread a h.handle in
        record {
          working = h.working;
          handle = done.0;
          counted = h.counted ∙ done.1;
          known = h.known;
        }
    act-Core s _ r h d a most = h
