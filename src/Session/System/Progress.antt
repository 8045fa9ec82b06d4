-- ===== src/Session/System/Progress.antt =====
-- A call of Close can always come to its end: the worker that it waits for does.
use etcdv3client.Prelude.{if◌then◌else◌, ℕ, ◌<◌, ◌≡◌, refl, Bool, true, false, arith, subst, sym}
use etcdv3client.Client.{Client}
use etcdv3client.Session.Options.{SessionOptions}
use etcdv3client.Session.{LeaseState}
use etcdv3client.Session.Methods.{close}
use etcdv3client.Session.View.{View, watching}
use etcdv3client.Session.Patience.{patient, WithinPatience}
use etcdv3client.Session.Calling.{is_joinable}
use etcdv3client.Session.System.{
  Setting, Memory, Worker, absent, running, ended, HasEnded, Caller, is_finished, read, effect,
  Answers, WorkerMove, calls, returns, outside, closing, System, CallerMove, enter_close,
  close_calls, close_returns, worker_step, Steps, stay, later, start,
}
use etcdv3client.Session.System.Contracts.{joinable-running}
use etcdv3client.Session.System.Core.{Handle, Working, WorkerMove-Working, Working-closed}
use etcdv3client.Session.System.Invariant.{start-Inv, Steps-Inv}
use etcdv3client.Effect.{
  Call, Reply, Prog, ret, call, out_of_fuel, perform, is_set, finished, wait, join,
}
use etcdv3client.Effect.Replies.{some_reply}
use etcdv3client.Effect.Run.{both}

pub Steps-trans : {x : Setting} {s t u : System x} → Steps x s t → Steps x t u → Steps x s u
Steps-trans r stay = r
Steps-trans r (later q st) = later (Steps-trans r q) st

-- Some reply that the events admit.
reply : Memory → (c : Call) → Reply c
reply m (is_set e) = read m e
reply m (finished w) = is_finished m
reply m (wait w d) = is_finished m
reply m c = some_reply c

reply-Answers : (m : Memory) (c : Call) → Answers m c (reply m c)
unfolding reply
reply-Answers m (is_set e) = refl
reply-Answers m (finished w) = refl
reply-Answers m (wait w d) = refl
reply-Answers m _ = tt

reply-WithinPatience :
    (v : View × ℕ) (m : Memory) (c : Call) → m.closed_set ≡ true → WithinPatience c (reply m c) v.1
unfolding reply
reply-WithinPatience v m (finished w) e = λ e'. absurd (ground arith)
reply-WithinPatience v m (wait w d) e = λ e'. absurd (ground arith)
reply-WithinPatience v m _ e = tt

-- What a step of the worker leaves.
abbrev Moved : Worker → Memory → Memory → Worker → Type 0
Moved (running o (ret l) v) m m' w' = (m' ≡ m) × (w' ≡ ended o l v)
Moved (running o (call c k) v) m m' w' =
    (r : Reply c) × Answers m c r
    × WithinPatience c r v.1
    × (m' ≡ effect c m)
    × (w' ≡ running o (k r) ((both watching patient).observe c r v))
Moved _ m m' w' = Unit {0}

WorkerMove-Moved : {m m' : Memory} {w w' : Worker} → WorkerMove m w m' w' → Moved w m m' w'
WorkerMove-Moved (calls r a within) = (r, a, within, refl, refl)
WorkerMove-Moved returns = (refl, refl)

-- Close is brought to its return by steps of the callers, which may be chosen, and of the worker, of
-- which one is possible and any may be the next, whatever its call is answered.
pub data WillClose (x : Setting) : System x → Type 0 where
  has_closed : {s : System x} → s.returned ≡ true → WillClose x s
  caller_goes :
      {s t : System x} {c : Caller x}
      → CallerMove x s s.caller t c
      → WillClose x (record t { caller = c })
      → WillClose x s
  worker_goes :
      {s : System x} {m : Memory} {w : Worker}
      → WorkerMove s.memory s.worker m w
      → ((m' : Memory) (w' : Worker)
          → WorkerMove s.memory s.worker m' w'
          → WillClose x (record s { memory = m'; worker = w' }))
      → WillClose x s

module _ (x : Setting) where
  -- Once the closed event is set, the worker ends by steps of its own.
  pub worker_ends :
      (s : System x) (m : Memory) (o : SessionOptions) (q : Prog LeaseState) (v : View × ℕ)
      → m.closed_set ≡ true
      → Working x (running o q v) m
      → ((m' : Memory) (w' : Worker)
          → HasEnded w'
          → Steps x
              (record s { memory = m; worker = running o q v })
              (record s { memory = m'; worker = w' })
          → WillClose x (record s { memory = m'; worker = w' }))
      → WillClose x (record s { memory = m; worker = running o q v })
  worker_ends s m o (ret l) v e h goes = worker_goes returns (λ m' w' move.
      let (em, ew) = WorkerMove-Moved move in
      subst (λ u. WillClose x (record s { memory = u; worker = w' })) (sym em)
        (subst (λ u. WillClose x (record s { memory = m; worker = u })) (sym ew)
          (goes m (ended o l v) tt (later stay (worker_step returns)))))
  worker_ends s m o (call c k) v e h goes =
      worker_goes (calls (reply m c) (reply-Answers m c) (reply-WithinPatience v m c e))
        (λ m' w' move.
          let (r, a, within, em, ew) = WorkerMove-Moved move in
          subst (λ u. WillClose x (record s { memory = u; worker = w' })) (sym em)
            (subst (λ u. WillClose x (record s { memory = effect c m; worker = u })) (sym ew)
              (let step : WorkerMove m (running o (call c k) v) (effect c m)
                    (running o (k r) ((both watching patient).observe c r v)) =
                  calls r a within in
                let next = WorkerMove-Working x step h in
                worker_ends s (effect c m) o (k r) ((both watching patient).observe c r v)
                  (next.1 e) next.0
                  (λ m'' w'' end steps.
                    goes m'' w'' end (Steps-trans (later stay (worker_step step)) steps)))))
  worker_ends s m o out_of_fuel v e h goes = absurd h.0.1.1

  -- The worker has ended, and the thread object is joined.
  joined_returns :
      (s : System x)
      → HasEnded s.worker
      → WillClose x (record s { caller = closing (perform join) })
  joined_returns s end =
      caller_goes (close_calls tt end) (caller_goes close_returns (has_closed refl))

  -- The rest of Close after the closed event is set and the thread object has been asked.
  rest_returns :
      (s : System x) (w : Worker) (j : Bool)
      → s.memory.closed_set ≡ true
      → is_joinable s.shared.thread ≡ j
      → Handle s.shared.thread w
      → Working x w s.memory
      → WillClose x (record s { worker = w; caller = closing (if j then perform join else ret tt) })
  rest_returns s w false e ej h k = caller_goes close_returns (has_closed refl)
  rest_returns s absent true e ej h k =
      absurd (subst (λ t. Handle t absent) (joinable-running x s.shared.thread ej) h)
  rest_returns s (running o q v) true e ej h k =
      worker_ends (record s { caller = closing (perform join) }) s.memory o q v e k
        (λ m w end steps. joined_returns (record s { memory = m; worker = w }) end)
  rest_returns s (ended o l v) true e ej h k = joined_returns (record s { worker = ended o l v }) tt

  -- If the worker's loops have more rounds than the close event is reported unfinished to it (`patience`):
  -- in every state that the threads of a session can reach with none inside of Grant and Close, a call of
  -- Close can be made and returns then: the thread that it waits for ends.
  pub close_completes :
      {client : Client} {s : System x}
      → x.patience < x.rounds
      → Steps x (start x client) s
      → s.caller ≡ outside
      → WillClose x s
  unfolding close
  close_completes {client} {s} enough reached e =
      let inv = Steps-Inv x enough reached (start-Inv x client) in
      let enter : CallerMove x s s.caller s (closing close) =
        subst (λ c. CallerMove x s c s (closing close)) (sym e) enter_close in
      caller_goes enter (
        caller_goes (close_calls tt tt) (
          caller_goes (close_calls (is_joinable s.shared.thread) refl) (
            rest_returns
              (record s {
                memory = record s.memory { closed_set = true };
                shared = record s.shared { closed_set = true };
              })
              s.worker (is_joinable s.shared.thread) refl refl inv.core.handle
              (Working-closed x s.worker s.memory inv.core.working))))
