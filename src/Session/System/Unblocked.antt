-- ===== src/Session/System/Unblocked.antt =====
-- No state of a session in use is a dead end: whatever its threads are doing, a call of Close is brought to
-- its return.
use etcdv3client.Prelude.{ℕ, ◌<◌, ◌≡◌, refl, sym, subst, Bool, true, false, if◌then◌else◌}
use etcdv3client.Client.{Client}
use etcdv3client.Session.Options.{SessionOptions}
use etcdv3client.Session.{Session}
use etcdv3client.Session.Methods.{grant, close}
use etcdv3client.Session.Calling.{Thread, Shared, calling, is_joinable, follow}
use etcdv3client.Session.System.{
  Setting, Memory, Worker, absent, running, ended, HasEnded, Caller, outside, granting, closing,
  System, CallerMove, enter_grant, enter_close, grant_calls, grant_returns, close_calls,
  close_returns, worker_step, caller_step, context_finishes, Steps, stay, later, start, act,
}
use etcdv3client.Session.System.Contracts.{joinable-running}
use etcdv3client.Session.System.Core.{Handle, Working, Consistent-answer}
use etcdv3client.Session.System.Invariant.{Steps-Inv, start-Inv}
use etcdv3client.Session.System.Progress.{
  Steps-trans, WillClose, has_closed, caller_goes, worker_ends, close_completes,
}
use etcdv3client.Effect.{
  Call, Reply, Prog, ret, call, out_of_fuel, set, closed, is_set, start_thread, joinable, join,
}

-- Grant's calls are answered at once.
abbrev Swift : Call → Type 0
Swift (is_set closed) = Unit {0}
Swift (start_thread context options) = Unit {0}
Swift _ = ⊥

-- So are Close's, but for the wait for a worker that runs and has been told to stop.
abbrev Fit : Call → Shared → Type 0
Fit (set closed) sh = Unit {0}
Fit joinable sh = Unit {0}
Fit join sh = (sh.closed_set ≡ true) × (sh.thread ≡ Thread.running)
Fit _ sh = ⊥

abbrev Ready : Prog (Unit {0}) → Shared → Type 0
Ready (ret u) sh = Unit {0}
Ready (call c k) sh =
    Fit c sh × ((r : Reply c) → calling.Allowed c r sh → Ready (k r) (follow c r sh))
Ready out_of_fuel sh = ⊥

-- A program of Grant's calls that returns.
abbrev Quick : {A : Type 0} → Prog A → Type 0
Quick (ret a) = Unit {0}
Quick (call c k) = Swift c × ((r : Reply c) → Quick (k r))
Quick out_of_fuel = ⊥

Quick-branch :
    {A : Type 0} (b : Bool) (p q : Prog A) → Quick p → Quick q → Quick (if b then p else q)
Quick-branch true p q h k = h
Quick-branch false p q h k = k

module _ (x : Setting) where
  abbrev Unblocked : Shared → Caller x → Type 0
  Unblocked sh outside = Unit {0}
  Unblocked sh (granting q) = Quick q
  Unblocked sh (closing q) = Ready q sh

  grant-Quick :
      (context : ℕ) (options : SessionOptions) (s : Session)
      → Quick (grant x.lib x.closed_text x.granted_text context options s)
  unfolding grant
  grant-Quick context options s =
      (tt, λ gone. Quick-branch gone _ _ tt (Quick-branch s.granted _ _ tt (tt, λ _. tt)))

  close-Ready : (sh : Shared) → Ready close sh
  unfolding close
  close-Ready sh = (tt, λ _ _. (tt, λ yes ok. rest yes ok))
    where
      rest :
          (yes : Bool)
          → yes ≡ is_joinable sh.thread
          → Ready (if yes then call join ret else ret tt) (record sh { closed_set = true })
      rest true ok = ((refl, joinable-running x sh.thread (sym ok)), λ _ _. tt)
      rest false ok = tt

  CallerMove-Unblocked :
      {s t : System x} {b c : Caller x}
      → CallerMove x s b t c
      → (s.shared.closed_set ≡ true → s.memory.closed_set ≡ true)
      → Unblocked s.shared b
      → Unblocked t.shared c
  CallerMove-Unblocked {s} (enter_grant context options) known h =
      grant-Quick context options s.session
  CallerMove-Unblocked {s} enter_close known h = close-Ready s.shared
  CallerMove-Unblocked (grant_calls r a) known h = h.1 r
  CallerMove-Unblocked grant_returns known h = tt
  CallerMove-Unblocked {s} (close_calls {c} r a) known h = h.1 r (Consistent-answer x s c r known a)
  CallerMove-Unblocked close_returns known h = tt

  module _ (enough : x.patience < x.rounds) (client : Client) where
    Steps-Unblocked : {s : System x} → Steps x (start x client) s → Unblocked s.shared s.caller
    Steps-Unblocked stay = tt
    Steps-Unblocked (later r (worker_step mv)) = Steps-Unblocked r
    Steps-Unblocked (later r (caller_step mv)) =
        CallerMove-Unblocked mv (Steps-Inv x enough r (start-Inv x client)).core.known
          (Steps-Unblocked r)
    Steps-Unblocked (later r context_finishes) = Steps-Unblocked r

  -- Grant returns.
  finish_grant :
      (s : System x) (q : Prog (x.lib.Status × Session))
      → Quick q
      → ((t : System x)
          → Steps x (record s { caller = granting q }) t
          → t.caller ≡ outside
          → WillClose x t)
      → WillClose x (record s { caller = granting q })
  finish_grant s (ret r) h goes =
      caller_goes grant_returns (goes _ (later stay (caller_step grant_returns)) refl)
  finish_grant s (call (is_set closed) k) h goes =
      let r = s.memory.closed_set in
      caller_goes (grant_calls r refl) (
        finish_grant (act x (is_set closed) r s) (k r) (h.1 r) (λ t steps e.
          goes t (Steps-trans (later stay (caller_step (grant_calls r refl))) steps) e))
  finish_grant s (call (start_thread context options) k) h goes = caller_goes (grant_calls tt tt) (
      finish_grant (act x (start_thread context options) tt s) (k tt) (h.1 tt)
        (λ t steps e. goes t (Steps-trans (later stay (caller_step (grant_calls tt tt))) steps) e))
  finish_grant s (call _ k) h goes = absurd h.0
  finish_grant s out_of_fuel h goes = absurd h

  -- A worker that has been started ends, once the closed event is set.
  worker_stops :
      (s : System x) (w : Worker)
      → s.memory.closed_set ≡ true
      → Handle Thread.running w
      → Working x w s.memory
      → ((m : Memory) (v : Worker)
          → HasEnded v
          → Steps x (record s { worker = w }) (record s { memory = m; worker = v })
          → WillClose x (record s { memory = m; worker = v }))
      → WillClose x (record s { worker = w })
  worker_stops s absent e h k goes = absurd h
  worker_stops s (running o q v) e h k goes = worker_ends x s s.memory o q v e k goes
  worker_stops s (ended o l v) e h k goes = goes s.memory (ended o l v) tt stay

  module _ (enough : x.patience < x.rounds) (client : Client) where
    -- Close returns.
    finish_close :
        (s : System x) (q : Prog (Unit {0}))
        → Ready q s.shared
        → Steps x (start x client) (record s { caller = closing q })
        → WillClose x (record s { caller = closing q })
    finish_close s (ret u) h reached = caller_goes close_returns (has_closed refl)
    finish_close s (call (set closed) k) h reached = caller_goes (close_calls tt tt) (
        finish_close (act x (set closed) tt s) (k tt) (h.1 tt tt)
          (later reached (caller_step (close_calls tt tt))))
    finish_close s (call joinable k) h reached =
        let r = is_joinable s.shared.thread in
        caller_goes (close_calls r refl) (
          finish_close (act x joinable r s) (k r) (h.1 r refl)
            (later reached (caller_step (close_calls r refl))))
    finish_close s (call join k) h reached =
        let inv = Steps-Inv x enough reached (start-Inv x client) in
        worker_stops (record s { caller = closing (call join k) }) s.worker (inv.core.known h.0.0)
          (subst (λ t. Handle t s.worker) h.0.1 inv.core.handle) inv.core.working
          (λ m w end waited. caller_goes (close_calls tt end) (
            finish_close (act x join tt (record s { memory = m; worker = w })) (k tt) (h.1 tt tt)
              (later (Steps-trans reached waited) (caller_step (close_calls tt end)))))
    finish_close s (call _ k) h reached = absurd h.0
    finish_close s out_of_fuel h reached = absurd h

    finish :
        (s : System x) (b : Caller x)
        → Unblocked s.shared b
        → Steps x (start x client) (record s { caller = b })
        → WillClose x (record s { caller = b })
    finish s outside h reached = close_completes x enough reached refl
    finish s (granting q) h reached =
        finish_grant s q h (λ t steps e. close_completes x enough (Steps-trans reached steps) e)
    finish s (closing q) h reached = finish_close s q h reached

  -- If the worker's loops have more rounds than the close event is reported unfinished to it (`patience`):
  -- no state that the threads of a session can reach is a dead end. From each, steps of the callers, which
  -- may be chosen, and of the worker bring about a return of Close, in which the worker can always go on
  -- where it is its turn, and its calls may be answered in any way that the events admit; the context that
  -- was given to Grant does not finish in the meantime.
  pub no_dead_end :
      {client : Client} {s : System x}
      → x.patience < x.rounds
      → Steps x (start x client) s
      → WillClose x s
  no_dead_end {client} {s} enough reached =
      finish enough client s s.caller (Steps-Unblocked enough client reached) reached
