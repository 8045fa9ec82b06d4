-- ===== src/Session/System/Invariant.antt =====
-- What holds in every state of a session in use.
use etcdv3client.Prelude.{◌<◌, ◌≡◌, ◌≢◌, refl, Bool, true, arith}
use etcdv3client.Client.{Client}
use etcdv3client.Session.{Session}
use etcdv3client.Session.Calling.{Thread, Shared, calling, count, follow}
use etcdv3client.Session.System.{
  Setting, Caller, outside, granting, closing, System, CallerMove, enter_grant, enter_close,
  grant_calls, grant_returns, close_calls, close_returns, Step, worker_step, caller_step,
  context_finishes, Steps, stay, later, start,
}
use etcdv3client.Effect.Logic.{Holds, Every, Holds-Invariant}
use etcdv3client.Session.System.Contracts.{
  Discreet, quiet, grant-Discreet, close-Discreet, grant-quiet, grant-count, close-count,
  close-quiet,
}
use etcdv3client.Session.System.Core.{
  Core, WorkerMove-Working, WorkerMove-Handle, Consistent-answer, Working-context, act-Core,
}

module _ (x : Setting) where
  open x use {lib, closed_text, granted_text}

  -- What the callers still do, by the thread that is inside of Grant or Close.
  abbrev pub Pending : Shared → Session → Bool → Caller x → Type 0
  Pending sh s returned outside =
      (sh.started ≡ count s.granted) × (returned ≡ true → quiet.Invariant sh)
  Pending sh s returned (granting q) =
      Every Discreet q
      × Holds calling (λ r u. u.started ≡ count r.1.granted) q sh
      × (returned ≡ true → Holds quiet (λ r u. lib.code r.0 ≡ 1001) q sh)
  Pending sh s returned (closing q) =
      Every Discreet q
      × Holds calling
          (λ _ u.
            (u.started ≡ count s.granted) × (u.closed_set ≡ true) × (u.thread ≢ Thread.running))
          q sh
      × (returned ≡ true → Holds quiet (λ _ _. Unit {0}) q sh)

  pub record Inv (s : System x) : Type 0 where
    pub core : Core x s.memory s.worker s.shared
    pub pending : Pending s.shared s.session s.returned s.caller

  module _ (enough : x.patience < x.rounds) where
    CallerMove-Inv :
        {s t : System x} {b c : Caller x}
        → CallerMove x s b t c
        → Core x s.memory s.worker s.shared
        → Pending s.shared s.session s.returned b
        → Core x t.memory t.worker t.shared × Pending t.shared t.session t.returned c
    CallerMove-Inv {s} (enter_grant context options) core h = (
      core,
      (
        grant-Discreet x context options s.session,
        grant-count x context options s.session s.shared h.0,
        λ e. grant-quiet x context options s.session s.shared (h.1 e),
      ),
    )
    CallerMove-Inv {s} enter_close core h = (
      core,
      (close-Discreet x, close-count x s.session s.shared h.0, λ e. close-quiet x s.shared (h.1 e)),
    )
    CallerMove-Inv {s} (grant_calls {c} {k} r a) core h =
        let ok = Consistent-answer x s c r core.known a in
        let next = h.1.1 r ok in
        (
          act-Core x enough s c r core h.0.0 a (
              Holds-Invariant calling (λ r' u. u.started ≡ count r'.1.granted) (k r)
                (follow c r s.shared) next),
          (h.0.1 r, next, λ e. (h.2 e).1 r ok),
        )
    CallerMove-Inv {s} (close_calls {c} {k} r a) core h =
        let ok = Consistent-answer x s c r core.known a in
        let next = h.1.1 r ok in
        (
          act-Core x enough s c r core h.0.0 a
              (Holds-Invariant calling _ (k r) (follow c r s.shared) next),
          (h.0.1 r, next, λ e. (h.2 e).1 r ok),
        )
    CallerMove-Inv grant_returns core h = (core, (h.1.1, λ e. (h.2 e).0))
    CallerMove-Inv close_returns core h = (core, (h.1.1.0, λ e. (h.1.1.1, h.1.1.2)))

    pub Step-Inv : {s t : System x} → Step x s t → Inv s → Inv t
    Step-Inv {s} (worker_step mv) h =
        let next = WorkerMove-Working x mv h.core.working in
        record {
          core = record {
            working = next.0;
            handle = WorkerMove-Handle x s.shared.thread mv h.core.handle;
            counted = h.core.counted;
            known = λ e. next.1 (h.core.known e);
          };
          pending = h.pending;
        }
    Step-Inv (caller_step mv) h =
        let next = CallerMove-Inv mv h.core h.pending in record { core = next.0; pending = next.1 }
    Step-Inv {s} context_finishes h = record {
      core = record {
        working = Working-context x s.worker s.memory h.core.working;
        handle = h.core.handle;
        counted = h.core.counted;
        known = h.core.known;
      };
      pending = h.pending;
    }

    pub Steps-Inv : {s t : System x} → Steps x s t → Inv s → Inv t
    Steps-Inv stay h = h
    Steps-Inv (later r st) h = Step-Inv st (Steps-Inv r h)

  pub start-Inv : (client : Client) → Inv (start x client)
  start-Inv client = record {
    core = record { working = (refl, refl); handle = tt; counted = refl; known = λ e. e };
    pending = (refl, λ e. absurd (ground arith));
  }
