-- ===== src/Session/System/Contracts.antt =====
-- What Grant and Close do to the events and to the thread object, as contracts of their calls.
use etcdv3client.Prelude.{ℕ, ◌≡◌, ◌≢◌, refl, true, arith, sym, ◌∙◌}
use etcdv3client.Status.{code_value, code-make_message}
use etcdv3client.Session.Options.{SessionOptions}
use etcdv3client.Session.{Session}
use etcdv3client.Session.Methods.{grant, close}
use etcdv3client.Session.Calling.{
  Thread, Shared, calling, count, is_joinable, Granted, Closed, grant-Granted, close-Closed,
  at_most_one,
}
use etcdv3client.Session.System.{Setting}
use etcdv3client.Effect.{Call, closed, alive, expired, set, reset}
use etcdv3client.Effect.Logic
use etcdv3client.Effect.Logic.{Model, Holds, Every, Every-branch, Holds-Invariant}

-- The calls of Grant and Close touch no event but `closed_`, which they do not reset.
abbrev pub Discreet : Call → Type 0
Discreet (set closed) = Unit {0}
Discreet (set alive) = ⊥
Discreet (set expired) = ⊥
Discreet (reset e) = ⊥
Discreet _ = Unit {0}

-- No thread is left to be joined, and the callers know that the session is closed.
abbrev pub quiet : Model
quiet = record calling { Invariant = λ u. (u.closed_set ≡ true) × (u.thread ≢ Thread.running) }

module _ (x : Setting) where
  open x use {lib, closed_text, granted_text}

  pub grant-Discreet :
      (context : ℕ) (options : SessionOptions) (s : Session)
      → Every Discreet (grant lib closed_text granted_text context options s)
  unfolding grant
  grant-Discreet context options s = (
    tt,
    λ gone.
        Every-branch Discreet gone _ _ tt (Every-branch Discreet s.granted _ _ tt (tt, λ _. tt)),
  )

  pub close-Discreet : Every Discreet close
  unfolding close
  close-Discreet = (tt, λ _. (tt, λ yes. Every-branch Discreet yes _ _ (tt, λ _. tt) tt))

  pub grant-quiet :
      (context : ℕ) (options : SessionOptions) (s : Session) (sh : Shared)
      → quiet.Invariant sh
      → Holds quiet
          (λ r u. lib.code r.0 ≡ 1001)
          (grant lib closed_text granted_text context options s)
          sh
  unfolding grant code_value
  grant-quiet context options s sh h = (
    h,
    λ gone ok.
        Logic.branch quiet (λ r u. lib.code r.0 ≡ 1001) _ gone _ _
          (λ e. ((rw e refl, h.1), code-make_message lib 1001 closed_text))
          (λ e. absurd (ground (arith, ok h.0))),
  )

  pub grant-count :
      (context : ℕ) (options : SessionOptions) (s : Session) (sh : Shared)
      → sh.started ≡ count s.granted
      → Holds calling
          (λ r u. u.started ≡ count r.1.granted)
          (grant lib closed_text granted_text context options s)
          sh
  unfolding Granted
  grant-count context options s sh linked =
      Logic.mono calling (Granted lib closed_text granted_text s sh)
        (λ r u. u.started ≡ count r.1.granted)
        (grant lib closed_text granted_text context options s) sh
        (grant-Granted lib closed_text granted_text context options s sh linked) (λ r u _ q. q.0)

  pub close-count :
      (s : Session) (sh : Shared)
      → sh.started ≡ count s.granted
      → Holds calling
          (λ _ u.
            (u.started ≡ count s.granted) × (u.closed_set ≡ true) × (u.thread ≢ Thread.running))
          close
          sh
  close-count s sh linked =
      Logic.mono calling (Closed sh)
        (λ _ u. (u.started ≡ count s.granted) × (u.closed_set ≡ true) × (u.thread ≢ Thread.running))
        close sh
        (close-Closed lib closed_text granted_text sh
          (at_most_one lib closed_text granted_text s sh.started linked))
        (λ _ u _ q. (q.0 ∙ linked, q.1, q.2))

  pub joinable-running : (t : Thread) → is_joinable t ≡ true → t ≡ Thread.running
  joinable-running Thread.absent e = cc
  joinable-running Thread.running e = refl
  joinable-running Thread.joined e = cc

  pub close-quiet : (sh : Shared) → quiet.Invariant sh → Holds quiet (λ _ _. Unit {0}) close sh
  unfolding close
  close-quiet sh h = (
    h,
    λ _ _. (
      (refl, h.1),
      λ yes ok.
          Logic.branch quiet (λ _ _. Unit {0}) _ yes _ _
            (λ e. absurd (h.1 (joinable-running sh.thread (sym ok ∙ e)))) (λ e. ((refl, h.1), tt)),
    ),
  )
