-- ===== src/Session/Calling.antt =====
-- Grant and Close of etcdv3client/session.cc, called by any threads in any order. Both hold the mutex from
-- the first line to the last, so the calls come one after the other; meanwhile the worker may set the
-- closed event.
use etcdv3client.Prelude.{
  ℕ, suc, ◌+◌, ◌≤◌, ◌≡◌, ◌≢◌, refl, Bool, true, false, List, [], ◌∷◌, All, arith, ◌||◌, Bool-cases,
  inl, inr, if◌then◌else◌, ap, ◌∙◌,
}
use etcdv3client.Bytes.{Bytes}
use etcdv3client.Status.{
  StatusLibrary, make_default, make_message, code_value, code-make_default, code-make_message,
}
use etcdv3client.Session.Options.{SessionOptions}
use etcdv3client.Session.{Session}
use etcdv3client.Session.Methods.{grant, close}
use etcdv3client.Effect.{
  Call, Reply, Prog, ret, ◌>>=◌, ◌>>◌, set, is_set, closed, start_thread, joinable, join,
}
use etcdv3client.Effect.Logic
use etcdv3client.Effect.Logic.{Model, Holds}

-- `grant_and_keep_alive_thread_`
pub data Thread : Type 0 where
  absent running joined : Thread

pub record Shared : Type 0 where
  pub closed_set : Bool  -- `closed_`, as far as the callers know
  pub thread : Thread
  pub started : ℕ  -- the threads that have been started

abbrev pub is_joinable : Thread → Bool
is_joinable running = true
is_joinable absent = false
is_joinable joined = false

abbrev pub follow : (c : Call) → Reply c → Shared → Shared
follow (is_set closed) r v = record v { closed_set = r || v.closed_set }
follow (set closed) r v = record v { closed_set = true }
follow (start_thread context options) r v = record v { thread = running; started = suc v.started }
follow join r v = record v { thread = joined }
follow _ r v = v

-- An event that is set stays set, as nobody resets `closed_`, and may be set by the worker at any time.
abbrev pub Consistent : (c : Call) → Reply c → Shared → Type 0
Consistent (is_set closed) r v = v.closed_set ≡ true → r ≡ true
Consistent joinable r v = r ≡ is_joinable v.thread
Consistent _ r v = Unit {0}

abbrev pub calling : Model
calling = record {
  State = Shared;
  observe = follow;
  Allowed = Consistent;
  Invariant = λ v. v.started ≤ 1;
  Starved = λ v. ⊥;
}

abbrev pub Closed : Shared → Unit {0} → Shared → Type 0
Closed v _ w = (w.started ≡ v.started) × (w.closed_set ≡ true) × (w.thread ≢ running)

-- No thread has been started, and the session is not known to be closed.
abbrev pub unstarted : Shared
unstarted = record { closed_set = false; thread = absent; started = 0 }

pub data Operation : Type 0 where
  grant_call : ℕ → SessionOptions → Operation
  close_call : Operation

-- `granted_` tells whether a thread has been started.
abbrev pub count : Bool → ℕ
count true = 1
count false = 0

module _ (lib : StatusLibrary) (closed_text granted_text : Bytes) where
  -- The calls one after the other, and the statuses that Grant returned.
  unfoldable pub operate : List Operation → Session → Prog (List lib.Status × Session)
  unfolding grant close
  operate [] s = ret ([], s)
  operate (grant_call context options ∷ ops) s = do
    (status, s') ← grant lib closed_text granted_text context options s
    (statuses, s'') ← operate ops s'
    ret (status ∷ statuses, s'')
  operate (close_call ∷ ops) s = close >> operate ops s

  -- How many of them are OK.
  unfoldable pub successes : List lib.Status → ℕ
  successes [] = 0
  successes (status ∷ statuses) =
      let rest = successes statuses in if lib.is_ok status then suc rest else rest

  -- Grant starts a thread exactly if it returns OK.
  unfoldable pub Granted : Session → Shared → lib.Status × Session → Shared → Type 0
  Granted s v r w =
      (w.started ≡ count r.1.granted)
      × (w.started ≡ count (lib.is_ok r.0) + v.started)
      × (v.closed_set ≡ true
          → (lib.code r.0 ≡ 1001)
            × (w.started ≡ v.started)
            × (w.closed_set ≡ true)
            × (w.thread ≡ v.thread)
            × (r.1.granted ≡ s.granted))

  -- As many threads have been started since as calls of Grant have returned OK.
  unfoldable pub Counted : Shared → List lib.Status × Session → Shared → Type 0
  Counted v r w = (w.started ≡ successes r.0 + v.started) × (w.started ≡ count r.1.granted)

  -- Every call of Grant has been refused, no thread has been started, and none is running.
  abbrev pub Refused : Shared → List lib.Status × Session → Shared → Type 0
  Refused v r w =
      All (λ status. lib.code status ≡ 1001) r.0
      × (w.started ≡ v.started)
      × (w.closed_set ≡ true)
      × (w.thread ≢ running)

  is_ok-make_default : lib.is_ok (make_default lib) ≡ true
  is_ok-make_default = rw (lib.is_ok_lem, code-make_default lib)

  is_ok-make_message : (n : ℕ) (text : Bytes) → lib.is_ok (make_message lib (suc n) text) ≡ false
  is_ok-make_message n text = rw (lib.is_ok_lem, code-make_message lib) (ground arith)

  pub at_most_one : (s : Session) (n : ℕ) → n ≡ count s.granted → n ≤ 1
  at_most_one s n linked = elim (Bool-cases s.granted) [
    | inl e ↦ (let one : n ≡ 1 = linked ∙ ap count e in omega arith)
    | inr e ↦ (let none_yet : n ≡ 0 = linked ∙ ap count e in omega arith)
  ]

  pub grant-Granted :
      (context : ℕ) (options : SessionOptions) (s : Session) (v : Shared)
      → v.started ≡ count s.granted
      → Holds calling (Granted s v) (grant lib closed_text granted_text context options s) v
  unfolding grant Granted code_value
  grant-Granted context options s v linked =
      let most : v.started ≤ 1 = at_most_one s v.started linked in
      (
        most,
        λ gone ok.
            Logic.branch calling (Granted s v) _ gone _ _
              (λ e. (
                most,
                (
                  linked,
                  rw (is_ok-make_message 1000 closed_text) (omega arith),
                  λ _. (code-make_message lib 1001 closed_text, refl, rw e refl, refl, refl),
                ),
              ))
              (λ e.
                Logic.branch calling (Granted s v) _ s.granted _ _
                  (λ e'. (
                    most,
                    (
                      linked,
                      rw (is_ok-make_message 999 granted_text) (omega arith),
                      λ is_closed. absurd (ground arith),
                    ),
                  ))
                  (λ e'.
                    let none_yet : v.started ≡ 0 = linked ∙ ap count e' in
                    (
                      most,
                      λ _ _. (
                        omega arith,
                        (
                          omega arith,
                          rw (is_ok-make_default) (omega arith),
                          λ is_closed. absurd (ground arith),
                        ),
                      ),
                    ))),
      )

  pub close-Closed : (v : Shared) → v.started ≤ 1 → Holds calling (Closed v) close v
  unfolding close
  close-Closed v most = (
    most,
    λ _ _. (
      most,
      λ yes ok.
          Logic.branch calling (Closed v) _ yes _ _
            (λ e. (most, λ _ _. (most, (refl, refl, λ h. ground arith))))
            (λ e. (most, (refl, refl, λ h. absurd (ground arith)))),
    ),
  )
