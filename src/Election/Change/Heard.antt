-- ===== src/Election/Change/Heard.antt =====
-- What Watch hears of a change: its watch for the events that tell of it.
use etcdv3client.Prelude.{
  ℕ, zero, suc, ℤ, ◌≡◌, refl, sym, subst, Bool, true, false, ◌||◌, Option, none, some,
  if◌then◌else◌,
}
use etcdv3client.Bytes.{Bytes}
use etcdv3client.Status.{StatusLibrary}
use etcdv3client.Prefix.{CharKind}
use etcdv3client.Client.{Client}
use etcdv3client.Proto.Watch.{WatchResponse}
use etcdv3client.Watch.{WatchOptions}
use etcdv3client.Election.{
  find_event, ReadEnd, found, again, stopped, read_failed, read_loop, watch_loop,
}
use etcdv3client.Election.Node.{ElectionWatchOptions}
use etcdv3client.Effect.{Prog, ret, watch_read}
use etcdv3client.Effect.Logic
use etcdv3client.Effect.Logic.{Holds}
use etcdv3client.Election.Change.{
  Turnover, Next, Course, course, Store, note, changing, context-changing, find_event-Telling,
}

module _ (change : Turnover) where
  -- What a read of the watch has found, and whether the change is known.
  abbrev pub Read : ReadEnd → Course → Type 0
  Read (found revision) t = (Next change revision) × (t.changed ≡ true)
  Read again t = t.changed ≡ false
  Read stopped t = t.done ≡ true

  abbrev pub Heard : Option ℤ → Course → Type 0
  Heard (some revision) t = (Next change revision) × (t.changed ≡ true)
  Heard none t = t.done ≡ true

  -- The end of a watch, an answer without an event that tells of the change, and one with it.
  branch-Read :
      (answer : Option WatchResponse) (p : Prog ReadEnd) (q : Prog ReadEnd) (f : ℤ → Prog ReadEnd)
      (d : Bool)
      → Store change (watch_read 0) answer (course false d)
      → Holds (changing change) Read p (course false d)
      → Holds (changing change) Read q (course false d)
      → ((revision : ℤ)
          → Next change revision
          → Holds (changing change) Read (f revision) (course true d))
      → Holds
          (changing change)
          Read
          (elim answer [
            | none ↦ p
            | some rsp ↦ elim (find_event change.event_type rsp.events) [
              | none ↦ q
              | some revision ↦ f revision
            ]
          ])
          (note change (watch_read 0) answer (course false d))
  branch-Read none p q f d ok ended other has = ended
  branch-Read (some rsp) p q f d ok ended other has =
      found_in (find_event change.event_type rsp.events) refl
    where
      found_in :
          (event : Option ℤ)
          → find_event change.event_type rsp.events ≡ event
          → Holds
              (changing change)
              Read
              (elim event [ none ↦ q | some revision ↦ f revision ])
              (course
                (if elim event [ none ↦ false | some revision ↦ true ] then true else false)
                d)
      found_in none e = other
      found_in (some revision) e =
          has revision (find_event-Telling change rsp.events revision (ok rsp refl) e)

  branch_end :
      (end : ReadEnd) (more : Prog (Option ℤ)) (t : Course)
      → Read end t
      → ((d : Bool) → Holds (changing change) Heard more (course false d))
      → Holds
          (changing change)
          Heard
          (elim end [ found next ↦ ret (some next) | again ↦ more | stopped ↦ ret none ])
          t
  branch_end (found next) more t h k = (tt, h)
  branch_end again more t h k =
      subst (λ x. Holds (changing change) Heard more (course x t.done)) (sym h) (k t.done)
  branch_end stopped more t h k = (tt, h)

  module _ (lib : StatusLibrary) (c : CharKind) (client : Client) (ctx : ℕ) (key_prefix : Bytes)
      (options : ElectionWatchOptions) where
    read_failed-Read :
        (backoff stream : ℕ) (d : Bool)
        → Holds
            (changing change)
            Read
            (read_failed lib c client ctx key_prefix options backoff stream)
            (course false d)
    unfolding read_failed
    read_failed-Read backoff stream d = (
      tt,
      λ _ _. (
        tt,
        λ _ _. (
          tt,
          λ w _. (
            tt,
            λ stop _.
                Logic.branch (changing change) Read (course false (stop || d)) stop _ _
                  (λ e. (tt, rw e refl)) (λ e. (tt, refl)),
          ),
        ),
      ),
    )

    read_loop-Read :
        (n backoff stream : ℕ) (d : Bool)
        → Holds
            (changing change)
            Read
            (read_loop lib c client ctx key_prefix options n backoff stream change.event_type)
            (course false d)
    unfolding read_loop
    read_loop-Read zero backoff stream d = (tt, tt)
    read_loop-Read (suc n) backoff stream d = (
      tt,
      λ answer ok.
          branch-Read answer _ _ _ d ok (read_failed-Read backoff stream d)
            (read_loop-Read n backoff stream d) (λ revision e. (tt, λ _ _. (tt, (e, refl)))),
    )

    pub watch_loop-Heard :
        (inner n backoff : ℕ) (o : WatchOptions) (d : Bool)
        → Holds
            (changing change)
            Heard
            (watch_loop lib c client ctx key_prefix options inner n backoff o change.event_type)
            (course false d)
    unfolding watch_loop
    watch_loop-Heard inner zero backoff o d = (tt, tt)
    watch_loop-Heard inner (suc n) backoff o d =
        context-changing change Heard options.get_grpc_client_context_func _ (course false d)
          λ context. (
            tt,
            λ stream _. (
              tt,
              λ _ _.
                  Logic.bind (changing change) Read Heard
                    (read_loop lib c client ctx key_prefix options inner backoff stream
                      change.event_type)
                    _ (course false d) (read_loop-Read inner backoff stream d)
                    (λ end t _ h.
                      branch_end end _ t h (λ d'. watch_loop-Heard inner n backoff o d')),
            ),
          )
