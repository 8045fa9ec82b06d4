-- ===== src/Election/Change.antt =====
-- Watch over a store in which the candidates of an election change while it watches: the model of such
-- runs, and the parts of Watch in them.
pub mod Heard
pub mod Outcome
pub mod Leaders
pub mod Steady
use etcdv3client.Prelude.{
  Bool-cases, ◌||◌, ℕ, zero, suc, ℤ, pos, negsuc, ◌≡◌, ◌-ℤ◌, refl, sym, ap, subst, ◌⊎◌, inl, inr,
  Bool, true, false, Option, none, some, List, [], ◌∷◌, arith, if◌then◌else◌,
}
use mathlib.Core.Option.{some-injective}
use etcdv3client.Bytes.{Bytes}
use etcdv3client.Status.{StatusLibrary, make, make_default, code-make, code-make_default}
use etcdv3client.Prefix.{CharKind}
use etcdv3client.Client.{Client}
use etcdv3client.Proto.Kv.{KeyValue, RangeResponse}
use etcdv3client.Proto.Watch.{EventType, put, delete, Event, WatchResponse}
use etcdv3client.Session.Options.{ContextFunction}
use etcdv3client.Watch.{WatchOptions}
use etcdv3client.Election.{
  take_leader, find_event, get_leader, Fetched, cancelled, fetched, ReadEnd, found, again, stopped,
  fetch_loop, read_failed, read_loop, watch_loop, same_type,
}
use etcdv3client.Election.Node.{ElectionNode, ElectionWatchOptions, set_current_revision}
use etcdv3client.Effect.{
  Call, Reply, Prog, ret, ◌>>=◌, get_grpc_client_context, range, watch_read, context_done, perform,
  wait,
}
use etcdv3client.Session.{back_off_failed}
use etcdv3client.Effect.Logic
use etcdv3client.Effect.Logic.{Model, Holds}

-- What changes: the answers to Range before and after, the type of the events that tell of it, and what
-- holds of the create revisions that they give.
pub record Turnover : Type 1 where
  pub before : RangeResponse
  pub after : RangeResponse
  pub event_type : EventType
  pub Told : ℤ → Type 0

-- What the watch makes of such an event.
abbrev pub Next : Turnover → ℤ → Type 0
Next change revision =
    (create_revision : ℤ) × (change.Told create_revision) × (revision ≡ create_revision -ℤ pos 1)

module _ (change : Turnover) where
  -- The events of the type tell what they should.
  abbrev pub Telling : List Event → Type 0
  Telling [] = Unit {0}
  Telling (event ∷ events) =
      (event.type ≡ change.event_type → change.Told event.kv.create_revision) × Telling events

  same_type_sound : (t u : EventType) → same_type t u ≡ true → t ≡ u
  unfolding same_type
  same_type_sound put put e = refl
  same_type_sound delete delete e = refl
  same_type_sound put delete e = ground arith
  same_type_sound delete put e = ground arith

  pub find_event-Telling :
      (events : List Event) (revision : ℤ)
      → Telling events
      → find_event change.event_type events ≡ some revision
      → Next change revision
  unfolding find_event
  find_event-Telling [] revision h e = ground arith
  find_event-Telling (event ∷ events) revision h e =
      first_or_later (same_type event.type change.event_type) refl e
        (find_event-Telling events revision h.1)
    where
      first_or_later :
          (b : Bool)
          → same_type event.type change.event_type ≡ b
          → (if b
              then some (event.kv.create_revision -ℤ pos 1)
              else find_event change.event_type events)
            ≡ some revision
          → (find_event change.event_type events ≡ some revision → Next change revision)
          → Next change revision
      first_or_later true same e' later = (
        event.kv.create_revision,
        h.0 (same_type_sound event.type change.event_type same),
        sym (some-injective _ _ e'),
      )
      first_or_later false other e' later = later e'

-- Whether an event that tells of the change has been read, and whether a wait has found the caller's
-- context done.
pub record Course : Type 0 where
  pub changed : Bool
  pub done : Bool

abbrev pub course : Bool → Bool → Course
course changed done = record { changed = changed; done = done }

module _ (change : Turnover) where
  -- Whether an answer on a watch has such an event.
  abbrev pub has_event : Option WatchResponse → Bool
  has_event (some rsp) = elim (find_event change.event_type rsp.events) [
    | none ↦ false
    | some revision ↦ true
  ]
  has_event none = false

  abbrev pub store : Bool → RangeResponse
  store true = change.after
  store false = change.before

  abbrev pub note : (c : Call) → Reply c → Course → Course
  note (watch_read stream) answer s = record s {
    changed = if has_event answer then true else s.changed;
  }
  note (wait w d) r s = record s { done = r || s.done }
  note _ r s = s

  abbrev pub Store : (c : Call) → Reply c → Course → Type 0
  Store (range stub context req) r s = r.0.is_ok ≡ true → r.1 ≡ store s.changed
  Store (watch_read stream) answer s =
      (rsp : WatchResponse) → answer ≡ some rsp → Telling change rsp.events
  Store _ r s = Unit {0}

  -- A Range request that succeeds is answered by `before` until such an event has been read, and by `after`
  -- from then on. Requests, watches and waits may fail at any time.
  abbrev pub changing : Model
  changing = record {
    State = Course;
    observe = note;
    Allowed = Store;
    Invariant = λ s. Unit {0};
    Starved = λ s. Unit {0};
  }

  pub context-changing :
      {A : Type 0} (Q : A → Course → Type 0) (f : Option ContextFunction) (k : ℕ → Prog A)
      (s : Course)
      → ((context : ℕ) → Holds changing Q (k context) s)
      → Holds changing Q (get_grpc_client_context f >>= k) s
  unfolding get_grpc_client_context
  context-changing Q none k s h = (tt, λ r _. h r)
  context-changing Q (some f) k s h = (tt, λ r _. h r)

  -- The node that the store makes of the caller's.
  abbrev pub led : Bool → ElectionNode → ElectionNode
  led s node = take_leader (store s).kvs (set_current_revision node (store s).header.revision)

  abbrev pub Led : ElectionNode → Bool → Fetched → Course → Type 0
  Led node b (cancelled node') t = t.done ≡ true
  Led node b (fetched node') t = (t.changed ≡ b) × (node' ≡ led b node)

  module _ (lib : StatusLibrary) (c : CharKind) (client : Client) (ctx : ℕ) (key_prefix : Bytes)
      (options : ElectionWatchOptions) where
    abbrev Got : ElectionNode → Bool → lib.Status × ElectionNode → Course → Type 0
    Got node b r t =
        (t.changed ≡ b)
        × (((lib.code r.0 ≡ 0) × (r.1 ≡ led b node)) ⊎ ((lib.code r.0 ≡ 1000) × (r.1 ≡ node)))

    get_leader-Got :
        (context : ℕ) (node : ElectionNode) (b d : Bool)
        → Holds changing (Got node b) (get_leader lib c client context key_prefix node) (course b d)
    unfolding get_leader
    get_leader-Got context node b d = (
      tt,
      λ r ok.
          Logic.branch changing (Got node b) (course b d) r.0.is_ok _ _
            (λ good. (
              tt,
              (refl, inl (rw (lib.code-with_value) (code-make_default lib), rw (ok good) refl)),
            ))
            (λ bad. (tt, (refl, inr (rw (lib.code-with_value) (code-make lib 1000), refl)))),
    )

    branch-Got :
        (r : lib.Status × ElectionNode) (node : ElectionNode) (b : Bool) (t : Course)
        (more : ElectionNode → Prog Fetched)
        → Got node b r t
        → ((d : Bool) → Holds changing (Led node b) (more node) (course b d))
        → Holds changing (Led node b) (if lib.is_ok r.0 then ret (fetched r.1) else more r.1) t
    branch-Got r node b t more (same, inl (good, e)) h =
        rw (lib.is_ok_lem r.0, good) (tt, (same, e))
    branch-Got r node b t more (same, inr (bad, e)) h =
        rw (lib.is_ok_lem r.0, bad, e)
          (subst (λ x. Holds changing (Led node b) (more node) (course x t.done)) (sym same)
            (h t.done))

    pub fetch_loop-Led :
        (n backoff : ℕ) (node : ElectionNode) (b d : Bool)
        → Holds changing
            (Led node b)
            (fetch_loop lib c client ctx key_prefix options n backoff node)
            (course b d)
    unfolding fetch_loop back_off_failed
    fetch_loop-Led zero backoff node b d = (tt, tt)
    fetch_loop-Led (suc n) backoff node b d =
        context-changing (Led node b) options.get_grpc_client_context_func _ (course b d) λ context.
          Logic.bind changing (Got node b) (Led node b)
            (get_leader lib c client context key_prefix node) _ (course b d)
            (get_leader-Got context node b d)
            (λ r t _ got. branch-Got r node b t retry got λ d'. (
              tt,
              λ _ _. (
                tt,
                λ w _. (
                  tt,
                  λ stop _.
                      Logic.branch changing (Led node b) (course b (stop || d')) stop _ _
                        (λ e. (tt, rw e refl)) (λ _. fetch_loop-Led n backoff node b (stop || d')),
                ),
              ),
            ))
      where
        retry : ElectionNode → Prog Fetched
        retry node' = do
          w ← back_off_failed backoff
          stop ← perform (wait (context_done ctx) w)
          if stop
              then ret (cancelled node')
              else fetch_loop lib c client ctx key_prefix options n backoff node'
