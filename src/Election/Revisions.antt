-- ===== src/Election/Revisions.antt =====
-- The revisions that Watch computes stay within bounds, such as those of int64.
use etcdv3client.Prelude.{
  ℕ, ℤ, pos, ◌≡◌, refl, subst, Bool, true, false, Option, none, some, List, [], ◌∷◌, arith, ◌≤ℤ◌,
  ◌<ℤ◌, ◌+ℤ◌, ◌-ℤ◌, if◌then◌else◌, Bool-cases, inl, inr,
}
use mathlib.Core.Option.{some-injective}
use etcdv3client.Bytes.{Bytes}
use etcdv3client.Options.{apply}
use etcdv3client.Status.{StatusLibrary}
use etcdv3client.Prefix.{CharKind}
use etcdv3client.Client.{Client}
use etcdv3client.Proto.Kv.{KeyValue, RangeResponse}
use etcdv3client.Proto.Watch.{
  EventType, Event, WatchResponse, WatchRequest, WatchCreateRequest, create_request,
  default_watch_create_request,
}
use etcdv3client.Election.{
  take_leader, watch_revision, watch_options, watch_event, find_event, watch, same_type,
}
use etcdv3client.Election.Node.{
  ElectionNode, ElectionWatchOptions, is_valid, get_watch_revision, set_bykv, set_current_revision,
}
use etcdv3client.Effect.{Call, Reply, Prog, call, range, watch_read, watch_write_last}
use etcdv3client.Effect.Logic.{Reach}
use etcdv3client.Effect.Protocol
use etcdv3client.Effect.Protocol.{answered_by}
use etcdv3client.Election.Conversation.{Seen, took, moved, follow, conversation, Answer}
use etcdv3client.Election.Conversation.Watch.{watch-Answer}

start_revision-watch_options :
    (c : CharKind) (node : ElectionNode) (revision : ℤ) (key_prefix : Bytes)
    → (apply
        (watch_options c node revision)
        (record default_watch_create_request { key = key_prefix })).start_revision
      ≡ revision
unfolding apply watch_options
start_revision-watch_options c node revision key_prefix = elim (Bool-cases (is_valid node)) [
  | inl v ↦ rw (v, watch_options) refl
  | inr v ↦ rw (v, watch_options) refl
]

current_revision-take_leader :
    (kvs : List KeyValue) (node : ElectionNode)
    → (take_leader kvs node).current_revision ≡ node.current_revision
unfolding take_leader set_bykv
current_revision-take_leader [] node = refl
current_revision-take_leader (kv ∷ []) node = refl
current_revision-take_leader (kv ∷ kv' ∷ kvs) node = refl

module _ (bottom top : ℤ) where
  abbrev pub Within : ℤ → Type 0
  Within revision = (bottom ≤ℤ revision) × (revision ≤ℤ top)

  -- The revisions from which 1 can be taken.
  abbrev pub Spare : List Event → Type 0
  Spare [] = Unit {0}
  Spare (event ∷ events) =
      ((bottom <ℤ event.kv.create_revision) × (event.kv.create_revision ≤ℤ top)) × Spare events

  -- The revision of a good answer is below `top`, and those of events are within the bounds, but for the
  -- first.
  abbrev pub Sized : (c : Call) → Reply c → Seen → Type 0
  Sized (range stub context req) r s = r.0.is_ok ≡ true → r.1.header.revision <ℤ top
  Sized (watch_read stream) answer s = (rsp : WatchResponse) → answer ≡ some rsp → Spare rsp.events
  Sized _ r s = Unit {0}

  abbrev Kept : Seen → Type 0
  Kept s = Within s.revision × (s.node.current_revision <ℤ top)

  found-Within :
      (t : EventType) (events : List Event) (revision : ℤ)
      → Spare events
      → find_event t events ≡ some revision
      → Within revision
  unfolding find_event
  found-Within t [] revision h e = ground arith
  found-Within t (event ∷ events) revision h e =
      first-Within (same_type event.type t) h.0 (found-Within t events revision h.1) e
    where
      first-Within :
          (b : Bool)
          → (bottom <ℤ event.kv.create_revision) × (event.kv.create_revision ≤ℤ top)
          → (find_event t events ≡ some revision → Within revision)
          → (if b then some (event.kv.create_revision -ℤ pos 1) else find_event t events)
            ≡ some revision
          → Within revision
      first-Within true bounds later e' =
          (let same : event.kv.create_revision -ℤ pos 1 ≡ revision = some-injective _ _ e' in
            subst Within same (ground arith, ground arith))
      first-Within false bounds later e' = later e'

  moved-Kept :
      (event : Option ℤ) (s : Seen)
      → ((revision : ℤ) → event ≡ some revision → Within revision)
      → Kept s
      → Kept (moved event s)
  moved-Kept none s found h = h
  moved-Kept (some revision) s found h = (found revision refl, h.1)

  took-Kept :
      (b : Bool) (rsp : RangeResponse) (s : Seen)
      → (b ≡ true → rsp.header.revision <ℤ top)
      → Kept s
      → Kept (took b rsp s)
  unfolding set_current_revision
  took-Kept true rsp s below h = (h.0, rw (current_revision-take_leader rsp.kvs _) (below refl))
  took-Kept false rsp s below h = h

  follow-Kept : (c : Call) (r : Reply c) (s : Seen) → Sized c r s → Kept s → Kept (follow c r s)
  follow-Kept (range stub context req) r s ok h = took-Kept r.0.is_ok r.1 s ok h
  follow-Kept (watch_read stream) none s ok h = h
  follow-Kept (watch_read stream) (some rsp) s ok h =
      moved-Kept (find_event (watch_event s.node) rsp.events) s
        (λ revision e. found-Within (watch_event s.node) rsp.events revision (ok rsp refl) e) h
  follow-Kept _ r s ok h = h

  watch_revision-Within : (s : Seen) → Kept s → Within (watch_revision s.node s.revision)
  unfolding watch_revision get_watch_revision
  watch_revision-Within s h = elim (Bool-cases (is_valid s.node)) [
    | inl v ↦ rw v (ground arith, ground arith)
    | inr v ↦ rw v h.0
  ]

  module _ (lib : StatusLibrary) (c : CharKind) (client : Client) (ctx : ℕ) (key_prefix : Bytes)
      (options : ElectionWatchOptions) (n : ℕ) (node : ElectionNode) where
    -- The caller's revision lies between `bottom` and `top`, and the revision of its node and of each good
    -- answer is below `top`; the create revisions of events are above `bottom` and not above `top`. Whatever
    -- else is answered, each watch request of Watch starts at a revision between `bottom` and `top`, and the
    -- sum of the node's revision and 1 is not above `top`.
    pub watch_starts-Within :
        Within options.revision
        → node.current_revision <ℤ top
        → {stream : ℕ} {req : WatchRequest} {s : Seen}
          {k : Reply (watch_write_last stream req) → Prog (lib.Status × ElectionNode)}
        → Reach
            (answered_by (conversation c key_prefix) Sized)
            (watch lib c client ctx key_prefix options n node)
            (record { node = node; revision = options.revision })
            (call (watch_write_last stream req) k)
            s
        → (create : WatchCreateRequest) × (req ≡ create_request create)
          × Within create.start_revision
          × (get_watch_revision s.node +ℤ pos 1 ≤ℤ top)
    unfolding get_watch_revision
    watch_starts-Within h current {s} reached =
        let at =
          Protocol.Obeys-Reach (conversation c key_prefix) (Answer lib) Sized Kept follow-Kept
            (watch-Answer lib c client ctx key_prefix options n node) (h, current) reached in
        (
          _,
          at.0.0,
          rw (start_revision-watch_options c s.node (watch_revision s.node s.revision) key_prefix)
              (watch_revision-Within s at.1),
          (let below : s.node.current_revision <ℤ top = at.1.1 in ground arith),
        )
