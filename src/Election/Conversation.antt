-- ===== src/Election/Conversation.antt =====
-- What `Watch` asks the server, and what it makes of the answers, as a protocol.
pub mod Fetch
pub mod Heard
pub mod Watch
use etcdv3client.Prelude.{
  ℕ, zero, suc, ℤ, ◌≡◌, refl, sym, ap, subst, ◌⊎◌, inl, inr, Bool, true, false, Option, none, some,
  [], if◌then◌else◌,
}
use etcdv3client.Bytes.{Bytes}
use etcdv3client.Options.{apply}
use etcdv3client.Status.{StatusLibrary, make, make_default}
use etcdv3client.Prefix.{CharKind}
use etcdv3client.Client.{Client}
use etcdv3client.Kv.RangeOptions.{with_first_create}
use etcdv3client.Proto.Kv.{RangeResponse, default_range_request}
use etcdv3client.Proto.Watch.{WatchResponse, default_watch_create_request, create_request}
use etcdv3client.Session.Options.{ContextFunction}
use etcdv3client.Election.{
  take_leader, watch_revision, watch_options, watch_event, find_event, get_leader, is_new_leader,
  Fetched, cancelled, fetched, ReadEnd, found, again, stopped, fetch_loop, read_failed, read_loop,
  watch_loop, watch_next, leader_loop, watch,
}
use etcdv3client.Election.Node.{ElectionNode, ElectionWatchOptions, set_current_revision}
use etcdv3client.Effect.{
  Call, Reply, Prog, ret, ◌>>=◌, get_grpc_client_context, range, watch_read, watch_write_last,
}
use etcdv3client.Effect.Protocol
use etcdv3client.Effect.Protocol.{Protocol, Obeys}

-- The node that the good answers so far make of the caller's, and the revision that the last event gave, at
-- first that of the options.
pub record Seen : Type 0 where
  pub node : ElectionNode
  pub revision : ℤ

abbrev pub took : Bool → RangeResponse → Seen → Seen
took true rsp s = record s {
  node = take_leader rsp.kvs (set_current_revision s.node rsp.header.revision);
}
took false rsp s = s

abbrev pub moved : Option ℤ → Seen → Seen
moved (some revision) s = record s { revision = revision }
moved none s = s

abbrev pub heard : Option WatchResponse → Seen → Seen
heard (some rsp) s = moved (find_event (watch_event s.node) rsp.events) s
heard none s = s

abbrev pub follow : (c : Call) → Reply c → Seen → Seen
follow (range stub context req) r s = took r.0.is_ok r.1 s
follow (watch_read stream) r s = heard r s
follow _ r s = s

module _ (c : CharKind) (key_prefix : Bytes) where
  abbrev pub Legal : Call → Seen → Type 0
  Legal (range stub context req) s =
      req ≡ apply (with_first_create c []) (record default_range_request { key = key_prefix })
  Legal (watch_write_last stream req) s =
      req
      ≡ create_request (
          apply (watch_options c s.node (watch_revision s.node s.revision))
            (record default_watch_create_request { key = key_prefix }))
  Legal _ s = Unit {0}

  abbrev pub conversation : Protocol
  conversation = record { State = Seen; follow = follow; Legal = Legal }

  module _ {A : Type 0} (Q : A → Seen → Type 0) where
    pub with_context :
        (f : Option ContextFunction) (k : ℕ → Prog A) (s : Seen)
        → ((context : ℕ) → Obeys conversation Q (k context) s)
        → Obeys conversation Q (get_grpc_client_context f >>= k) s
    unfolding get_grpc_client_context
    with_context none k s h = (tt, h)
    with_context (some f) k s h = (tt, h)

    -- An answer to a range, good or bad; an answer on the watch stream, or its end; an event, or none.
    pub branch_took :
        (b : Bool) (rsp : RangeResponse) (p q : Prog A) (s : Seen)
        → Obeys conversation Q p (took true rsp s)
        → Obeys conversation Q q s
        → Obeys conversation Q (if b then p else q) (took b rsp s)
    branch_took true rsp p q s h k = h
    branch_took false rsp p q s h k = k

    pub branch_heard :
        (answer : Option WatchResponse) (p : Prog A) (f : WatchResponse → Prog A) (s : Seen)
        → Obeys conversation Q p s
        → ((rsp : WatchResponse) → Obeys conversation Q (f rsp) (heard (some rsp) s))
        → Obeys conversation Q (elim answer [ none ↦ p | some rsp ↦ f rsp ]) (heard answer s)
    branch_heard none p f s h k = h
    branch_heard (some rsp) p f s h k = k rsp

    pub branch_moved :
        (event : Option ℤ) (p : Prog A) (f : ℤ → Prog A) (s : Seen)
        → Obeys conversation Q p s
        → ((revision : ℤ) → Obeys conversation Q (f revision) (moved (some revision) s))
        → Obeys conversation Q
            (elim event [ none ↦ p | some revision ↦ f revision ])
            (moved event s)
    branch_moved none p f s h k = h
    branch_moved (some revision) p f s h k = k revision

-- What Watch answers: the node that the answers make, with OK where that is a new leader by the revision that
-- was seen last, and with Cancelled otherwise.
abbrev pub Answer : (lib : StatusLibrary) → lib.Status × ElectionNode → Seen → Type 0
Answer lib r t =
    (r.1 ≡ t.node)
    × (((r.0 ≡ make_default lib) × (is_new_leader t.node t.revision ≡ true))
        ⊎ (r.0 ≡ make lib lib.cancelled))
