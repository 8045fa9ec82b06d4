-- ===== src/Wire.antt =====
-- How gRPC asks to be used: a context serves for one request, a stream is read, written and cancelled
-- only while it is open, and is finished before anything else is begun, but only once no more messages
-- can come on it: a write or a read on it has failed, or its context has been cancelled. Etcd's services
-- ask that a request goes to the stub of its service. The state is that of one thread, which has one
-- request at a time.
pub mod LeaseLoops
pub mod Lease
pub mod WatchLoops
pub mod Watching
pub mod EarlyFinish
pub mod Methods
use etcdv3client.Prelude.{
  ℕ, ◌≡◌, refl, Bool, true, false, Option, none, some, if◌then◌else◌, ◌||◌, not,
}
use etcdv3client.Client.{Client}
use etcdv3client.Session.Options.{ContextFunction}
use etcdv3client.Effect.Protocol.{Protocol, Obeys}
use etcdv3client.Effect.{
  Call, Reply, Prog, ret, call, out_of_fuel, ◌>>=◌, get_grpc_client_context, make_context,
  invoke_context, try_cancel, range, put, delete_range, txn, compact, open_watch, watch_write_last,
  watch_read, lease_grant, lease_revoke, lease_time_to_live, lease_leases, open_keep_alive,
  keep_alive_write, keep_alive_read, finish, finished, wait, sleep_for, new_back_off, back_off_next,
  back_off_reset, set, reset,
}

-- Between two requests, with the context that is there and not used yet, or with a stream and its context:
-- `asked` after a request on it that has no answer yet, `half_closed` after the last request on it, `over`
-- once a write or a read on it has failed or its context has been cancelled. (The result of the last write
-- is not looked at.)
pub data Wire : Type 0 where
  idle : Option ℕ → Wire
  streaming : (stream context : ℕ) (asked half_closed over : Bool) → Wire

abbrev pub IsIdle : Wire → Type 0
IsIdle (idle c) = Unit {0}
IsIdle (streaming s c asked half_closed over) = ⊥

-- A read without an answer: the stream has ended.
abbrev pub is_none {ℓ} : {A : Type ℓ} → Option A → Bool
is_none none = true
is_none (some a) = false

abbrev pub follow : (c : Call) → Reply c → Wire → Wire
follow make_context r w = idle (some r)
follow (invoke_context f) r w = idle (some r)
follow (range stub context req) r w = idle none
follow (put stub context req) r w = idle none
follow (delete_range stub context req) r w = idle none
follow (txn stub context req) r w = idle none
follow (compact stub context req) r w = idle none
follow (lease_grant stub context req) r w = idle none
follow (lease_revoke stub context req) r w = idle none
follow (lease_time_to_live stub context req) r w = idle none
follow (lease_leases stub context) r w = idle none
follow (open_watch stub context) r w = streaming r context false false false
follow (open_keep_alive stub context) r w = streaming r context false false false
follow (watch_write_last stream req) r (streaming s c asked half_closed over) =
    streaming s c asked true over
follow (watch_read stream) r (streaming s c asked half_closed over) =
    streaming s c asked half_closed (is_none r)
follow (keep_alive_write stream req) r (streaming s c asked half_closed over) =
    streaming s c r half_closed (not r)
follow (keep_alive_read stream) r (streaming s c asked half_closed over) =
    streaming s c false half_closed (is_none r)
follow (try_cancel context) r (streaming s c asked half_closed over) =
    streaming s c asked half_closed true
follow (finish stream) r w = idle none
follow _ r w = w

module _ (client : Client) (early : Bool) where
  -- The calls that may be made; `early` lets Finish be called while messages can still come.
  abbrev pub Legal : Call → Wire → Type 0
  Legal make_context w = IsIdle w
  Legal (invoke_context f) w = IsIdle w
  Legal (range stub context req) w = (stub ≡ client.kv_stub) × (w ≡ idle (some context))
  Legal (put stub context req) w = (stub ≡ client.kv_stub) × (w ≡ idle (some context))
  Legal (delete_range stub context req) w = (stub ≡ client.kv_stub) × (w ≡ idle (some context))
  Legal (txn stub context req) w = (stub ≡ client.kv_stub) × (w ≡ idle (some context))
  Legal (compact stub context req) w = (stub ≡ client.kv_stub) × (w ≡ idle (some context))
  Legal (lease_grant stub context req) w = (stub ≡ client.lease_stub) × (w ≡ idle (some context))
  Legal (lease_revoke stub context req) w = (stub ≡ client.lease_stub) × (w ≡ idle (some context))
  Legal (lease_time_to_live stub context req) w =
      (stub ≡ client.lease_stub) × (w ≡ idle (some context))
  Legal (lease_leases stub context) w = (stub ≡ client.lease_stub) × (w ≡ idle (some context))
  Legal (open_keep_alive stub context) w = (stub ≡ client.lease_stub) × (w ≡ idle (some context))
  Legal (open_watch stub context) w = (stub ≡ client.watch_stub) × (w ≡ idle (some context))
  Legal (watch_write_last stream req) (streaming s c asked half_closed over) =
      (stream ≡ s) × (half_closed ≡ false) × (over ≡ false)
  Legal (watch_read stream) (streaming s c asked half_closed over) =
      (stream ≡ s) × (half_closed ≡ true) × (over ≡ false)
  Legal (keep_alive_write stream req) (streaming s c asked half_closed over) =
      (stream ≡ s) × (asked ≡ false) × (half_closed ≡ false) × (over ≡ false)
  Legal (keep_alive_read stream) (streaming s c asked half_closed over) =
      (stream ≡ s) × (asked ≡ true) × (over ≡ false)
  Legal (finish stream) (streaming s c asked half_closed over) =
      (stream ≡ s) × ((over || early) ≡ true)
  Legal (try_cancel context) (streaming s c asked half_closed over) = context ≡ c
  Legal (finished w') w = Unit {0}
  Legal (wait w' d) w = Unit {0}
  Legal (new_back_off lo hi) w = Unit {0}
  Legal (back_off_next b) w = Unit {0}
  Legal (back_off_reset b keep) w = Unit {0}
  Legal (sleep_for d) w = IsIdle w
  Legal (set e) w = IsIdle w
  Legal (reset e) w = IsIdle w
  Legal _ w = ⊥

  abbrev pub wire_of : Protocol
  wire_of = record { State = Wire; follow = follow; Legal = Legal }

-- All of the rules.
abbrev pub wire : Client → Protocol
wire client = wire_of client false

-- All of them, but for the one that Finish waits until no more messages can come.
abbrev pub loose_wire : Client → Protocol
loose_wire client = wire_of client true

-- It returns with no stream open.
abbrev pub Closed : {A : Type 0} → A → Wire → Type 0
Closed a w = IsIdle w

-- It returns with no stream open, and the context that there was has been used for a request.
abbrev pub Spent : {A : Type 0} → A → Wire → Type 0
Spent a w = w ≡ idle none

module _ (client : Client) (early : Bool) where
  -- A request begins with a context.
  pub with_context :
      {A : Type 0} (Q : A → Wire → Type 0) (f : Option ContextFunction) (k : ℕ → Prog A) (w : Wire)
      → IsIdle w
      → ((context : ℕ) → Obeys (wire_of client early) Q (k context) (idle (some context)))
      → Obeys (wire_of client early) Q (get_grpc_client_context f >>= k) w
  unfolding get_grpc_client_context
  with_context Q none k w h rest = (h, rest)
  with_context Q (some f) k w h rest = (h, rest)
