-- ===== src/Effect.antt =====
-- What the client asks of code outside the repository (gRPC, the etcd server behind it, `context`,
-- `cbase::time`, threads), as calls with replies, and programs that make such calls. A reply may be
-- anything of its type: theorems say by hypotheses what they need of replies. That there is one is so for
-- each call but `finish`, which gRPC answers when the stream has ended (see Effect/Stalls and Wire).
-- Handles of objects outside the repository (channels, stubs, gRPC contexts, streams, back-off objects)
-- are numbers.
pub mod Logic
pub mod Run
pub mod Stalls
pub mod Replies
pub mod Protocol
use etcdv3client.Prelude.{ℕ, ℤ, Bool, Option, none, some}
use etcdv3client.Bytes.{Bytes}
use etcdv3client.Status.{GrpcStatus}
use etcdv3client.Session.Options.{ContextFunction, SessionOptions}
use etcdv3client.Proto.Kv.{
  RangeRequest, RangeResponse, PutRequest, PutResponse, DeleteRangeRequest, DeleteRangeResponse,
  CompactionRequest, CompactionResponse,
}
use etcdv3client.Proto.Txn.{TxnRequest, TxnResponse}
use etcdv3client.Proto.Watch.{WatchRequest, WatchResponse}
use etcdv3client.Proto.Lease.{
  LeaseGrantRequest, LeaseGrantResponse, LeaseRevokeRequest, LeaseKeepAliveRequest,
  LeaseKeepAliveResponse, LeaseTimeToLiveRequest, LeaseTimeToLiveResponse, LeaseLeasesResponse,
}

pub data Service : Type 0 where
  kv watch lease cluster maintenance auth : Service

-- The events of a session, shared between its threads.
pub data SessionEvent : Type 0 where
  closed alive expired : SessionEvent

-- What a thread waits on: a context, or WaitAny of a context and the event `closed_`.
pub data Waitable : Type 0 where
  context_done : ℕ → Waitable
  close_event : ℕ → Waitable

pub data Call : Type 0 where
  create_channel : Bytes → Call
  get_channel : ℕ → Call
  new_stub : Service → ℕ → Call
  make_context : Call
  invoke_context : ContextFunction → Call
  try_cancel : ℕ → Call
  range : ℕ → ℕ → RangeRequest → Call
  put : ℕ → ℕ → PutRequest → Call
  delete_range : ℕ → ℕ → DeleteRangeRequest → Call
  txn : ℕ → ℕ → TxnRequest → Call
  compact : ℕ → ℕ → CompactionRequest → Call
  open_watch : ℕ → ℕ → Call
  watch_write_last : ℕ → WatchRequest → Call
  watch_read : ℕ → Call
  lease_grant : ℕ → ℕ → LeaseGrantRequest → Call
  lease_revoke : ℕ → ℕ → LeaseRevokeRequest → Call
  lease_time_to_live : ℕ → ℕ → LeaseTimeToLiveRequest → Call
  lease_leases : ℕ → ℕ → Call
  open_keep_alive : ℕ → ℕ → Call
  keep_alive_write : ℕ → LeaseKeepAliveRequest → Call
  keep_alive_read : ℕ → Call
  finish : ℕ → Call
  finished : Waitable → Call
  wait : Waitable → ℤ → Call
  sleep_for : ℤ → Call
  new_back_off : ℤ → ℤ → Call
  back_off_next : ℕ → Call
  back_off_reset : ℕ → Option Bool → Call
  is_set : SessionEvent → Call
  set reset : SessionEvent → Call
  start_thread : ℕ → SessionOptions → Call
  joinable : Call
  join : Call

-- `Read` fills a message and returns true, or returns false: an optional message.
abbrev pub Reply : Call → Type 0
Reply (create_channel target) = ℕ
Reply (get_channel transport) = ℕ
Reply (new_stub service channel) = ℕ
Reply make_context = ℕ
Reply (invoke_context f) = ℕ
Reply (try_cancel context) = Unit {0}
Reply (range stub context req) = GrpcStatus × RangeResponse
Reply (put stub context req) = GrpcStatus × PutResponse
Reply (delete_range stub context req) = GrpcStatus × DeleteRangeResponse
Reply (txn stub context req) = GrpcStatus × TxnResponse
Reply (compact stub context req) = GrpcStatus × CompactionResponse
Reply (open_watch stub context) = ℕ
Reply (watch_write_last stream req) = Bool
Reply (watch_read stream) = Option WatchResponse
Reply (lease_grant stub context req) = GrpcStatus × LeaseGrantResponse
Reply (lease_revoke stub context req) = GrpcStatus
Reply (lease_time_to_live stub context req) = GrpcStatus × LeaseTimeToLiveResponse
Reply (lease_leases stub context) = GrpcStatus × LeaseLeasesResponse
Reply (open_keep_alive stub context) = ℕ
Reply (keep_alive_write stream req) = Bool
Reply (keep_alive_read stream) = Option LeaseKeepAliveResponse
Reply (finish stream) = GrpcStatus
Reply (finished w) = Bool
Reply (wait w d) = Bool
Reply (sleep_for d) = Unit {0}
Reply (new_back_off lo hi) = ℕ
Reply (back_off_next b) = ℤ
Reply (back_off_reset b keep) = Unit {0}
Reply (is_set e) = Bool
Reply (set e) = Unit {0}
Reply (reset e) = Unit {0}
Reply (start_thread context options) = Unit {0}
Reply joinable = Bool
Reply join = Unit {0}

-- A program: it returns, makes a call and goes on with the reply, or has used up the rounds that its
-- loops were given.
pub data Prog (A : Type 0) : Type 0 where
  ret : A → Prog A
  call : (c : Call) → (Reply c → Prog A) → Prog A
  out_of_fuel : Prog A

abbrev pub perform : (c : Call) → Prog (Reply c)
perform c = call c ret

infixl 5 ◌>>=◌ ◌>>◌
abbrev pub ◌>>=◌ : {A B : Type 0} → Prog A → (A → Prog B) → Prog B
ret a >>= f = f a
call c k >>= f = call c (λ r. k r >>= f)
out_of_fuel >>= f = out_of_fuel

abbrev pub ◌>>◌ : {A B : Type 0} → Prog A → Prog B → Prog B
p >> q = p >>= λ _. q

-- GetGRPCClientContext(f): the callback's context, or a new one where there is no callback.
unfoldable pub get_grpc_client_context : Option ContextFunction → Prog ℕ
get_grpc_client_context (some f) = perform (invoke_context f)
get_grpc_client_context none = perform make_context
