-- ===== src/Election.antt =====
-- `Client::ElectionImpl` of etcdv3client/election.cc: GetLeader and Watch. The out parameter
-- `out_leader_node` is passed along and comes back with the status. Loops run on fuel; revisions do not
-- wrap.
pub mod Node
pub mod Leader
pub mod FirstRound
pub mod Watching
pub mod Requests
pub mod Rounds
pub mod Termination
pub mod Conversation
pub mod Change
pub mod Revisions
use etcdv3client.Prelude.{
  ℕ, zero, suc, ℤ, pos, Bool, true, false, Option, none, some, List, [], ◌∷◌, ◌&&◌, ◌||◌, ◌==ℤ◌,
  ltb_ℤ, max_ℤ, ◌+ℤ◌, ◌-ℤ◌, if◌then◌else◌,
}
use etcdv3client.Bytes.{Bytes}
use etcdv3client.Status.{StatusLibrary, GrpcStatus, make_default, make, code_value, grpc_error}
use etcdv3client.Prefix.{CharKind}
use etcdv3client.Client.{Client}
use etcdv3client.Kv.{client_range}
use etcdv3client.Kv.RangeOptions
use etcdv3client.Watch.{
  WatchOptions, with_prefix, with_start_revision, with_no_put, with_no_delete, client_watch_single,
}
use etcdv3client.Session.{back_off_failed}
use etcdv3client.Proto.Kv.{KeyValue, RangeResponse}
use etcdv3client.Proto.Watch.{EventType, put, delete, Event}
use etcdv3client.Effect.{
  context_done, Prog, ret, call, out_of_fuel, perform, ◌>>=◌, ◌>>◌, get_grpc_client_context,
  watch_read, finish, wait, new_back_off, back_off_reset,
}
use Node.{
  ElectionNode, is_valid, get_watch_revision, set_bykv, set_current_revision, ElectionWatchOptions,
  default_watch_options,
}

-- `response.kvs().size() != 1` leaves the node as it is.
unfoldable pub take_leader : List KeyValue → ElectionNode → ElectionNode
unfolding set_bykv
take_leader (kv ∷ []) node = set_bykv node kv
take_leader _ node = node

-- The revision that the next watch starts at.
unfoldable pub watch_revision : ElectionNode → ℤ → ℤ
unfolding is_valid get_watch_revision
watch_revision node revision =
    if is_valid node then max_ℤ (get_watch_revision node +ℤ pos 1) revision else revision

-- With a leader it waits for a DELETE event, without one for a PUT event.
unfoldable pub watch_options : CharKind → ElectionNode → ℤ → WatchOptions
unfolding is_valid with_prefix with_start_revision with_no_put with_no_delete
watch_options c node revision =
    let options = with_start_revision (with_prefix c []) revision in
    if is_valid node then with_no_put options else with_no_delete options

unfoldable pub watch_event : ElectionNode → EventType
unfolding is_valid
watch_event node = if is_valid node then delete else put

unfoldable pub same_type : EventType → EventType → Bool
same_type put put = true
same_type delete delete = true
same_type _ _ = false

-- The first event of the type, as the revision that the loop goes on with.
unfoldable pub find_event : EventType → List Event → Option ℤ
unfolding same_type
find_event t [] = none
find_event t (event ∷ events) =
    let rest = find_event t events in
    if same_type event.type t then some (event.kv.create_revision -ℤ pos 1) else rest

module _ (lib : StatusLibrary) (c : CharKind) (client : Client) where
  unfoldable pub get_leader : ℕ → Bytes → ElectionNode → Prog (lib.Status × ElectionNode)
  unfolding client_range RangeOptions.with_first_create make make_default code_value take_leader
      set_current_revision
  get_leader context key_prefix node = do
    (status, response) ←
        client_range client context key_prefix (RangeOptions.with_first_create c [])
    if status.is_ok
        then ret (
          lib.with_value (make_default lib) status,
          take_leader response.kvs (set_current_revision node response.header.revision),
        )
        else ret (lib.with_value (make lib (code_value grpc_error)) status, node)

-- `out_leader_node->IsValid() && (revision == 0 || revision < get_create_revision())`
unfoldable pub is_new_leader : ElectionNode → ℤ → Bool
unfolding is_valid
is_new_leader node revision =
    is_valid node && ((revision ==ℤ pos 0) || ltb_ℤ revision node.create_revision)

-- How "Get current leader until context done" ends.
pub data Fetched : Type 0 where
  cancelled fetched : ElectionNode → Fetched

-- How "Watching in single request" ends.
pub data ReadEnd : Type 0 where
  found : ℤ → ReadEnd
  again : ReadEnd
  stopped : ReadEnd

module _ (lib : StatusLibrary) (c : CharKind) (client : Client) (ctx : ℕ) (key_prefix : Bytes)
    (options : ElectionWatchOptions) where
  unfoldable pub fetch_loop : ℕ → ℕ → ElectionNode → Prog Fetched
  unfolding get_leader get_grpc_client_context back_off_failed
  fetch_loop zero backoff node = out_of_fuel
  fetch_loop (suc n) backoff node = do
    context ← get_grpc_client_context options.get_grpc_client_context_func
    (status, node') ← get_leader lib c client context key_prefix node
    if lib.is_ok status then ret (fetched node') else do
      d ← back_off_failed backoff
      stop ← perform (wait (context_done ctx) d)
      if stop then ret (cancelled node') else fetch_loop n backoff node'

  -- "Error happened. Close the current watch request"
  unfoldable pub read_failed : ℕ → ℕ → Prog ReadEnd
  unfolding back_off_failed
  read_failed backoff stream = do
    perform (finish stream)
    d ← back_off_failed backoff
    stop ← perform (wait (context_done ctx) d)
    if stop then ret stopped else ret again

  -- "Watching in single request"
  unfoldable pub read_loop : ℕ → ℕ → ℕ → EventType → Prog ReadEnd
  unfolding read_failed find_event
  read_loop zero backoff stream t = out_of_fuel
  read_loop (suc n) backoff stream t = do
    answer ← perform (watch_read stream)
    elim answer [
      | none ↦ read_failed backoff stream
      | some rsp ↦ elim (find_event t rsp.events) [
        | none ↦ read_loop n backoff stream t
        | some revision ↦ perform (finish stream) >> ret (found revision)
      ]
    ]

  -- "Continue watching event"; `none` is a cancelled context.
  unfoldable pub watch_loop : ℕ → ℕ → ℕ → WatchOptions → EventType → Prog (Option ℤ)
  unfolding get_grpc_client_context client_watch_single read_loop
  watch_loop inner zero backoff o t = out_of_fuel
  watch_loop inner (suc n) backoff o t = do
    context ← get_grpc_client_context options.get_grpc_client_context_func
    stream ← client_watch_single client context key_prefix o
    end ← read_loop inner backoff stream t
    elim end [
      | found revision ↦ ret (some revision)
      | again ↦ watch_loop inner n backoff o t
      | stopped ↦ ret none
    ]

  -- "Watch for new leader"
  unfoldable pub watch_next : ℕ → ℕ → ElectionNode → ℤ → Prog (Option ℤ)
  unfolding watch_loop watch_revision watch_options watch_event
  watch_next inner backoff node revision = do
    perform (back_off_reset backoff none)
    let revision' = watch_revision node revision
    watch_loop inner inner backoff (watch_options c node revision') (watch_event node)

  -- "Watch leader loop"; `inner` is the fuel of the loops inside.
  unfoldable pub leader_loop : ℕ → ℕ → ℕ → ElectionNode → ℤ → Prog (lib.Status × ElectionNode)
  unfolding fetch_loop watch_next is_new_leader make_default make
  leader_loop inner zero backoff node revision = out_of_fuel
  leader_loop inner (suc n) backoff node revision = do
    leader ← fetch_loop inner backoff node
    elim leader [
      | cancelled node' ↦ ret (make lib lib.cancelled, node')
      | fetched node' ↦ if is_new_leader node' revision then ret (make_default lib, node') else do
        event ← watch_next inner backoff node' revision
        elim event [
          | none ↦ ret (make lib lib.cancelled, node')
          | some next ↦ leader_loop inner n backoff node' next
        ]
    ]

  unfoldable pub watch : ℕ → ElectionNode → Prog (lib.Status × ElectionNode)
  unfolding leader_loop
  watch n node = do
    backoff ← perform (new_back_off (pos 1) (pos 10))
    leader_loop n n backoff node options.revision
