-- ===== src/Effect/Replies.antt =====
-- Some reply to each call.
use etcdv3client.Prelude.{none, pos, false, []}
use etcdv3client.Status.{GrpcStatus}
use etcdv3client.Proto.Kv.{KeyValue, ResponseHeader}
use etcdv3client.Proto.Txn.{txn_response, nil}
use etcdv3client.Effect.{
  Call, Reply, create_channel, get_channel, new_stub, make_context, invoke_context, try_cancel,
  range, put, delete_range, txn, compact, open_watch, watch_write_last, watch_read, lease_grant,
  lease_revoke, lease_time_to_live, lease_leases, open_keep_alive, keep_alive_write,
  keep_alive_read, finish, finished, wait, sleep_for, new_back_off, back_off_next, back_off_reset,
  is_set, set, reset, start_thread, joinable, join,
}

abbrev unsent : GrpcStatus
unsent = record { is_ok = false; error_code = 14; error_message = [] }

abbrev header : ResponseHeader
header = record { revision = pos 0 }

abbrev no_pair : KeyValue
no_pair = record {
  key = [];
  create_revision = pos 0;
  mod_revision = pos 0;
  version = pos 0;
  value = [];
  lease = pos 0;
}

abbrev pub some_reply : (c : Call) → Reply c
some_reply (create_channel target) = 0
some_reply (get_channel t) = 0
some_reply (new_stub service channel) = 0
some_reply make_context = 0
some_reply (invoke_context f) = 0
some_reply (try_cancel context) = tt
some_reply (range stub context req) =
    (unsent, record { header = header; kvs = []; more = false; count = pos 0 })
some_reply (put stub context req) = (unsent, record { header = header; prev_kv = no_pair })
some_reply (delete_range stub context req) =
    (unsent, record { header = header; deleted = pos 0; prev_kvs = [] })
some_reply (txn stub context req) = (unsent, txn_response header false nil)
some_reply (compact stub context req) = (unsent, record { header = header })
some_reply (open_watch stub context) = 0
some_reply (watch_write_last stream req) = false
some_reply (watch_read stream) = none
some_reply (lease_grant stub context req) = (unsent, record { id = pos 0; ttl = pos 0; error = [] })
some_reply (lease_revoke stub context req) = unsent
some_reply (lease_time_to_live stub context req) =
    (unsent, record { id = pos 0; ttl = pos 0; granted_ttl = pos 0; keys = [] })
some_reply (lease_leases stub context) = (unsent, record { leases = [] })
some_reply (open_keep_alive stub context) = 0
some_reply (keep_alive_write stream req) = false
some_reply (keep_alive_read stream) = none
some_reply (finish stream) = unsent
some_reply (finished w) = false
some_reply (wait w d) = false
some_reply (sleep_for d) = tt
some_reply (new_back_off lo hi) = 0
some_reply (back_off_next b) = pos 1
some_reply (back_off_reset b keep) = tt
some_reply (is_set e) = false
some_reply (set e) = tt
some_reply (reset e) = tt
some_reply (start_thread context options) = tt
some_reply joinable = false
some_reply join = tt
