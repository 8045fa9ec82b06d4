-- ===== src/Tests/Data.antt =====
-- Concrete stand-ins for the code outside the repository, and the inputs that the tests share.
use etcdv3client.Prelude.{none, some, pos, ℕ, refl, Bool, true, false, [], ◌∷◌, ◌==◌}
use etcdv3client.Bytes.{Bytes}
use etcdv3client.Status.{StatusLibrary, GrpcStatus}
use etcdv3client.Client.{Client, standard}
use etcdv3client.Effect.{
  Call, Reply, create_channel, get_channel, new_stub, make_context, invoke_context, try_cancel,
  range, put, delete_range, txn, compact, open_watch, watch_write_last, watch_read, lease_grant,
  lease_revoke, lease_time_to_live, lease_leases, open_keep_alive, keep_alive_write,
  keep_alive_read, finish, finished, wait, sleep_for, new_back_off, back_off_next, back_off_reset,
  is_set, set, reset, start_thread, joinable, join,
}
use etcdv3client.Proto.Kv.{KeyValue, ResponseHeader, RangeResponse}
use etcdv3client.Proto.Txn.{txn_response, nil}
use etcdv3client.LeaderSession.{EventLibrary}

-- A status is its code.
abbrev pub codes : StatusLibrary
codes = record {
  Status = ℕ;
  default_status = 0;
  of_code = λ n. n;
  of_code_message = λ n m. n;
  with_scope = λ s scope. s;
  with_value = λ s v. s;
  code = λ s. s;
  is_ok = λ s. s == 0;
  cancelled = 1;
  is_ok_lem = λ s. refl;
  code-default = refl;
  code-of_code = λ n. refl;
  code-of_code_message = λ n m. refl;
  code-with_scope = λ s scope. refl;
  code-with_value = λ s v. refl;
}

-- An event is whether it is set.
abbrev pub flags : EventLibrary
flags = record {
  Event = Bool;
  new_event = false;
  new_event_with = λ a b. b;
  is_set = λ e. e;
  is_set-new_event = refl;
  is_set-new_event_with = λ a b. refl;
}

abbrev pub client : Client
client = record {
  transport = standard (record { channel = 1 });
  kv_stub = 2;
  watch_stub = 3;
  lease_stub = 4;
  cluster_stub = 5;
  maintenance_stub = 6;
  auth_stub = 7;
}

abbrev pub good : GrpcStatus
good = record { is_ok = true; error_code = 0; error_message = [] }

-- "a", "ab" and a key with a byte 255.
abbrev pub key_a : Bytes
key_a = 97 ∷ []

abbrev pub key_ab : Bytes
key_ab = 97 ∷ 98 ∷ []

abbrev pub key_wrapping : Bytes
key_wrapping = 97 ∷ 255 ∷ 98 ∷ 255 ∷ []

abbrev pub header : ResponseHeader
header = record { revision = pos 8 }

abbrev pub pair : KeyValue
pair = record {
  key = [];
  create_revision = pos 5;
  mod_revision = pos 6;
  version = pos 1;
  value = [];
  lease = pos 7;
}

abbrev pub nobody : RangeResponse
nobody = record { header = record { revision = pos 9 }; kvs = []; more = false; count = pos 0 }

-- A server that grants lease 7, has `found` for every Range request and ends every watch; `stop` is whether
-- what is waited for has come.
abbrev pub reply : (c : Call) → Bool → RangeResponse → Reply c
reply (create_channel target) stop found = 1
reply (get_channel t) stop found = 1
reply (new_stub service channel) stop found = 1
reply make_context stop found = 1
reply (invoke_context f) stop found = 1
reply (try_cancel context) stop found = tt
reply (range stub context req) stop found = (good, found)
reply (put stub context req) stop found = (good, record { header = header; prev_kv = pair })
reply (delete_range stub context req) stop found =
    (good, record { header = header; deleted = pos 0; prev_kvs = [] })
reply (txn stub context req) stop found = (good, txn_response header true nil)
reply (compact stub context req) stop found = (good, record { header = header })
reply (open_watch stub context) stop found = 1
reply (watch_write_last stream req) stop found = true
reply (watch_read stream) stop found = none
reply (lease_grant stub context req) stop found =
    (good, record { id = pos 7; ttl = pos 60; error = [] })
reply (lease_revoke stub context req) stop found = good
reply (lease_time_to_live stub context req) stop found =
    (good, record { id = pos 7; ttl = pos 60; granted_ttl = pos 60; keys = [] })
reply (lease_leases stub context) stop found = (good, record { leases = [] })
reply (open_keep_alive stub context) stop found = 1
reply (keep_alive_write stream req) stop found = true
reply (keep_alive_read stream) stop found = some (record { id = pos 7; ttl = pos 60 })
reply (finish stream) stop found = good
reply (finished w) stop found = stop
reply (wait w d) stop found = stop
reply (sleep_for d) stop found = tt
reply (new_back_off lo hi) stop found = 1
reply (back_off_next b) stop found = pos 1
reply (back_off_reset b keep) stop found = tt
reply (is_set e) stop found = false
reply (set e) stop found = tt
reply (reset e) stop found = tt
reply (start_thread context options) stop found = tt
reply joinable stop found = true
reply join stop found = tt
