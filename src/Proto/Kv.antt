-- ===== src/Proto/Kv.antt =====
-- proto/kv.proto, and the requests of the KV service in proto/rpc.proto.
use etcdv3client.Prelude.{ℤ, pos, Bool, false, List, []}
use etcdv3client.Bytes.{Bytes}

pub record KeyValue : Type 0 where
  pub key : Bytes
  pub create_revision : ℤ
  pub mod_revision : ℤ
  pub version : ℤ
  pub value : Bytes
  pub lease : ℤ

-- cluster_id, member_id and raft_term are never read by the client.
pub record ResponseHeader : Type 0 where
  pub revision : ℤ

pub data SortOrder : Type 0 where
  unsorted ascend descend : SortOrder

pub data SortTarget : Type 0 where
  by_key by_version by_create by_mod by_value : SortTarget

pub record RangeRequest : Type 0 where
  pub key : Bytes
  pub range_end : Bytes
  pub limit : ℤ
  pub revision : ℤ
  pub sort_order : SortOrder
  pub sort_target : SortTarget
  pub serializable : Bool
  pub keys_only : Bool
  pub count_only : Bool
  pub min_mod_revision : ℤ
  pub max_mod_revision : ℤ
  pub min_create_revision : ℤ
  pub max_create_revision : ℤ

abbrev pub default_range_request : RangeRequest
default_range_request = record {
  key = [];
  range_end = [];
  limit = pos 0;
  revision = pos 0;
  sort_order = unsorted;
  sort_target = by_key;
  serializable = false;
  keys_only = false;
  count_only = false;
  min_mod_revision = pos 0;
  max_mod_revision = pos 0;
  min_create_revision = pos 0;
  max_create_revision = pos 0;
}

pub record RangeResponse : Type 0 where
  pub header : ResponseHeader
  pub kvs : List KeyValue
  pub more : Bool
  pub count : ℤ

pub record PutRequest : Type 0 where
  pub key : Bytes
  pub value : Bytes
  pub lease : ℤ
  pub prev_kv : Bool
  pub ignore_value : Bool
  pub ignore_lease : Bool

abbrev pub default_put_request : PutRequest
default_put_request = record {
  key = [];
  value = [];
  lease = pos 0;
  prev_kv = false;
  ignore_value = false;
  ignore_lease = false;
}

pub record DeleteRangeRequest : Type 0 where
  pub key : Bytes
  pub range_end : Bytes
  pub prev_kv : Bool

abbrev pub default_delete_range_request : DeleteRangeRequest
default_delete_range_request = record { key = []; range_end = []; prev_kv = false }

pub record CompactionRequest : Type 0 where
  pub revision : ℤ
  pub physical : Bool

abbrev pub default_compaction_request : CompactionRequest
default_compaction_request = record { revision = pos 0; physical = false }

pub record PutResponse : Type 0 where
  pub header : ResponseHeader
  pub prev_kv : KeyValue

pub record DeleteRangeResponse : Type 0 where
  pub header : ResponseHeader
  pub deleted : ℤ
  pub prev_kvs : List KeyValue

pub record CompactionResponse : Type 0 where
  pub header : ResponseHeader
