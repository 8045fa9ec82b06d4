-- ===== src/Proto/Watch.antt =====
-- The messages of the Watch service in proto/rpc.proto, and the events of proto/kv.proto.
use etcdv3client.Prelude.{ℤ, pos, Bool, false, List, []}
use etcdv3client.Bytes.{Bytes}
use etcdv3client.Proto.Kv.{KeyValue}

pub data EventType : Type 0 where
  put delete : EventType

-- prev_kv is never read by the client.
pub record Event : Type 0 where
  pub type : EventType
  pub kv : KeyValue

pub data FilterType : Type 0 where
  noput nodelete : FilterType

pub record WatchCreateRequest : Type 0 where
  pub key : Bytes
  pub range_end : Bytes
  pub start_revision : ℤ
  pub progress_notify : Bool
  pub filters : List FilterType
  pub prev_kv : Bool
  pub watch_id : ℤ
  pub fragment : Bool

abbrev pub default_watch_create_request : WatchCreateRequest
default_watch_create_request = record {
  key = [];
  range_end = [];
  start_revision = pos 0;
  progress_notify = false;
  filters = [];
  prev_kv = false;
  watch_id = pos 0;
  fragment = false;
}

-- `request_union`; the client sends create requests only.
pub data WatchRequest : Type 0 where
  create_request : WatchCreateRequest → WatchRequest
  cancel_request : ℤ → WatchRequest

-- The one field of a response that the client reads.
pub record WatchResponse : Type 0 where
  pub events : List Event
