-- ===== src/Kv.antt =====
-- The KV part of `Client`: etcdv3client/kv.cc, with the option classes of etcdv3client/kv.h in the
-- modules below.
pub mod RangeOptions
pub mod PutOptions
pub mod DeleteRangeOptions
pub mod CompactOptions
pub mod Prefixes
pub mod Complete
use etcdv3client.Prelude.{ℕ, ℤ}
use etcdv3client.Bytes.{Bytes}
use etcdv3client.Status.{GrpcStatus}
use etcdv3client.Options.{Options, apply}
use etcdv3client.Client.{Client}
use etcdv3client.Effect.{Prog, call, ret, perform, range, put, delete_range, compact}
use etcdv3client.Proto.Kv.{
  RangeRequest, RangeResponse, PutRequest, PutResponse, DeleteRangeRequest, DeleteRangeResponse,
  CompactionRequest, CompactionResponse, default_range_request, default_put_request,
  default_delete_range_request, default_compaction_request,
}

unfoldable pub client_range :
    Client → ℕ → Bytes → Options RangeRequest → Prog (GrpcStatus × RangeResponse)
unfolding apply
client_range client context key options =
    perform
      (range client.kv_stub context (apply options (record default_range_request { key = key })))

unfoldable pub client_put :
    Client → ℕ → Bytes → Bytes → Options PutRequest → Prog (GrpcStatus × PutResponse)
unfolding apply
client_put client context key value options = perform (
    put client.kv_stub context
      (apply options (record default_put_request { key = key; value = value })))

unfoldable pub client_delete_range :
    Client → ℕ → Bytes → Options DeleteRangeRequest → Prog (GrpcStatus × DeleteRangeResponse)
unfolding apply
client_delete_range client context key options = perform (
    delete_range client.kv_stub context
      (apply options (record default_delete_range_request { key = key })))

unfoldable pub client_compact :
    Client → ℕ → ℤ → Options CompactionRequest → Prog (GrpcStatus × CompactionResponse)
unfolding apply
client_compact client context revision options = perform (
    compact client.kv_stub context
      (apply options (record default_compaction_request { revision = revision })))
