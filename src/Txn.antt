-- ===== src/Txn.antt =====
-- `class Txn` of etcdv3client/kv.h and `Client::Txn` of etcdv3client/kv.cc. A method returns the request
-- that the builder then holds. The argument of `Then` and `Else` is another builder than the one that the
-- method is called on.
pub mod Order
pub mod Complete
use etcdv3client.Prelude.{ℕ, [], ◌∷◌, ◌++◌}
use etcdv3client.Bytes.{Bytes}
use etcdv3client.Status.{GrpcStatus}
use etcdv3client.Options.{Options, apply}
use etcdv3client.Client.{Client}
use etcdv3client.Effect.{Prog, call, ret, perform, txn}
use etcdv3client.Proto.Kv.{
  RangeRequest, PutRequest, DeleteRangeRequest, default_range_request, default_put_request,
  default_delete_range_request,
}
use etcdv3client.Proto.Txn.{
  Compare, RequestOp, request_range, request_put, request_delete_range, request_txn, TxnRequest,
  txn_request, TxnResponse, default_txn_request, add_op,
}

pub record Txn : Type 0 where
  pub request : TxnRequest

abbrev pub new_txn : Txn
new_txn = record { request = default_txn_request }

abbrev add_compare : TxnRequest → Compare → TxnRequest
add_compare (txn_request c s f) x = txn_request (c ++ x ∷ []) s f

abbrev add_success : TxnRequest → RequestOp → TxnRequest
add_success (txn_request c s f) op = txn_request c (add_op s op) f

abbrev add_failure : TxnRequest → RequestOp → TxnRequest
add_failure (txn_request c s f) op = txn_request c s (add_op f op)

-- The requests that the `Range`, `Put` and `DeleteRange` methods build.
abbrev range_op : Bytes → Options RangeRequest → RequestOp
range_op key options = request_range (apply options (record default_range_request { key = key }))

abbrev put_op : Bytes → Bytes → Options PutRequest → RequestOp
put_op key value options =
    request_put (apply options (record default_put_request { key = key; value = value }))

abbrev delete_range_op : Bytes → Options DeleteRangeRequest → RequestOp
delete_range_op key options =
    request_delete_range (apply options (record default_delete_range_request { key = key }))

-- Both overloads of `If`: the move assignment from a const reference copies.
unfoldable pub if_compare : Txn → Compare → Txn
if_compare t x = record { request = add_compare t.request x }

unfoldable pub then_txn : Txn → Txn → Txn
then_txn t u = record { request = add_success t.request (request_txn u.request) }

unfoldable pub then_range : Txn → Bytes → Options RangeRequest → Txn
then_range t key options = record { request = add_success t.request (range_op key options) }

unfoldable pub then_put : Txn → Bytes → Bytes → Options PutRequest → Txn
then_put t key value options = record { request = add_success t.request (put_op key value options) }

unfoldable pub then_delete_range : Txn → Bytes → Options DeleteRangeRequest → Txn
then_delete_range t key options = record {
  request = add_success t.request (delete_range_op key options);
}

unfoldable pub else_txn : Txn → Txn → Txn
else_txn t u = record { request = add_failure t.request (request_txn u.request) }

unfoldable pub else_range : Txn → Bytes → Options RangeRequest → Txn
else_range t key options = record { request = add_failure t.request (range_op key options) }

unfoldable pub else_put : Txn → Bytes → Bytes → Options PutRequest → Txn
else_put t key value options = record { request = add_failure t.request (put_op key value options) }

unfoldable pub else_delete_range : Txn → Bytes → Options DeleteRangeRequest → Txn
else_delete_range t key options = record {
  request = add_failure t.request (delete_range_op key options);
}

unfoldable pub get_request : Txn → TxnRequest
get_request t = t.request

unfoldable pub client_txn : Client → ℕ → Txn → Prog (GrpcStatus × TxnResponse)
unfolding get_request
client_txn client context t = perform (txn client.kv_stub context (get_request t))
