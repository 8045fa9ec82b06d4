-- ===== src/Proto/Txn.antt =====
-- The transaction messages of proto/rpc.proto. A request holds a list of operations, which may hold
-- requests, so the list is a type of the block.
use etcdv3client.Prelude.{ℤ, Bool, List, [], ◌≡◌, refl}
use etcdv3client.Bytes.{Bytes}
use etcdv3client.Proto.Kv.{
  RangeRequest, PutRequest, DeleteRangeRequest, RangeResponse, PutResponse, DeleteRangeResponse,
  ResponseHeader,
}

pub data CompareResult : Type 0 where
  equal greater less not_equal : CompareResult

-- `target_union`, with the value that is compared.
pub data CompareTarget : Type 0 where
  version create_revision mod_revision lease : ℤ → CompareTarget
  value : Bytes → CompareTarget

pub record Compare : Type 0 where
  pub result : CompareResult
  pub target : CompareTarget
  pub key : Bytes
  pub range_end : Bytes

-- An operation whose oneof is set (rpc.proto also admits one that is not, which the builder never makes).
mutual
  pub data RequestOp : Type 0 where
    request_range : RangeRequest → RequestOp
    request_put : PutRequest → RequestOp
    request_delete_range : DeleteRangeRequest → RequestOp
    request_txn : TxnRequest → RequestOp

  pub data RequestOps : Type 0 where
    nil : RequestOps
    cons : RequestOp → RequestOps → RequestOps

  pub data TxnRequest : Type 0 where
    txn_request : List Compare → RequestOps → RequestOps → TxnRequest

abbrev pub default_txn_request : TxnRequest
default_txn_request = txn_request [] nil nil

abbrev pub compares : TxnRequest → List Compare
compares (txn_request c s f) = c

abbrev pub successes : TxnRequest → RequestOps
successes (txn_request c s f) = s

abbrev pub failures : TxnRequest → RequestOps
failures (txn_request c s f) = f

-- add_success() and add_failure() append at the end.
unfoldable pub add_op : RequestOps → RequestOp → RequestOps
add_op nil o = cons o nil
add_op (cons x xs) o = cons x (add_op xs o)

unfoldable pub append_ops : RequestOps → RequestOps → RequestOps
append_ops nil ys = ys
append_ops (cons x xs) ys = cons x (append_ops xs ys)

pub append_ops-add_op :
    (xs : RequestOps) (o : RequestOp) (ys : RequestOps)
    → append_ops (add_op xs o) ys ≡ append_ops xs (cons o ys)
unfolding add_op append_ops
append_ops-add_op nil o ys = refl
append_ops-add_op (cons x xs) o ys = rw (append_ops-add_op xs o ys)

pub append_ops-nil : (xs : RequestOps) → append_ops xs nil ≡ xs
unfolding append_ops
append_ops-nil nil = refl
append_ops-nil (cons x xs) = rw (append_ops-nil xs)

mutual
  pub data ResponseOp : Type 0 where
    response_range : RangeResponse → ResponseOp
    response_put : PutResponse → ResponseOp
    response_delete_range : DeleteRangeResponse → ResponseOp
    response_txn : TxnResponse → ResponseOp

  pub data ResponseOps : Type 0 where
    nil : ResponseOps
    cons : ResponseOp → ResponseOps → ResponseOps

  pub data TxnResponse : Type 0 where
    txn_response : ResponseHeader → Bool → ResponseOps → TxnResponse
