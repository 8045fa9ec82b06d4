-- ===== src/Txn/Order.antt =====
-- What a chain of calls of the transaction builder makes, whatever order the calls come in.
use mathlib.Core.List.{append_assoc, append-nil}
use etcdv3client.Prelude.{◌≡◌, sym, List, [], ◌∷◌, ◌++◌, ◌∙◌}
use etcdv3client.Bytes.{Bytes}
use etcdv3client.Options.{Options, apply}
use etcdv3client.Proto.Kv.{
  RangeRequest, PutRequest, DeleteRangeRequest, default_range_request, default_put_request,
  default_delete_range_request,
}
use etcdv3client.Proto.Txn.{
  Compare, RequestOp, RequestOps, nil, cons, request_range, request_put, request_delete_range,
  request_txn, TxnRequest, txn_request, append_ops, append_ops-add_op, append_ops-nil,
}
use etcdv3client.Txn.{
  Txn, new_txn, if_compare, then_txn, then_range, then_put, then_delete_range, else_txn, else_range,
  else_put, else_delete_range, get_request,
}

-- What a branch of a transaction is asked to do.
pub data Action : Type 0 where
  txn : Txn → Action
  range : Bytes → Options RangeRequest → Action
  put : Bytes → Bytes → Options PutRequest → Action
  delete_range : Bytes → Options DeleteRangeRequest → Action

-- A call of a method of the builder.
pub data BuilderCall : Type 0 where
  condition : Compare → BuilderCall
  success failure : Action → BuilderCall

unfoldable pub call_builder : Txn → BuilderCall → Txn
unfolding if_compare then_txn then_range then_put then_delete_range else_txn else_range else_put
    else_delete_range
call_builder t (condition x) = if_compare t x
call_builder t (success (txn u)) = then_txn t u
call_builder t (success (range key o)) = then_range t key o
call_builder t (success (put key value o)) = then_put t key value o
call_builder t (success (delete_range key o)) = then_delete_range t key o
call_builder t (failure (txn u)) = else_txn t u
call_builder t (failure (range key o)) = else_range t key o
call_builder t (failure (put key value o)) = else_put t key value o
call_builder t (failure (delete_range key o)) = else_delete_range t key o

unfoldable pub build : Txn → List BuilderCall → Txn
unfolding call_builder
build t [] = t
build t (c ∷ cs) = build (call_builder t c) cs

-- The operation that an action stands for in a request.
abbrev pub operation : Action → RequestOp
operation (txn u) = request_txn u.request
operation (range key o) = request_range (apply o (record default_range_request { key = key }))
operation (put key value o) =
    request_put (apply o (record default_put_request { key = key; value = value }))
operation (delete_range key o) =
    request_delete_range (apply o (record default_delete_range_request { key = key }))

-- The conditions, and the operations for either outcome, in the order of the calls.
unfoldable pub conditions : List BuilderCall → List Compare
conditions [] = []
conditions (condition x ∷ cs) = x ∷ conditions cs
conditions (_ ∷ cs) = conditions cs

unfoldable pub on_success : List BuilderCall → RequestOps
on_success [] = nil
on_success (success a ∷ cs) = cons (operation a) (on_success cs)
on_success (_ ∷ cs) = on_success cs

unfoldable pub on_failure : List BuilderCall → RequestOps
on_failure [] = nil
on_failure (failure a ∷ cs) = cons (operation a) (on_failure cs)
on_failure (_ ∷ cs) = on_failure cs

-- The request that a builder holds after more calls.
extended : TxnRequest → List BuilderCall → TxnRequest
unfolding conditions on_success on_failure
extended (txn_request c s f) cs =
    txn_request (c ++ conditions cs) (append_ops s (on_success cs)) (append_ops f (on_failure cs))

extended-nil : (r : TxnRequest) → extended r [] ≡ r
unfolding extended
extended-nil (txn_request c s f) = rw (append-nil, append_ops-nil s, append_ops-nil f)

extended-call :
    (r : TxnRequest) (c : BuilderCall) (cs : List BuilderCall)
    → extended (call_builder (record { request = r }) c).request cs ≡ extended r (c ∷ cs)
unfolding extended call_builder
extended-call (txn_request x s f) (condition y) cs = rw (append_assoc x (y ∷ []) (conditions cs))
extended-call (txn_request x s f) (success (txn u)) cs = rw append_ops-add_op
extended-call (txn_request x s f) (success _) cs = rw append_ops-add_op
extended-call (txn_request x s f) (failure (txn u)) cs = rw append_ops-add_op
extended-call (txn_request x s f) (failure _) cs = rw append_ops-add_op

build-extended : (t : Txn) (cs : List BuilderCall) → (build t cs).request ≡ extended t.request cs
unfolding build
build-extended t [] = sym (extended-nil t.request)
build-extended t (c ∷ cs) = build-extended (call_builder t c) cs ∙ extended-call t.request c cs

-- However the calls are interleaved, the request has the conditions, the operations for success and those
-- for failure, each in the order of their calls.
pub build_order :
    (cs : List BuilderCall)
    → get_request (build new_txn cs) ≡ txn_request (conditions cs) (on_success cs) (on_failure cs)
unfolding get_request extended append_ops
build_order cs = build-extended new_txn cs
