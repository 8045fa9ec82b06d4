-- ===== src/Txn/Complete.antt =====
-- The transaction builder makes every transaction there is.
use mathlib.Core.List.{append-nil}
use etcdv3client.Prelude.{◌≡◌, refl, ◌∙◌, ap, List, [], ◌∷◌, ◌++◌}
use etcdv3client.Prefix.{CharKind}
use etcdv3client.Kv.RangeOptions.Permuted.{chain}
use etcdv3client.Kv.RangeOptions.Complete.{methods_of, methods_of-chain}
use etcdv3client.Kv.Complete.{
  put_options, put_options-apply, delete_range_options, delete_range_options-apply,
}
use etcdv3client.Proto.Txn.{
  Compare, RequestOp, RequestOps, nil, cons, request_range, request_put, request_delete_range,
  request_txn, TxnRequest, txn_request,
}
use etcdv3client.Txn.{new_txn, get_request}
use etcdv3client.Txn.Order.{
  Action, txn, range, put, delete_range, BuilderCall, condition, success, failure, build, operation,
  conditions, on_success, on_failure, build_order,
}

abbrev condition_calls : List Compare → List BuilderCall → List BuilderCall
condition_calls [] rest = rest
condition_calls (x ∷ xs) rest = condition x ∷ condition_calls xs rest

-- The calls that make a request, and the action that makes an operation of it, with a builder of its own for
-- a nested transaction.
unfoldable mutual
  pub calls_of : CharKind → TxnRequest → List BuilderCall
  calls_of c (txn_request xs s f) = condition_calls xs (success_calls c s (failure_calls c f))

  pub success_calls : CharKind → RequestOps → List BuilderCall → List BuilderCall
  success_calls c nil rest = rest
  success_calls c (cons op ops) rest = success (action_of c op) ∷ success_calls c ops rest

  pub failure_calls : CharKind → RequestOps → List BuilderCall
  failure_calls c nil = []
  failure_calls c (cons op ops) = failure (action_of c op) ∷ failure_calls c ops

  pub action_of : CharKind → RequestOp → Action
  action_of c (request_range r) = range r.key (chain c (methods_of r) [])
  action_of c (request_put r) = put r.key r.value (put_options r)
  action_of c (request_delete_range r) = delete_range r.key (delete_range_options r)
  action_of c (request_txn r) = txn (build new_txn (calls_of c r))

module _ (c : CharKind) where
  conditions-condition_calls :
      (xs : List Compare) (rest : List BuilderCall)
      → conditions (condition_calls xs rest) ≡ xs ++ conditions rest
  unfolding conditions
  conditions-condition_calls [] rest = refl
  conditions-condition_calls (x ∷ xs) rest = ap (λ ys. x ∷ ys) (conditions-condition_calls xs rest)

  on_success-condition_calls :
      (xs : List Compare) (rest : List BuilderCall)
      → on_success (condition_calls xs rest) ≡ on_success rest
  unfolding on_success
  on_success-condition_calls [] rest = refl
  on_success-condition_calls (x ∷ xs) rest = on_success-condition_calls xs rest

  on_failure-condition_calls :
      (xs : List Compare) (rest : List BuilderCall)
      → on_failure (condition_calls xs rest) ≡ on_failure rest
  unfolding on_failure
  on_failure-condition_calls [] rest = refl
  on_failure-condition_calls (x ∷ xs) rest = on_failure-condition_calls xs rest

  conditions-success_calls :
      (ops : RequestOps) (rest : List BuilderCall)
      → conditions (success_calls c ops rest) ≡ conditions rest
  unfolding conditions success_calls
  conditions-success_calls nil rest = refl
  conditions-success_calls (cons op ops) rest = conditions-success_calls ops rest

  on_failure-success_calls :
      (ops : RequestOps) (rest : List BuilderCall)
      → on_failure (success_calls c ops rest) ≡ on_failure rest
  unfolding on_failure success_calls
  on_failure-success_calls nil rest = refl
  on_failure-success_calls (cons op ops) rest = on_failure-success_calls ops rest

  conditions-failure_calls : (ops : RequestOps) → conditions (failure_calls c ops) ≡ []
  unfolding conditions failure_calls
  conditions-failure_calls nil = refl
  conditions-failure_calls (cons op ops) = conditions-failure_calls ops

  on_success-failure_calls : (ops : RequestOps) → on_success (failure_calls c ops) ≡ nil
  unfolding on_success failure_calls
  on_success-failure_calls nil = refl
  on_success-failure_calls (cons op ops) = on_success-failure_calls ops

mutual
  unfolding calls_of on_success on_failure get_request

  operation-action_of : (c : CharKind) (op : RequestOp) → operation (action_of c op) ≡ op
  operation-action_of c (request_range r) = ap request_range (methods_of-chain c r)
  operation-action_of c (request_put r) = ap request_put (put_options-apply r)
  operation-action_of c (request_delete_range r) =
      ap request_delete_range (delete_range_options-apply r)
  operation-action_of c (request_txn r) = ap request_txn (request-build c r)

  on_success-success_calls :
      (c : CharKind) (ops : RequestOps) (rest : List BuilderCall)
      → on_success rest ≡ nil
      → on_success (success_calls c ops rest) ≡ ops
  on_success-success_calls c nil rest e = e
  on_success-success_calls c (cons op ops) rest e =
      ap (λ x. cons x (on_success (success_calls c ops rest))) (operation-action_of c op)
      ∙ ap (cons op) (on_success-success_calls c ops rest e)

  on_failure-failure_calls :
      (c : CharKind) (ops : RequestOps) → on_failure (failure_calls c ops) ≡ ops
  on_failure-failure_calls c nil = refl
  on_failure-failure_calls c (cons op ops) =
      ap (λ x. cons x (on_failure (failure_calls c ops))) (operation-action_of c op)
      ∙ ap (cons op) (on_failure-failure_calls c ops)

  request-build : (c : CharKind) (r : TxnRequest) → get_request (build new_txn (calls_of c r)) ≡ r
  request-build c (txn_request xs s f) =
      let rest = success_calls c s (failure_calls c f) in
      build_order (condition_calls xs rest)
      ∙ rw (
        conditions-condition_calls c xs rest,
        conditions-success_calls c s (failure_calls c f),
        conditions-failure_calls c f,
        on_success-condition_calls c xs rest,
        on_success-success_calls c s (failure_calls c f) (on_success-failure_calls c f),
        on_failure-condition_calls c xs rest,
        on_failure-success_calls c s (failure_calls c f),
        on_failure-failure_calls c f,
        append-nil,
      )

-- Every transaction whose operations are set, with the transactions nested in it, can be made by the builder:
-- the calls that `calls_of` reads off a request, made on a new builder, give the request back.
pub calls_of-build :
    (c : CharKind) (r : TxnRequest) → get_request (build new_txn (calls_of c r)) ≡ r
calls_of-build c r = request-build c r
