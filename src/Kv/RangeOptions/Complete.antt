-- ===== src/Kv/RangeOptions/Complete.antt =====
-- The methods of `RangeOptions` make every request there is.
use etcdv3client.Prelude.{◌≡◌, refl, ◌∙◌, ap, Bool, true, false, List, [], ◌∷◌, ◌++◌}
use etcdv3client.Options.{apply}
use etcdv3client.Prefix.{CharKind}
use etcdv3client.Proto.Kv.{
  RangeRequest, default_range_request, SortOrder, unsorted, ascend, descend, SortTarget, by_key,
  by_version, by_create, by_mod, by_value,
}
use etcdv3client.Kv.RangeOptions.Commute.{
  Method, range_end, limit, revision, min_mod, max_mod, min_create, max_create, sort_order,
  sort_by_key, sort_by_version, sort_by_create, sort_by_mod, sort_by_value, serializable, keys_only,
  count_only, setter,
}
use etcdv3client.Kv.RangeOptions.Permuted.{chain, setters, apply-chain}

abbrev pub order_methods : SortOrder → List Method
order_methods unsorted = []
order_methods ascend = sort_order true ∷ []
order_methods descend = sort_order false ∷ []

abbrev pub target_method : SortTarget → Method
target_method by_key = sort_by_key
target_method by_version = sort_by_version
target_method by_create = sort_by_create
target_method by_mod = sort_by_mod
target_method by_value = sort_by_value

abbrev pub flag : Bool → Method → List Method
flag true m = m ∷ []
flag false m = []

-- The calls of the methods that set what a request has or has not.
abbrev pub optional_methods : RangeRequest → List Method
optional_methods r =
    order_methods r.sort_order
    ++ (flag r.serializable serializable
        ++ (flag r.keys_only keys_only ++ flag r.count_only count_only))

-- The calls that make a request, from its key.
abbrev pub methods_of : RangeRequest → List Method
methods_of r =
    range_end r.range_end
    ∷ limit r.limit
    ∷ revision r.revision
    ∷ min_mod r.min_mod_revision
    ∷ max_mod r.max_mod_revision
    ∷ min_create r.min_create_revision
    ∷ max_create r.max_create_revision
    ∷ target_method r.sort_target
    ∷ optional_methods r

setters-append :
    (c : CharKind) (ms ms' : List Method) (t : RangeRequest)
    → setters c (ms ++ ms') t ≡ setters c ms' (setters c ms t)
setters-append c [] ms' t = refl
setters-append c (m ∷ ms) ms' t = setters-append c ms ms' (setter c m t)

setter-target :
    (c : CharKind) (x : SortTarget) (t : RangeRequest)
    → setter c (target_method x) t ≡ record t { sort_target = x }
unfolding setter
setter-target c by_key t = refl
setter-target c by_version t = refl
setter-target c by_create t = refl
setter-target c by_mod t = refl
setter-target c by_value t = refl

setters-order :
    (c : CharKind) (x : SortOrder) (t : RangeRequest)
    → t.sort_order ≡ unsorted
    → setters c (order_methods x) t ≡ record t { sort_order = x }
unfolding setter
setters-order c unsorted t e = ap (λ y. record t { sort_order = y }) e
setters-order c ascend t e = refl
setters-order c descend t e = refl

setters-serializable :
    (c : CharKind) (b : Bool) (t : RangeRequest)
    → t.serializable ≡ false
    → setters c (flag b serializable) t ≡ record t { serializable = b }
unfolding setter
setters-serializable c true t e = refl
setters-serializable c false t e = ap (λ y. record t { serializable = y }) e

setters-keys_only :
    (c : CharKind) (b : Bool) (t : RangeRequest)
    → t.keys_only ≡ false
    → setters c (flag b keys_only) t ≡ record t { keys_only = b }
unfolding setter
setters-keys_only c true t e = refl
setters-keys_only c false t e = ap (λ y. record t { keys_only = y }) e

setters-count_only :
    (c : CharKind) (b : Bool) (t : RangeRequest)
    → t.count_only ≡ false
    → setters c (flag b count_only) t ≡ record t { count_only = b }
unfolding setter
setters-count_only c true t e = refl
setters-count_only c false t e = ap (λ y. record t { count_only = y }) e

-- The methods with an argument are called, the others are not.
abbrev bare : RangeRequest → RangeRequest
bare r = record r {
  sort_order = unsorted;
  serializable = false;
  keys_only = false;
  count_only = false;
}

setters-bare : (c : CharKind) (r : RangeRequest) → setters c (optional_methods r) (bare r) ≡ r
setters-bare c r =
    let counted = flag r.count_only count_only in
    let keyed = flag r.keys_only keys_only ++ counted in
    let flagged = flag r.serializable serializable ++ keyed in
    let r₃ = record r { count_only = false } in
    let r₂ = record r₃ { keys_only = false } in
    let r₁ = record r₂ { serializable = false } in
    setters-append c (order_methods r.sort_order) flagged (bare r)
    ∙ ap (setters c flagged) (setters-order c r.sort_order (bare r) refl)
    ∙ setters-append c (flag r.serializable serializable) keyed r₁
    ∙ ap (setters c keyed) (setters-serializable c r.serializable r₁ refl)
    ∙ setters-append c (flag r.keys_only keys_only) counted r₂
    ∙ ap (setters c counted) (setters-keys_only c r.keys_only r₂ refl)
    ∙ setters-count_only c r.count_only r₃ refl

-- Every request to read a range can be made from its key by a chain of calls of methods: the calls that
-- `methods_of` reads off the request give it back.
pub methods_of-chain :
    (c : CharKind) (r : RangeRequest)
    → apply (chain c (methods_of r) []) (record default_range_request { key = r.key }) ≡ r
unfolding setter apply
methods_of-chain c r =
    apply-chain c (methods_of r) [] (record default_range_request { key = r.key })
    ∙ ap (setters c (optional_methods r))
        (setter-target c r.sort_target (record (bare r) { sort_target = by_key }))
    ∙ setters-bare c r
