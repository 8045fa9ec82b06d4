-- ===== src/Kv/RangeOptions/Commute.antt =====
-- The methods of `RangeOptions` as data, and what a chain of them makes of a request.
use etcdv3client.Prelude.{ℤ, ◌≡◌, ◌≢◌, refl, sym, Bool, [], arith}
use etcdv3client.Bytes.{Bytes}
use etcdv3client.Options.{apply, apply-push_back}
use etcdv3client.Prefix.{CharKind}
use etcdv3client.Proto.Kv.{RangeRequest}
use etcdv3client.Kv.RangeOptions.{
  RangeOptions, with_prefix, with_range_end, with_from_key, with_limit, with_revision,
  with_sort_order, with_sort_by_key, with_sort_by_version, with_sort_by_create, with_sort_by_mod,
  with_sort_by_value, with_serializable, with_keys_only, with_count_only, with_min_mod_revision,
  with_max_mod_revision, with_min_create_revision, with_max_create_revision,
}

-- A call of one of the methods that push one setter.
pub data Method : Type 0 where
  prefix from_key sort_by_key sort_by_version sort_by_create sort_by_mod sort_by_value : Method
  serializable keys_only count_only : Method
  range_end : Bytes → Method
  limit revision min_mod max_mod min_create max_create : ℤ → Method
  sort_order : Bool → Method

unfoldable pub call_method : CharKind → RangeOptions → Method → RangeOptions
unfolding with_prefix with_range_end with_from_key with_limit with_revision with_sort_order
    with_sort_by_key with_sort_by_version with_sort_by_create with_sort_by_mod with_sort_by_value
    with_serializable with_keys_only with_count_only with_min_mod_revision with_max_mod_revision
    with_min_create_revision with_max_create_revision
call_method c o prefix = with_prefix c o
call_method c o from_key = with_from_key o
call_method c o sort_by_key = with_sort_by_key o
call_method c o sort_by_version = with_sort_by_version o
call_method c o sort_by_create = with_sort_by_create o
call_method c o sort_by_mod = with_sort_by_mod o
call_method c o sort_by_value = with_sort_by_value o
call_method c o serializable = with_serializable o
call_method c o keys_only = with_keys_only o
call_method c o count_only = with_count_only o
call_method c o (range_end e) = with_range_end o e
call_method c o (limit n) = with_limit o n
call_method c o (revision n) = with_revision o n
call_method c o (min_mod n) = with_min_mod_revision o n
call_method c o (max_mod n) = with_max_mod_revision o n
call_method c o (min_create n) = with_min_create_revision o n
call_method c o (max_create n) = with_max_create_revision o n
call_method c o (sort_order up) = with_sort_order o up

-- The part of the request that a method writes.
pub data Field : Type 0 where
  range limit revision order target serializable keys_only count_only : Field
  min_mod max_mod min_create max_create : Field

abbrev pub field : Method → Field
field prefix = range
field from_key = range
field (range_end e) = range
field sort_by_key = target
field sort_by_version = target
field sort_by_create = target
field sort_by_mod = target
field sort_by_value = target
field serializable = serializable
field keys_only = keys_only
field count_only = count_only
field (limit n) = limit
field (revision n) = revision
field (min_mod n) = min_mod
field (max_mod n) = max_mod
field (min_create n) = min_create
field (max_create n) = max_create
field (sort_order up) = order

-- What one method does to a request.
unfoldable pub setter : CharKind → Method → RangeRequest → RangeRequest
unfolding call_method apply
setter c m = apply (call_method c [] m)

pub apply-call_method :
    (c : CharKind) (o : RangeOptions) (m : Method) (t : RangeRequest)
    → apply (call_method c o m) t ≡ setter c m (apply o t)
unfolding call_method setter
apply-call_method c o prefix t = apply-push_back o _ t
apply-call_method c o _ t = apply-push_back o _ t

pub setter_comm :
    (c : CharKind) (a b : Method) (t : RangeRequest)
    → field a ≢ field b
    → setter c a (setter c b t) ≡ setter c b (setter c a t)
unfolding setter
setter_comm c prefix prefix t h = absurd (h refl)
setter_comm c _ _ t h = ground arith

-- Two calls of methods that write different parts of the request may be swapped.
call_method_comm :
    (c : CharKind) (o : RangeOptions) (a b : Method) (t : RangeRequest)
    → field a ≢ field b
    → apply (call_method c (call_method c o a) b) t ≡ apply (call_method c (call_method c o b) a) t
call_method_comm c o a b t h =
    rw
      (
        apply-call_method c (call_method c o a) b t,
        apply-call_method c o a t,
        apply-call_method c (call_method c o b) a t,
        apply-call_method c o b t,
      )
      (sym (setter_comm c a b (apply o t) h))
