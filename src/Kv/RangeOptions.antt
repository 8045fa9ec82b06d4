-- ===== src/Kv/RangeOptions.antt =====
-- `RangeOptions` of etcdv3client/kv.h. A method pushes a setter and returns the options.
pub mod Commute
pub mod Presets
pub mod Permuted
pub mod Complete
pub mod Unordered
use etcdv3client.Prelude.{ℤ, pos, Bool, true, false, [], ◌∷◌, if◌then◌else◌}
use etcdv3client.Bytes.{Bytes, nul, eq_bytes}
use etcdv3client.Options.{Options, push_back}
use etcdv3client.Prefix.{CharKind, get_prefix_range_end}
use etcdv3client.Proto.Kv.{
  RangeRequest, ascend, descend, by_key, by_version, by_create, by_mod, by_value,
}

abbrev pub RangeOptions : Type 0
RangeOptions = Options RangeRequest

-- `req.key().length() == 0`
unfoldable pub set_prefix : CharKind → RangeRequest → RangeRequest
unfolding eq_bytes
set_prefix c req =
    if eq_bytes req.key []
    then record req { key = nul; range_end = nul }
    else record req { range_end = get_prefix_range_end c req.key }

unfoldable pub with_prefix : CharKind → RangeOptions → RangeOptions
unfolding set_prefix
with_prefix c o = push_back o (set_prefix c)

unfoldable pub with_range_end : RangeOptions → Bytes → RangeOptions
with_range_end o end = push_back o (λ req. record req { range_end = end })

unfoldable pub with_from_key : RangeOptions → RangeOptions
with_from_key o = push_back o (λ req. record req { range_end = nul })

unfoldable pub with_limit : RangeOptions → ℤ → RangeOptions
with_limit o limit = push_back o (λ req. record req { limit = limit })

unfoldable pub with_revision : RangeOptions → ℤ → RangeOptions
with_revision o revision = push_back o (λ req. record req { revision = revision })

unfoldable pub with_sort_order : RangeOptions → Bool → RangeOptions
with_sort_order o up =
    push_back o (λ req.
      if up then record req { sort_order = ascend } else record req { sort_order = descend })

unfoldable pub with_sort_by_key : RangeOptions → RangeOptions
with_sort_by_key o = push_back o (λ req. record req { sort_target = by_key })

unfoldable pub with_sort_by_version : RangeOptions → RangeOptions
with_sort_by_version o = push_back o (λ req. record req { sort_target = by_version })

unfoldable pub with_sort_by_create : RangeOptions → RangeOptions
with_sort_by_create o = push_back o (λ req. record req { sort_target = by_create })

unfoldable pub with_sort_by_mod : RangeOptions → RangeOptions
with_sort_by_mod o = push_back o (λ req. record req { sort_target = by_mod })

unfoldable pub with_sort_by_value : RangeOptions → RangeOptions
with_sort_by_value o = push_back o (λ req. record req { sort_target = by_value })

unfoldable pub with_serializable : RangeOptions → RangeOptions
with_serializable o = push_back o (λ req. record req { serializable = true })

unfoldable pub with_keys_only : RangeOptions → RangeOptions
with_keys_only o = push_back o (λ req. record req { keys_only = true })

unfoldable pub with_count_only : RangeOptions → RangeOptions
with_count_only o = push_back o (λ req. record req { count_only = true })

unfoldable pub with_min_mod_revision : RangeOptions → ℤ → RangeOptions
with_min_mod_revision o revision = push_back o (λ req. record req { min_mod_revision = revision })

unfoldable pub with_max_mod_revision : RangeOptions → ℤ → RangeOptions
with_max_mod_revision o revision = push_back o (λ req. record req { max_mod_revision = revision })

unfoldable pub with_min_create_revision : RangeOptions → ℤ → RangeOptions
with_min_create_revision o revision =
    push_back o (λ req. record req { min_create_revision = revision })

unfoldable pub with_max_create_revision : RangeOptions → ℤ → RangeOptions
with_max_create_revision o revision =
    push_back o (λ req. record req { max_create_revision = revision })

module _ (c : CharKind) (o : RangeOptions) where
  unfoldable pub with_first_create : RangeOptions
  unfolding with_prefix with_sort_by_create with_sort_order with_limit
  with_first_create =
      with_limit (with_sort_order (with_sort_by_create (with_prefix c o)) true) (pos 1)

  unfoldable pub with_last_create : RangeOptions
  unfolding with_prefix with_sort_by_create with_sort_order with_limit
  with_last_create =
      with_limit (with_sort_order (with_sort_by_create (with_prefix c o)) false) (pos 1)

  unfoldable pub with_first_key : RangeOptions
  unfolding with_prefix with_sort_by_key with_sort_order with_limit
  with_first_key = with_limit (with_sort_order (with_sort_by_key (with_prefix c o)) true) (pos 1)

  unfoldable pub with_last_key : RangeOptions
  unfolding with_prefix with_sort_by_key with_sort_order with_limit
  with_last_key = with_limit (with_sort_order (with_sort_by_key (with_prefix c o)) false) (pos 1)

  unfoldable pub with_first_mod : RangeOptions
  unfolding with_prefix with_sort_by_mod with_sort_order with_limit
  with_first_mod = with_limit (with_sort_order (with_sort_by_mod (with_prefix c o)) true) (pos 1)

  unfoldable pub with_last_mod : RangeOptions
  unfolding with_prefix with_sort_by_mod with_sort_order with_limit
  with_last_mod = with_limit (with_sort_order (with_sort_by_mod (with_prefix c o)) false) (pos 1)
