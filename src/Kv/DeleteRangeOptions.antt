-- ===== src/Kv/DeleteRangeOptions.antt =====
-- `DeleteRangeOptions` of etcdv3client/kv.h.
use etcdv3client.Prelude.{true, [], if◌then◌else◌}
use etcdv3client.Bytes.{Bytes, nul, eq_bytes}
use etcdv3client.Options.{Options, push_back}
use etcdv3client.Prefix.{CharKind, get_prefix_range_end}
use etcdv3client.Proto.Kv.{DeleteRangeRequest}

abbrev pub DeleteRangeOptions : Type 0
DeleteRangeOptions = Options DeleteRangeRequest

unfoldable pub set_prefix : CharKind → DeleteRangeRequest → DeleteRangeRequest
unfolding eq_bytes
set_prefix c req =
    if eq_bytes req.key []
    then record req { key = nul; range_end = nul }
    else record req { range_end = get_prefix_range_end c req.key }

unfoldable pub with_prefix : CharKind → DeleteRangeOptions → DeleteRangeOptions
unfolding set_prefix
with_prefix c o = push_back o (set_prefix c)

unfoldable pub with_range_end : DeleteRangeOptions → Bytes → DeleteRangeOptions
with_range_end o end = push_back o (λ req. record req { range_end = end })

unfoldable pub with_from_key : DeleteRangeOptions → DeleteRangeOptions
with_from_key o = push_back o (λ req. record req { range_end = nul })

unfoldable pub with_prev_kv : DeleteRangeOptions → DeleteRangeOptions
with_prev_kv o = push_back o (λ req. record req { prev_kv = true })
