-- ===== src/Kv/PutOptions.antt =====
-- `PutOptions` of etcdv3client/kv.h.
use etcdv3client.Prelude.{ℤ, true}
use etcdv3client.Options.{Options, push_back}
use etcdv3client.Proto.Kv.{PutRequest}

abbrev pub PutOptions : Type 0
PutOptions = Options PutRequest

unfoldable pub with_lease : PutOptions → ℤ → PutOptions
with_lease o lease = push_back o (λ req. record req { lease = lease })

unfoldable pub with_prev_kv : PutOptions → PutOptions
with_prev_kv o = push_back o (λ req. record req { prev_kv = true })

unfoldable pub with_ignore_value : PutOptions → PutOptions
with_ignore_value o = push_back o (λ req. record req { ignore_value = true })

unfoldable pub with_ignore_lease : PutOptions → PutOptions
with_ignore_lease o = push_back o (λ req. record req { ignore_lease = true })
