-- ===== src/Kv/CompactOptions.antt =====
-- `CompactOptions` of etcdv3client/kv.h.
use etcdv3client.Prelude.{true}
use etcdv3client.Options.{Options, push_back}
use etcdv3client.Proto.Kv.{CompactionRequest}

abbrev pub CompactOptions : Type 0
CompactOptions = Options CompactionRequest

unfoldable pub with_physical : CompactOptions → CompactOptions
with_physical o = push_back o (λ req. record req { physical = true })
