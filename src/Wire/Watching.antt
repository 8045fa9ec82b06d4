-- ===== src/Wire/Watching.antt =====
-- `Watch` of an election on the wire.
use etcdv3client.Bytes.{Bytes}
use etcdv3client.Client.{Client}
use etcdv3client.Effect.Protocol
use etcdv3client.Wire.{Wire}
