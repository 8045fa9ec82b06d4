-- ===== src/Tests/Wire.antt =====
-- The session, the election and the methods of a client on the wire.
use etcdv3client.Prelude.{none}
use etcdv3client.Bytes.{Bytes}
use etcdv3client.Session.{grant_and_keep_alive}
use etcdv3client.Session.Options.{default_options}
use etcdv3client.Election.Node.{ElectionNode, ElectionWatchOptions}
use etcdv3client.Election.Node.{ElectionNode, ElectionWatchOptions}
use etcdv3client.Effect.Protocol.{Obeys}
use etcdv3client.Wire.{idle, Closed, wire}
use etcdv3client.Wire.Lease.{worker-Obeys}
use etcdv3client.Tests.Data.{client}
use etcdv3client.Tests.Sessions.{first}

worker-Obeys_example :
    Obeys (wire client) Closed (grant_and_keep_alive client 4 9 default_options first) (idle none)
worker-Obeys_example = worker-Obeys client 4 9 default_options first
