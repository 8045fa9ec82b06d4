-- ===== src/Client.antt =====
-- `Client` of etcdv3client/client.h and etcdv3client/client.cc, and etcdv3client/transport.h: the stubs and
-- the channel that they are made on.
pub mod Stubs
use etcdv3client.Prelude.{ℕ, Option, none}
use etcdv3client.Bytes.{Bytes}
use etcdv3client.Effect.{
  Service, Prog, ret, perform, ◌>>=◌, create_channel, get_channel, new_stub, kv, watch, lease,
  cluster, maintenance, auth,
}

-- class Transport: holds a channel.
pub record Transport : Type 0 where
  pub channel : ℕ

-- An implementation of TransportInterface: the library's own, or one of the caller's.
pub data TransportInterface : Type 0 where
  standard : Transport → TransportInterface
  custom : ℕ → TransportInterface

unfoldable pub new_transport : Bytes → Prog Transport
new_transport target = do
  channel ← perform (create_channel target)
  ret (record { channel = channel })

unfoldable pub transport_channel : TransportInterface → Prog ℕ
transport_channel (standard t) = ret t.channel
transport_channel (custom t) = perform (get_channel t)

pub record Client : Type 0 where
  pub transport : TransportInterface
  pub kv_stub : ℕ
  pub watch_stub : ℕ
  pub lease_stub : ℕ
  pub cluster_stub : ℕ
  pub maintenance_stub : ℕ
  pub auth_stub : ℕ

-- `proto::Service::NewStub(transport_->GetChannel())`
unfoldable pub make_stub : TransportInterface → Service → Prog ℕ
unfolding transport_channel
make_stub t s = do channel ← transport_channel t; perform (new_stub s channel)

-- Client(transport). `ElectionImpl` keeps only a pointer to the client.
unfoldable pub new_client : TransportInterface → Prog Client
unfolding make_stub
new_client t = do
  kv_stub ← make_stub t kv
  watch_stub ← make_stub t watch
  lease_stub ← make_stub t lease
  cluster_stub ← make_stub t cluster
  maintenance_stub ← make_stub t maintenance
  auth_stub ← make_stub t auth
  ret (record {
    transport = t;
    kv_stub = kv_stub;
    watch_stub = watch_stub;
    lease_stub = lease_stub;
    cluster_stub = cluster_stub;
    maintenance_stub = maintenance_stub;
    auth_stub = auth_stub;
  })

-- Client(target) and New(target).
unfoldable pub new_client_of_target : Bytes → Prog Client
unfolding new_transport new_client
new_client_of_target target = do t ← new_transport target; new_client (standard t)

-- Client(transport) and New(transport) of a reference to an owning pointer: the client takes the transport,
-- and the caller's pointer is null from then on.
unfoldable pub new_client_of_transport :
    TransportInterface → Prog (Client × Option TransportInterface)
unfolding new_client
new_client_of_transport t = do client ← new_client t; ret (client, none)
