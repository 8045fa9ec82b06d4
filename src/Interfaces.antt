-- ===== src/Interfaces.antt =====
-- The abstract classes of the library, as records of operations, and `Client` and `Client::ElectionImpl` as
-- what implements them: `KVInterface` (etcdv3client/kv.h), `WatchInterface` (etcdv3client/watch.h),
-- `LeaseInterface` (etcdv3client/lease.h), `ElectionInterface` (etcdv3client/election.h) and the classes of
-- etcdv3client/client.h. The response that a method fills comes back with its status, or alone.
use etcdv3client.Prelude.{ℕ, ℤ}
use etcdv3client.Bytes.{Bytes}
use etcdv3client.Status.{StatusLibrary, GrpcStatus}
use etcdv3client.Prefix.{CharKind}
use etcdv3client.Client.{Client}
use etcdv3client.Kv.{client_range, client_put, client_delete_range, client_compact}
use etcdv3client.Kv.RangeOptions.{RangeOptions}
use etcdv3client.Kv.PutOptions.{PutOptions}
use etcdv3client.Kv.DeleteRangeOptions.{DeleteRangeOptions}
use etcdv3client.Kv.CompactOptions.{CompactOptions}
use etcdv3client.Txn.{Txn, client_txn}
use etcdv3client.Watch.{WatchOptions, client_watch, client_watch_single}
use etcdv3client.Lease.{
  LeaseGrantOptions, LeaseTimeToLiveOptions, client_lease_grant, client_lease_revoke,
  client_lease_keep_alive, client_lease_time_to_live, client_lease_leases,
}
use etcdv3client.Session.{Session}
use etcdv3client.Election.{get_leader, watch}
use etcdv3client.Election.Node.{
  ElectionNode, ElectionWatchOptions, default_watch_options, CampaignOptions,
  default_campaign_options,
}
use etcdv3client.LeaderSession.{EventLibrary, LeaderSession, campaign}
use etcdv3client.Proto.Kv.{RangeResponse, PutResponse, DeleteRangeResponse, CompactionResponse}
use etcdv3client.Proto.Txn.{TxnResponse}
use etcdv3client.Proto.Lease.{LeaseGrantResponse, LeaseTimeToLiveResponse, LeaseLeasesResponse}
use etcdv3client.Effect.{Prog}

pub record KvInterface : Type 0 where
  pub range : ℕ → Bytes → RangeOptions → Prog (GrpcStatus × RangeResponse)
  pub put : ℕ → Bytes → Bytes → PutOptions → Prog (GrpcStatus × PutResponse)
  pub delete_range : ℕ → Bytes → DeleteRangeOptions → Prog (GrpcStatus × DeleteRangeResponse)
  pub txn : ℕ → Txn → Prog (GrpcStatus × TxnResponse)
  pub compact : ℕ → ℤ → CompactOptions → Prog (GrpcStatus × CompactionResponse)

-- Both methods give a stream.
pub record WatchInterface : Type 0 where
  pub watch : ℕ → Prog ℕ
  pub watch_single : ℕ → Bytes → WatchOptions → Prog ℕ

pub record LeaseInterface : Type 0 where
  pub lease_grant : ℕ → ℤ → LeaseGrantOptions → Prog (GrpcStatus × LeaseGrantResponse)
  pub lease_revoke : ℕ → ℤ → Prog GrpcStatus
  pub lease_keep_alive : ℕ → Prog ℕ
  pub lease_time_to_live :
      ℕ → ℤ → LeaseTimeToLiveOptions → Prog (GrpcStatus × LeaseTimeToLiveResponse)
  pub lease_leases : ℕ → Prog (GrpcStatus × LeaseLeasesResponse)

-- The overloads of Watch and Campaign without options have names of their own.
pub record ElectionInterface (lib : StatusLibrary) (events : EventLibrary) : Type 0 where
  pub get_leader : ℕ → Bytes → ElectionNode → Prog (lib.Status × ElectionNode)
  pub watch : ℕ → Bytes → ElectionNode → Prog (lib.Status × ElectionNode)
  pub watch_with :
      ℕ → Bytes → ElectionNode → ElectionWatchOptions → Prog (lib.Status × ElectionNode)
  pub campaign : ℕ → Bytes → Bytes → Session → LeaderSession events
  pub campaign_with : ℕ → Bytes → Bytes → Session → CampaignOptions → LeaderSession events

-- class Client
abbrev pub client_kv : Client → KvInterface
client_kv client = record {
  range = client_range client;
  put = client_put client;
  delete_range = client_delete_range client;
  txn = client_txn client;
  compact = client_compact client;
}

abbrev pub client_watches : Client → WatchInterface
client_watches client = record {
  watch = client_watch client;
  watch_single = client_watch_single client;
}

abbrev pub client_leases : Client → LeaseInterface
client_leases client = record {
  lease_grant = client_lease_grant client;
  lease_revoke = client_lease_revoke client;
  lease_keep_alive = client_lease_keep_alive client;
  lease_time_to_live = client_lease_time_to_live client;
  lease_leases = client_lease_leases client;
}

-- class Client::ElectionImpl, which Client::Election() gives; `n` is the fuel of Watch.
abbrev pub client_election :
    (lib : StatusLibrary) (events : EventLibrary)
    → CharKind
    → ℕ
    → Client
    → ElectionInterface lib events
client_election lib events c n client = record {
  get_leader = get_leader lib c client;
  watch = λ ctx key_prefix node. watch lib c client ctx key_prefix default_watch_options n node;
  watch_with = λ ctx key_prefix node options. watch lib c client ctx key_prefix options n node;
  campaign = λ ctx key_prefix value session.
      campaign events ctx key_prefix value session default_campaign_options;
  campaign_with = campaign events;
}
