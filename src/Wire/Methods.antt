-- ===== src/Wire/Methods.antt =====
-- The methods of the library's interfaces on the wire: what an implementation promises, and that the client
-- keeps it.
use etcdv3client.Prelude.{ℕ, ℤ, ◌≡◌, some, false, true}
use etcdv3client.Bytes.{Bytes}
use etcdv3client.Client.{Client}
use etcdv3client.Kv.RangeOptions.{RangeOptions}
use etcdv3client.Kv.PutOptions.{PutOptions}
use etcdv3client.Kv.DeleteRangeOptions.{DeleteRangeOptions}
use etcdv3client.Kv.CompactOptions.{CompactOptions}
use etcdv3client.Txn.{Txn}
use etcdv3client.Watch.{WatchOptions}
use etcdv3client.Lease.{LeaseGrantOptions, LeaseTimeToLiveOptions}
use etcdv3client.Interfaces.{KvInterface, WatchInterface, LeaseInterface}
use etcdv3client.Effect.Protocol.{Obeys}
use etcdv3client.Wire.{idle, streaming, Spent, wire}

module _ (client : Client) where
  -- Each method makes one request, which uses up the context that it is given.
  pub record KvObeys (i : KvInterface) : Type 0 where
    pub range_obeys :
        (context : ℕ) (key : Bytes) (o : RangeOptions)
        → Obeys (wire client) Spent (i.range context key o) (idle (some context))
    pub put_obeys :
        (context : ℕ) (key value : Bytes) (o : PutOptions)
        → Obeys (wire client) Spent (i.put context key value o) (idle (some context))
    pub delete_range_obeys :
        (context : ℕ) (key : Bytes) (o : DeleteRangeOptions)
        → Obeys (wire client) Spent (i.delete_range context key o) (idle (some context))
    pub txn_obeys :
        (context : ℕ) (t : Txn) → Obeys (wire client) Spent (i.txn context t) (idle (some context))
    pub compact_obeys :
        (context : ℕ) (revision : ℤ) (o : CompactOptions)
        → Obeys (wire client) Spent (i.compact context revision o) (idle (some context))

  -- The stream is open; after `watch_single` the last request on it has been made.
  pub record WatchObeys (i : WatchInterface) : Type 0 where
    pub watch_obeys :
        (context : ℕ)
        → Obeys
            (wire client)
            (λ stream w. w ≡ streaming stream context false false false)
            (i.watch context)
            (idle (some context))
    pub watch_single_obeys :
        (context : ℕ) (key : Bytes) (o : WatchOptions)
        → Obeys
            (wire client)
            (λ stream w. w ≡ streaming stream context false true false)
            (i.watch_single context key o)
            (idle (some context))

  pub record LeaseObeys (i : LeaseInterface) : Type 0 where
    pub lease_grant_obeys :
        (context : ℕ) (ttl : ℤ) (o : LeaseGrantOptions)
        → Obeys (wire client) Spent (i.lease_grant context ttl o) (idle (some context))
    pub lease_revoke_obeys :
        (context : ℕ) (id : ℤ)
        → Obeys (wire client) Spent (i.lease_revoke context id) (idle (some context))
    pub lease_keep_alive_obeys :
        (context : ℕ)
        → Obeys
            (wire client)
            (λ stream w. w ≡ streaming stream context false false false)
            (i.lease_keep_alive context)
            (idle (some context))
    pub lease_time_to_live_obeys :
        (context : ℕ) (id : ℤ) (o : LeaseTimeToLiveOptions)
        → Obeys (wire client) Spent (i.lease_time_to_live context id o) (idle (some context))
    pub lease_leases_obeys :
        (context : ℕ) → Obeys (wire client) Spent (i.lease_leases context) (idle (some context))
