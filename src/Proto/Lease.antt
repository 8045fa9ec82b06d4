-- ===== src/Proto/Lease.antt =====
-- The messages of the Lease service in proto/rpc.proto.
use etcdv3client.Prelude.{ℤ, pos, Bool, false, List}
use etcdv3client.Bytes.{Bytes}

pub record LeaseGrantRequest : Type 0 where
  pub ttl : ℤ
  pub id : ℤ

abbrev pub default_lease_grant_request : LeaseGrantRequest
default_lease_grant_request = record { ttl = pos 0; id = pos 0 }

pub record LeaseGrantResponse : Type 0 where
  pub id : ℤ
  pub ttl : ℤ
  pub error : Bytes

pub record LeaseRevokeRequest : Type 0 where
  pub id : ℤ

pub record LeaseKeepAliveRequest : Type 0 where
  pub id : ℤ

pub record LeaseKeepAliveResponse : Type 0 where
  pub id : ℤ
  pub ttl : ℤ

pub record LeaseTimeToLiveRequest : Type 0 where
  pub id : ℤ
  pub keys : Bool

abbrev pub default_lease_time_to_live_request : LeaseTimeToLiveRequest
default_lease_time_to_live_request = record { id = pos 0; keys = false }

pub record LeaseTimeToLiveResponse : Type 0 where
  pub id : ℤ
  pub ttl : ℤ
  pub granted_ttl : ℤ
  pub keys : List Bytes

pub record LeaseLeasesResponse : Type 0 where
  pub leases : List ℤ
