-- ===== src/Lease.antt =====
-- The lease part of `Client`: etcdv3client/lease.h and etcdv3client/lease.cc.
use etcdv3client.Prelude.{ℕ, ℤ, pos, true}
use etcdv3client.Status.{GrpcStatus}
use etcdv3client.Options.{Options, push_back, apply}
use etcdv3client.Client.{Client}
use etcdv3client.Effect.{
  Prog, perform, lease_grant, lease_revoke, open_keep_alive, lease_time_to_live, lease_leases,
}
use etcdv3client.Proto.Lease.{
  LeaseGrantRequest, LeaseGrantResponse, LeaseTimeToLiveRequest, LeaseTimeToLiveResponse,
  LeaseLeasesResponse, default_lease_grant_request, default_lease_time_to_live_request,
}

-- InvalidLeaseID
abbrev pub invalid_lease_id : ℤ
invalid_lease_id = pos 0

abbrev pub LeaseGrantOptions : Type 0
LeaseGrantOptions = Options LeaseGrantRequest

unfoldable pub with_id : LeaseGrantOptions → ℤ → LeaseGrantOptions
with_id o id = push_back o (λ req. record req { id = id })

abbrev pub LeaseTimeToLiveOptions : Type 0
LeaseTimeToLiveOptions = Options LeaseTimeToLiveRequest

unfoldable pub with_keys : LeaseTimeToLiveOptions → LeaseTimeToLiveOptions
with_keys o = push_back o (λ req. record req { keys = true })

unfoldable pub client_lease_grant :
    Client → ℕ → ℤ → LeaseGrantOptions → Prog (GrpcStatus × LeaseGrantResponse)
unfolding apply
client_lease_grant client context ttl options = perform (
    lease_grant client.lease_stub context
      (apply options (record default_lease_grant_request { ttl = ttl })))

unfoldable pub client_lease_revoke : Client → ℕ → ℤ → Prog GrpcStatus
client_lease_revoke client context id =
    perform (lease_revoke client.lease_stub context (record { id = id }))

unfoldable pub client_lease_keep_alive : Client → ℕ → Prog ℕ
client_lease_keep_alive client context = perform (open_keep_alive client.lease_stub context)

unfoldable pub client_lease_time_to_live :
    Client → ℕ → ℤ → LeaseTimeToLiveOptions → Prog (GrpcStatus × LeaseTimeToLiveResponse)
unfolding apply
client_lease_time_to_live client context id options = perform (
    lease_time_to_live client.lease_stub context
      (apply options (record default_lease_time_to_live_request { id = id })))

unfoldable pub client_lease_leases : Client → ℕ → Prog (GrpcStatus × LeaseLeasesResponse)
client_lease_leases client context = perform (lease_leases client.lease_stub context)
