-- ===== src/Session/Requests.antt =====
-- What the worker's requests say: which lease and which time to live they name.
pub mod KeepingAlive
pub mod Worker
use mathlib.Core.Option
use etcdv3client.Prelude.{
  ℕ, zero, suc, ℤ, ◌≡◌, refl, sym, subst, Bool, true, false, Option, none, some, ◌==◌, ◌||◌, arith,
  if◌then◌else◌,
}
use etcdv3client.Client.{Client}
use etcdv3client.Session.Options.{SessionOptions, ContextFunction, set_ttl, set_lease}
use etcdv3client.Session.{
  LeaseState, KeepAliveEnd, returns, breaks, grpc_not_found, grant_loop, try_grant, read_answer,
  exchange, exchange_failed, keep_alive_loop, connect_loop, try_keep_alive, serve, session_loop,
  revoke_loop, revoke_rounds, try_revoke, grant_and_keep_alive,
}
use etcdv3client.Proto.Lease.{LeaseGrantResponse, LeaseKeepAliveResponse}
use etcdv3client.Effect.{
  Call, Reply, Prog, ret, ◌>>=◌, Waitable, close_event, get_grpc_client_context, lease_grant,
  lease_revoke, keep_alive_write, keep_alive_read, finished, wait,
}
use etcdv3client.Effect.Protocol
use etcdv3client.Effect.Protocol.{Protocol, Obeys}

-- Whether the close event has been reported finished, the lease and the time to live that were granted last
-- (at first those of the options), and the lease that an answer named last.
pub record Told : Type 0 where
  pub stopped : Bool
  pub id : ℤ
  pub ttl : ℤ
  pub named : ℤ

abbrev pub told : Bool → LeaseGrantResponse → Told → Told
told true rsp s = record s { id = rsp.id; ttl = rsp.ttl; named = rsp.id }
told false rsp s = s

abbrev pub answered : Option LeaseKeepAliveResponse → Told → Told
answered (some rsp) s = record s { named = rsp.id }
answered none s = s

abbrev pub asked : Bool → Told → Told
asked b s = record s { stopped = s.stopped || b }

abbrev pub follow : (c : Call) → Reply c → Told → Told
follow (lease_grant stub context req) r s = told r.0.is_ok r.1 s
follow (keep_alive_read stream) r s = answered r s
follow (finished w) r s = asked r s
follow (wait w d) r s = asked r s
follow _ r s = s

abbrev pub Legal : Call → Told → Type 0
Legal (lease_grant stub context req) s = s.stopped ≡ false → (req.ttl ≡ s.ttl) × (req.id ≡ s.id)
Legal (lease_revoke stub context req) s = req.id ≡ s.named
Legal (keep_alive_write stream req) s = req.id ≡ s.named
Legal _ s = Unit {0}

abbrev pub requests : Protocol
requests = record { State = Told; follow = follow; Legal = Legal }

-- The worker's options and its lease are what it has been told.
abbrev pub Knows : SessionOptions → LeaseState → Told → Type 0
Knows o l s = (s.stopped ≡ false → (o.ttl ≡ s.ttl) × (o.lease ≡ s.id)) × (l.id ≡ s.named)

pub Knows-asked :
    (o : SessionOptions) (l : LeaseState) (s : Told) (b : Bool)
    → Knows o l s
    → Knows o l (asked b s)
Knows-asked o l s true h = (λ e. absurd (ground arith), h.1)
Knows-asked o l s false h = (λ e. h.0 (ground arith), h.1)

pub with_context :
    {A : Type 0} (Q : A → Told → Type 0) (f : Option ContextFunction) (k : ℕ → Prog A) (s : Told)
    → ((context : ℕ) → Obeys requests Q (k context) s)
    → Obeys requests Q (get_grpc_client_context f >>= k) s
unfolding get_grpc_client_context
with_context Q none k s h = (tt, h)
with_context Q (some f) k s h = (tt, h)

-- What the lease that was granted last, or none where the worker stops, leaves in the options.
abbrev pub Granted : LeaseState → Told → Type 0
Granted l s = (s.stopped ≡ false → (l.ttl ≡ s.ttl) × (l.id ≡ s.id)) × (l.id ≡ s.named)

-- An answer to a request for a lease, good or bad.
branch_told :
    {A : Type 0} (Q : A → Told → Type 0) (b : Bool) (rsp : LeaseGrantResponse) (p q : Prog A)
    (s : Told)
    → Obeys requests Q p (told true rsp s)
    → Obeys requests Q q s
    → Obeys requests Q (if b then p else q) (told b rsp s)
branch_told Q true rsp p q s h k = h
branch_told Q false rsp p q s h k = k

module _ (client : Client) (event : Waitable) (options : SessionOptions) where
  pub grant_loop-Granted :
      (n backoff : ℕ) (l : LeaseState) (s : Told)
      → Knows options l s
      → Obeys requests Granted (grant_loop client event options n backoff l) s
  unfolding grant_loop
  grant_loop-Granted zero backoff l s h = tt
  grant_loop-Granted (suc n) backoff l s h = (
    tt,
    λ stop.
        let s₁ = asked stop s in
        Protocol.branch requests Granted stop _ _ s₁ (λ e. (λ e'. absurd (ground arith), h.1))
          (λ e. with_context Granted options.get_grpc_client_context_func _ s₁ λ context. (
            (Knows-asked options l s stop h).0,
            λ answer.
                branch_told Granted answer.0.is_ok answer.1 _ _ s₁ (λ _. (refl, refl), refl)
                  (
                    tt,
                    λ _. (
                      tt,
                      λ d. (
                        tt,
                        λ stop'.
                            Protocol.branch requests Granted stop' _ _ (asked stop' s₁)
                              (λ e'. (λ e''. absurd (ground arith), h.1))
                              (λ e'.
                                grant_loop-Granted n backoff l (asked stop' s₁) (
                                  Knows-asked options l s₁ stop' (Knows-asked options l s stop h))),
                      ),
                    ),
                  ),
          )),
  )
