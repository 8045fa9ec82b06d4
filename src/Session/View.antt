-- ===== src/Session/View.antt =====
-- What the calls of a session's worker tell: the state of its events, the lease that the server has
-- confirmed last, and the requests to revoke it.
use etcdv3client.Prelude.{
  ℤ, ◌≡◌, ◌≢◌, Bool, true, false, Option, none, some, List, [], ◌∷◌, arith, ◌||◌, ◌==◌, ◌⊎◌,
  if◌then◌else◌,
}
use etcdv3client.Session.{grpc_not_found, LeaseState}
use etcdv3client.Proto.Lease.{LeaseKeepAliveResponse}
use etcdv3client.Effect.Logic.{Model}
use etcdv3client.Effect.{
  Call, Reply, closed, alive, expired, finished, wait, set, reset, lease_grant, lease_revoke,
  keep_alive_read, finish, SessionEvent,
}

pub record View : Type 0 where
  pub closed_set : Bool  -- `closed_`, as far as the worker has set it
  pub alive_set : Bool
  pub expired_set : Bool
  pub reopened : Bool  -- `closed_` has been reset
  pub stopped : Bool  -- the close event has been seen
  pub lost : Bool  -- the last stream that was finished ended with NOT_FOUND
  pub lease : Option ℤ  -- the last lease in a successful answer
  pub revoked : List ℤ  -- the leases in requests to revoke, the last one first
  pub settled : Bool  -- the last such request was answered by OK or NOT_FOUND

-- Session(): `expired_` is set, the other events are not.
abbrev pub fresh : View
fresh = record {
  closed_set = false;
  alive_set = false;
  expired_set = true;
  reopened = false;
  stopped = false;
  lost = false;
  lease = none;
  revoked = [];
  settled = false;
}

abbrev pub assign : SessionEvent → Bool → View → View
assign closed b v = record v { closed_set = b }
assign alive b v = record v { alive_set = b }
assign expired b v = record v { expired_set = b }

abbrev pub confirm : Bool → ℤ → View → View
confirm ok id v = record v { lease = if ok then some id else v.lease }

abbrev pub answered : Option LeaseKeepAliveResponse → View → View
answered none v = v
answered (some rsp) v = record v { lease = some rsp.id }

abbrev pub observe : (c : Call) → Reply c → View → View
observe (finished w) r v = record v { stopped = r || v.stopped }
observe (wait w d) r v = record v { stopped = r || v.stopped }
observe (set e) r v = assign e true v
observe (reset closed) r v = record v { closed_set = false; reopened = true }
observe (reset alive) r v = assign alive false v
observe (reset expired) r v = assign expired false v
observe (lease_grant stub context req) r v = confirm r.0.is_ok r.1.id v
observe (lease_revoke stub context req) r v = record v {
  revoked = req.id ∷ v.revoked;
  settled = r.is_ok || r.error_code == grpc_not_found;
}
observe (finish stream) r v = record v { lost = r.error_code == grpc_not_found }
observe (keep_alive_read stream) r v = answered r v
observe _ r v = v

-- What holds at every point of the worker's run.
pub record IsSound (v : View) : Type 0 where
  pub exclusive : v.alive_set ≡ true → v.expired_set ≡ false
  pub leased : v.alive_set ≡ true → v.lease ≢ none
  pub unrevoked : v.alive_set ≡ true → v.revoked ≡ []
  pub stays_closed : v.reopened ≡ false
  pub ended :
      v.closed_set ≡ true → (v.alive_set ≡ false) × (v.expired_set ≡ true) × (v.stopped ≡ true)

-- What the theorems need of `context`: a close event that has been seen finished stays finished.
abbrev pub StaysFinished : (c : Call) → Reply c → View → Type 0
StaysFinished (finished w) r v = v.stopped ≡ true → r ≡ true
StaysFinished (wait w d) r v = v.stopped ≡ true → r ≡ true
StaysFinished _ r v = Unit {0}

abbrev pub watching : Model
watching = record {
  State = View;
  observe = observe;
  Allowed = StaysFinished;
  Invariant = IsSound;
  Starved = λ v. Unit {0};
}

-- The worker has no lease in use, and has not begun to end.
pub record IsIdle (v : View) : Type 0 where
  pub not_closed : v.closed_set ≡ false
  pub not_alive : v.alive_set ≡ false
  pub is_expired : v.expired_set ≡ true
  pub none_revoked : v.revoked ≡ []
  pub not_reopened : v.reopened ≡ false

-- The worker keeps a lease alive.
pub record IsServing (v : View) : Type 0 where
  pub not_closed : v.closed_set ≡ false
  pub is_alive : v.alive_set ≡ true
  pub not_expired : v.expired_set ≡ false
  pub has_lease : v.lease ≢ none
  pub none_revoked : v.revoked ≡ []
  pub not_reopened : v.reopened ≡ false

-- `l` is what the server has confirmed last, or what the session began with if it has confirmed nothing.
abbrev pub Confirmed : LeaseState → LeaseState → View → Type 0
Confirmed first l v = (v.lease ≡ some l.id) ⊎ ((v.lease ≡ none) × (l ≡ first))

pub IsIdle-IsSound : (v : View) → IsIdle v → IsSound v
IsIdle-IsSound v h = ground arith

pub IsServing-IsSound : (v : View) → IsServing v → IsSound v
IsServing-IsSound v h = ground arith
