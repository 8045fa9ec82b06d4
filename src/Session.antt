-- ===== src/Session.antt =====
-- etcdv3client/session.h and etcdv3client/session.cc: the worker thread of a session. `lease_` and
-- `lease_ttl_` are written by the worker alone and are passed along; `granted_` is used under the mutex
-- alone. Loops run on fuel; logging is left out.
pub mod Options
pub mod Methods
pub mod View
pub mod Granting
pub mod KeepingAlive
pub mod Looping
pub mod Revoking
pub mod Patience
pub mod Termination
pub mod Worker
pub mod Interval
pub mod Counter
pub mod Hope
pub mod Liveness
pub mod Calling
pub mod Callers
pub mod Requests
pub mod System
use mathlib.Core.Option
use etcdv3client.Prelude.{
  ℕ, zero, suc, ℤ, pos, Bool, true, false, Option, none, some, [], ◌∷◌, ◌==◌, ◌==ℤ◌, ◌||◌,
  if◌then◌else◌, min_ℤ, pos_part, half, leb, neg_part, ltb_ℤ,
}
use etcdv3client.Status.{
  StatusLibrary, make_default, make_message, code_value, session_already_granted,
  session_already_closed,
}
use etcdv3client.Bytes.{Bytes}
use etcdv3client.Client.{Client}
use etcdv3client.Lease.{with_id, client_lease_grant, client_lease_revoke, client_lease_keep_alive}
use etcdv3client.Effect.{
  Waitable, close_event, SessionEvent, closed, alive, expired, Prog, ret, call, out_of_fuel,
  perform, ◌>>=◌, ◌>>◌, get_grpc_client_context, try_cancel, keep_alive_write, keep_alive_read,
  finish, finished, wait, sleep_for, new_back_off, back_off_next, back_off_reset, is_set, set,
  reset, start_thread, joinable, join,
}
use Options.{SessionOptions, set_lease, set_ttl, default_options}

-- `lease_` and `lease_ttl_`. The constructor does not initialise them.
pub record LeaseState : Type 0 where
  pub id : ℤ
  pub ttl : ℤ

-- `granted_`; the client is shared and does not change.
pub record Session : Type 0 where
  pub client : Client
  pub granted : Bool

-- Session(client) and New(client).
abbrev pub new_session : Client → Session
new_session client = record { client = client; granted = false }

-- grpc::StatusCode::NOT_FOUND
abbrev pub grpc_not_found : ℕ
grpc_not_found = 5

-- `revoke_default_max_retry_times`
abbrev pub revoke_default_max_retry_times : ℤ
revoke_default_max_retry_times = pos 3

-- GetKeepAliveIntervalByTTL
unfoldable pub get_keep_alive_interval_by_ttl : ℤ → ℤ
get_keep_alive_interval_by_ttl ttl = if ltb_ℤ (pos 0) (half ttl) then half ttl else pos 1

-- `backoff.Reset(false); backoff.Next()`
unfoldable pub back_off_failed : ℕ → Prog ℤ
back_off_failed backoff = do
  perform (back_off_reset backoff (some false))
  perform (back_off_next backoff)

module _ (client : Client) (event : Waitable) (options : SessionOptions) where
  unfoldable pub grant_loop : ℕ → ℕ → LeaseState → Prog LeaseState
  unfolding get_grpc_client_context client_lease_grant with_id back_off_failed
  grant_loop zero backoff l = out_of_fuel
  grant_loop (suc n) backoff l = do
    stop ← perform (finished event)
    if stop then ret l else do
      context ← get_grpc_client_context options.get_grpc_client_context_func
      (status, response) ← client_lease_grant client context options.ttl (with_id [] options.lease)
      if status.is_ok then ret (record { id = response.id; ttl = response.ttl }) else do
        d ← back_off_failed backoff
        stop ← perform (wait event d)
        if stop then ret l else grant_loop n backoff l

  unfoldable pub try_grant : ℕ → LeaseState → Prog LeaseState
  unfolding grant_loop
  try_grant n l = do
    backoff ← perform (new_back_off options.retry_min_wait_time options.retry_max_wait_time)
    grant_loop n backoff l

-- How the inner loop of TryKeepAlive ends: the function returns, or the outer loop goes on.
pub data KeepAliveEnd : Type 0 where
  returns breaks : LeaseState → KeepAliveEnd

module _ (client : Client) (event : Waitable) (options : SessionOptions) where
  -- `Write(req) && Read(&rsp)`, with what the session takes from the answer.
  unfoldable pub read_answer : ℕ → Prog (Option LeaseState)
  read_answer stream = do
    answer ← perform (keep_alive_read stream)
    ret (Option.map (λ rsp. record { id = rsp.id; ttl = rsp.ttl }) answer)

  unfoldable pub exchange : ℕ → LeaseState → Prog (Option LeaseState)
  unfolding read_answer
  exchange stream l = do
    written ← perform (keep_alive_write stream (record { id = l.id }))
    if written then read_answer stream else ret none

  -- The branch "Close event".
  unfoldable pub abandon : ℕ → ℕ → LeaseState → Prog KeepAliveEnd
  abandon context stream l = do
    perform (try_cancel context)
    perform (finish stream)
    ret (returns l)

  -- The branch "Bad".
  unfoldable pub exchange_failed : ℕ → ℕ → LeaseState → Prog KeepAliveEnd
  unfolding back_off_failed
  exchange_failed backoff stream l = do
    status ← perform (finish stream)
    if status.error_code == grpc_not_found
        then ret (returns l)
        else do d ← back_off_failed backoff; perform (sleep_for d); ret (breaks l)

  -- "Inner loop to keep alive"
  unfoldable pub keep_alive_loop : ℕ → ℕ → ℕ → ℕ → LeaseState → Prog KeepAliveEnd
  unfolding exchange exchange_failed abandon
  keep_alive_loop zero backoff context stream l = out_of_fuel
  keep_alive_loop (suc n) backoff context stream l = do
    d ← perform (back_off_next backoff)
    stop ← perform (wait event d)
    if stop then abandon context stream l else do
      answer ← exchange stream l
      elim answer [
        | some l' ↦
            perform (back_off_reset backoff none) >> keep_alive_loop n backoff context stream l'
        | none ↦ exchange_failed backoff stream l
      ]

  -- The outer loop; `inner` is the fuel of the inner one.
  unfoldable pub connect_loop : ℕ → ℕ → ℕ → LeaseState → Prog LeaseState
  unfolding keep_alive_loop get_grpc_client_context client_lease_keep_alive
  connect_loop inner zero backoff l = out_of_fuel
  connect_loop inner (suc n) backoff l = do
    stop ← perform (finished event)
    if stop then ret l else do
      context ← get_grpc_client_context options.get_grpc_client_context_func
      stream ← client_lease_keep_alive client context
      end ← keep_alive_loop inner backoff context stream l
      elim end [ returns l' ↦ ret l' | breaks l' ↦ connect_loop inner n backoff l' ]

  unfoldable pub try_keep_alive : ℕ → LeaseState → Prog LeaseState
  unfolding connect_loop
  try_keep_alive n l = do
    backoff ← perform (
        new_back_off (min_ℤ options.retry_min_wait_time l.ttl)
          (min_ℤ options.retry_max_wait_time l.ttl))
    connect_loop n n backoff l

-- The rounds that the loop of TryRevoke makes at most; a negative maximum leaves none.
unfoldable pub revoke_rounds : SessionOptions → ℕ
revoke_rounds options =
    if options.revoke_max_retry_times ==ℤ pos 0
    then pos_part revoke_default_max_retry_times
    else pos_part options.revoke_max_retry_times

module _ (client : Client) (options : SessionOptions) where
  -- `while (++retry_times <= max)`, with the rounds that are left.
  unfoldable pub revoke_loop : ℕ → ℕ → LeaseState → Prog (Unit {0})
  unfolding get_grpc_client_context client_lease_revoke back_off_failed
  revoke_loop zero backoff l = ret tt
  revoke_loop (suc rounds) backoff l = do
    context ← get_grpc_client_context options.get_grpc_client_context_func
    status ← client_lease_revoke client context l.id
    if status.is_ok || status.error_code == grpc_not_found
        then ret tt
        else do d ← back_off_failed backoff; perform (sleep_for d); revoke_loop rounds backoff l

  unfoldable pub try_revoke : LeaseState → Prog (Unit {0})
  unfolding revoke_loop revoke_rounds
  try_revoke l = do
    backoff ← perform (new_back_off options.retry_min_wait_time options.retry_max_wait_time)
    revoke_loop (revoke_rounds options) backoff l

module _ (client : Client) (event : Waitable) where
  -- What the worker does with a lease until it is lost or the session is closed.
  unfoldable pub serve : ℕ → SessionOptions → LeaseState → Prog LeaseState
  unfolding try_keep_alive
  serve n options l = do
    perform (reset expired)
    perform (set alive)
    l' ← try_keep_alive client event options n l
    perform (reset alive)
    perform (set expired)
    ret l'

  -- The loop of GrantAndKeepAlive; `inner` is the fuel of the loops inside.
  unfoldable pub session_loop :
      ℕ → ℕ → SessionOptions → LeaseState → Prog (SessionOptions × LeaseState)
  unfolding try_grant serve
  session_loop inner zero options l = out_of_fuel
  session_loop inner (suc n) options l = do
    stop ← perform (finished event)
    if stop then ret (options, l) else do
      l' ← try_grant client event options inner l
      let options' = set_ttl (set_lease options l'.id) l'.ttl
      stop ← perform (finished event)
      if stop
          then session_loop inner n options' l'
          else do l'' ← serve inner options' l'; session_loop inner n options' l''

-- GrantAndKeepAlive: the body of the worker thread.
unfoldable pub grant_and_keep_alive : Client → ℕ → ℕ → SessionOptions → LeaseState → Prog LeaseState
unfolding session_loop try_revoke
grant_and_keep_alive client n context options l = do
  (options', l') ← session_loop client (close_event context) n n options l
  try_revoke client options' l'
  perform (set closed)
  ret l'
