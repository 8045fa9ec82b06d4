-- ===== src/Session/Methods.antt =====
-- The methods of `Session` that other threads call: Grant, Close, the destructor and the accessors of
-- etcdv3client/session.h and etcdv3client/session.cc.
use etcdv3client.Prelude.{ℕ, ℤ, Bool, true, if◌then◌else◌}
use etcdv3client.Status.{
  StatusLibrary, make_default, make_message, code_value, session_already_granted,
  session_already_closed,
}
use etcdv3client.Bytes.{Bytes}
use etcdv3client.Client.{Client}
use etcdv3client.Effect.{
  closed, alive, Prog, ret, perform, ◌>>=◌, ◌>>◌, is_set, set, start_thread, joinable, join,
}
use etcdv3client.Session.Options.{SessionOptions, default_options}
use etcdv3client.Session.{LeaseState, Session}

module _ (lib : StatusLibrary) where
  -- Grant(ctx, options), under the mutex. The texts of the messages are arguments.
  unfoldable pub grant : Bytes → Bytes → ℕ → SessionOptions → Session → Prog (lib.Status × Session)
  unfolding make_default make_message code_value
  grant closed_text granted_text context options s = do
    gone ← perform (is_set closed)
    if gone
        then ret (make_message lib (code_value session_already_closed) closed_text, s)
        else if s.granted
        then ret (make_message lib (code_value session_already_granted) granted_text, s)
        else do
          perform (start_thread context options)
          ret (make_default lib, record s { granted = true })

  -- Grant(ctx)
  unfoldable pub grant_default : Bytes → Bytes → ℕ → Session → Prog (lib.Status × Session)
  unfolding grant
  grant_default closed_text granted_text context s =
      grant closed_text granted_text context default_options s

-- Close(), under the mutex.
unfoldable pub close : Prog (Unit {0})
close = do
  perform (set closed)
  running ← perform joinable
  if running then perform join else ret tt

-- ~Session()
unfoldable pub destroy : Prog (Unit {0})
unfolding close
destroy = close

-- IsAlive() and get_closed().
unfoldable pub is_alive : Prog Bool
is_alive = perform (is_set alive)

unfoldable pub get_closed : Prog Bool
get_closed = perform (is_set closed)

-- get_client(), get_granted() and get_lease().
abbrev pub get_client : Session → Client
get_client s = s.client

abbrev pub get_granted : Session → Bool
get_granted s = s.granted

abbrev pub get_lease : LeaseState → ℤ
get_lease l = l.id
