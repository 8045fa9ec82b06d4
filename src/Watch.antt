-- ===== src/Watch.antt =====
-- The watch part of `Client`: etcdv3client/watch.h and etcdv3client/watch.cc.
pub mod Complete
use etcdv3client.Prelude.{ℕ, ℤ, true, [], ◌∷◌, ◌++◌, if◌then◌else◌}
use etcdv3client.Bytes.{Bytes, nul, eq_bytes}
use etcdv3client.Options.{Options, push_back, apply}
use etcdv3client.Prefix.{CharKind, get_prefix_range_end}
use etcdv3client.Client.{Client}
use etcdv3client.Effect.{Prog, ret, perform, ◌>>=◌, ◌>>◌, open_watch, watch_write_last}
use etcdv3client.Proto.Watch.{
  WatchCreateRequest, create_request, noput, nodelete, default_watch_create_request,
}

abbrev pub WatchOptions : Type 0
WatchOptions = Options WatchCreateRequest

unfoldable pub set_prefix : CharKind → WatchCreateRequest → WatchCreateRequest
unfolding eq_bytes
set_prefix c req =
    if eq_bytes req.key []
    then record req { key = nul; range_end = nul }
    else record req { range_end = get_prefix_range_end c req.key }

unfoldable pub with_prefix : CharKind → WatchOptions → WatchOptions
unfolding set_prefix
with_prefix c o = push_back o (set_prefix c)

unfoldable pub with_range_end : WatchOptions → Bytes → WatchOptions
with_range_end o end = push_back o (λ req. record req { range_end = end })

unfoldable pub with_from_key : WatchOptions → WatchOptions
with_from_key o = push_back o (λ req. record req { range_end = nul })

unfoldable pub with_start_revision : WatchOptions → ℤ → WatchOptions
with_start_revision o revision = push_back o (λ req. record req { start_revision = revision })

unfoldable pub with_progress_notify : WatchOptions → WatchOptions
with_progress_notify o = push_back o (λ req. record req { progress_notify = true })

unfoldable pub with_no_put : WatchOptions → WatchOptions
with_no_put o = push_back o (λ req. record req { filters = req.filters ++ noput ∷ [] })

unfoldable pub with_no_delete : WatchOptions → WatchOptions
with_no_delete o = push_back o (λ req. record req { filters = req.filters ++ nodelete ∷ [] })

unfoldable pub with_prev_kv : WatchOptions → WatchOptions
with_prev_kv o = push_back o (λ req. record req { prev_kv = true })

unfoldable pub with_watch_id : WatchOptions → ℤ → WatchOptions
with_watch_id o id = push_back o (λ req. record req { watch_id = id })

unfoldable pub with_fragment : WatchOptions → WatchOptions
with_fragment o = push_back o (λ req. record req { fragment = true })

unfoldable pub client_watch : Client → ℕ → Prog ℕ
client_watch client context = perform (open_watch client.watch_stub context)

-- The reply of `WriteLast` is dropped, as in the code.
unfoldable pub client_watch_single : Client → ℕ → Bytes → WatchOptions → Prog ℕ
unfolding apply
client_watch_single client context key options = do
  stream ← perform (open_watch client.watch_stub context)
  perform (
      watch_write_last stream
        (create_request (apply options (record default_watch_create_request { key = key }))))
  ret stream
