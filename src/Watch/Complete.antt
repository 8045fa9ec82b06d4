-- ===== src/Watch/Complete.antt =====
-- The methods of `WatchOptions` make every request to watch there is.
use mathlib.Core.List.{append_assoc, append-nil}
use etcdv3client.Prelude.{ℕ, ◌≡◌, refl, ◌∙◌, ap, Bool, true, false, List, [], ◌∷◌, ◌++◌}
use etcdv3client.Options.{apply, apply-push_back}
use etcdv3client.Client.{Client}
use etcdv3client.Kv.Complete.{called_if}
use etcdv3client.Proto.Watch.{
  FilterType, noput, nodelete, WatchCreateRequest, create_request, default_watch_create_request,
}
use etcdv3client.Watch.{
  WatchOptions, with_range_end, with_start_revision, with_progress_notify, with_no_put,
  with_no_delete, with_prev_kv, with_watch_id, with_fragment, client_watch_single,
}
use etcdv3client.Effect.{ret, perform, ◌>>=◌, ◌>>◌, open_watch, watch_write_last}

-- The calls for the filters of a request, and for the rest of it.
unfoldable pub filter_options : List FilterType → WatchOptions → WatchOptions
unfolding with_no_put with_no_delete
filter_options [] o = o
filter_options (noput ∷ fs) o = filter_options fs (with_no_put o)
filter_options (nodelete ∷ fs) o = filter_options fs (with_no_delete o)

unfoldable pub plain_options : WatchCreateRequest → WatchOptions
unfolding with_fragment with_prev_kv with_progress_notify with_watch_id with_start_revision
    with_range_end
plain_options r = called_if r.fragment with_fragment (
    called_if r.prev_kv with_prev_kv (
      called_if r.progress_notify with_progress_notify (
        with_watch_id (with_start_revision (with_range_end [] r.range_end) r.start_revision)
          r.watch_id)))

unfoldable pub watch_options_of : WatchCreateRequest → WatchOptions
unfolding filter_options plain_options
watch_options_of r = filter_options r.filters (plain_options r)

filter_options-apply :
    (fs : List FilterType) (o : WatchOptions) (t : WatchCreateRequest)
    → apply (filter_options fs o) t ≡ record (apply o t) { filters = (apply o t).filters ++ fs }
unfolding filter_options
filter_options-apply [] o t = rw append-nil
filter_options-apply (noput ∷ fs) o t =
    filter_options-apply fs (with_no_put o) t
    ∙ rw (apply-push_back o _ t, append_assoc (apply o t).filters (noput ∷ []) fs)
filter_options-apply (nodelete ∷ fs) o t =
    filter_options-apply fs (with_no_delete o) t
    ∙ rw (apply-push_back o _ t, append_assoc (apply o t).filters (nodelete ∷ []) fs)

plain_options-apply :
    (r : WatchCreateRequest)
    → apply (plain_options r) (record default_watch_create_request { key = r.key })
      ≡ record r { filters = [] }
unfolding plain_options apply
plain_options-apply r = go r.progress_notify r.prev_kv r.fragment
  where
    go :
        (progress prev fragment : Bool)
        → let r' = record r { progress_notify = progress; prev_kv = prev; fragment = fragment } in
          apply (plain_options r') (record default_watch_create_request { key = r.key })
          ≡ record r' { filters = [] }
    go true true true = refl
    go true true false = refl
    go true false true = refl
    go true false false = refl
    go false true true = refl
    go false true false = refl
    go false false true = refl
    go false false false = refl

watch_options_of-apply :
    (r : WatchCreateRequest)
    → apply (watch_options_of r) (record default_watch_create_request { key = r.key }) ≡ r
unfolding watch_options_of
watch_options_of-apply r =
    filter_options-apply r.filters (plain_options r)
      (record default_watch_create_request { key = r.key })
    ∙ ap {A = WatchCreateRequest} (λ t. record t { filters = t.filters ++ r.filters })
        (plain_options-apply r)

-- Every request to watch can be made: WatchSingle, on the key of a request and with the calls of methods
-- that `watch_options_of` reads off it, opens a stream, writes that request as the only one, and gives the
-- stream.
pub watch_options_of-single :
    (client : Client) (context : ℕ) (r : WatchCreateRequest)
    → client_watch_single client context r.key (watch_options_of r) ≡ (
        perform (open_watch client.watch_stub context) >>= λ stream.
        perform (watch_write_last stream (create_request r)) >> ret stream)
unfolding client_watch_single
watch_options_of-single client context r =
    ap
      (λ t. perform (open_watch client.watch_stub context) >>= λ stream.
        perform (watch_write_last stream (create_request t)) >> ret stream)
      (watch_options_of-apply r)
