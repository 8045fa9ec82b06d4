-- ===== src/Tests/Builders.antt =====
-- Requests and transactions, and the calls that make them.
use mathlib.Core.List.{Permᴰ, Pairwise-pair}
use mathlib.Core.HLevel.{¬_prop}
use etcdv3client.Prelude.{◌≡◌, refl, pos, true, List, [], ◌∷◌, arith}
use etcdv3client.Options.{apply}
use etcdv3client.Prefix.{signed_char}
use etcdv3client.Kv.RangeOptions.Commute.{Method, limit, keys_only}
use etcdv3client.Kv.RangeOptions.Permuted.{chain, chain_perm}
use etcdv3client.Kv.RangeOptions.Complete.{methods_of}
use etcdv3client.Kv.RangeOptions.Unordered.{made, unordered_methods_of, unordered_methods_of-made}
use etcdv3client.Proto.Kv.{
  RangeRequest, default_range_request, default_put_request, descend, by_mod,
}
use etcdv3client.Proto.Txn.{
  TxnRequest, txn_request, nil, cons, request_range, request_put, request_txn, less, version,
}
use etcdv3client.Txn.{new_txn, get_request}
use etcdv3client.Txn.Order.{build}
use etcdv3client.Txn.Complete.{calls_of, calls_of-build}
use etcdv3client.Proto.Watch.{
  WatchCreateRequest, default_watch_create_request, noput, create_request,
}
use etcdv3client.Watch.{client_watch_single}
use etcdv3client.Watch.Complete.{watch_options_of, watch_options_of-single}
use etcdv3client.Effect.{perform, ret, open_watch, watch_write_last, ◌>>=◌, ◌>>◌}
use etcdv3client.Tests.Data.{client, key_a, key_ab}

abbrev newest : RangeRequest
newest = record default_range_request {
  key = key_ab;
  sort_order = descend;
  sort_target = by_mod;
  limit = pos 1;
  serializable = true;
}

unordered_methods_of-made_example :
    (made signed_char (record default_range_request { key = key_ab }) (unordered_methods_of newest)
      ≡ newest)
    × ((ms : List Method)
        → Permᴰ (methods_of newest) ms
        → apply (chain signed_char ms []) (record default_range_request { key = key_ab }) ≡ newest)
unordered_methods_of-made_example = unordered_methods_of-made signed_char newest

chain_perm_example :
    apply (chain signed_char (limit (pos 3) ∷ keys_only ∷ []) []) newest
    ≡ apply (chain signed_char (keys_only ∷ limit (pos 3) ∷ []) []) newest
chain_perm_example =
    chain_perm signed_char (limit (pos 3) ∷ keys_only ∷ []) (keys_only ∷ limit (pos 3) ∷ []) []
      newest ((Pairwise-pair (λ a b. ¬_prop)).1 (λ e. ground arith)) (Permᴰ.swap refl refl)

-- A put, or else a read in a nested transaction.
abbrev either : TxnRequest
either =
    txn_request
      (record { result = less; target = version (pos 1); key = key_a; range_end = [] } ∷ [])
      (cons (request_put (record default_put_request { key = key_a; ignore_lease = true })) nil)
      (cons (request_txn (txn_request [] (cons (request_range newest) nil) nil)) nil)

calls_of-build_example : get_request (build new_txn (calls_of signed_char either)) ≡ either
calls_of-build_example = calls_of-build signed_char either

abbrev deletions : WatchCreateRequest
deletions = record default_watch_create_request {
  key = key_a;
  range_end = key_ab;
  start_revision = pos 4;
  filters = noput ∷ [];
  fragment = true;
}

watch_options_of-single_example :
    client_watch_single client 9 key_a (watch_options_of deletions) ≡ (
      perform (open_watch client.watch_stub 9) >>= λ stream.
      perform (watch_write_last stream (create_request deletions)) >> ret stream)
watch_options_of-single_example = watch_options_of-single client 9 deletions
