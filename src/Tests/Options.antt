-- ===== src/Tests/Options.antt =====
-- The builders of requests, and the other functions without calls.
use etcdv3client.Prelude.{ℕ, ◌+◌, ◌≡◌, refl, [], ◌∷◌}
use etcdv3client.Bytes.{nul}
use etcdv3client.Options.{apply}
use etcdv3client.Prefix.{unsigned_char}
use etcdv3client.Kv.RangeOptions.{with_prefix}
use etcdv3client.Kv.RangeOptions.Presets.{with_prefix_twice-empty}
use etcdv3client.Proto.Kv.{RangeRequest, default_range_request, default_put_request}
use etcdv3client.Proto.Txn.{txn_request, nil, cons, request_range, request_put}
use etcdv3client.Txn.{new_txn, get_request}
use etcdv3client.Txn.Order.{
  build, success, failure, range, put, build_order, conditions, on_success, on_failure,
}
use etcdv3client.Client.{new_client_of_target}
use etcdv3client.Client.Stubs.{noting, wired, new_client_wires}
use etcdv3client.Effect.{
  Service, create_channel, new_stub, kv, watch, lease, cluster, maintenance, auth,
}
use etcdv3client.Effect.Logic.{Holds}
use etcdv3client.Tests.Data.{key_a, key_ab}

abbrev request_ab : RangeRequest
request_ab = record default_range_request { key = key_ab }

with_prefix_twice-empty_example :
    ((apply (with_prefix unsigned_char []) default_range_request).range_end ≡ nul)
    × ((apply (with_prefix unsigned_char (with_prefix unsigned_char [])) default_range_request).key
        ≡ nul)
    × ((apply
          (with_prefix unsigned_char (with_prefix unsigned_char []))
          default_range_request).range_end
        ≡ 1 ∷ [])
unfolding apply
with_prefix_twice-empty_example = with_prefix_twice-empty [] default_range_request refl

build_order_example :
    get_request (
      build new_txn
        (success (range key_a []) ∷ failure (put key_a key_ab []) ∷ success (range key_ab []) ∷ []))
    ≡ txn_request []
        (cons
          (request_range (record default_range_request { key = key_a }))
          (cons (request_range (record default_range_request { key = key_ab })) nil))
        (cons (request_put (record default_put_request { key = key_a; value = key_ab })) nil)
unfolding conditions on_success on_failure apply
build_order_example =
    build_order
      (success (range key_a []) ∷ failure (put key_a key_ab []) ∷ success (range key_ab []) ∷ [])

abbrev stub_of : Service → ℕ → ℕ
stub_of kv c = c + 1
stub_of watch c = c + 2
stub_of lease c = c + 3
stub_of _ c = c + 4

new_client_wires_example :
    Holds
      (noting 5 stub_of)
      (λ made calls.
        (made ≡ wired 5 stub_of)
        × (calls
            ≡ new_stub auth 5
              ∷ new_stub maintenance 5
              ∷ new_stub cluster 5
              ∷ new_stub lease 5
              ∷ new_stub watch 5
              ∷ new_stub kv 5
              ∷ create_channel key_a
              ∷ []))
      (new_client_of_target key_a)
      []
new_client_wires_example = new_client_wires 5 stub_of key_a
