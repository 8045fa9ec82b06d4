-- ===== src/Kv/Complete.antt =====
-- The methods of `PutOptions` and `DeleteRangeOptions` make every request there is.
use etcdv3client.Prelude.{ℤ, ◌≡◌, refl, Bool, true, false, []}
use etcdv3client.Bytes.{Bytes}
use etcdv3client.Options.{apply}
use etcdv3client.Proto.Kv.{
  PutRequest, DeleteRangeRequest, default_put_request, default_delete_range_request,
}
use etcdv3client.Kv.PutOptions
use etcdv3client.Kv.PutOptions.{PutOptions, with_lease, with_ignore_value, with_ignore_lease}
use etcdv3client.Kv.DeleteRangeOptions
use etcdv3client.Kv.DeleteRangeOptions.{DeleteRangeOptions, with_range_end}

-- A method that is called or not.
abbrev pub called_if : {O : Type 0} → Bool → (O → O) → O → O
called_if true m o = m o
called_if false m o = o

-- The calls that make a request, from its key and its value.
unfoldable pub put_options : PutRequest → PutOptions
unfolding with_lease PutOptions.with_prev_kv with_ignore_value with_ignore_lease
put_options r = called_if r.ignore_lease with_ignore_lease (
    called_if r.ignore_value with_ignore_value
      (called_if r.prev_kv PutOptions.with_prev_kv (with_lease [] r.lease)))

unfoldable pub delete_range_options : DeleteRangeRequest → DeleteRangeOptions
unfolding with_range_end DeleteRangeOptions.with_prev_kv
delete_range_options r =
    called_if r.prev_kv DeleteRangeOptions.with_prev_kv (with_range_end [] r.range_end)

pub put_options-apply :
    (r : PutRequest)
    → apply (put_options r) (record default_put_request { key = r.key; value = r.value }) ≡ r
unfolding put_options apply
put_options-apply r = go r.key r.value r.lease r.prev_kv r.ignore_value r.ignore_lease
  where
    go :
        (key value : Bytes) (lease : ℤ) (prev_kv ignore_value ignore_lease : Bool)
        → apply
            (put_options (record {
              key = key;
              value = value;
              lease = lease;
              prev_kv = prev_kv;
              ignore_value = ignore_value;
              ignore_lease = ignore_lease;
            }))
            (record default_put_request { key = key; value = value })
          ≡ record {
            key = key;
            value = value;
            lease = lease;
            prev_kv = prev_kv;
            ignore_value = ignore_value;
            ignore_lease = ignore_lease;
          }
    go k v l true true true = refl
    go k v l true true false = refl
    go k v l true false true = refl
    go k v l true false false = refl
    go k v l false true true = refl
    go k v l false true false = refl
    go k v l false false true = refl
    go k v l false false false = refl

pub delete_range_options-apply :
    (r : DeleteRangeRequest)
    → apply (delete_range_options r) (record default_delete_range_request { key = r.key }) ≡ r
unfolding delete_range_options apply
delete_range_options-apply r = go r.key r.range_end r.prev_kv
  where
    go :
        (key end : Bytes) (prev_kv : Bool)
        → apply
            (delete_range_options (record { key = key; range_end = end; prev_kv = prev_kv }))
            (record default_delete_range_request { key = key })
          ≡ record { key = key; range_end = end; prev_kv = prev_kv }
    go k e true = refl
    go k e false = refl
