-- ===== src/Kv/Prefixes.antt =====
-- Which keys the requests of the client reach when they are made with WithPrefix.
use etcdv3client.Prelude.{ℕ, ◌<◌, ◌≡◌, refl, true, false, not, [], ◌∷◌, ◌++◌, All}
use etcdv3client.Bytes.{Bytes, AreBytes, lt_bytes, eq_bytes}
use etcdv3client.Prefix.{signed_char, unsigned_char, get_prefix_range_end}
use etcdv3client.Prefix.Range.{in_range}
use etcdv3client.Prefix.Covers.{range_end_open-ascii}
use etcdv3client.Prefix.Reference.{range_end_covers-unsigned}
use etcdv3client.Client.{Client}
use etcdv3client.Effect.{perform, delete_range, range}
use etcdv3client.Proto.Kv.{RangeRequest, DeleteRangeRequest, default_range_request}
use etcdv3client.Kv.{client_delete_range, client_range}
use etcdv3client.Kv.RangeOptions
use etcdv3client.Kv.DeleteRangeOptions

eq_bytes-filled : (xs : Bytes) (b : ℕ) → eq_bytes (xs ++ b ∷ []) [] ≡ false
unfolding eq_bytes
eq_bytes-filled [] b = refl
eq_bytes-filled (x ∷ xs) b = refl

-- Where `char` is signed, DeleteRange of a key of ASCII bytes, not empty, with WithPrefix sends one request,
-- whose range holds every key that does not come before the key, whether it has the prefix or not.
pub delete_range_open-ascii :
    (client : Client) (context : ℕ) (key : Bytes)
    → eq_bytes key [] ≡ false
    → All (λ b. b < 128) key
    → (req : DeleteRangeRequest) × (client_delete_range client context key
          (DeleteRangeOptions.with_prefix signed_char [])
        ≡ perform (delete_range client.kv_stub context req))
      × ((k : Bytes) → in_range req.key req.range_end k ≡ not (lt_bytes k key))
unfolding client_delete_range DeleteRangeOptions.with_prefix
delete_range_open-ascii client context key filled ascii = (
  record { key = key; range_end = get_prefix_range_end signed_char key; prev_kv = false },
  rw filled,
  λ k. range_end_open-ascii key k ascii,
)

-- Where `char` is unsigned, Range of a key of bytes, the last of them below 255, with WithPrefix sends one
-- request, whose range holds every key that has the prefix.
pub range_covers-unsigned :
    (client : Client) (context : ℕ) (xs : Bytes) (b : ℕ)
    → AreBytes xs
    → b < 255
    → (req : RangeRequest) × (client_range client context
          (xs ++ b ∷ [])
          (RangeOptions.with_prefix unsigned_char [])
        ≡ perform (range client.kv_stub context req))
      × ((rest : Bytes) → in_range req.key req.range_end ((xs ++ b ∷ []) ++ rest) ≡ true)
unfolding client_range RangeOptions.with_prefix
range_covers-unsigned client context xs b bytes h = (
  record default_range_request {
    key = xs ++ b ∷ [];
    range_end = get_prefix_range_end unsigned_char (xs ++ b ∷ []);
  },
  rw (eq_bytes-filled xs b),
  λ rest. range_end_covers-unsigned xs b rest bytes h,
)
