-- ===== src/Tests/Prefixes.antt =====
-- Range ends of concrete prefixes.
use etcdv3client.Prelude.{◌≡◌, refl, true, false, not, [], ◌∷◌, ◌++◌, arith}
use etcdv3client.Bytes.{Bytes, nul, lt_bytes, starts_with, eq_bytes}
use etcdv3client.Prefix.{signed_char, unsigned_char, get_prefix_range_end, below_ff}
use etcdv3client.Prefix.Range.{in_range, key_plus_one}
use etcdv3client.Prefix.Covers.{range_end_covers, range_end_loses}
use etcdv3client.Prefix.Reference.{range_end_overshoots, range_end_exact-single}
use etcdv3client.Kv.{client_delete_range, client_range}
use etcdv3client.Kv.RangeOptions
use etcdv3client.Kv.DeleteRangeOptions
use etcdv3client.Kv.Prefixes.{delete_range_open-ascii, range_covers-unsigned}
use etcdv3client.Proto.Kv.{DeleteRangeRequest, RangeRequest}
use etcdv3client.Effect.{perform, delete_range, range}
use etcdv3client.Tests.Data.{client, key_a, key_ab, key_wrapping}

-- "ab" has the documented range end "ac"; the code answers "b", or no upper bound.
key_plus_one-ab : key_plus_one key_ab ≡ 97 ∷ 99 ∷ []
unfolding key_plus_one
key_plus_one-ab = refl

range_end-ab : get_prefix_range_end unsigned_char key_ab ≡ 98 ∷ []
unfolding get_prefix_range_end
range_end-ab = refl

range_end-ab_signed : get_prefix_range_end signed_char key_ab ≡ nul
unfolding get_prefix_range_end
range_end-ab_signed = refl

-- Two bytes 255 at the end: the cut is as far from the front.
range_end-long : get_prefix_range_end unsigned_char (97 ∷ 98 ∷ 255 ∷ 255 ∷ []) ≡ 97 ∷ 98 ∷ 0 ∷ []
unfolding get_prefix_range_end
range_end-long = refl

delete_range_open-ascii_example :
    (req : DeleteRangeRequest) × (client_delete_range client 9 key_ab
        (DeleteRangeOptions.with_prefix signed_char [])
      ≡ perform (delete_range client.kv_stub 9 req))
    × ((k : Bytes) → in_range req.key req.range_end k ≡ not (lt_bytes k key_ab))
unfolding eq_bytes
delete_range_open-ascii_example =
    delete_range_open-ascii client 9 key_ab refl (omega arith, (omega arith, tt))

-- The last byte below 255 is 98, and the byte as far from the front is 255.
range_end_loses_example :
    in_range key_wrapping (get_prefix_range_end unsigned_char key_wrapping) key_wrapping ≡ false
unfolding below_ff
range_end_loses_example =
    range_end_loses unsigned_char {key = key_wrapping} (97 ∷ 255 ∷ []) 98 (255 ∷ []) (97 ∷ []) 255
      (98 ∷ 255 ∷ []) refl refl refl refl (refl, tt) key_wrapping (λ e. ground arith) refl

range_end_covers_example :
    in_range key_ab (get_prefix_range_end unsigned_char key_ab) (key_ab ++ key_a) ≡ true
unfolding below_ff
range_end_covers_example =
    range_end_covers unsigned_char {key = key_ab} (97 ∷ []) 98 [] [] 97 (98 ∷ []) refl refl refl
      refl tt key_a (omega arith)

range_covers-unsigned_example :
    (req : RangeRequest) × (client_range client 9 key_ab (RangeOptions.with_prefix unsigned_char [])
      ≡ perform (range client.kv_stub 9 req))
    × ((rest : Bytes) → in_range req.key req.range_end (key_ab ++ rest) ≡ true)
range_covers-unsigned_example =
    range_covers-unsigned client 9 key_a 98 (omega arith, tt) (omega arith)

range_end_overshoots_example :
    (in_range key_ab (get_prefix_range_end unsigned_char key_ab) (97 ∷ 99 ∷ []) ≡ true)
    × (starts_with key_ab (97 ∷ 99 ∷ []) ≡ false)
range_end_overshoots_example = range_end_overshoots 97 [] 98 (omega arith) (omega arith)

range_end_exact-single_example :
    in_range key_a (get_prefix_range_end unsigned_char key_a) key_ab ≡ starts_with key_a key_ab
range_end_exact-single_example =
    range_end_exact-single 97 key_ab (omega arith) (omega arith, (omega arith, tt))
