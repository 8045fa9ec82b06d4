-- ===== src/Prefix/Reference.antt =====
-- `GetPrefixRangeEnd` where `char` is unsigned, against the range end that proto/rpc.proto asks for.
use etcdv3client.Prelude.{
  ℕ, suc, ◌+◌, ◌%◌, ◌<◌, ◌≡◌, refl, true, false, [], ◌∷◌, ◌++◌, arith, ◌⊎◌, inl, inr,
}
use etcdv3client.Bytes.{
  Bytes, AreBytes, lt_bytes, starts_with, lt_bytes-append_self, lt_bytes-append_left,
}
use etcdv3client.Prefix.{unsigned_char, get_prefix_range_end}
use etcdv3client.Prefix.Range.{in_range, key_plus_one, in_range-key_plus_one}
use etcdv3client.Prefix.Covers.{
  first_byte_only, in_range-nul, in_range-closed, lt_bytes_bump, closed_end,
}

byte_cases : (x : ℕ) → x < 256 → ((x + 1) % 256 ≡ suc x) ⊎ ((x + 1) % 256 ≡ 0)
byte_cases x h = omega arith

-- The range end of a key that begins with `x`, as a bound for the keys that begin with `x`.
first_byte_bound :
    (x : ℕ) (s t : Bytes)
    → x < 256
    → lt_bytes (x ∷ t) (x ∷ s) ≡ false
    → in_range (x ∷ s) (((x + 1) % 256) ∷ []) (x ∷ t) ≡ true
first_byte_bound x s t h above = elim (byte_cases x h) [
  | inl e ↦
      rw (e, in_range-closed (x ∷ s) (suc x ∷ []) (x ∷ t) (closed_end [] x), above)
        (lt_bytes_bump [] t x (suc x) (omega arith))
  | inr e ↦ rw (e, in_range-nul (x ∷ s) (x ∷ t), above)
]

-- Where `char` is unsigned and the last byte of the key is below 255, every key with the prefix is in the
-- range.
pub range_end_covers-unsigned :
    (xs : Bytes) (b : ℕ) (rest : Bytes)
    → AreBytes xs
    → b < 255
    → let key = xs ++ b ∷ [] in
      in_range key (get_prefix_range_end unsigned_char key) (key ++ rest) ≡ true
range_end_covers-unsigned [] b rest bytes h =
    rw (first_byte_only (b ∷ []) [] b b [] refl refl h)
      (first_byte_bound b [] rest (omega arith) (lt_bytes-append_self (b ∷ []) rest))
range_end_covers-unsigned (x ∷ xs) b rest bytes h =
    rw (first_byte_only (x ∷ xs ++ b ∷ []) (x ∷ xs) b x (xs ++ b ∷ []) refl refl h) (
      first_byte_bound x (xs ++ b ∷ []) ((xs ++ b ∷ []) ++ rest) bytes.0
        (lt_bytes-append_self (x ∷ xs ++ b ∷ []) rest))

starts_with_bump : (xs : Bytes) (b : ℕ) → starts_with (xs ++ b ∷ []) (xs ++ suc b ∷ []) ≡ false
unfolding starts_with
starts_with_bump [] b = ground arith
starts_with_bump (x ∷ xs) b = ground (arith, starts_with_bump xs b)

lt_bytes_up : (xs : Bytes) (b : ℕ) → lt_bytes (xs ++ suc b ∷ []) (xs ++ b ∷ []) ≡ false
unfolding lt_bytes
lt_bytes_up xs b = rw (lt_bytes-append_left xs) (ground arith)

-- Where `char` is unsigned, a key of two bytes or more whose last byte is below 255 gets too much: the key
-- that has one more in its last byte is in the range and does not have the prefix.
pub range_end_overshoots :
    (x : ℕ) (xs : Bytes) (b : ℕ)
    → x < 256
    → b < 255
    → let key = x ∷ xs ++ b ∷ [] in
      let other = x ∷ xs ++ suc b ∷ [] in
      (in_range key (get_prefix_range_end unsigned_char key) other ≡ true)
      × (starts_with key other ≡ false)
range_end_overshoots x xs b hx h = (
  rw (first_byte_only (x ∷ xs ++ b ∷ []) (x ∷ xs) b x (xs ++ b ∷ []) refl refl h)
      (first_byte_bound x (xs ++ b ∷ []) (xs ++ suc b ∷ []) hx (lt_bytes_up (x ∷ xs) b)),
  starts_with_bump (x ∷ xs) b,
)

-- On a key of one byte the code agrees with the documented range end, where `char` is unsigned.
range_end-key_plus_one :
    (b : ℕ) → b < 255 → get_prefix_range_end unsigned_char (b ∷ []) ≡ key_plus_one (b ∷ [])
unfolding key_plus_one
range_end-key_plus_one b h =
    rw (first_byte_only (b ∷ []) [] b b [] refl refl h)
      (let e : (b + 1) % 256 ≡ b + 1 = omega arith in rw e (ground arith))

-- Where `char` is unsigned, the range of a key of one byte below 255 is exact: a key is in it if and only
-- if it has the prefix.
pub range_end_exact-single :
    (b : ℕ) (k : Bytes)
    → b < 255
    → AreBytes k
    → in_range (b ∷ []) (get_prefix_range_end unsigned_char (b ∷ [])) k ≡ starts_with (b ∷ []) k
range_end_exact-single b k h bytes =
    rw (range_end-key_plus_one b h) (in_range-key_plus_one (b ∷ []) k bytes)
