-- ===== src/Prefix/Range.antt =====
-- What a key and a range end stand for in a request: the comments on `key` and `range_end` of
-- `RangeRequest`, `DeleteRangeRequest` and `WatchCreateRequest` in proto/rpc.proto.
use etcdv3client.Prelude.{
  ◌+◌, ◌≡◌, refl, Bool, true, false, not, ◌&&◌, [], ◌∷◌, arith, ◌==◌, if◌then◌else◌, Bool-cases,
  inl, inr,
}
use etcdv3client.Bytes.{Bytes, nul, AreBytes, lt_bytes, eq_bytes, starts_with}

-- The key `k` is in the range: only `key` itself without a range end, every key from `key` on if the
-- range end is one NUL byte, and [key, range_end) otherwise.
unfoldable pub in_range : Bytes → Bytes → Bytes → Bool
unfolding lt_bytes eq_bytes
in_range key range_end k =
    if eq_bytes range_end []
    then eq_bytes k key
    else if eq_bytes range_end nul
    then not (lt_bytes k key)
    else not (lt_bytes k key) && lt_bytes k range_end

-- "key plus one" of those comments, where a trailing 0xff is dropped; empty if every byte is 0xff.
unfoldable pub plus_one : Bytes → Bytes
unfolding eq_bytes
plus_one [] = []
plus_one (b ∷ s) =
    let t = plus_one s in if eq_bytes t [] then (if b == 255 then [] else (b + 1) ∷ []) else b ∷ t

-- The range end that the comments ask for to get all keys with the prefix `key`.
unfoldable pub key_plus_one : Bytes → Bytes
unfolding plus_one
key_plus_one key = if eq_bytes (plus_one key) [] then nul else plus_one key

eq_bytes-nil : (s : Bytes) → eq_bytes s [] ≡ true → s ≡ []
unfolding eq_bytes
eq_bytes-nil [] h = refl
eq_bytes-nil (x ∷ s) h = cc

-- Without an upper bound, where every byte of the prefix is 0xff.
starts_with-open :
    (key k : Bytes)
    → AreBytes k
    → eq_bytes (plus_one key) [] ≡ true
    → not (lt_bytes k key) ≡ starts_with key k
unfolding plus_one lt_bytes starts_with
starts_with-open [] [] b h = refl
starts_with-open [] (y ∷ k) b h = refl
starts_with-open (x ∷ key) [] b h = refl
starts_with-open (x ∷ key) (y ∷ k) b h = ground (arith, starts_with-open key k b.1)

lt_bytes-nil : (k : Bytes) → lt_bytes k [] ≡ false
unfolding lt_bytes
lt_bytes-nil [] = refl
lt_bytes-nil (x ∷ k) = refl

starts_with-closed :
    (key k : Bytes)
    → AreBytes k
    → eq_bytes (plus_one key) [] ≡ false
    → (not (lt_bytes k key) && lt_bytes k (plus_one key)) ≡ starts_with key k
unfolding plus_one lt_bytes starts_with
starts_with-closed [] k b h = cc
starts_with-closed (x ∷ key) [] b h = refl
starts_with-closed (x ∷ key) (y ∷ k) b h = elim (Bool-cases (eq_bytes (plus_one key) [])) [
  | inl e ↦
      ground (arith, starts_with-open key k b.1, eq_bytes-nil (plus_one key) e, lt_bytes-nil k)
  | inr e ↦ ground (arith, starts_with-closed key k b.1)
]

plus_one-nul : (key : Bytes) → eq_bytes (plus_one key) nul ≡ false
unfolding plus_one
plus_one-nul [] = refl
plus_one-nul (x ∷ key) = ground (arith, plus_one-nul key)

-- The documented range end is exact: a key is in the range if and only if it has the prefix.
pub in_range-key_plus_one :
    (key k : Bytes) → AreBytes k → in_range key (key_plus_one key) k ≡ starts_with key k
unfolding in_range key_plus_one
in_range-key_plus_one key k b = elim (Bool-cases (eq_bytes (plus_one key) [])) [
  | inl e ↦ rw e (starts_with-open key k b e)
  | inr e ↦ rw e (rw (e, plus_one-nul key) (starts_with-closed key k b e))
]
