-- ===== src/Prefix/Covers.antt =====
-- Which keys a request with `WithPrefix` reaches: the range that `GetPrefixRangeEnd` asks for against the
-- keys that have the prefix.
use etcdv3client.Prelude.{
  ℕ, suc, ◌+◌, ◌%◌, ◌<◌, ◌≡◌, ◌≢◌, refl, true, false, not, ◌&&◌, [], ◌∷◌, ◌++◌, arith, length, All,
  Bool-cases, inl, inr,
}
use etcdv3client.Bytes.{
  Bytes, nul, lt_bytes, eq_bytes, lt_bytes-append_self, lt_bytes-append_left, lt_bytes_trans,
}
use mathlib.Core.List.{append_assoc}
use etcdv3client.Prefix.{CharKind, signed_char, unsigned_char, below_ff, get_prefix_range_end}
use etcdv3client.Prefix.Range.{in_range}
use etcdv3client.Prefix.Loop.{Passed, range_end-Passed, range_end-stop}

-- Neither empty nor one NUL byte.
pub closed_end :
    (p : Bytes) (e : ℕ)
    → (eq_bytes (p ++ suc e ∷ []) [] ≡ false) × (eq_bytes (p ++ suc e ∷ []) nul ≡ false)
unfolding eq_bytes
closed_end [] e = (refl, ground arith)
closed_end (x ∷ []) e = (refl, ground arith)
closed_end (x ∷ y ∷ p) e = (refl, ground arith)

closed_end-zero :
    (x : ℕ) (p : Bytes) (e : ℕ)
    → (eq_bytes (x ∷ p ++ e ∷ []) [] ≡ false) × (eq_bytes (x ∷ p ++ e ∷ []) nul ≡ false)
unfolding eq_bytes
closed_end-zero x [] e = (refl, ground arith)
closed_end-zero x (y ∷ p) e = (refl, ground arith)

pub lt_bytes_bump : (p q : Bytes) (e d : ℕ) → e < d → lt_bytes (p ++ e ∷ q) (p ++ d ∷ []) ≡ true
unfolding lt_bytes
lt_bytes_bump p q e d h = rw (lt_bytes-append_left p) (ground arith)

lt_bytes_bump' : (p q : Bytes) (e d : ℕ) → e < d → lt_bytes (p ++ e ∷ []) (p ++ d ∷ q) ≡ true
unfolding lt_bytes
lt_bytes_bump' p q e d h = rw (lt_bytes-append_left p) (ground arith)

pub in_range-nul : (key k : Bytes) → in_range key nul k ≡ not (lt_bytes k key)
unfolding in_range
in_range-nul key k = refl

pub in_range-closed :
    (key end k : Bytes)
    → (eq_bytes end [] ≡ false) × (eq_bytes end nul ≡ false)
    → in_range key end k ≡ (not (lt_bytes k key) && lt_bytes k end)
unfolding in_range
in_range-closed key end k h = rw (h.0, h.1)

-- A cut key whose last byte is incremented without a carry is above every key with the prefix.
pub in_range-bump :
    (p : Bytes) (e : ℕ) (q rest : Bytes)
    → in_range (p ++ e ∷ q) (p ++ suc e ∷ []) ((p ++ e ∷ q) ++ rest) ≡ true
in_range-bump p e q rest = rw (
  in_range-closed (p ++ e ∷ q) (p ++ suc e ∷ []) ((p ++ e ∷ q) ++ rest) (closed_end p e),
  lt_bytes-append_self (p ++ e ∷ q) rest,
  append_assoc p (e ∷ q) rest,
  lt_bytes_bump p (q ++ rest) e (suc e) (omega arith),
)

-- A range end below the key leaves nothing.
in_range-below :
    (key end k : Bytes)
    → (eq_bytes end [] ≡ false) × (eq_bytes end nul ≡ false)
    → lt_bytes end key ≡ true
    → in_range key end k ≡ false
in_range-below key end k h lt =
    rw (in_range-closed key end k h) (elim (Bool-cases (lt_bytes k end)) [
      | inl below ↦ rw (below, lt_bytes_trans k end key below lt)
      | inr above ↦ rw above (ground arith)
    ])

module _ (c : CharKind) {key : Bytes} (xs : Bytes) (b : ℕ) (ys : Bytes) (p : Bytes) (e : ℕ)
    (q : Bytes) (stop : key ≡ xs ++ b ∷ ys) (cut : key ≡ p ++ e ∷ q) (same : length p ≡ length ys)
    (below : below_ff c b ≡ true) (passed : Passed c ys) where
  -- Let `b` be the last byte of a prefix that compares below 0xff, and `e` the byte as far from the front
  -- as `b` is from the back. If `e` is below 255, then every key with the prefix is in its range.
  pub range_end_covers :
      (rest : Bytes) → e < 255 → in_range key (get_prefix_range_end c key) (key ++ rest) ≡ true
  range_end_covers rest h =
      let wrap : (e + 1) % 256 ≡ suc e = omega arith in
      rw (range_end-stop c xs b ys p e q stop cut same below passed, wrap, cut)
        (in_range-bump p e q rest)

  -- Let `b` be the last byte of a prefix that compares below 0xff, and `e` the byte as far from the front
  -- as `b` is from the back. If `e` is 255 and is not the first byte, then no key at all is in the range of
  -- the prefix.
  pub range_end_loses :
      (k : Bytes) → p ≢ [] → e ≡ 255 → in_range key (get_prefix_range_end c key) k ≡ false
  range_end_loses k nonempty full =
      let wrap : (e + 1) % 256 ≡ 0 = omega arith in
      rw (range_end-stop c xs b ys p e q stop cut same below passed, wrap, cut) (lost p nonempty)
    where
      lost : (s : Bytes) → s ≢ [] → in_range (s ++ e ∷ q) (s ++ 0 ∷ []) k ≡ false
      lost [] h = absurd (h refl)
      lost (x ∷ s) h =
          in_range-below (x ∷ s ++ e ∷ q) (x ∷ s ++ 0 ∷ []) k (closed_end-zero x s 0)
            (lt_bytes_bump' (x ∷ s) q 0 e (omega arith))

below_ff-unsigned : (b : ℕ) → b < 255 → below_ff unsigned_char b ≡ true
unfolding below_ff
below_ff-unsigned b h = ground arith

below_ff-ascii : (b : ℕ) → b < 128 → below_ff signed_char b ≡ false
unfolding below_ff
below_ff-ascii b h = ground arith

Passed-ascii : (key : Bytes) → All (λ b. b < 128) key → Passed signed_char key
Passed-ascii [] h = tt
Passed-ascii (b ∷ key) h = (below_ff-ascii b h.0, Passed-ascii key h.1)

-- Where `char` is signed, the range of a key of ASCII bytes has no upper bound: it holds exactly the keys
-- that do not come before the key, whether they have the prefix or not.
pub range_end_open-ascii :
    (key k : Bytes)
    → All (λ b. b < 128) key
    → in_range key (get_prefix_range_end signed_char key) k ≡ not (lt_bytes k key)
range_end_open-ascii key k h =
    rw (range_end-Passed signed_char key (Passed-ascii key h)) (in_range-nul key k)

pub first_byte_only :
    (key : Bytes) (xs : Bytes) (b e : ℕ) (q : Bytes)
    → key ≡ xs ++ b ∷ []
    → key ≡ e ∷ q
    → b < 255
    → get_prefix_range_end unsigned_char key ≡ ((e + 1) % 256) ∷ []
first_byte_only key xs b e q stop cut h =
    range_end-stop unsigned_char xs b [] [] e q stop cut refl (below_ff-unsigned b h) tt
