-- ===== src/Prefix/Loop.antt =====
-- What the loop of `GetPrefixRangeEnd` computes: it stops at the last byte `b` that is below 0xff, cuts
-- the key behind as many bytes from the front as it has passed at the back, and increments there.
use mathlib.Core.List.{append_assoc}
use etcdv3client.Prelude.{
  ℕ, zero, suc, ◌+◌, ◌-◌, ◌%◌, ◌<◌, ◌≡◌, refl, ap, ◌∙◌, true, false, [], ◌∷◌, ◌++◌, arith, length,
  get_elem?, take, All, length-append, get_elem?-append_right, take-append,
}
use etcdv3client.Bytes.{Bytes, nul}
use etcdv3client.Prefix.{
  CharKind, below_ff, is_below, found_at, increment, scan, get_prefix_range_end,
}

-- The loop goes on at these bytes.
abbrev pub Passed : CharKind → Bytes → Type 0
Passed c = All (λ b. below_ff c b ≡ false)

get_elem?-append_add :
    (xs ys : Bytes) (k : ℕ) → get_elem? (xs ++ ys) (length xs + k) ≡ get_elem? ys k
get_elem?-append_add [] ys k = ap (get_elem? ys) (omega arith)
get_elem?-append_add (x ∷ xs) ys k =
    ap (get_elem? (x ∷ xs ++ ys))
      (let e : suc (length xs) + k ≡ suc (length xs + k) = omega arith in e)
    ∙ get_elem?-append_add xs ys k

is_below-Passed :
    (c : CharKind) (ys : Bytes) (k : ℕ) → Passed c ys → is_below c (get_elem? ys k) ≡ false
unfolding is_below
is_below-Passed c [] k h = refl
is_below-Passed c (y ∷ ys) zero h = h.0
is_below-Passed c (y ∷ ys) (suc k) h = is_below-Passed c ys k h.1

module _ (c : CharKind) (xs ys : Bytes) where
  -- Round `j` looks at `ys`, while `j` is below its length.
  found_at-Passed : (j : ℕ) → Passed c ys → j < length ys → found_at c (xs ++ ys) j ≡ false
  unfolding found_at
  found_at-Passed j h lt =
      let place : length (xs ++ ys) - j - 1 ≡ length xs + (length ys - j - 1) =
        omega (arith, length-append xs ys) in
      rw (place, get_elem?-append_add xs ys) (is_below-Passed c ys _ h)

found_at-hit :
    (c : CharKind) (xs : Bytes) (b : ℕ) (ys : Bytes)
    → found_at c (xs ++ b ∷ ys) (length ys) ≡ below_ff c b
unfolding found_at is_below
found_at-hit c xs b ys =
    let place : length (xs ++ b ∷ ys) - length ys - 1 ≡ length xs =
      omega (arith, length-append xs (b ∷ ys)) in
    rw (place, get_elem?-append_right xs b ys)

increment-append :
    (p : Bytes) (e : ℕ) → increment (length p) (p ++ e ∷ []) ≡ p ++ ((e + 1) % 256) ∷ []
unfolding increment
increment-append [] e = refl
increment-append (x ∷ p) e = rw (increment-append p e)

-- The rounds that find nothing.
scan-miss :
    (c : CharKind) (key : Bytes) (n m i : ℕ)
    → ((j : ℕ) → j < i + n → found_at c key j ≡ false)
    → scan c key (n + m) i ≡ scan c key m (i + n)
unfolding scan
scan-miss c key zero m i h =
    ap (λ k. scan c key k i) (omega arith) ∙ ap (scan c key m) (omega arith)
scan-miss c key (suc n) m i h =
    let e : suc n + m ≡ suc (n + m) = omega arith in
    let e' : i + suc n ≡ i + 1 + n = omega arith in
    rw (e, e', h i (omega arith)) (scan-miss c key n m (i + 1) (λ j lt. h j (omega arith)))

-- Every byte is passed: the range end is one NUL byte.
pub range_end-Passed :
    (c : CharKind) (key : Bytes) → Passed c key → get_prefix_range_end c key ≡ nul
unfolding get_prefix_range_end
range_end-Passed c key h =
    ap (λ n. scan c key n 0) (let e : length key ≡ length key + 0 = omega arith in e)
    ∙ scan-miss c key (length key) 0 0 (λ j lt. found_at-Passed c [] key j h (omega arith))

module _ (c : CharKind) {key : Bytes} (xs : Bytes) (b : ℕ) (ys : Bytes) (p : Bytes) (e : ℕ)
    (q : Bytes) (stop : key ≡ xs ++ b ∷ ys) (cut : key ≡ p ++ e ∷ q) where
  passing : (j : ℕ) → Passed c ys → j < length ys → found_at c (xs ++ b ∷ ys) j ≡ false
  passing j h lt = rw (← append_assoc xs (b ∷ []) ys) (found_at-Passed c (xs ++ b ∷ []) ys j h lt)

  scan-hit :
      length p ≡ length ys
      → below_ff c b ≡ true
      → scan c key (suc (length xs)) (length ys) ≡ increment (length p) (take (suc (length p)) key)
  unfolding scan
  scan-hit same below =
      rw (stop, found_at-hit c xs b ys, below)
        (let e : length ys + 1 ≡ suc (length p) = omega arith in rw (e, ← same))

  -- `b` is the last byte that stops the loop, and `e` the byte that stands as far from the front as `b`
  -- stands from the back.
  pub range_end-stop :
      length p ≡ length ys
      → below_ff c b ≡ true
      → Passed c ys
      → get_prefix_range_end c key ≡ p ++ ((e + 1) % 256) ∷ []
  unfolding get_prefix_range_end
  range_end-stop same below passed =
      ap (λ n. scan c key n 0) size
      ∙ scan-miss c key (length ys) (suc (length xs)) 0
          (λ j lt. rw stop (passing j passed (omega arith)))
      ∙ ap (scan c key (suc (length xs))) (omega arith)
      ∙ scan-hit same below
      ∙ rw (cut, take-append p e q) (increment-append p e)
    where
      size : length key ≡ length ys + suc (length xs)
      size = rw stop (omega (arith, length-append xs (b ∷ ys)))
