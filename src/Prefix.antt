-- ===== src/Prefix.antt =====
-- `GetPrefixRangeEnd` of etcdv3client/common.cc.
pub mod Range
pub mod Loop
pub mod Covers
pub mod Reference
use etcdv3client.Prelude.{
  ℕ, zero, suc, ◌+◌, ◌-◌, ◌%◌, Bool, false, [], ◌∷◌, Option, none, some, ℤ, pos, negsuc, ltb,
  if◌then◌else◌, length, get_elem?, take, ltb_ℤ,
}
use etcdv3client.Bytes.{Bytes, nul}

-- Whether `char` is signed is left to the implementation by C++: it is on x86, it is not on ARM Linux.
pub data CharKind : Type 0 where
  signed_char unsigned_char : CharKind

-- The value of a `char` that holds the byte `b`.
unfoldable pub char_value : CharKind → ℕ → ℤ
char_value unsigned_char b = pos b
char_value signed_char b = if ltb b 128 then pos b else negsuc (255 - b)

-- `key[...] < char(0xff)`
unfoldable pub below_ff : CharKind → ℕ → Bool
unfolding char_value
below_ff c b = ltb_ℤ (char_value c b) (char_value c 0xff)

-- `++s[i]`, on a byte; out of range nothing is written.
unfoldable pub increment : ℕ → Bytes → Bytes
increment i [] = []
increment zero (b ∷ s) = ((b + 1) % 256) ∷ s
increment (suc i) (b ∷ s) = b ∷ increment i s

-- The byte that a round looks at, if any, is below 0xff.
unfoldable pub is_below : CharKind → Option ℕ → Bool
unfolding below_ff
is_below c none = false
is_below c (some b) = below_ff c b

-- The test of one round. `i < key.length()`, so the index is in range.
unfoldable pub found_at : CharKind → Bytes → ℕ → Bool
unfolding is_below
found_at c key i = is_below c (get_elem? key (length key - i - 1))

-- The loop, with the rounds left and `i`.
unfoldable pub scan : CharKind → Bytes → ℕ → ℕ → Bytes
unfolding found_at increment
scan c key zero i = nul
scan c key (suc rounds) i =
    let rest = scan c key rounds (i + 1) in
    if found_at c key i then increment i (take (i + 1) key) else rest

unfoldable pub get_prefix_range_end : CharKind → Bytes → Bytes
unfolding scan
get_prefix_range_end c key = scan c key (length key) 0
