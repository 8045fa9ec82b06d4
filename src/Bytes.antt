-- ===== src/Bytes.antt =====
-- Byte strings: what `std::string` and protobuf's `bytes` hold. A byte is a number below 256; keys are
-- compared byte by byte as unsigned values, the order in which etcd keeps its keys.
use etcdv3client.Prelude.{
  ℕ, ◌<◌, ◌≡◌, refl, Bool, true, false, ◌&&◌, List, [], ◌∷◌, ◌++◌, arith, ltb, ◌==◌, if◌then◌else◌,
  All,
}

abbrev pub Bytes : Type 0
Bytes = List ℕ

-- std::string("\0", 1)
abbrev pub nul : Bytes
nul = 0 ∷ []

abbrev pub AreBytes : Bytes → Type 0
AreBytes = All (λ b. b < 256)

-- The unsigned lexicographic order.
unfoldable pub lt_bytes : Bytes → Bytes → Bool
lt_bytes [] [] = false
lt_bytes [] (y ∷ ys) = true
lt_bytes (x ∷ xs) [] = false
lt_bytes (x ∷ xs) (y ∷ ys) = if x == y then lt_bytes xs ys else ltb x y

unfoldable pub eq_bytes : Bytes → Bytes → Bool
eq_bytes [] [] = true
eq_bytes [] (y ∷ ys) = false
eq_bytes (x ∷ xs) [] = false
eq_bytes (x ∷ xs) (y ∷ ys) = (x == y) && eq_bytes xs ys

unfoldable pub starts_with : Bytes → Bytes → Bool
starts_with [] k = true
starts_with (x ∷ xs) [] = false
starts_with (x ∷ xs) (y ∷ ys) = (x == y) && starts_with xs ys

pub lt_bytes-append_left : (p xs ys : Bytes) → lt_bytes (p ++ xs) (p ++ ys) ≡ lt_bytes xs ys
unfolding lt_bytes
lt_bytes-append_left [] xs ys = refl
lt_bytes-append_left (x ∷ p) xs ys = ground (arith, lt_bytes-append_left p xs ys)

-- No key comes before a prefix of itself.
pub lt_bytes-append_self : (p xs : Bytes) → lt_bytes (p ++ xs) p ≡ false
unfolding lt_bytes
lt_bytes-append_self [] [] = refl
lt_bytes-append_self [] (x ∷ xs) = refl
lt_bytes-append_self (x ∷ p) xs = ground (arith, lt_bytes-append_self p xs)

pub lt_bytes_irrefl : (p : Bytes) → lt_bytes p p ≡ false
unfolding lt_bytes
lt_bytes_irrefl [] = refl
lt_bytes_irrefl (x ∷ p) = ground (arith, lt_bytes_irrefl p)

pub lt_bytes_trans :
    (xs ys zs : Bytes) → lt_bytes xs ys ≡ true → lt_bytes ys zs ≡ true → lt_bytes xs zs ≡ true
unfolding lt_bytes
lt_bytes_trans [] [] zs h k = cc
lt_bytes_trans [] (y ∷ ys) [] h k = cc
lt_bytes_trans [] (y ∷ ys) (z ∷ zs) h k = refl
lt_bytes_trans (x ∷ xs) [] zs h k = cc
lt_bytes_trans (x ∷ xs) (y ∷ ys) [] h k = cc
lt_bytes_trans (x ∷ xs) (y ∷ ys) (z ∷ zs) h k = ground (arith, lt_bytes_trans xs ys zs)

-- Of two keys that are not in order one is at most the other.
pub lt_bytes_total :
    (xs ys : Bytes) → lt_bytes xs ys ≡ false → eq_bytes xs ys ≡ false → lt_bytes ys xs ≡ true
unfolding lt_bytes eq_bytes
lt_bytes_total [] [] h k = cc
lt_bytes_total [] (y ∷ ys) h k = cc
lt_bytes_total (x ∷ xs) [] h k = refl
lt_bytes_total (x ∷ xs) (y ∷ ys) h k = ground (arith, lt_bytes_total xs ys)
