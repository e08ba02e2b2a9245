-- ===== src/Base/Bytes.antt =====
-- Byte slices, with `bytes.Compare`, `bytes.Equal` and `bytes.HasPrefix` of Go's library.
use Prim.Native.Nat.{ℕ}
use mathlib.Core.Path.{◌≡◌, refl}
use mathlib.Core.Bool.{Bool, true, false, ◌&&◌}
use mathlib.Core.Logic.{◌⊎◌}
use mathlib.Core.List.{List, [], ◌∷◌}
use native.Mathlib.Omega.{arith}
use amp_host_go.Base.Tests.{ltb, ◌==◌, if◌then◌else◌}
use amp_host_go.Base.Words.{minus_one, is_negative}

-- A `[]byte`; nil and the empty slice are the same value here.
abbrev pub Bytes : Type 0
Bytes = List ℕ

-- `bytes.Compare`: -1, 0 or 1 by the lexicographic order.
unfoldable pub compare_bytes : Bytes → Bytes → ℕ
compare_bytes [] [] = 0
compare_bytes [] (y ∷ ys) = minus_one
compare_bytes (x ∷ xs) [] = 1
compare_bytes (x ∷ xs) (y ∷ ys) =
    if x == y then compare_bytes xs ys else (if ltb x y then minus_one else 1)

unfoldable pub equal_bytes : Bytes → Bytes → Bool
equal_bytes [] [] = true
equal_bytes [] (y ∷ ys) = false
equal_bytes (x ∷ xs) [] = false
equal_bytes (x ∷ xs) (y ∷ ys) = x == y && equal_bytes xs ys

-- `bytes.HasPrefix(s, prefix)`.
unfoldable pub has_prefix : Bytes → Bytes → Bool
has_prefix s [] = true
has_prefix [] (y ∷ ys) = false
has_prefix (x ∷ xs) (y ∷ ys) = x == y && has_prefix xs ys

-- `bytes.Compare(a, b) < 0`.
abbrev pub below_bytes : Bytes → Bytes → Bool
below_bytes a b = is_negative (compare_bytes a b)

pub compare_bytes_cases :
    (a b : Bytes)
    → (compare_bytes a b ≡ 0) ⊎ (compare_bytes a b ≡ minus_one) ⊎ (compare_bytes a b ≡ 1)
unfolding compare_bytes
compare_bytes_cases [] [] = ground arith
compare_bytes_cases [] (y ∷ ys) = ground arith
compare_bytes_cases (x ∷ xs) [] = ground arith
compare_bytes_cases (x ∷ xs) (y ∷ ys) = ground (arith, compare_bytes_cases xs ys)

pub compare_bytes_refl : (a : Bytes) → compare_bytes a a ≡ 0
unfolding compare_bytes
compare_bytes_refl [] = refl
compare_bytes_refl (x ∷ xs) = ground (arith, compare_bytes_refl xs)

pub compare_bytes-eq : (a b : Bytes) → compare_bytes a b ≡ 0 → a ≡ b
unfolding compare_bytes
compare_bytes-eq [] [] h = refl
compare_bytes-eq [] (y ∷ ys) h = ground arith
compare_bytes-eq (x ∷ xs) [] h = ground arith
compare_bytes-eq (x ∷ xs) (y ∷ ys) h = ground (arith, compare_bytes-eq xs ys)

pub compare_bytes_flip : (a b : Bytes) → compare_bytes a b ≡ minus_one → compare_bytes b a ≡ 1
unfolding compare_bytes
compare_bytes_flip [] [] h = ground arith
compare_bytes_flip [] (y ∷ ys) h = refl
compare_bytes_flip (x ∷ xs) [] h = ground arith
compare_bytes_flip (x ∷ xs) (y ∷ ys) h = ground (arith, compare_bytes_flip xs ys)

pub compare_bytes_flop : (a b : Bytes) → compare_bytes a b ≡ 1 → compare_bytes b a ≡ minus_one
unfolding compare_bytes
compare_bytes_flop [] [] h = ground arith
compare_bytes_flop [] (y ∷ ys) h = ground arith
compare_bytes_flop (x ∷ xs) [] h = refl
compare_bytes_flop (x ∷ xs) (y ∷ ys) h = ground (arith, compare_bytes_flop xs ys)

pub compare_bytes_trans :
    (a b c : Bytes)
    → compare_bytes a b ≡ minus_one
    → compare_bytes b c ≡ minus_one
    → compare_bytes a c ≡ minus_one
unfolding compare_bytes
compare_bytes_trans [] [] c h k = ground arith
compare_bytes_trans [] (y ∷ ys) [] h k = ground arith
compare_bytes_trans [] (y ∷ ys) (z ∷ zs) h k = refl
compare_bytes_trans (x ∷ xs) [] c h k = ground arith
compare_bytes_trans (x ∷ xs) (y ∷ ys) [] h k = ground arith
compare_bytes_trans (x ∷ xs) (y ∷ ys) (z ∷ zs) h k = ground (arith, compare_bytes_trans xs ys zs)

-- "Not after": the order that a sorted slice has.
pub below_bytes_asym : (a b : Bytes) → below_bytes a b ≡ true → below_bytes b a ≡ false
below_bytes_asym a b h = ground (arith, compare_bytes_cases a b, compare_bytes_flip a b)

pub below_bytes_weak_trans :
    (a b c : Bytes) → below_bytes b a ≡ false → below_bytes c b ≡ false → below_bytes c a ≡ false
below_bytes_weak_trans a b c h k = ground (
  arith,
  compare_bytes_cases a b,
  compare_bytes_cases b a,
  compare_bytes_flip a b,
  compare_bytes_flop b a,
  compare_bytes-eq b a,
  compare_bytes_cases c b,
  compare_bytes_flop c b,
  compare_bytes-eq c b,
  compare_bytes_cases c a,
  compare_bytes_trans a b c,
  compare_bytes_flip a c,
  compare_bytes_flip c a,
)

-- Neither below the other: equal.
pub below_bytes_antisym :
    (a b : Bytes) → below_bytes a b ≡ false → below_bytes b a ≡ false → compare_bytes a b ≡ 0
below_bytes_antisym a b h k =
    ground (arith, compare_bytes_cases a b, compare_bytes_cases b a, compare_bytes_flop a b)

pub below_bytes_trans :
    (a b c : Bytes) → below_bytes a b ≡ true → below_bytes b c ≡ true → below_bytes a c ≡ true
below_bytes_trans a b c h k =
    ground (arith, compare_bytes_cases a b, compare_bytes_cases b c, compare_bytes_trans a b c)

pub equal_bytes_refl : (a : Bytes) → equal_bytes a a ≡ true
unfolding equal_bytes
equal_bytes_refl [] = refl
equal_bytes_refl (x ∷ xs) = ground (arith, equal_bytes_refl xs)

pub equal_bytes-eq : (a b : Bytes) → equal_bytes a b ≡ true → a ≡ b
unfolding equal_bytes
equal_bytes-eq [] [] h = refl
equal_bytes-eq [] (y ∷ ys) h = cc
equal_bytes-eq (x ∷ xs) [] h = cc
equal_bytes-eq (x ∷ xs) (y ∷ ys) h = ground (arith, equal_bytes-eq xs ys)

-- What is below a prefix does not have it.
pub has_prefix_below : (a p : Bytes) → below_bytes a p ≡ true → has_prefix a p ≡ false
unfolding compare_bytes has_prefix
has_prefix_below [] [] h = ground arith
has_prefix_below [] (y ∷ ys) h = refl
has_prefix_below (x ∷ xs) [] h = ground arith
has_prefix_below (x ∷ xs) (y ∷ ys) h = ground (arith, has_prefix_below xs ys)

-- Above a byte string that is not below the prefix and lacks it, nothing has the prefix.
pub has_prefix_above :
    (a b p : Bytes)
    → below_bytes a p ≡ false
    → has_prefix a p ≡ false
    → below_bytes b a ≡ false
    → has_prefix b p ≡ false
unfolding compare_bytes has_prefix
has_prefix_above a b [] h k l = cc
has_prefix_above [] b (z ∷ p) h k l = ground arith
has_prefix_above (x ∷ xs) [] (z ∷ p) h k l = refl
has_prefix_above (x ∷ xs) (y ∷ ys) (z ∷ p) h k l = ground (arith, has_prefix_above xs ys p)

pub equal_bytes_below : (a t : Bytes) → below_bytes a t ≡ true → equal_bytes a t ≡ false
unfolding compare_bytes equal_bytes
equal_bytes_below [] [] h = ground arith
equal_bytes_below [] (y ∷ ys) h = refl
equal_bytes_below (x ∷ xs) [] h = refl
equal_bytes_below (x ∷ xs) (y ∷ ys) h = ground (arith, equal_bytes_below xs ys)

-- The same for equality with the whole.
pub equal_bytes_above :
    (a b t : Bytes)
    → below_bytes a t ≡ false
    → equal_bytes a t ≡ false
    → below_bytes b a ≡ false
    → equal_bytes b t ≡ false
unfolding compare_bytes equal_bytes
equal_bytes_above [] b [] h k l = cc
equal_bytes_above [] b (z ∷ t) h k l = ground arith
equal_bytes_above (x ∷ xs) [] [] h k l = ground arith
equal_bytes_above (x ∷ xs) (y ∷ ys) [] h k l = refl
equal_bytes_above (x ∷ xs) [] (z ∷ t) h k l = refl
equal_bytes_above (x ∷ xs) (y ∷ ys) (z ∷ t) h k l = ground (arith, equal_bytes_above xs ys t)
