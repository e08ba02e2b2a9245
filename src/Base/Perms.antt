-- ===== src/Base/Perms.antt =====
-- Rearrangements of slices: what `select` and `All` keep, and the entry that a swap-remove takes out.
use Prim.Native.Nat.{ℕ, zero, suc, ◌≤◌}
use native.Mathlib.Nat.{ℕ_set}
use mathlib.Core.Path.{◌≡◌, refl, sym, ap, subst}
use mathlib.Core.HLevel.{×_prop, Unit-prop}
use mathlib.Core.Bool.{Bool, true, false}
use mathlib.Core.Logic.{inl, inr, ∥∥₁_elim}
use mathlib.Core.List.{List, [], ◌∷◌, Perm, Permᴰ, Perm-prop, perm_append_singleton}
use mathlib.Core.List.Perm
use mathlib.Core.Option.{some, some-injective}
use native.Mathlib.Omega.{arith}
use amp_host_go.Base.Tests.{Bool-cases}
use amp_host_go.Base.Lists.{length, get_elem?, set, take, select, All, take_step}

module _ {ℓ} {A : Type ℓ} where
  Permᴰ_same_length : {xs ys : List A} → Permᴰ xs ys → length xs ≡ length ys
  Permᴰ_same_length (Permᴰ.trans h k) = omega (arith, Permᴰ_same_length h, Permᴰ_same_length k)
  Permᴰ_same_length (Permᴰ.swap e f) = omega arith
  Permᴰ_same_length (Permᴰ.cons e h) = omega (arith, Permᴰ_same_length h)
  Permᴰ_same_length Permᴰ.nil = refl

  pub length-perm : {xs ys : List A} → Perm xs ys → length xs ≡ length ys
  length-perm {xs} {ys} h = ∥∥₁_elim h (ℕ_set (length xs) (length ys)) Permᴰ_same_length

  module _ (p : A → Bool) where
    select_cons :
        {a b : A} (xs ys : List A)
        → a ≡ b
        → Perm (select p xs) (select p ys)
        → Perm (select p (a ∷ xs)) (select p (b ∷ ys))
    select_cons {b = b} xs ys e h = elim (Bool-cases (p b)) [
      | inl t ↦ rw (e, t) (Perm.cons b h)
      | inr f ↦ rw (e, f) h
    ]

    select_swap : (a b : A) (l : List A) → Perm (select p (a ∷ b ∷ l)) (select p (b ∷ a ∷ l))
    select_swap a b l = elim (Bool-cases (p a)) [
      | inl s ↦ elim (Bool-cases (p b)) [
        | inl t ↦ rw (s, t) (Perm.swap b a (select p l))
        | inr f ↦ rw (s, f) Perm.rfl
      ]
      | inr g ↦ rw g Perm.rfl
    ]

    select-Permᴰ : {xs ys : List A} → Permᴰ xs ys → Perm (select p xs) (select p ys)
    select-Permᴰ Permᴰ.nil = Perm.nil
    select-Permᴰ (Permᴰ.cons e h) = select_cons _ _ e (select-Permᴰ h)
    select-Permᴰ (Permᴰ.swap {a = a} {b = b} {l = l} e f) = rw (← e, ← f) (select_swap a b l)
    select-Permᴰ (Permᴰ.trans h k) = Perm.trans (select-Permᴰ h) (select-Permᴰ k)

    pub select-perm : {xs ys : List A} → Perm xs ys → Perm (select p xs) (select p ys)
    select-perm h = ∥∥₁_elim h Perm-prop select-Permᴰ

    pub select-All : (xs : List A) → All (λ x. p x ≡ true) xs → select p xs ≡ xs
    select-All [] h = refl
    select-All (x ∷ xs) h = rw h.0 (ap (◌∷◌ x) (select-All xs h.1))

    pub select_none : (xs : List A) → All (λ x. p x ≡ false) xs → select p xs ≡ []
    select_none [] h = refl
    select_none (x ∷ xs) h = rw h.0 (select_none xs h.1)

  module _ {κ} (P : A → Type κ) (prop : (a : A) → IsProp (P a)) where
    All-prop : (xs : List A) → IsProp (All P xs)
    All-prop [] = Unit-prop
    All-prop (x ∷ xs) = ×_prop (prop x) (All-prop xs)

    All-Permᴰ : {xs ys : List A} → Permᴰ xs ys → All P xs → All P ys
    All-Permᴰ Permᴰ.nil a = tt
    All-Permᴰ (Permᴰ.cons e h) a = (subst P e a.0, All-Permᴰ h a.1)
    All-Permᴰ (Permᴰ.swap e f) a = (subst P f a.1.0, (subst P e a.0, a.1.1))
    All-Permᴰ (Permᴰ.trans h k) a = All-Permᴰ k (All-Permᴰ h a)

    pub All-perm : (xs ys : List A) → Perm xs ys → All P xs → All P ys
    All-perm xs ys h a = ∥∥₁_elim h (All-prop ys) (λ d. All-Permᴰ d a)

  -- Removing entry `i` of the first `suc n` by moving the last of them over it.
  pub swap_remove-perm :
      (xs : List A) (i n : ℕ) (x y : A)
      → i ≤ n
      → get_elem? xs i ≡ some x
      → get_elem? xs n ≡ some y
      → Perm (x ∷ take n (set xs i y)) (take (suc n) xs)
  swap_remove-perm [] i n x y h e f = cc
  swap_remove-perm (z ∷ xs) zero zero x y h e f = ground (arith, Perm.rfl {l = x ∷ []})
  swap_remove-perm (z ∷ xs) zero (suc n) x y h e f =
      Perm.cons' (sym (some-injective _ _ e))
        (rw (take_step xs n y f) (Perm.symm (perm_append_singleton y (take n xs))))
  swap_remove-perm (z ∷ xs) (suc i) zero x y h e f = absurd (omega arith)
  swap_remove-perm (z ∷ xs) (suc i) (suc n) x y h e f =
      Perm.trans (Perm.swap z x _) (Perm.cons z (swap_remove-perm xs i n x y (omega arith) e f))
