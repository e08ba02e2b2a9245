-- ===== src/Base/Sort.antt =====
-- `sort.Sort` of Go's library, as the insertion sort that it is on at most 12 entries.
-- A longer slice is also left a sorted rearrangement; only entries neither of which is below
-- the other can then stand in another order.
use mathlib.Core.Path.{◌≡◌}
use mathlib.Core.Bool.{Bool, true, false}
use mathlib.Core.List.{
  List, [], ◌∷◌, ◌++◌, reverse, reverse-cons, reverse_perm, perm_middle, append-nil, Perm,
}
use mathlib.Core.List.Perm
use mathlib.Core.Logic.{◌⊎◌, inl, inr}
use native.Mathlib.Omega.{arith}
use amp_host_go.Base.Tests.{if◌then◌else◌, Bool-cases}
use amp_host_go.Base.Lists.{All, Ordered, Ordered-reverse, In, In-append_left, In-append_right}

module _ {ℓ} {A : Type ℓ} (less : A → A → Bool) where
  -- Move `x` left, past every entry that it is less than; the entries before it come nearest first.
  insert_left : A → List A → List A
  insert_left x [] = x ∷ []
  insert_left x (y ∷ ys) = if less x y then y ∷ insert_left x ys else x ∷ y ∷ ys

  sort_loop : List A → List A → List A
  sort_loop done [] = reverse done
  sort_loop done (x ∷ xs) = sort_loop (insert_left x done) xs

  unfoldable pub sort : List A → List A
  unfolding insert_left sort_loop
  sort xs = sort_loop [] xs

  insert_left-perm : (x : A) (ys : List A) → Perm (insert_left x ys) (x ∷ ys)
  unfolding insert_left
  insert_left-perm x [] = Perm.rfl
  insert_left-perm x (y ∷ ys) = elim (Bool-cases (less x y)) [
    | inl t ↦ rw t (Perm.trans (Perm.cons y (insert_left-perm x ys)) (Perm.swap x y ys))
    | inr f ↦ rw f Perm.rfl
  ]

  sort_loop-perm : (done xs : List A) → Perm (sort_loop done xs) (done ++ xs)
  unfolding sort_loop
  sort_loop-perm done [] = rw append-nil (reverse_perm done)
  sort_loop-perm done (x ∷ xs) = Perm.trans (sort_loop-perm (insert_left x done) xs) (
      Perm.trans (Perm.append_right xs (insert_left-perm x done)) (Perm.symm (perm_middle done xs)))

  pub sort-perm : (xs : List A) → Perm (sort xs) xs
  unfolding sort
  sort-perm xs = sort_loop-perm [] xs

  abbrev pub NotAfter : A → A → Type 0
  NotAfter a b = less b a ≡ false

  -- `less` is a strict weak order on the entries that satisfy `P`.
  pub record IsWeakOrder {κ} (P : A → Type κ) : Type (ℓ ⊔ κ) where
    pub asym : (a b : A) → P a → P b → less a b ≡ true → less b a ≡ false
    pub trans : (a b c : A) → P a → P b → P c → NotAfter a b → NotAfter b c → NotAfter a c

  module _ {κ} (P : A → Type κ) (o : IsWeakOrder P) where
    abbrev Falls : List A → Type 0
    Falls = Ordered (λ a b. NotAfter b a)

    insert_left-All : (x : A) (ys : List A) → P x → All P ys → All P (insert_left x ys)
    unfolding insert_left
    insert_left-All x [] p h = (p, tt)
    insert_left-All x (y ∷ ys) p h = ground (arith, insert_left-All x ys p h.1)

    insert_left_above :
        (x y : A) (ys : List A)
        → NotAfter x y
        → All (λ b. NotAfter b y) ys
        → All (λ b. NotAfter b y) (insert_left x ys)
    unfolding insert_left
    insert_left_above x y [] h a = (h, tt)
    insert_left_above x y (z ∷ ys) h a = ground (arith, insert_left_above x y ys h a.1)

    insert_left_below :
        (x y : A) (ys : List A)
        → P x
        → P y
        → All P ys
        → NotAfter y x
        → All (λ b. NotAfter b y) ys
        → All (λ b. NotAfter b x) ys
    insert_left_below x y [] p q r h a = tt
    insert_left_below x y (z ∷ ys) p q r h a =
        (o.trans z y x r.0 q p a.0 h, insert_left_below x y ys p q r.1 h a.1)

    insert_left-Falls : (x : A) (ys : List A) → P x → All P ys → Falls ys → Falls (insert_left x ys)
    unfolding insert_left
    insert_left-Falls x [] p h f = (tt, tt)
    insert_left-Falls x (y ∷ ys) p h f = elim (Bool-cases (less x y)) [
      | inl t ↦
          rw t (insert_left_above x y ys (o.asym x y p h.0 t) f.0, insert_left-Falls x ys p h.1 f.1)
      | inr n ↦ rw n ((n, insert_left_below x y ys p h.0 h.1 n f.0), f)
    ]

    sort_loop-Ordered :
        (done xs : List A)
        → All P done
        → All P xs
        → Falls done
        → Ordered NotAfter (sort_loop done xs)
    unfolding sort_loop
    sort_loop-Ordered done [] p q f = Ordered-reverse NotAfter done f
    sort_loop-Ordered done (x ∷ xs) p q f =
        sort_loop-Ordered (insert_left x done) xs (insert_left-All x done q.0 p) q.1
          (insert_left-Falls x done q.0 p f)

    pub sort-Ordered : (xs : List A) → All P xs → Ordered NotAfter (sort xs)
    unfolding sort
    sort-Ordered xs p = sort_loop-Ordered [] xs tt p tt

module _ {A : Type 0} (less : A → A → Bool) where
  insert_left-In : (e x : A) (ys : List A) → In e (x ∷ ys) → In e (insert_left less x ys)
  unfolding insert_left
  insert_left-In e x [] i = i
  insert_left-In e x (y ∷ ys) i = elim (Bool-cases (less x y)) [
    | inl t ↦ rw t (elim i [
      | inl s ↦ inr (insert_left-In e x ys (inl s))
      | inr j ↦ elim j [ inl s ↦ inl s | inr k ↦ inr (insert_left-In e x ys (inr k)) ]
    ])
    | inr n ↦ rw n i
  ]

  reverse-In : (e : A) (xs : List A) → In e xs → In e (reverse xs)
  reverse-In e [] i = i
  reverse-In e (x ∷ xs) (inl s) =
      rw (reverse-cons x xs) (In-append_right e (reverse xs) (x ∷ []) (inl s))
  reverse-In e (x ∷ xs) (inr i) =
      rw (reverse-cons x xs) (In-append_left e (reverse xs) (x ∷ []) (reverse-In e xs i))

  sort_loop-In : (e : A) (done xs : List A) → In e done ⊎ In e xs → In e (sort_loop less done xs)
  unfolding sort_loop
  sort_loop-In e done [] (inl i) = reverse-In e done i
  sort_loop-In e done [] (inr i) = absurd i
  sort_loop-In e done (x ∷ xs) (inl i) =
      sort_loop-In e (insert_left less x done) xs (inl (insert_left-In e x done (inr i)))
  sort_loop-In e done (x ∷ xs) (inr (inl s)) =
      sort_loop-In e (insert_left less x done) xs (inl (insert_left-In e x done (inl s)))
  sort_loop-In e done (x ∷ xs) (inr (inr i)) = sort_loop-In e (insert_left less x done) xs (inr i)

  pub sort-In : (e : A) (xs : List A) → In e xs → In e (sort less xs)
  unfolding sort
  sort-In e xs i = sort_loop-In e [] xs (inr i)
