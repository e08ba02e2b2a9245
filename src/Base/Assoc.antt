-- ===== src/Base/Assoc.antt =====
-- Go maps with number keys, as association lists.
use mathlib.Core.Path.{◌≡◌, refl, subst}
use mathlib.Core.List.{List, [], ◌∷◌}
use mathlib.Core.Option.{Option, none, some, some-injective}
use Prim.Native.Nat.{ℕ}
use native.Mathlib.Omega.{arith}
use amp_host_go.Base.Tests.{◌==◌, if◌then◌else◌, Bool-cases, ==_iff}
use mathlib.Core.Logic.{◌≢◌, inl, inr}
use amp_host_go.Base.Lists.{All}

module _ {ℓ} {V : Type ℓ} where
  unfoldable pub lookup : ℕ → List (ℕ × V) → Option V
  lookup k [] = none
  lookup k ((j, v) ∷ m) = if j == k then some v else lookup k m

  unfoldable pub delete : ℕ → List (ℕ × V) → List (ℕ × V)
  delete k [] = []
  delete k ((j, v) ∷ m) = if j == k then delete k m else (j, v) ∷ delete k m

  unfoldable pub insert : ℕ → V → List (ℕ × V) → List (ℕ × V)
  insert k v m = (k, v) ∷ delete k m

  pub lookup-delete :
      (k j : ℕ) (m : List (ℕ × V)) → lookup j (delete k m) ≡ (if k == j then none else lookup j m)
  unfolding lookup delete
  lookup-delete k j [] = ground arith
  lookup-delete k j ((i, w) ∷ m) = ground (arith, lookup-delete k j m)

  pub lookup-insert :
      (k j : ℕ) (v : V) (m : List (ℕ × V))
      → lookup j (insert k v m) ≡ (if k == j then some v else lookup j m)
  unfolding lookup insert
  lookup-insert k j v m = ground (arith, lookup-delete k j m)

  pub delete-absent : (k : ℕ) (m : List (ℕ × V)) → lookup k m ≡ none → delete k m ≡ m
  unfolding lookup delete
  delete-absent k [] e = refl
  delete-absent k ((j, v) ∷ m) e = ground (arith, delete-absent k m)

module _ {V : Type 0} where
  -- No key stands twice.
  abbrev pub IsDistinct : List (ℕ × V) → Type 0
  IsDistinct [] = Unit
  IsDistinct (e ∷ m) = (lookup e.0 m ≡ none) × IsDistinct m

  pub IsDistinct-delete : (k : ℕ) (m : List (ℕ × V)) → IsDistinct m → IsDistinct (delete k m)
  unfolding delete
  IsDistinct-delete k [] d = tt
  IsDistinct-delete k ((j, v) ∷ m) d =
      ground (arith, IsDistinct-delete k m d.1, lookup-delete k j m)

  pub IsDistinct-insert :
      (k : ℕ) (v : V) (m : List (ℕ × V)) → IsDistinct m → IsDistinct (insert k v m)
  unfolding insert
  IsDistinct-insert k v m d = (ground (arith, lookup-delete k k m), IsDistinct-delete k m d)

  pub All-delete {κ} :
      (P : ℕ × V → Type κ) (k : ℕ) (m : List (ℕ × V)) → All P m → All P (delete k m)
  unfolding delete
  All-delete P k [] a = tt
  All-delete P k ((j, v) ∷ m) a = ground (arith, a.0, All-delete P k m a.1)

  -- An entry that is looked up satisfies what all do.
  pub All-lookup {κ} :
      (P : ℕ × V → Type κ) (k : ℕ) (v : V) (m : List (ℕ × V))
      → All P m
      → lookup k m ≡ some v
      → P (k, v)
  unfolding lookup
  All-lookup P k v [] a e = absurd (cc e)
  All-lookup P k v ((j, w) ∷ m) a e = elim (Bool-cases (j == k)) [
    | inl t ↦
        let same_key : j ≡ k = (==_iff j k).0 t in
        let same : w ≡ v = some-injective _ _ (rw t at e) in
        subst (λ x. P (x, v)) same_key (subst (λ x. P (j, x)) same a.0)
    | inr f ↦ All-lookup P k v m a.1 (rw f at e)
  ]

  -- What survives a deletion had another key.
  pub delete-ne {κ} :
      (P : ℕ × V → Type κ) (k : ℕ) (m : List (ℕ × V))
      → All (λ e. (e.0 ≢ k) → P e) m
      → All P (delete k m)
  unfolding delete
  delete-ne P k [] a = tt
  delete-ne P k ((j, v) ∷ m) a = elim (Bool-cases (j == k)) [
    | inl t ↦ rw t (delete-ne P k m a.1)
    | inr f ↦ rw f (a.0 (λ e. ground arith), delete-ne P k m a.1)
  ]
