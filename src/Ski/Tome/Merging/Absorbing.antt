-- ===== src/Ski/Tome/Merging/Absorbing.antt =====
-- What MergeTome is to do with source Keyrings whose names the target has, one after the other.
use mathlib.Core.Option.{none-ne-some, some-injective}
use amp_host_go.Base.{
  ℕ, zero, suc, ◌+◌, ◌-◌, ◌≡◌, sym, ap, ◌∙◌, some, List, [], ◌∷◌, ◌++◌, inl, inr, arith, ltb,
  if◌then◌else◌, if_true, if_false, Bool-cases, length, set,
}
use amp_host_go.Base.Search.{find_first}
use amp_host_go.Ski.Keyring.{Keyring, merge_keys}
use amp_host_go.Ski.Tome.{has_name}
use amp_host_go.Ski.Tome.Names.{find_some}

-- MergeKeys of `src` into the first Keyring of its name.
unfoldable pub absorb_one : Keyring → List Keyring → List Keyring
absorb_one src [] = []
absorb_one src (dst ∷ krs) =
    let rest = absorb_one src krs in
    if has_name src.name dst then (merge_keys dst src).0 ∷ krs else dst ∷ rest

-- What it leaves of `src`, if there is a key in it.
unfoldable pub left_of : Keyring → List Keyring → List Keyring
left_of src [] = []
left_of src (dst ∷ krs) =
    let rest = left_of src krs in
    let left = (merge_keys dst src).1 in
    if has_name src.name dst then (if ltb 0 (length left.keys) then left ∷ [] else []) else rest

-- The Keyrings of a list are merged from its end to its start.
unfoldable pub absorb_all : List Keyring → List Keyring → List Keyring
unfolding absorb_one
absorb_all [] krs = krs
absorb_all (src ∷ srcs) krs = absorb_one src (absorb_all srcs krs)

unfoldable pub left_all : List Keyring → List Keyring → List Keyring
unfolding left_of absorb_all
left_all [] krs = []
left_all (src ∷ srcs) krs = left_all srcs krs ++ left_of src (absorb_all srcs krs)

pub absorb_one-found :
    (src : Keyring) (krs : List Keyring) (from pos : ℕ) (dst : Keyring)
    → find_first (has_name src.name) from krs ≡ some (pos, dst)
    → (set krs (pos - from) (merge_keys dst src).0 ≡ absorb_one src krs)
      × (left_of src krs ≡ (
          if ltb 0 (length (merge_keys dst src).1.keys) then (merge_keys dst src).1 ∷ [] else []))
unfolding absorb_one left_of find_first
absorb_one-found src [] from pos dst e = absurd (none-ne-some _ e)
absorb_one-found src (kr ∷ krs) from pos dst e = elim (Bool-cases (has_name src.name kr)) [
  | inl t ↦
      let same = some-injective _ _ (sym (if_true _ _ t) ∙ e) in
      let at : from ≡ pos = ap (λ (r : ℕ × Keyring). r.0) same in
      let here : pos - from ≡ zero = omega (arith, at) in
      let dst_eq : kr ≡ dst = ap (λ (r : ℕ × Keyring). r.1) same in
      (
        ap (λ j. set (kr ∷ krs) j (merge_keys dst src).0) here
            ∙ ap (λ d. (merge_keys d src).0 ∷ krs) (sym dst_eq)
            ∙ sym (if_true _ _ t),
        if_true _ _ t
            ∙ ap
                (λ d.
                  if ltb 0 (length (merge_keys d src).1.keys)
                  then (merge_keys d src).1 ∷ []
                  else [])
                dst_eq,
      )
  | inr f ↦
      let e' = sym (if_false _ _ f) ∙ e in
      let le = (find_some src.name (from + 1) krs pos dst e').1 in
      let later : pos - from ≡ suc (pos - (from + 1)) = omega (arith, le) in
      let (a, b) = absorb_one-found src krs (from + 1) pos dst e' in
      (
        ap (λ j. set (kr ∷ krs) j (merge_keys dst src).0) later
            ∙ ap (λ l. kr ∷ l) a
            ∙ sym (if_false _ _ f),
        if_false _ _ f ∙ b,
      )
]
