-- ===== src/Ski/Tome/Names.antt =====
-- The names of a list of Keyrings, and what keeps them.
use mathlib.Core.Option.{none-ne-some, some-injective}
use amp_host_go.Base.{
  ℕ, zero, suc, ◌+◌, ◌-◌, ◌<◌, ◌≤◌, ◌≡◌, refl, sym, ap, ◌∙◌, Bool, true, false, ◌||◌, none, some,
  List, [], ◌∷◌, map, inl, inr, arith, if◌then◌else◌, if_true, if_false, Bool-cases, length,
  get_elem?, set, take, All, Ordered,
}
use amp_host_go.Base.Bytes.{Bytes, equal_bytes, below_bytes}
use amp_host_go.Base.Search.{find_first}
use amp_host_go.Ski.Keyring.{Keyring, merge_keys, resort}
use amp_host_go.Ski.Tome.{less_by_name, has_name, keyring_at}
use amp_host_go.Ski.Tome.Naming.{IsNamed}

abbrev pub names : List Keyring → List Bytes
names = map (λ kr. kr.name)

-- One of the names is `n`.
unfoldable pub knows : List Bytes → Bytes → Bool
knows [] n = false
knows (m ∷ ms) n = equal_bytes m n || knows ms n

-- The entries of a list under a function.
module _ {A B : Type 0} (f : A → B) where
  pub map-set : (xs : List A) (i : ℕ) (v : A) → map f (set xs i v) ≡ set (map f xs) i (f v)
  map-set [] i v = refl
  map-set (x ∷ xs) zero v = refl
  map-set (x ∷ xs) (suc i) v = ap (λ l. f x ∷ l) (map-set xs i v)

  pub map-take : (n : ℕ) (xs : List A) → map f (take n xs) ≡ take n (map f xs)
  map-take zero xs = refl
  map-take (suc n) [] = refl
  map-take (suc n) (x ∷ xs) = ap (λ l. f x ∷ l) (map-take n xs)

  pub length-map_of : (xs : List A) → length (map f xs) ≡ length xs
  length-map_of [] = refl
  length-map_of (x ∷ xs) = omega (arith, length-map_of xs)

  pub get_elem?-map :
      (xs : List A) (i : ℕ) (x : A) → get_elem? xs i ≡ some x → get_elem? (map f xs) i ≡ some (f x)
  get_elem?-map [] i x e = absurd (none-ne-some x e)
  get_elem?-map (y ∷ xs) zero x e = ap some (ap f (some-injective _ _ e))
  get_elem?-map (y ∷ xs) (suc i) x e = get_elem?-map xs i x e

pub set_same :
    {A : Type 0} (xs : List A) (i : ℕ) (x : A) → get_elem? xs i ≡ some x → set xs i x ≡ xs
set_same [] i x e = refl
set_same (y ∷ xs) zero x e = ap (λ z. z ∷ xs) (sym (some-injective _ _ e))
set_same (y ∷ xs) (suc i) x e = ap (λ l. y ∷ l) (set_same xs i x e)

pub keyring_at-get_elem? :
    (krs : List Keyring) (i : ℕ) → i < length krs → get_elem? krs i ≡ some (keyring_at krs i)
keyring_at-get_elem? [] i h = absurd (omega (arith, h))
keyring_at-get_elem? (x ∷ krs) zero h = refl
keyring_at-get_elem? (x ∷ krs) (suc i) h = keyring_at-get_elem? krs i (omega (arith, h))

pub find_none :
    (n : Bytes) (pos : ℕ) (krs : List Keyring)
    → find_first (has_name n) pos krs ≡ none
    → knows (names krs) n ≡ false
unfolding find_first knows
find_none n pos [] e = refl
find_none n pos (x ∷ krs) e = elim (Bool-cases (has_name n x)) [
  | inl t ↦ absurd (none-ne-some _ (sym e ∙ if_true _ _ t))
  | inr f ↦ rw f (find_none n (pos + 1) krs (sym (if_false _ _ f) ∙ e))
]

pub find_some :
    (n : Bytes) (pos : ℕ) (krs : List Keyring) (p : ℕ) (dst : Keyring)
    → find_first (has_name n) pos krs ≡ some (p, dst)
    → (knows (names krs) n ≡ true) × (pos ≤ p) × (get_elem? krs (p - pos) ≡ some dst)
unfolding find_first knows
find_some n pos [] p dst e = absurd (none-ne-some _ e)
find_some n pos (x ∷ krs) p dst e = elim (Bool-cases (has_name n x)) [
  | inl t ↦
      let same = some-injective _ _ (sym (if_true _ _ t) ∙ e) in
      let at : pos ≡ p = ap (λ (r : ℕ × Keyring). r.0) same in
      let here : p - pos ≡ zero = omega (arith, at) in
      (
        rw t refl,
        omega (arith, at),
        ap (get_elem? (x ∷ krs)) here ∙ ap (λ (r : ℕ × Keyring). some r.1) same,
      )
  | inr f ↦
      let (k, le, at) = find_some n (pos + 1) krs p dst (sym (if_false _ _ f) ∙ e) in
      let later : p - pos ≡ suc (p - (pos + 1)) = omega (arith, le) in
      (rw f k, omega (arith, le), ap (get_elem? (x ∷ krs)) later ∙ at)
]

name_of_chosen :
    (t : Bool) (a b : Keyring) (n : Bytes) → a.name ≡ n → b.name ≡ n → (if t then a else b).name ≡ n
name_of_chosen true a b n h k = h
name_of_chosen false a b n h k = k

pub name-merge_keys : (kr src : Keyring) → (merge_keys kr src).0.name ≡ kr.name
unfolding merge_keys resort
name-merge_keys kr src = name_of_chosen _ _ _ kr.name refl refl

abbrev pub AreNamed : List Bytes → Type 0
AreNamed = Ordered (λ a b. below_bytes b a ≡ false)

pub IsNamed-names : (krs : List Keyring) → IsNamed krs → AreNamed (names krs)
IsNamed-names [] o = tt
IsNamed-names (x ∷ krs) o = (All-names krs o.0, IsNamed-names krs o.1)
  where
    All-names :
        (l : List Keyring)
        → All (λ b. less_by_name b x ≡ false) l
        → All (λ b. below_bytes b x.name ≡ false) (names l)
    All-names [] a = tt
    All-names (y ∷ l) a = (a.0, All-names l a.1)

pub names-IsNamed : (krs : List Keyring) → AreNamed (names krs) → IsNamed krs
names-IsNamed [] o = tt
names-IsNamed (x ∷ krs) o = (All-names krs o.0, names-IsNamed krs o.1)
  where
    All-names :
        (l : List Keyring)
        → All (λ b. below_bytes b x.name ≡ false) (names l)
        → All (λ b. less_by_name b x ≡ false) l
    All-names [] a = tt
    All-names (y ∷ l) a = (a.0, All-names l a.1)
