-- ===== src/Base/Search.antt =====
-- `sort.Search` of Go's library, and the lookup loop that the keyrings build on it.
use Prim.Native.Nat.add
use Prim.Native.Nat.{ℕ, zero, suc, ◌+◌, ◌-◌, ◌/◌, ◌≤◌, ◌<◌}
use mathlib.Core.Path.{◌≡◌, refl, sym, ap}
use mathlib.Core.Bool.{Bool, true, false, not}
use mathlib.Core.Logic.{◌⊎◌, inl, inr}
use mathlib.Core.List.{List, [], ◌∷◌}
use mathlib.Core.Option.{Option, none, some}
use native.Mathlib.Omega.{arith}
use amp_host_go.Base.Tests.{ltb, if◌then◌else◌, Bool-cases}
use amp_host_go.Base.Lists.{length, get_elem?, drop, All, Ordered, All-map, In, All-In}

-- The loop of `sort.Search`, on fuel; it halves `j - i`.
search_loop : ℕ → (ℕ → Bool) → ℕ → ℕ → ℕ
search_loop zero f i j = i
search_loop (suc k) f i j =
    let h = (i + j) / 2 in
    let up = search_loop k f (h + 1) j in
    let down = search_loop k f i h in if ltb i j then (if f h then down else up) else i

unfoldable pub binary_search : ℕ → (ℕ → Bool) → ℕ
unfolding search_loop
binary_search n f = search_loop n f 0 n

module _ (f : ℕ → Bool) (n c : ℕ) (no : (k : ℕ) → k < c → f k ≡ false)
    (hit : (k : ℕ) → c ≤ k → k < n → f k ≡ true) where
  search_loop-eq : (k i j : ℕ) → i ≤ c → c ≤ j → j ≤ n → j - i ≤ k → search_loop k f i j ≡ c
  unfolding search_loop
  search_loop-eq zero i j a b d e = omega arith
  search_loop-eq (suc k) i j a b d e = ground (
    arith,
    no ((i + j) / 2),
    hit ((i + j) / 2),
    search_loop-eq k ((i + j) / 2 + 1) j,
    search_loop-eq k i ((i + j) / 2),
  )

  pub binary_search-eq : c ≤ n → binary_search n f ≡ c
  unfolding binary_search
  binary_search-eq h = search_loop-eq n 0 n (omega arith) h (omega arith) (omega arith)

module _ {A : Type 0} where
  -- `for ; pos < N; pos++ { if hit(xs[pos]) { return } ; if sorted { break } }` over `xs[pos:]`.
  unfoldable pub scan : Bool → (A → Bool) → ℕ → List A → Option (ℕ × A)
  scan sorted hit pos [] = none
  scan sorted hit pos (x ∷ xs) =
      let rest = scan sorted hit (pos + 1) xs in
      if hit x then some (pos, x) else (if sorted then none else rest)

  -- The closure that is given to `sort.Search`; the index is below the length there.
  abbrev pub not_below : (A → Bool) → List A → ℕ → Bool
  not_below below xs i = elim (get_elem? xs i) [ none ↦ true | some x ↦ not (below x) ]

  -- The common body of FetchKey, FetchKeyWithPrefix and FetchKeyring.
  unfoldable pub locate : Bool → (A → Bool) → (A → Bool) → List A → Option (ℕ × A)
  unfolding scan
  locate sorted below hit xs =
      let pos = if sorted then binary_search (length xs) (not_below below xs) else 0 in
      scan sorted hit pos (drop pos xs)

  -- The reference: the first entry that hits, with its position.
  unfoldable pub find_first : (A → Bool) → ℕ → List A → Option (ℕ × A)
  find_first hit pos [] = none
  find_first hit pos (x ∷ xs) = if hit x then some (pos, x) else find_first hit (pos + 1) xs

  module _ (below hit : A → Bool) where
    -- What the order of `xs` has to give for the search to be right.
    pub record IsSearchable (xs : List A) : Type 0 where
      pub misses : (x : A) → below x ≡ true → hit x ≡ false
      pub rises : Ordered (λ x y. below x ≡ false → below y ≡ false) xs
      pub ends : Ordered (λ x y. below x ≡ false → hit x ≡ false → hit y ≡ false) xs

    count_below : List A → ℕ
    count_below [] = 0
    count_below (x ∷ xs) = if below x then suc (count_below xs) else 0

    count_below-le : (xs : List A) → count_below xs ≤ length xs
    unfolding count_below
    count_below-le [] = omega arith
    count_below-le (x ∷ xs) = ground (arith, count_below-le xs)

    count_below_no : (xs : List A) (k : ℕ) → k < count_below xs → not_below below xs k ≡ false
    unfolding count_below
    count_below_no [] k h = absurd (omega arith)
    count_below_no (x ∷ xs) zero h = ground arith
    count_below_no (x ∷ xs) (suc k) h = ground (arith, count_below_no xs k)

    not_below-All :
        (xs : List A) (k : ℕ) → All (λ y. below y ≡ false) xs → not_below below xs k ≡ true
    not_below-All [] k a = refl
    not_below-All (x ∷ xs) zero a = rw a.0
    not_below-All (x ∷ xs) (suc k) a = not_below-All xs k a.1

    count_below_hit :
        (xs : List A) (k : ℕ)
        → Ordered (λ x y. below x ≡ false → below y ≡ false) xs
        → count_below xs ≤ k
        → not_below below xs k ≡ true
    unfolding count_below
    count_below_hit [] k o h = refl
    count_below_hit (x ∷ xs) zero o h = ground arith
    count_below_hit (x ∷ xs) (suc k) o h = elim (Bool-cases (below x)) [
      | inr n ↦ not_below-All xs k (All-map _ _ xs (λ y f. f n) o.0)
      | inl t ↦ count_below_hit xs k o.1 (ground arith)
    ]

    scan-find_first : (pos : ℕ) (xs : List A) → scan false hit pos xs ≡ find_first hit pos xs
    unfolding scan find_first
    scan-find_first pos [] = refl
    scan-find_first pos (x ∷ xs) = ground (arith, scan-find_first (pos + 1) xs)

    find_first-none :
        (pos : ℕ) (xs : List A) → All (λ y. hit y ≡ false) xs → find_first hit pos xs ≡ none
    unfolding find_first
    find_first-none pos [] a = refl
    find_first-none pos (x ∷ xs) a = rw a.0 (find_first-none (pos + 1) xs a.1)

    scan_sorted :
        (pos : ℕ) (xs : List A)
        → IsSearchable xs
        → scan true hit (pos + count_below xs) (drop (count_below xs) xs) ≡ find_first hit pos xs
    unfolding scan find_first count_below
    scan_sorted pos [] s = refl
    scan_sorted pos (x ∷ xs) s = elim (Bool-cases (below x)) [
      | inl t ↦
          let rest : IsSearchable xs = record {
            misses = s.misses;
            rises = s.rises.1;
            ends = s.ends.1;
          } in
          ground (arith, s.misses x t, scan_sorted (pos + 1) xs rest)
      | inr n ↦ elim (Bool-cases (hit x)) [
        | inl h ↦ ground arith
        | inr m ↦
            let gone = find_first-none (pos + 1) xs (All-map _ _ xs (λ y f. f n m) s.ends.0) in
            ground (arith, gone)
      ]
    ]

    search-count_below :
        (xs : List A)
        → IsSearchable xs
        → binary_search (length xs) (not_below below xs) ≡ count_below xs
    search-count_below xs s =
        binary_search-eq (not_below below xs) (length xs) (count_below xs) (count_below_no xs)
          (λ k h _. count_below_hit xs k s.rises h) (count_below-le xs)

    -- With or without the sorted flag the lookup returns the first entry that hits.
    pub locate-find_first :
        (sorted : Bool) (xs : List A)
        → (sorted ≡ true → IsSearchable xs)
        → locate sorted below hit xs ≡ find_first hit 0 xs
    unfolding locate
    locate-find_first false xs s = scan-find_first 0 xs
    locate-find_first true xs s =
        rw (search-count_below xs (s refl)) (rw add.zero at (scan_sorted 0 xs (s refl)))

  -- A hit in an ordered list is found, or another hit before it.
  pub find_first_before :
      (R : A → A → Type 0) (hit : A → Bool) (pos : ℕ) (xs : List A) (m : A)
      → Ordered R xs
      → In m xs
      → hit m ≡ true
      → (p : ℕ) × (r : A) × (find_first hit pos xs ≡ some (p, r))
        × (hit r ≡ true)
        × In r xs
        × ((r ≡ m) ⊎ R r m)
  unfolding find_first
  find_first_before R hit pos [] m o i h = absurd i
  find_first_before R hit pos (x ∷ xs) m o i h = elim (Bool-cases (hit x)) [
    | inl t ↦ (
      pos,
      x,
      rw t,
      t,
      inl refl,
      elim i [ inl e ↦ inl (sym e) | inr j ↦ inr (All-In (R x) m xs o.0 j) ],
    )
    | inr f ↦ elim i [
      | inl e ↦ absurd (cc (ap hit e))
      | inr j ↦
          let (p, r, eq, hr, ir, w) = find_first_before R hit (pos + 1) xs m o.1 j h in
          (p, r, rw f eq, hr, inr ir, w)
    ]
  ]
