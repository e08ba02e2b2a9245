-- ===== src/Ski/Keyring/Dupes.antt =====
-- DropDupes: the in-place loop against the list without adjacent duplicates.
pub mod Distinct
use mathlib.Core.List.{append-nil, append_assoc}
use mathlib.Core.List.Perm
use amp_host_go.Base.{
  ℕ, zero, suc, ◌+◌, ◌-◌, ◌<◌, ◌≤◌, ◌≡◌, refl, sym, ap, ◌∙◌, Bool, true, false, some, List, [], ◌∷◌,
  ◌++◌, inl, inr, Perm, arith, ltb, ◌==◌, if◌then◌else◌, Bool-cases, length, get_elem?, set, take,
  drop, take-set, drop-set, length-set, take_step, All, Ordered, All-map, Ordered-map,
}
use amp_host_go.Ski.Key.{KeyEntry, compare_key_entry, IsDated}
use amp_host_go.Ski.Keyring.{Keyring, entry_at, dupes_loop, drop_dupes, resort}

-- The entries of a list whose first follows `p`, without those equal to their predecessor.
unfoldable pub dedup_from : KeyEntry → List KeyEntry → List KeyEntry
dedup_from p [] = []
dedup_from p (x ∷ rest) =
    let later = dedup_from x rest in if compare_key_entry p x == 0 then later else x ∷ later

unfoldable pub dedup : List KeyEntry → List KeyEntry
unfolding dedup_from
dedup [] = []
dedup (x ∷ rest) = x ∷ dedup_from x rest

entry_at-drop :
    (keys : List KeyEntry) (j : ℕ) (p : KeyEntry) (rest : List KeyEntry)
    → drop j keys ≡ p ∷ rest
    → (entry_at keys j ≡ p) × (drop (suc j) keys ≡ rest) × (get_elem? keys j ≡ some p)
entry_at-drop [] zero p rest e = cc
entry_at-drop [] (suc j) p rest e = cc
entry_at-drop (x ∷ keys) zero p rest e = ground arith
entry_at-drop (x ∷ keys) (suc j) p rest e = entry_at-drop keys j p rest e

length-drop_cons :
    (keys : List KeyEntry) (j : ℕ) (p : KeyEntry) (rest : List KeyEntry)
    → drop j keys ≡ p ∷ rest
    → length keys ≡ j + suc (length rest)
length-drop_cons [] zero p rest e = cc
length-drop_cons [] (suc j) p rest e = cc
length-drop_cons (x ∷ keys) zero p rest e = omega (arith, ap length e)
length-drop_cons (x ∷ keys) (suc j) p rest e = omega (arith, length-drop_cons keys j p rest e)

-- The slice after the write, when the entry at `suc j` stays.
abbrev moved : List KeyEntry → ℕ → ℕ → KeyEntry → List KeyEntry
moved keys j dupes x = if ltb 0 dupes then set keys (suc j - dupes) x else keys

get_elem?-set_in :
    (keys : List KeyEntry) (i : ℕ) (v : KeyEntry)
    → i < length keys
    → get_elem? (set keys i v) i ≡ some v
get_elem?-set_in [] i v h = absurd (omega arith)
get_elem?-set_in (x ∷ keys) zero v h = refl
get_elem?-set_in (x ∷ keys) (suc i) v h = get_elem?-set_in keys i v (omega arith)

module _ (keys : List KeyEntry) (j dupes : ℕ) (p x : KeyEntry) (rest : List KeyEntry)
    (few : dupes ≤ j) (at_j : drop j keys ≡ p ∷ x ∷ rest) where
  moved-length : length (moved keys j dupes x) ≡ length keys
  moved-length = ground (arith, length-set keys (suc j - dupes) x)

  moved-drop : drop (suc j) (moved keys j dupes x) ≡ x ∷ rest
  moved-drop =
      ground
        (arith, drop-set keys (suc j - dupes) (suc j) x, (entry_at-drop keys j p (x ∷ rest) at_j).1)

  moved_at : get_elem? (moved keys j dupes x) (suc j - dupes) ≡ some x
  moved_at = elim (Bool-cases (ltb 0 dupes)) [
    | inl t ↦ rw t (
        get_elem?-set_in keys (suc j - dupes) x
          (ground (arith, length-drop_cons keys j p (x ∷ rest) at_j)))
    | inr f ↦
        let none_yet : suc j - dupes ≡ suc j = ground arith in
        rw (f, none_yet)
          (entry_at-drop keys (suc j) x rest (entry_at-drop keys j p (x ∷ rest) at_j).1).2
  ]

  moved-take :
      take (suc (suc j) - dupes) (moved keys j dupes x) ≡ take (suc j - dupes) keys ++ x ∷ []
  moved-take =
      let step : suc (suc j) - dupes ≡ suc (suc j - dupes) = omega arith in
      let kept : take (suc j - dupes) (moved keys j dupes x) ≡ take (suc j - dupes) keys =
        ground (arith, take-set keys (suc j - dupes) (suc j - dupes) x (omega arith)) in
      ap (λ n. take n (moved keys j dupes x)) step
      ∙ take_step (moved keys j dupes x) (suc j - dupes) x moved_at
      ∙ ap (λ l. l ++ x ∷ []) kept

-- What the loop leaves in its slice: with the last `dupes` cut off, the entries kept so far and
-- those of the rest that differ from their predecessors.
abbrev pub LoopKeeps : ℕ → ℕ → List KeyEntry → KeyEntry → List KeyEntry → ℕ × List KeyEntry → Type 0
LoopKeeps j dupes keys p rest r =
    (take (length keys - r.0) r.1 ≡ take (suc j - dupes) keys ++ dedup_from p rest)
    × (dupes + length rest ≡ r.0 + length (dedup_from p rest))

-- One round, at an entry that equals its predecessor and at one that does not.
dupes_loop_same :
    (k j dupes : ℕ) (keys : List KeyEntry)
    → (compare_key_entry (entry_at keys j) (entry_at keys (suc j)) == 0) ≡ true
    → dupes_loop (suc k) (suc j) dupes keys ≡ dupes_loop k (suc (suc j)) (suc dupes) keys
unfolding dupes_loop
dupes_loop_same k j dupes keys t = ground arith

dupes_loop_other :
    (k j dupes : ℕ) (keys : List KeyEntry)
    → (compare_key_entry (entry_at keys j) (entry_at keys (suc j)) == 0) ≡ false
    → dupes_loop (suc k) (suc j) dupes keys
      ≡ dupes_loop k (suc (suc j)) dupes (moved keys j dupes (entry_at keys (suc j)))
unfolding dupes_loop
dupes_loop_other k j dupes keys f = ground arith

dupes_loop_end :
    (j dupes : ℕ) (p : KeyEntry) (keys : List KeyEntry)
    → drop j keys ≡ p ∷ []
    → LoopKeeps j dupes keys p [] (dupes_loop 0 (suc j) dupes keys)
unfolding dedup_from dupes_loop
dupes_loop_end j dupes p keys e =
    let n : length keys ≡ suc j = omega (arith, length-drop_cons keys j p [] e) in
    (ap (λ m. take (m - dupes) keys) n ∙ sym (append-nil _), omega arith)

pub dupes_loop-dedup :
    (rest : List KeyEntry) (j dupes : ℕ) (p : KeyEntry) (keys : List KeyEntry)
    → dupes ≤ j
    → drop j keys ≡ p ∷ rest
    → LoopKeeps j dupes keys p rest (dupes_loop (length rest) (suc j) dupes keys)
unfolding dedup_from
dupes_loop-dedup [] j dupes p keys few e = dupes_loop_end j dupes p keys e
dupes_loop-dedup (x ∷ rest) j dupes p keys few e =
    let (at_p, later, _) = entry_at-drop keys j p (x ∷ rest) e in
    let (at_x, _, _) = entry_at-drop keys (suc j) x rest later in
    elim (Bool-cases (compare_key_entry p x == 0)) [
      | inl t ↦
          let (kept, n) = dupes_loop-dedup rest (suc j) (suc dupes) x keys (omega arith) later in
          rw (dupes_loop_same (length rest) j dupes keys (rw (at_p, at_x) t), t)
            (kept ∙ ap (λ i. take i keys ++ dedup_from x rest) (omega arith), omega (arith, n))
      | inr f ↦
          let (kept, n) =
            dupes_loop-dedup rest (suc j) dupes x (moved keys j dupes x) (omega arith)
              (moved-drop keys j dupes p x rest few e) in
          rw (dupes_loop_other (length rest) j dupes keys (rw (at_p, at_x) f), at_x, f)
            (
              ap
                    (λ m.
                      take
                        (m
                          - (dupes_loop (length rest) (suc (suc j)) dupes (moved keys j dupes x)).0)
                        (dupes_loop (length rest) (suc (suc j)) dupes (moved keys j dupes x)).1)
                    (sym (moved-length keys j dupes p x rest few e))
                  ∙ kept
                  ∙ ap (λ l. l ++ dedup_from x rest) (moved-take keys j dupes p x rest few e)
                  ∙ append_assoc (take (suc j - dupes) keys) (x ∷ []) (dedup_from x rest),
              omega (arith, n),
            )
    ]

pub dupes_loop-length :
    (k i dupes : ℕ) (keys : List KeyEntry) → length (dupes_loop k i dupes keys).1 ≡ length keys
unfolding dupes_loop
dupes_loop-length zero i dupes keys = refl
dupes_loop-length (suc k) i dupes keys =
    let same = compare_key_entry (entry_at keys (i - 1)) (entry_at keys i) == 0 in
    let moved = if ltb 0 dupes then set keys (i - dupes) (entry_at keys i) else keys in
    let n : length (if same then keys else moved) ≡ length keys =
      ground (arith, length-set keys (i - dupes) (entry_at keys i)) in
    dupes_loop-length k (i + 1) (if same then dupes + 1 else dupes) (if same then keys else moved)
    ∙ n
