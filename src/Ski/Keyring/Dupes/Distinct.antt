-- ===== src/Ski/Keyring/Dupes/Distinct.antt =====
-- DropDupes as a whole: the duplicates are gone, and nothing else.
use mathlib.Core.Path.{subst}
use mathlib.Core.List.Perm
use amp_host_go.Base.Perms.{length-perm}
use amp_host_go.Base.{
  ℕ, ◌+◌, ◌-◌, ◌≡◌, ◌↔◌, refl, sym, ap, ◌∙◌, true, false, List, [], ◌∷◌, inl, inr, Perm, arith, ltb,
  ◌==◌, if◌then◌else◌, Bool-cases, length, take, take_all, All, Ordered, In,
}
use amp_host_go.Base.Sort.{sort-perm}
use amp_host_go.Ski.Key.{KeyEntry, compare_key_entry, less_by_newest_pub_key, IsDated}
use amp_host_go.Ski.Key.Order.{
  compare_key_entry-eq_iff, less_by_newest_pub_key_antisym, less_by_newest_pub_key_trans,
  IsDated-IsInRange,
}
use amp_host_go.Ski.Keyring.{Keyring, dupes_loop, drop_dupes, resort}
use amp_host_go.Ski.Keyring.Lookup.{IsSorted, IsFlagged}
use amp_host_go.Ski.Keyring.Newest.{IsDated-perm, sort-IsSorted}
use amp_host_go.Ski.Keyring.Dupes.{dedup, dedup_from, dupes_loop-dedup, dupes_loop-length}

-- The Keyring that the loop of DropDupes works on.
abbrev pub sorted_first : Keyring → Keyring
sorted_first kr = if kr.sorted_by_pub_key then kr else resort kr

loop_whole :
    (keys : List KeyEntry)
    → let r = dupes_loop (length keys - 1) 1 0 keys in
      (take (length keys - r.0) r.1 ≡ dedup keys)
      × (r.0 + length (dedup keys) ≡ length keys)
      × (length r.1 ≡ length keys)
unfolding dedup dupes_loop
loop_whole [] = (refl, refl, refl)
loop_whole (x ∷ rest) =
    let (kept, n) = dupes_loop-dedup rest 0 0 x (x ∷ rest) (omega arith) refl in
    let rounds : length (x ∷ rest) - 1 ≡ length rest = omega arith in
    rw rounds (kept, omega (arith, n), dupes_loop-length (length rest) 1 0 (x ∷ rest))

cut_or_whole :
    (kr : Keyring) (n dupes : ℕ) (keys kept : List KeyEntry)
    → take (n - dupes) keys ≡ kept
    → length keys ≡ n
    → (if ltb 0 dupes
        then record kr { keys = take (n - dupes) keys }
        else record kr { keys = keys })
      ≡ record kr { keys = kept }
cut_or_whole kr n dupes keys kept e h = elim (Bool-cases (ltb 0 dupes)) [
  | inl t ↦ rw (t, e) refl
  | inr f ↦
      let whole : keys ≡ kept = sym (take_all (n - dupes) keys (ground arith)) ∙ e in
      rw f (ap (λ l. record kr { keys = l }) whole)
]

resort-length : (kr : Keyring) → length (sorted_first kr).keys ≡ length kr.keys
unfolding resort
resort-length kr = elim (Bool-cases kr.sorted_by_pub_key) [
  | inl t ↦ rw t refl
  | inr f ↦ rw f (length-perm (sort-perm less_by_newest_pub_key kr.keys))
]

-- DropDupes sorts a Keyring that is not flagged, drops the entries equal to their predecessors,
-- changes nothing else, and returns how many it dropped.
pub drop_dupes-dedup :
    (kr : Keyring)
    → ((drop_dupes kr).0 ≡ record (sorted_first kr) { keys = dedup (sorted_first kr).keys })
      × ((drop_dupes kr).1 + length (dedup (sorted_first kr).keys) ≡ length kr.keys)
unfolding drop_dupes
drop_dupes-dedup kr =
    let kr' = sorted_first kr in
    let (kept, n, m) = loop_whole kr'.keys in
    let r = dupes_loop (length kr'.keys - 1) 1 0 kr'.keys in
    (cut_or_whole kr' (length kr'.keys) r.0 r.1 (dedup kr'.keys) kept m, n ∙ resort-length kr)

-- Strictly ascending, so no entry stands twice.
abbrev pub IsDistinct : List KeyEntry → Type 0
IsDistinct = Ordered (λ a b. less_by_newest_pub_key a b ≡ true)

less_of_ne :
    (a b : KeyEntry)
    → IsDated a
    → IsDated b
    → less_by_newest_pub_key b a ≡ false
    → (compare_key_entry a b == 0) ≡ false
    → less_by_newest_pub_key a b ≡ true
less_of_ne a b d e h n = ground (arith, less_by_newest_pub_key_antisym a b d e)

dedup_from-All :
    (P : KeyEntry → Type 0) (p : KeyEntry) (rest : List KeyEntry)
    → All P rest
    → All P (dedup_from p rest)
unfolding dedup_from
dedup_from-All P p [] a = tt
dedup_from-All P p (x ∷ rest) a = ground (arith, dedup_from-All P x rest a.1)

identical : (p x : KeyEntry) → IsDated p → IsDated x → (compare_key_entry p x == 0) ≡ true → p ≡ x
identical p x d e h =
    (compare_key_entry-eq_iff p x (IsDated-IsInRange p d) (IsDated-IsInRange x e)).0 (ground arith)

dedup_from-IsDistinct :
    (p : KeyEntry) (rest : List KeyEntry)
    → All IsDated (p ∷ rest)
    → IsSorted (p ∷ rest)
    → IsDistinct (p ∷ dedup_from p rest)
unfolding dedup_from
dedup_from-IsDistinct p [] d o = (tt, tt)
dedup_from-IsDistinct p (x ∷ rest) d o =
    let later = dedup_from-IsDistinct x rest d.1 o.1 in
    elim (Bool-cases (compare_key_entry p x == 0)) [
      | inl t ↦
          rw t (
            subst (λ q. IsDistinct (q ∷ dedup_from x rest)) (sym (identical p x d.0 d.1.0 t)) later)
      | inr f ↦
          let first = less_of_ne p x d.0 d.1.0 o.0.0 f in
          let all_dated = dedup_from-All IsDated x rest d.1.1 in
          rw f ((first, above p x (dedup_from x rest) d.0 d.1.0 all_dated first later.0), later)
    ]
  where
    above :
        (p x : KeyEntry) (l : List KeyEntry)
        → IsDated p
        → IsDated x
        → All IsDated l
        → less_by_newest_pub_key p x ≡ true
        → All (λ b. less_by_newest_pub_key x b ≡ true) l
        → All (λ b. less_by_newest_pub_key p b ≡ true) l
    above p x [] d e a h b = tt
    above p x (y ∷ l) d e a h b =
        (less_by_newest_pub_key_trans p x y d e a.0 h b.0, above p x l d e a.1 h b.1)

dedup_from-In :
    (e p : KeyEntry) (rest : List KeyEntry)
    → All IsDated (p ∷ rest)
    → In e (p ∷ rest)
    → In e (p ∷ dedup_from p rest)
unfolding dedup_from
dedup_from-In e p [] d i = i
dedup_from-In e p (x ∷ rest) d (inl s) = inl s
dedup_from-In e p (x ∷ rest) d (inr i) =
    let later = dedup_from-In e x rest d.1 i in
    elim (Bool-cases (compare_key_entry p x == 0)) [
      | inl t ↦
          rw t (subst (λ q. In e (q ∷ dedup_from x rest)) (sym (identical p x d.0 d.1.0 t)) later)
      | inr f ↦ rw f (inr later)
    ]

dedup_from-In_back : (e p : KeyEntry) (rest : List KeyEntry) → In e (dedup_from p rest) → In e rest
unfolding dedup_from
dedup_from-In_back e p [] i = i
dedup_from-In_back e p (x ∷ rest) i = elim (Bool-cases (compare_key_entry p x == 0)) [
  | inl t ↦ inr (dedup_from-In_back e x rest (rw t at i))
  | inr f ↦ elim (rw f at i) [ inl s ↦ inl s | inr j ↦ inr (dedup_from-In_back e x rest j) ]
]

-- The distinct entries of a sorted list: the same entries, each once, strictly ascending.
pub dedup_correct :
    (keys : List KeyEntry)
    → All IsDated keys
    → IsSorted keys
    → IsDistinct (dedup keys) × ((e : KeyEntry) → In e (dedup keys) ↔ In e keys)
unfolding dedup
dedup_correct [] d o = (tt, λ e. (λ i. i, λ i. i))
dedup_correct (x ∷ rest) d o =
    (dedup_from-IsDistinct x rest d o, λ e. (back e, dedup_from-In e x rest d))
  where
    back : (e : KeyEntry) → In e (x ∷ dedup_from x rest) → In e (x ∷ rest)
    back e (inl s) = inl s
    back e (inr i) = inr (dedup_from-In_back e x rest i)

sorted_first-IsSorted :
    (kr : Keyring)
    → All IsDated kr.keys
    → IsFlagged kr
    → All IsDated (sorted_first kr).keys
      × IsSorted (sorted_first kr).keys
      × Perm (sorted_first kr).keys kr.keys
unfolding resort
sorted_first-IsSorted kr d f = elim (Bool-cases kr.sorted_by_pub_key) [
  | inl t ↦ rw t (d, f t, Perm.rfl)
  | inr n ↦
      let p = sort-perm less_by_newest_pub_key kr.keys in
      rw n (IsDated-perm _ _ (Perm.symm p) d, sort-IsSorted kr.keys d, p)
]

-- After DropDupes of a dated Keyring whose flag is true to its order, the entries ascend strictly,
-- and are those of the Keyring.
pub drop_dupes_correct :
    (kr : Keyring)
    → All IsDated kr.keys
    → IsFlagged kr
    → IsDistinct (drop_dupes kr).0.keys
      × ((e : KeyEntry) → In e (drop_dupes kr).0.keys ↔ In e (sorted_first kr).keys)
      × Perm (sorted_first kr).keys kr.keys
drop_dupes_correct kr d f =
    let (dated, sorted, p) = sorted_first-IsSorted kr d f in
    let (distinct, same) = dedup_correct (sorted_first kr).keys dated sorted in
    rw ((drop_dupes-dedup kr).0) (distinct, same, p)

dedup-IsDated : (keys : List KeyEntry) → All IsDated keys → All IsDated (dedup keys)
unfolding dedup
dedup-IsDated [] d = tt
dedup-IsDated (x ∷ rest) d = (d.0, dedup_from-All IsDated x rest d.1)

pub drop_dupes-IsDated :
    (kr : Keyring) → All IsDated kr.keys → IsFlagged kr → All IsDated (drop_dupes kr).0.keys
drop_dupes-IsDated kr d f =
    rw ((drop_dupes-dedup kr).0)
      (dedup-IsDated (sorted_first kr).keys (sorted_first-IsSorted kr d f).0)
