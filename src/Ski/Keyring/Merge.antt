-- ===== src/Ski/Keyring/Merge.antt =====
-- MergeKeys: what its loop keeps at each round.
pub mod Outcome
use mathlib.Core.Path.{subst}
use mathlib.Core.List.{append-nil, append_assoc}
use mathlib.Core.List.Perm
use mathlib.Core.Option.{some-injective}
use amp_host_go.Base.{
  ℕ, zero, suc, ◌+◌, ◌-◌, ◌<◌, ◌≤◌, ◌≡◌, ◌⊎◌, refl, sym, ap, ◌∙◌, Bool, true, false, Option, none,
  some, List, [], ◌∷◌, ◌++◌, inl, inr, Perm, arith, ltb, ◌==◌, if◌then◌else◌, Bool-cases,
  Option-cases, length, get_elem?, get_elem?_in, set, length-set, take, take-set, take_step, select,
  All, All-append, All-map, In, In-append_left, In-append_right,
}
use amp_host_go.Base.Words.{gt_int64, ge_int64}
use amp_host_go.Base.Perms.{select-perm, swap_remove-perm}
use amp_host_go.Ski.Key.{KeyEntry}
use amp_host_go.Ski.Keyring.{
  Keyring, MergeState, entry_at, fetch_key, is_problem, newer, take_out, merge_loop,
}

-- The Keyring has no entry with the pub key.
unfoldable pub is_fresh : Keyring → KeyEntry → Bool
is_fresh kr e = elim (fetch_key kr e.pub_key) [ none ↦ true | some _ ↦ false ]

-- The Keyring has an entry with the pub key, and the two collide.
unfoldable pub is_rejected : Keyring → KeyEntry → Bool
is_rejected kr e = elim (fetch_key kr e.pub_key) [ none ↦ false | some found ↦ is_problem found e ]

abbrev pub NoneNewer : KeyEntry → List KeyEntry → Type 0
NoneNewer m = All (λ e. gt_int64 e.time_created m.time_created ≡ false)

-- `newest` is a newest entry of the two lists.
abbrev pub NewestOf : List KeyEntry → List KeyEntry → Option KeyEntry → Type 0
NewestOf a b newest =
    ((newest ≡ none) × (a ≡ []) × (b ≡ []))
    ⊎ ((m : KeyEntry) × (newest ≡ some m) × (In m a ⊎ In m b) × NoneNewer m a × NoneNewer m b)

-- Before the round at `i`, with `w` the source slice at the start.
pub record MergeInv (kr : Keyring) (w : List KeyEntry) (i : ℕ) (s : MergeState) : Type 0 where
  pub index : i ≤ s.keys_to_add
  pub bound : s.keys_to_add ≤ length s.src_keys
  pub fresh : All (λ e. is_fresh kr e ≡ true) (take i s.src_keys)
  pub kept : Perm (select (is_fresh kr) (take s.keys_to_add s.src_keys)) (select (is_fresh kr) w)
  pub rejected :
      Perm
        (s.problems ++ select (is_rejected kr) (take s.keys_to_add s.src_keys))
        (select (is_rejected kr) w)
  pub newest : NewestOf kr.keys (take i s.src_keys) s.newest

entry_at-get_elem? :
    (keys : List KeyEntry) (i : ℕ) (x : KeyEntry) → get_elem? keys i ≡ some x → entry_at keys i ≡ x
entry_at-get_elem? [] i x e = cc
entry_at-get_elem? (y ∷ keys) zero x e = ground arith
entry_at-get_elem? (y ∷ keys) (suc i) x e = entry_at-get_elem? keys i x e

NoneNewer-later :
    (m e : KeyEntry) (l : List KeyEntry)
    → ge_int64 e.time_created m.time_created ≡ true
    → NoneNewer m l
    → NoneNewer e l
NoneNewer-later m e l g = All-map _ _ l (λ x h. ground arith)

NewestOf-newer :
    (a b : List KeyEntry) (newest : Option KeyEntry) (e : KeyEntry)
    → NewestOf a b newest
    → NewestOf a (b ++ e ∷ []) (newer newest e)
NewestOf-newer a b none e (inl (_, p, q)) =
    inr (e, refl, inr (In-append_right e b (e ∷ []) (inl refl)), rw p tt, rw q (ground arith, tt))
NewestOf-newer a b none e (inr (m, q, _, _, _)) = absurd (cc q)
NewestOf-newer a b (some k) e (inl (q, _, _)) = absurd (cc q)
NewestOf-newer a b (some k) e (inr (m, q, i, na, nb)) =
    let same : k ≡ m = some-injective _ _ q in
    elim (Bool-cases (ge_int64 e.time_created k.time_created)) [
      | inl t ↦
          let later = subst (λ z. ge_int64 e.time_created z.time_created ≡ true) same t in
          rw t (
            inr (
              e,
              refl,
              inr (In-append_right e b (e ∷ []) (inl refl)),
              NoneNewer-later m e a later na,
              All-append _ b (e ∷ []) (NoneNewer-later m e b later nb) (ground arith, tt),
            ))
      | inr f ↦
          let older = subst (λ z. ge_int64 e.time_created z.time_created ≡ false) same f in
          rw f (
            inr (
              m,
              q,
              elim i [ inl x ↦ inl x | inr x ↦ inr (In-append_left m b (e ∷ []) x) ],
              na,
              All-append _ b (e ∷ []) nb (ground arith, tt),
            ))
    ]

module _ (kr : Keyring) (w : List KeyEntry) (i : ℕ) (s : MergeState) (v : MergeInv kr w i s)
    (inside : i < s.keys_to_add) where
  abbrev entry : KeyEntry
  entry = entry_at s.src_keys i

  found_at : (j : ℕ) → j < s.keys_to_add → get_elem? s.src_keys j ≡ some (entry_at s.src_keys j)
  found_at j h =
      let (x, e) = get_elem?_in s.src_keys j (omega (arith, v.bound)) in
      e ∙ ap some (sym (entry_at-get_elem? s.src_keys j x e))

  keep-MergeInv :
      fetch_key kr entry.pub_key ≡ none
      → MergeInv kr w (i + 1) (record s { newest = newer s.newest entry })
  unfolding is_fresh
  keep-MergeInv e =
      let next : i + 1 ≡ suc i = omega arith in
      let grown = take_step s.src_keys i entry (found_at i inside) in
      record {
        index = omega arith;
        bound = v.bound;
        fresh = rw (next, grown) (All-append _ _ _ v.fresh (rw (is_fresh, e) refl, tt));
        kept = v.kept;
        rejected = v.rejected;
        newest = rw (next, grown) (NewestOf-newer _ _ _ _ v.newest);
      }

  abbrev left : List KeyEntry
  left = take (s.keys_to_add - 1) (set s.src_keys i (entry_at s.src_keys (s.keys_to_add - 1)))

  swapped : Perm (entry ∷ left) (take s.keys_to_add s.src_keys)
  swapped =
      let last : suc (s.keys_to_add - 1) ≡ s.keys_to_add = omega arith in
      subst (λ n. Perm (entry ∷ left) (take n s.src_keys)) last
        (swap_remove-perm s.src_keys i (s.keys_to_add - 1) entry _ (omega arith) (found_at i inside)
          (found_at (s.keys_to_add - 1) (omega arith)))

  left_kept : is_fresh kr entry ≡ false → Perm (select (is_fresh kr) left) (select (is_fresh kr) w)
  left_kept f = let p = select-perm (is_fresh kr) swapped in Perm.trans (rw f at p) v.kept

  left_rejected :
      Perm
        ((if is_rejected kr entry then s.problems ++ entry ∷ [] else s.problems)
          ++ select (is_rejected kr) left)
        (select (is_rejected kr) w)
  left_rejected =
      let p = Perm.append_left s.problems (select-perm (is_rejected kr) swapped) in
      elim (Bool-cases (is_rejected kr entry)) [
        | inl t ↦
            rw (t, append_assoc s.problems (entry ∷ []) (select (is_rejected kr) left))
              (Perm.trans (rw t at p) v.rejected)
        | inr f ↦ rw f (Perm.trans (rw f at p) v.rejected)
      ]

  take_out-MergeInv :
      (found : KeyEntry)
      → fetch_key kr entry.pub_key ≡ some found
      → MergeInv kr w i (take_out i found s)
  unfolding take_out is_rejected is_fresh
  take_out-MergeInv found e =
      let same = take-set s.src_keys i i (entry_at s.src_keys (s.keys_to_add - 1)) (omega arith) in
      let rejects : is_rejected kr entry ≡ is_problem found entry = rw (is_rejected, e) refl in
      record {
        index = omega arith;
        bound =
            omega
              (arith, v.bound, length-set s.src_keys i (entry_at s.src_keys (s.keys_to_add - 1)));
        fresh = rw same v.fresh;
        kept = left_kept (rw (is_fresh, e) refl);
        rejected = rw rejects at left_rejected;
        newest = rw same v.newest;
      }

shrinks :
    (i k : ℕ) (found : KeyEntry) (s : MergeState)
    → i < s.keys_to_add
    → s.keys_to_add - i ≤ suc k
    → (take_out i found s).keys_to_add - i ≤ k
unfolding take_out
shrinks i k found s h g = omega arith

-- The loop ends with nothing left to look at.
pub merge_loop-MergeInv :
    (kr : Keyring) (w : List KeyEntry) (k i : ℕ) (s : MergeState)
    → MergeInv kr w i s
    → s.keys_to_add - i ≤ k
    → MergeInv kr w (merge_loop kr k i s).keys_to_add (merge_loop kr k i s)
unfolding merge_loop
merge_loop-MergeInv kr w zero i s v h = subst (λ n. MergeInv kr w n s) (omega (arith, v.index)) v
merge_loop-MergeInv kr w (suc k) i s v h = elim (Bool-cases (ltb i s.keys_to_add)) [
  | inr f ↦ rw f (subst (λ n. MergeInv kr w n s) (ground (arith, v.index)) v)
  | inl t ↦ elim (Option-cases (fetch_key kr (entry_at s.src_keys i).pub_key)) [
    | inl e ↦
        rw (t, merge_loop, e)
          (merge_loop-MergeInv kr w k (i + 1) _ (keep-MergeInv kr w i s v (ground arith) e)
            (omega arith))
    | inr (found, e) ↦
        rw (t, merge_loop, e)
          (merge_loop-MergeInv kr w k i _ (take_out-MergeInv kr w i s v (ground arith) found e)
            (shrinks i k found s (ground arith) h))
  ]
]
