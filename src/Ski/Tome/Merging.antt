-- ===== src/Ski/Tome/Merging.antt =====
-- MergeTome: what its loop keeps of the names of the Keyrings.
pub mod Absorbing
pub mod Content
pub mod Final
pub mod Outcome
use mathlib.Core.Path.{subst}
use mathlib.Core.List.Perm
use mathlib.Core.Option.{none-ne-some, some-injective}
use amp_host_go.Base.{
  ℕ, zero, suc, ◌+◌, ◌-◌, ◌<◌, ◌≤◌, ◌≡◌, ◌⊎◌, refl, sym, ap, ◌∙◌, Bool, true, false, not, ◌||◌,
  Option, none, some, List, [], ◌∷◌, ◌++◌, map, inl, inr, Perm, arith, ltb, if◌then◌else◌, if_true,
  if_false, Bool-cases, Option-cases, length, length-set, get_elem?, get_elem?_in, set, take,
  take-set, take_step, select, All, All-append, All-map, Ordered,
}
use amp_host_go.Base.Perms.{select-perm, swap_remove-perm}
use amp_host_go.Base.Bytes.{Bytes, equal_bytes, below_bytes}
use amp_host_go.Base.Search.{locate, find_first, locate-find_first}
use amp_host_go.Ski.Keyring.{Keyring, merge_keys, resort}
use amp_host_go.Ski.Keyring
use amp_host_go.Ski.Tome.{
  KeyTome, TomeState, less_by_name, has_name, name_below, find_keyring, keyring_at, absorb,
  merge_tome_loop,
}
use amp_host_go.Ski.Tome.Naming.{IsNamed, IsSearchable-has_name}
use amp_host_go.Ski.Tome.Names.{
  map-set, get_elem?-map, names, knows, set_same, keyring_at-get_elem?, find_none, find_some,
  name-merge_keys, AreNamed, IsNamed-names, names-IsNamed,
}

abbrev pub is_new : List Bytes → Bytes → Bool
is_new known n = not (knows known n)

-- Before the round at `i`: `known` are the names of the target and `w` those of the source at the
-- start.
pub record TomeInv (known w : List Bytes) (rev i : ℕ) (s : TomeState) : Type 0 where
  pub index : i ≤ s.kr_to_add
  pub bound : s.kr_to_add ≤ length s.src_keyrings
  pub same_names : names s.target.keyrings ≡ known
  pub named : IsNamed s.target.keyrings
  pub flag : s.target.sorted_by_name ≡ true
  pub same_rev : s.target.rev ≡ rev
  pub fresh : All (λ n. is_new known n ≡ true) (take i (names s.src_keyrings))
  pub kept :
      Perm
        (select (is_new known) (take s.kr_to_add (names s.src_keyrings)))
        (select (is_new known) w)
  pub stays : All (λ kr. ltb 0 (length kr.keys) ≡ true) s.problems

module _ (known w : List Bytes) (rev i : ℕ) (s : TomeState) (v : TomeInv known w rev i s)
    (inside : i < s.kr_to_add) where
  abbrev src : Keyring
  src = keyring_at s.src_keyrings i

  name_at :
      (j : ℕ)
      → j < s.kr_to_add
      → get_elem? (names s.src_keyrings) j ≡ some (keyring_at s.src_keyrings j).name
  name_at j h =
      get_elem?-map (λ (kr : Keyring). kr.name) s.src_keyrings j _
        (keyring_at-get_elem? s.src_keyrings j (omega (arith, v.bound, h)))

  pub found : find_keyring s.target src.name ≡ find_first (has_name src.name) 0 s.target.keyrings
  unfolding find_keyring
  found =
      locate-find_first (name_below src.name) (has_name src.name) s.target.sorted_by_name
        s.target.keyrings (λ h. IsSearchable-has_name src.name s.target.keyrings v.named)

  pub keep-TomeInv :
      find_keyring s.target src.name ≡ none
      → TomeInv known w rev
          (i + 1)
          (record s { src_keyrings = set s.src_keyrings i (Keyring.optimize src) })
  unfolding Keyring.optimize resort
  keep-TomeInv e =
      let same : names (set s.src_keyrings i (Keyring.optimize src)) ≡ names s.src_keyrings =
        map-set (λ (kr : Keyring). kr.name) s.src_keyrings i (Keyring.optimize src)
        ∙ set_same (names s.src_keyrings) i src.name (name_at i inside) in
      let unknown : knows known src.name ≡ false =
        ap (λ l. knows l src.name) (sym v.same_names)
        ∙ find_none src.name 0 s.target.keyrings (sym found ∙ e) in
      let next : i + 1 ≡ suc i = omega arith in
      record {
        index = omega (arith, inside);
        bound = omega (arith, v.bound, length-set s.src_keyrings i (Keyring.optimize src));
        same_names = v.same_names;
        named = v.named;
        flag = v.flag;
        same_rev = v.same_rev;
        fresh =
            subst (λ l. All (λ n. is_new known n ≡ true) l)
              (sym (
                ap (take (i + 1)) same
                ∙ ap (λ j. take j (names s.src_keyrings)) next
                ∙ take_step (names s.src_keyrings) i src.name (name_at i inside)))
              (All-append _ _ _ v.fresh (ap not unknown, tt));
        kept =
            subst (λ l. Perm (select (is_new known) (take s.kr_to_add l)) (select (is_new known) w))
              (sym same) v.kept;
        stays = v.stays;
      }

  pub absorb-TomeInv :
      (pos : ℕ) (dst : Keyring)
      → find_keyring s.target src.name ≡ some (pos, dst)
      → TomeInv known w rev i (absorb i (pos, dst) s)
  unfolding absorb
  absorb-TomeInv pos dst e =
      let last = keyring_at s.src_keyrings (s.kr_to_add - 1) in
      let moved : names (set s.src_keyrings i last) ≡ set (names s.src_keyrings) i last.name =
        map-set (λ (kr : Keyring). kr.name) s.src_keyrings i last in
      let merged = (merge_keys dst src).0 in
      let (is_known, _, at) = find_some src.name 0 s.target.keyrings pos dst (sym found ∙ e) in
      let here : get_elem? s.target.keyrings pos ≡ some dst =
        let back : pos ≡ pos - 0 = omega arith in ap (get_elem? s.target.keyrings) back ∙ at in
      let same : names (set s.target.keyrings pos merged) ≡ names s.target.keyrings =
        map-set (λ (kr : Keyring). kr.name) s.target.keyrings pos merged
        ∙ ap (set (names s.target.keyrings) pos) (name-merge_keys dst src)
        ∙ set_same (names s.target.keyrings) pos dst.name
            (get_elem?-map (λ (kr : Keyring). kr.name) s.target.keyrings pos dst here) in
      let old : is_new known src.name ≡ false =
        ap not (ap (λ l. knows l src.name) (sym v.same_names) ∙ is_known) in
      record {
        index = omega (arith, inside);
        bound = omega (arith, v.bound, length-set s.src_keyrings i last);
        same_names = same ∙ v.same_names;
        named = names-IsNamed _ (subst AreNamed (sym same) (IsNamed-names _ v.named));
        flag = v.flag;
        same_rev = v.same_rev;
        fresh =
            subst (λ l. All (λ n. is_new known n ≡ true) l)
              (sym
                (ap (take i) moved ∙ take-set (names s.src_keyrings) i i last.name (omega arith)))
              v.fresh;
        kept =
            subst
              (λ l.
                Perm (select (is_new known) (take (s.kr_to_add - 1) l)) (select (is_new known) w))
              (sym moved) (Perm.trans (dropped old) v.kept);
        stays = stay (Bool-cases (ltb 0 (length (merge_keys dst src).1.keys)));
      }
    where
      dropped :
          is_new known src.name ≡ false
          → Perm
              (select (is_new known) (
                take (s.kr_to_add - 1) (
                  set (names s.src_keyrings) i (keyring_at s.src_keyrings (s.kr_to_add - 1)).name)))
              (select (is_new known) (take s.kr_to_add (names s.src_keyrings)))
      dropped f =
          let last : suc (s.kr_to_add - 1) ≡ s.kr_to_add = omega (arith, inside) in
          let rest =
            take (s.kr_to_add - 1)
              (set (names s.src_keyrings) i (keyring_at s.src_keyrings (s.kr_to_add - 1)).name) in
          let swapped =
            swap_remove-perm (names s.src_keyrings) i (s.kr_to_add - 1) src.name
              (keyring_at s.src_keyrings (s.kr_to_add - 1)).name (omega (arith, inside))
              (name_at i inside) (name_at (s.kr_to_add - 1) (omega (arith, inside))) in
          let p = select-perm (is_new known) swapped in
          subst
            (λ n.
              Perm (select (is_new known) rest)
                (select (is_new known) (take n (names s.src_keyrings))))
            last (rw f at p)

      left : Keyring
      left = (merge_keys dst src).1

      stay :
          ((ltb 0 (length left.keys) ≡ true) ⊎ (ltb 0 (length left.keys) ≡ false))
          → All
              (λ (kr : Keyring). ltb 0 (length kr.keys) ≡ true)
              (if ltb 0 (length left.keys) then s.problems ++ left ∷ [] else s.problems)
      stay (inl t) = rw t (All-append _ s.problems (left ∷ []) v.stays (t, tt))
      stay (inr f) = rw f v.stays

pub shrinks :
    (i k : ℕ) (r : ℕ × Keyring) (s : TomeState)
    → i < s.kr_to_add
    → s.kr_to_add - i ≤ suc k
    → (absorb i r s).kr_to_add - i ≤ k
unfolding absorb
shrinks i k r s h g = omega (arith, h, g)

-- The loop ends with no source Keyring left to look at.
pub merge_tome_loop-TomeInv :
    (known w : List Bytes) (rev k i : ℕ) (s : TomeState)
    → TomeInv known w rev i s
    → s.kr_to_add - i ≤ k
    → TomeInv known w rev (merge_tome_loop k i s).kr_to_add (merge_tome_loop k i s)
unfolding merge_tome_loop
merge_tome_loop-TomeInv known w rev zero i s v h =
    subst (λ n. TomeInv known w rev n s) (omega (arith, v.index, h)) v
merge_tome_loop-TomeInv known w rev (suc k) i s v h = elim (Bool-cases (ltb i s.kr_to_add)) [
  | inr f ↦ rw f (subst (λ n. TomeInv known w rev n s) (ground (arith, v.index, f)) v)
  | inl t ↦
      let inside : i < s.kr_to_add = ground (arith, t) in
      elim (Option-cases (find_keyring s.target (keyring_at s.src_keyrings i).name)) [
        | inl e ↦
            rw (t, merge_tome_loop, e)
              (merge_tome_loop-TomeInv known w rev k (i + 1) _
                (keep-TomeInv known w rev i s v inside e) (omega (arith, h)))
        | inr (r, e) ↦
            rw (t, merge_tome_loop, e)
              (merge_tome_loop-TomeInv known w rev k i _
                (absorb-TomeInv known w rev i s v inside r.0 r.1 e) (shrinks i k r s inside h))
      ]
]
