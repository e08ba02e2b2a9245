-- ===== src/Ski/Tome/Merging/Content.antt =====
-- MergeTome: what its loop makes of the Keyrings themselves, by MergeKeys and Optimize.
use mathlib.Core.Path.{subst}
use mathlib.Core.List.Perm
use mathlib.Core.List.{append-nil, perm_middle}
use amp_host_go.Base.{
  ℕ, zero, suc, ◌+◌, ◌-◌, ◌<◌, ◌≤◌, ◌≡◌, ◌≢◌, ◌⊎◌, ◌==◌, refl, sym, ap, ◌∙◌, true, false, not, none,
  some, List, [], ◌∷◌, ◌++◌, map, inl, inr, Perm, arith, ltb, if◌then◌else◌, Bool-cases,
  Option-cases, length, get_elem?, set, take, take-set, take_step, All, All-append,
}
use amp_host_go.Base.Perms.{swap_remove-perm}
use amp_host_go.Base.Elems.{get_elem?-set_ne, get_elem?-set_same}
use amp_host_go.Base.Bytes.{Bytes}
use amp_host_go.Ski.Keyring.{Keyring, merge_keys}
use amp_host_go.Ski.Keyring
use amp_host_go.Ski.Tome.{TomeState, find_keyring, keyring_at, absorb, merge_tome_loop}
use amp_host_go.Ski.Tome.Names.{knows, keyring_at-get_elem?, find_none, find_some}
use amp_host_go.Ski.Tome.Merging.{is_new, TomeInv, found, keep-TomeInv, absorb-TomeInv, shrinks}
use amp_host_go.Ski.Tome.Merging.Absorbing.{
  absorb_one, left_of, absorb_all, left_all, absorb_one-found,
}

-- Before the round at `i`: `os` are the source Keyrings, of which those before `i` were optimized,
-- and `vs` those that were merged, the last one first, into `krs`; `w` are all of them.
pub record Content (krs w : List Keyring) (known : List Bytes) (i : ℕ) (s : TomeState)
    : Type 0 where
  pub os : List Keyring
  pub vs : List Keyring
  pub whole : Perm (take s.kr_to_add os ++ vs) w
  pub done : take i s.src_keyrings ≡ map Keyring.optimize (take i os)
  pub ahead : (j : ℕ) → i ≤ j → get_elem? s.src_keyrings j ≡ get_elem? os j
  pub news : All (λ kr. is_new known kr.name ≡ true) (take i os)
  pub olds : All (λ kr. is_new known kr.name ≡ false) vs
  pub target : s.target.keyrings ≡ absorb_all vs krs
  pub problems : s.problems ≡ left_all vs krs

map-snoc :
    (f : Keyring → Keyring) (xs : List Keyring) (x : Keyring)
    → map f xs ++ f x ∷ [] ≡ map f (xs ++ x ∷ [])
map-snoc f [] x = refl
map-snoc f (y ∷ xs) x = ap (λ l. f y ∷ l) (map-snoc f xs x)

module _ (krs w : List Keyring) (known names : List Bytes) (rev i : ℕ) (s : TomeState)
    (v : TomeInv known names rev i s) (c : Content krs w known i s) (inside : i < s.kr_to_add) where
  abbrev src : Keyring
  src = keyring_at s.src_keyrings i

  at_src : get_elem? s.src_keyrings i ≡ some src
  at_src = keyring_at-get_elem? s.src_keyrings i (omega (arith, v.bound, inside))

  at_os : get_elem? c.os i ≡ some src
  at_os = sym (c.ahead i (omega arith)) ∙ at_src

  next : i + 1 ≡ suc i
  next = omega arith

  step_os : take (i + 1) c.os ≡ take i c.os ++ src ∷ []
  step_os = ap (λ j. take j c.os) next ∙ take_step c.os i src at_os

  keep-Content :
      find_keyring s.target src.name ≡ none
      → Content krs w known
          (i + 1)
          (record s { src_keyrings = set s.src_keyrings i (Keyring.optimize src) })
  keep-Content e =
      let unknown : knows known src.name ≡ false =
        ap (λ l. knows l src.name) (sym v.same_names)
        ∙ find_none src.name 0 s.target.keyrings (sym (found known names rev i s v inside) ∙ e) in
      record {
        os = c.os;
        vs = c.vs;
        whole = c.whole;
        done =
            ap (λ j. take j (set s.src_keyrings i (Keyring.optimize src))) next
            ∙ take_step (set s.src_keyrings i (Keyring.optimize src)) i (Keyring.optimize src)
                (get_elem?-set_same s.src_keyrings i src (Keyring.optimize src) at_src)
            ∙ ap (λ l. l ++ Keyring.optimize src ∷ [])
                (take-set s.src_keyrings i i (Keyring.optimize src) (omega arith) ∙ c.done)
            ∙ map-snoc Keyring.optimize (take i c.os) src
            ∙ ap (map Keyring.optimize) (sym step_os);
        ahead = λ j h.
            get_elem?-set_ne s.src_keyrings i j (Keyring.optimize src) (λ q. omega (arith, q, h))
            ∙ c.ahead j (omega (arith, h));
        news =
            subst (All (λ kr. is_new known kr.name ≡ true)) (sym step_os)
              (All-append _ _ _ c.news (ap not unknown, tt));
        olds = c.olds;
        target = c.target;
        problems = c.problems;
      }

  absorb-Content :
      (pos : ℕ) (dst : Keyring)
      → find_keyring s.target src.name ≡ some (pos, dst)
      → Content krs w known i (absorb i (pos, dst) s)
  unfolding absorb absorb_all left_all
  absorb-Content pos dst e =
      let k = s.kr_to_add - 1 in
      let last = keyring_at s.src_keyrings k in
      let first = sym (found known names rev i s v inside) ∙ e in
      let at_last : get_elem? s.src_keyrings k ≡ some last =
        keyring_at-get_elem? s.src_keyrings k (omega (arith, v.bound, inside)) in
      let os_last : get_elem? c.os k ≡ some last =
        sym (c.ahead k (omega (arith, inside))) ∙ at_last in
      let known_src = (find_some src.name 0 s.target.keyrings pos dst first).0 in
      let (put, left) = absorb_one-found src s.target.keyrings 0 pos dst first in
      let back : pos ≡ pos - 0 = omega arith in
      let top : suc k ≡ s.kr_to_add = omega (arith, inside) in
      let swapped : Perm (src ∷ take k (set c.os i last)) (take (suc k) c.os) =
        swap_remove-perm c.os i k src last (omega (arith, inside)) at_os os_last in
      record {
        os = set c.os i last;
        vs = src ∷ c.vs;
        whole = Perm.trans (perm_middle (take k (set c.os i last)) c.vs) (
            Perm.trans
              (Perm.append_right c.vs
                (subst (λ n. Perm (src ∷ take k (set c.os i last)) (take n c.os)) top swapped))
              c.whole);
        done =
            take-set s.src_keyrings i i last (omega arith)
            ∙ c.done
            ∙ ap (map Keyring.optimize) (sym (take-set c.os i i last (omega arith)));
        ahead = λ j h. later j h at_last;
        news =
            subst (All (λ kr. is_new known kr.name ≡ true))
              (sym (take-set c.os i i last (omega arith))) c.news;
        olds = (ap not (ap (λ l. knows l src.name) (sym v.same_names) ∙ known_src), c.olds);
        target =
            ap (λ j. set s.target.keyrings j (merge_keys dst src).0) back
            ∙ put
            ∙ ap (absorb_one src) c.target;
        problems =
            grown (Bool-cases (ltb 0 (length (merge_keys dst src).1.keys)))
            ∙ ap (λ l. s.problems ++ l) (sym left ∙ ap (left_of src) c.target)
            ∙ ap (λ l. l ++ left_of src (absorb_all c.vs krs)) c.problems;
      }
    where
      later :
          (j : ℕ)
          → i ≤ j
          → get_elem? s.src_keyrings (s.kr_to_add - 1)
            ≡ some (keyring_at s.src_keyrings (s.kr_to_add - 1))
          → get_elem? (set s.src_keyrings i (keyring_at s.src_keyrings (s.kr_to_add - 1))) j
            ≡ get_elem? (set c.os i (keyring_at s.src_keyrings (s.kr_to_add - 1))) j
      later j h at_last =
          let last = keyring_at s.src_keyrings (s.kr_to_add - 1) in
          elim (Bool-cases (i == j)) [
            | inl t ↦
                let same : i ≡ j = ground (arith, t) in
                subst (λ n. get_elem? (set s.src_keyrings i last) n ≡ get_elem? (set c.os i last) n)
                  same
                  (get_elem?-set_same s.src_keyrings i src last at_src
                    ∙ sym (get_elem?-set_same c.os i src last at_os))
            | inr f ↦
                let ne : i ≢ j = ground (arith, f) in
                get_elem?-set_ne s.src_keyrings i j last ne
                ∙ c.ahead j h
                ∙ sym (get_elem?-set_ne c.os i j last ne)
          ]

      left_kr : Keyring
      left_kr = (merge_keys dst src).1

      grown :
          ((ltb 0 (length left_kr.keys) ≡ true) ⊎ (ltb 0 (length left_kr.keys) ≡ false))
          → (if ltb 0 (length left_kr.keys) then s.problems ++ left_kr ∷ [] else s.problems)
            ≡ s.problems ++ (if ltb 0 (length left_kr.keys) then left_kr ∷ [] else [])
      grown (inl t) = rw t refl
      grown (inr f) = rw f (sym (append-nil s.problems))

pub merge_tome_loop-Content :
    (krs w : List Keyring) (known names : List Bytes) (rev k i : ℕ) (s : TomeState)
    → TomeInv known names rev i s
    → Content krs w known i s
    → s.kr_to_add - i ≤ k
    → Content krs w known (merge_tome_loop k i s).kr_to_add (merge_tome_loop k i s)
unfolding merge_tome_loop
merge_tome_loop-Content krs w known names rev zero i s v c h =
    subst (λ n. Content krs w known n s) (omega (arith, v.index, h)) c
merge_tome_loop-Content krs w known names rev (suc k) i s v c h =
    elim (Bool-cases (ltb i s.kr_to_add)) [
      | inr f ↦ rw f (subst (λ n. Content krs w known n s) (ground (arith, v.index, f)) c)
      | inl t ↦
          let inside : i < s.kr_to_add = ground (arith, t) in
          elim (Option-cases (find_keyring s.target (keyring_at s.src_keyrings i).name)) [
            | inl e ↦
                rw (t, merge_tome_loop, e)
                  (merge_tome_loop-Content krs w known names rev k (i + 1) _
                    (keep-TomeInv known names rev i s v inside e)
                    (keep-Content krs w known names rev i s v c inside e) (omega (arith, h)))
            | inr (r, e) ↦
                rw (t, merge_tome_loop, e)
                  (merge_tome_loop-Content krs w known names rev k i _
                    (absorb-TomeInv known names rev i s v inside r.0 r.1 e)
                    (absorb-Content krs w known names rev i s v c inside r.0 r.1 e)
                    (shrinks i k r s inside h))
          ]
    ]
