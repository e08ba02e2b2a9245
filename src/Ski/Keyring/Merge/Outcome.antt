-- ===== src/Ski/Keyring/Merge/Outcome.antt =====
-- MergeKeys as a whole: which entries are absorbed, which stay behind, and what both Keyrings keep.
use mathlib.Core.Path.{subst}
use mathlib.Core.List.{append-nil}
use mathlib.Core.List.Perm
use amp_host_go.Base.{
  ◌≡◌, ◌∙◌, refl, sym, ap, true, false, none, List, [], ◌∷◌, ◌++◌, inl, inr, Perm, arith, ltb,
  if◌then◌else◌, Bool-cases, length, take, take_all, select, All, All-append, All-map, All-select,
  In, In-append_left, In-append_right,
}
use amp_host_go.Base.Perms.{All-perm, select-All, select_none}
use amp_host_go.Base.Sort.{sort, sort-perm, sort-In}
use amp_host_go.Ski.Key.{KeyEntry, IsDated, less_by_newest_pub_key}
use amp_host_go.Ski.Keyring.{
  Keyring, MergeState, fetch_key, fetch_newest_key, merge_loop, merge_keys, drop_dupes, resort,
  pub_key_of,
}
use amp_host_go.Ski.Keyring.Lookup.{IsFlagged}
use amp_host_go.Ski.Keyring.Newest.{
  IsOptimized, HasNewest, HasNewest-KeepsNewest, fetch_newest_key_correct, optimize-IsOptimized,
  IsDated-perm, sort-IsSorted,
}
use amp_host_go.Ski.Keyring.Dupes.Distinct.{drop_dupes-IsDated}
use amp_host_go.Ski.Keyring.Merge.{is_fresh, is_rejected, MergeInv, merge_loop-MergeInv}

-- The loop's variables at its start and at its end.
abbrev pub start : Keyring → List KeyEntry → MergeState
start kr w = record {
  keys_to_add = length w;
  src_keys = w;
  problems = [];
  newest = fetch_newest_key kr;
}

abbrev pub final : Keyring → List KeyEntry → MergeState
final kr w = merge_loop kr (length w) 0 (start kr w)

abbrev pub absorbed : Keyring → List KeyEntry → List KeyEntry
absorbed kr w = take (final kr w).keys_to_add (final kr w).src_keys

start-MergeInv : (kr : Keyring) (w : List KeyEntry) → IsOptimized kr → MergeInv kr w 0 (start kr w)
start-MergeInv kr w o = record {
  index = omega arith;
  bound = omega arith;
  fresh = tt;
  kept = rw (take_all (length w) w (omega arith)) Perm.rfl;
  rejected = rw (take_all (length w) w (omega arith)) Perm.rfl;
  newest = elim (fetch_newest_key_correct kr o) [
    | inl (e, n) ↦ inl (n, e, refl)
    | inr (m, n, v) ↦ inr (m, n, inl v.member, v.latest, tt)
  ];
}

All-fresh_rejected :
    (kr : Keyring) (l : List KeyEntry)
    → All (λ e. is_fresh kr e ≡ true) l
    → All (λ e. is_rejected kr e ≡ false) l
unfolding is_fresh is_rejected
All-fresh_rejected kr l = All-map _ _ l (λ e h. ground arith)

module _ (kr : Keyring) (w : List KeyEntry) (o : IsOptimized kr) where
  final-MergeInv : MergeInv kr w (final kr w).keys_to_add (final kr w)
  final-MergeInv =
      merge_loop-MergeInv kr w (length w) 0 (start kr w) (start-MergeInv kr w o) (omega arith)

  pub absorbed-perm : Perm (absorbed kr w) (select (is_fresh kr) w)
  absorbed-perm =
      let v = final-MergeInv in rw (select-All (is_fresh kr) (absorbed kr w) v.fresh) at v.kept

  pub problems-perm : Perm (final kr w).problems (select (is_rejected kr) w)
  problems-perm =
      let v = final-MergeInv in
      let nothing =
        select_none (is_rejected kr) (absorbed kr w) (All-fresh_rejected kr _ v.fresh) in
      rw (append-nil _) at (rw nothing at v.rejected)

  absorbed-IsDated : All IsDated w → All IsDated (absorbed kr w)
  absorbed-IsDated d =
      IsDated-perm _ _ (Perm.symm absorbed-perm) (All-select IsDated (is_fresh kr) w d)

  problems-IsDated : All IsDated w → All IsDated (final kr w).problems
  problems-IsDated d =
      IsDated-perm _ _ (Perm.symm problems-perm) (All-select IsDated (is_rejected kr) w d)

  -- The Keyring after its keys were extended and sorted again.
  grown-newest :
      HasNewest
        (sort less_by_newest_pub_key (kr.keys ++ absorbed kr w))
        (pub_key_of (final kr w).newest)
  unfolding sort
  grown-newest = elim final-MergeInv.newest [
    | inl (e, p, q) ↦
        inl (ap (sort less_by_newest_pub_key) (ap (λ l. l ++ absorbed kr w) p ∙ q), ap pub_key_of e)
    | inr (m, e, i, a, b) ↦ inr (
      m,
      record {
        member = sort-In less_by_newest_pub_key m _ (elim i [
          | inl j ↦ In-append_left m kr.keys (absorbed kr w) j
          | inr j ↦ In-append_right m kr.keys (absorbed kr w) j
        ]);
        latest =
            All-perm _ (λ x. hlevel) _ _ (Perm.symm (sort-perm less_by_newest_pub_key _))
              (All-append _ kr.keys (absorbed kr w) a b);
      },
      sym (ap pub_key_of e),
    )
  ]

  kept-newest : absorbed kr w ≡ [] → HasNewest kr.keys (pub_key_of (final kr w).newest)
  kept-newest nothing = elim final-MergeInv.newest [
    | inl (e, p, _) ↦ inl (p, ap pub_key_of e)
    | inr (m, e, i, a, b) ↦ inr (
      m,
      record {
        member = elim i [ inl j ↦ j | inr j ↦ absurd (subst (In m) nothing j) ];
        latest = a;
      },
      sym (ap pub_key_of e),
    )
  ]

-- What MergeKeys makes of the Keyring and of the source.
pub record IsMerged (kr : Keyring) (w : List KeyEntry) (r : Keyring × Keyring) : Type 0 where
  pub target : IsOptimized r.0
  pub source : IsOptimized r.1
  pub target_newest : HasNewest r.0.keys r.0.newest_pub_key
  pub source_newest : HasNewest r.1.keys r.1.newest_pub_key
  pub gains : Perm r.0.keys (kr.keys ++ select (is_fresh kr) w)
  pub leaves : Perm r.1.keys (select (is_rejected kr) w)

-- The first Keyring of the result of MergeKeys.
abbrev merged : Keyring → List KeyEntry → Keyring
merged kr w =
    let kr' = record kr { newest_pub_key = pub_key_of (final kr w).newest } in
    if ltb 0 (final kr w).keys_to_add
    then resort (record kr' { keys = kr.keys ++ absorbed kr w })
    else kr'

merged_correct :
    (kr : Keyring) (w : List KeyEntry)
    → IsOptimized kr
    → All IsDated w
    → IsOptimized (merged kr w)
      × Perm (merged kr w).keys (kr.keys ++ select (is_fresh kr) w)
      × HasNewest (merged kr w).keys (merged kr w).newest_pub_key
unfolding resort
merged_correct kr w o d = elim (Bool-cases (ltb 0 (final kr w).keys_to_add)) [
  | inl t ↦
      let p = sort-perm less_by_newest_pub_key (kr.keys ++ absorbed kr w) in
      let both = All-append IsDated kr.keys (absorbed kr w) o.dated (absorbed-IsDated kr w o d) in
      rw t (
        record {
          dated = IsDated-perm _ _ (Perm.symm p) both;
          flag = refl;
          sorted = sort-IsSorted _ both;
          newest = HasNewest-KeepsNewest _ _ (grown-newest kr w o);
        },
        Perm.trans p (Perm.append_left kr.keys (absorbed-perm kr w o)),
        grown-newest kr w o,
      )
  | inr f ↦
      let no_keys : (final kr w).keys_to_add ≡ 0 = ground arith in
      let nothing : absorbed kr w ≡ [] = ap (λ n. take n (final kr w).src_keys) no_keys in
      rw f (
        record {
          dated = o.dated;
          flag = o.flag;
          sorted = o.sorted;
          newest = HasNewest-KeepsNewest _ _ (kept-newest kr w o nothing);
        },
        rw (append-nil kr.keys) at
            (Perm.append_left kr.keys (rw nothing at (absorbed-perm kr w o))),
        kept-newest kr w o nothing,
      )
]

-- MergeKeys into an optimized Keyring, from a dated source whose flag is true to its order: with
-- the source's duplicates dropped, the Keyring gains exactly the entries whose pub key it does not
-- have, the source is left with exactly those that collide with an entry of the Keyring, and both
-- Keyrings are sorted and have the pub key of a newest entry, if there is one.
pub merge_keys_correct :
    (kr src : Keyring)
    → IsOptimized kr
    → All IsDated src.keys
    → IsFlagged src
    → IsMerged kr (drop_dupes src).0.keys (merge_keys kr src)
unfolding merge_keys
merge_keys_correct kr src o d f =
    let w = (drop_dupes src).0.keys in
    let dated = drop_dupes-IsDated src d f in
    let (target, gains, target_newest) = merged_correct kr w o dated in
    let (source, p, source_newest) =
      optimize-IsOptimized (record (drop_dupes src).0 { keys = (final kr w).problems })
        (problems-IsDated kr w o dated) in
    record {
      target = target;
      source = source;
      target_newest = target_newest;
      source_newest = source_newest;
      gains = gains;
      leaves = Perm.trans p (problems-perm kr w o);
    }

-- An optimized Keyring absorbs a source that is two different entries of one pub key which the
-- Keyring does not have, and leaves nothing in the source to show the collision.
pub merge_keys-collision :
    (kr src : Keyring) (a b : KeyEntry)
    → IsOptimized kr
    → All IsDated src.keys
    → IsFlagged src
    → (drop_dupes src).0.keys ≡ a ∷ b ∷ []
    → a.pub_key ≡ b.pub_key
    → fetch_key kr a.pub_key ≡ none
    → ((merge_keys kr src).1.keys ≡ []) × Perm (merge_keys kr src).0.keys (kr.keys ++ a ∷ b ∷ [])
unfolding is_fresh is_rejected
merge_keys-collision kr src a b o d f e same unknown =
    let m = merge_keys_correct kr src o d f in
    let fresh_a : is_fresh kr a ≡ true = rw (is_fresh, unknown) refl in
    let fresh_b : is_fresh kr b ≡ true = rw (is_fresh, ← same, unknown) refl in
    let kept_a : is_rejected kr a ≡ false = rw (is_rejected, unknown) refl in
    let kept_b : is_rejected kr b ≡ false = rw (is_rejected, ← same, unknown) refl in
    (Perm.eq-nil (rw (e, kept_a, kept_b) at m.leaves), rw (e, fresh_a, fresh_b) at m.gains)
