-- ===== src/Ski/Tome/Merging/Outcome.antt =====
-- MergeTome as a whole: the Keyrings that both tomes are left with, and their names.
use mathlib.Core.Path.{subst}
use mathlib.Core.List.{append-nil}
use mathlib.Core.List.Perm
use amp_host_go.Base.{
  ◌+◌, ◌%◌, ◌^◌, ◌≡◌, sym, ap, ◌∙◌, false, true, List, ◌++◌, inl, inr, Perm, arith, ltb, if_true,
  if_false, Bool-cases, length, take, select, All, All-map, map,
}
use amp_host_go.Base.Perms.{All-perm}
use amp_host_go.Ski.Keyring.{Keyring}
use amp_host_go.Ski.Keyring
use amp_host_go.Ski.Tome.{KeyTome, optimize, merge_tome}
use amp_host_go.Ski.Tome.Naming.{IsNamed, optimize-IsNamed}
use amp_host_go.Ski.Tome.Names.{names}
use amp_host_go.Ski.Tome.Merging.Absorbing.{absorb_all, left_all}
use amp_host_go.Ski.Tome.Merging.Content.{Content}
use amp_host_go.Ski.Tome.Merging.{is_new}
use amp_host_go.Ski.Tome.Merging.Final.{
  names-perm, ready, final, final-TomeInv, final-Content, same_new, made, grown,
}

-- What both tomes are left with.
pub record IsTomeMerged (tome src : KeyTome) (r : KeyTome × KeyTome) : Type 0 where
  pub named : IsNamed r.0.keyrings
  pub same_names :
      Perm
        (names r.0.keyrings)
        (names tome.keyrings ++ select (is_new (names tome.keyrings)) (names src.keyrings))
  pub next_rev : r.0.rev ≡ (tome.rev + 1) % 2 ^ 64
  pub stays : All (λ kr. ltb 0 (length kr.keys) ≡ true) r.1.keyrings
  -- the source Keyrings that are added, and those that are merged, the last one first
  pub us : List Keyring
  pub vs : List Keyring
  pub split : Perm (us ++ vs) src.keyrings
  pub unknown : All (λ kr. is_new (names tome.keyrings) kr.name ≡ true) us
  pub is_known : All (λ kr. is_new (names tome.keyrings) kr.name ≡ false) vs
  pub target : Perm r.0.keyrings (absorb_all vs (ready tome).keyrings ++ map Keyring.optimize us)
  pub source : Perm r.1.keyrings (left_all vs (ready tome).keyrings)

-- If the target's flag is true to its order, MergeTome parts the source Keyrings into those whose
-- name the target did not have and those whose name it had: the target is left with its Keyrings,
-- each merged by MergeKeys, in some order, with those of the second kind that have its name (the
-- first Keyring of that name takes them), and with each of the first kind, optimized; the source is
-- left with what those calls of MergeKeys left in a source Keyring, where that is any key. The
-- target is sorted by name and has the next revision, and its names are its own and the new ones.
pub merge_tome-IsTomeMerged :
    (tome src : KeyTome)
    → (tome.sorted_by_name ≡ true → IsNamed tome.keyrings)
    → IsTomeMerged tome src (merge_tome tome src)
unfolding merge_tome optimize
merge_tome-IsTomeMerged tome src f = elim (Bool-cases (ltb 0 (final tome src f).kr_to_add)) [
  | inl t ↦
      subst (λ k. Merged (k, left)) (sym (if_true _ _ t))
        (record {
          named = (optimize-IsNamed sum).0;
          same_names = Perm.trans (names-perm (optimize-IsNamed sum).1) (grown tome src f);
          next_rev = (final-TomeInv tome src f).same_rev;
          stays = kept;
          us = us;
          vs = c.vs;
          split = c.whole;
          unknown = All-map _ _ us (λ kr h. sym (same_new tome src f kr.name) ∙ h) c.news;
          is_known = All-map _ _ c.vs (λ kr h. sym (same_new tome src f kr.name) ∙ h) c.olds;
          target =
              Perm.trans (optimize-IsNamed sum).1
                (subst (Perm sum.keyrings) (made tome src f) Perm.rfl);
          source = subst (Perm left.keyrings) c.problems left_perm;
        })
  | inr n ↦
      let empty : (final tome src f).kr_to_add ≡ 0 = ground (arith, n) in
      subst (λ k. Merged (k, left)) (sym (if_false _ _ n))
        (record {
          named = (final-TomeInv tome src f).named;
          same_names =
              subst
                (λ l. Perm (names l) (
                  names tome.keyrings
                  ++ select (is_new (names tome.keyrings)) (names src.keyrings)))
                (ap
                    (λ j.
                      (final tome src f).target.keyrings ++ take j (final tome src f).src_keyrings)
                    empty
                  ∙ append-nil _)
                (grown tome src f);
          next_rev = (final-TomeInv tome src f).same_rev;
          stays = kept;
          us = us;
          vs = c.vs;
          split = c.whole;
          unknown = All-map _ _ us (λ kr h. sym (same_new tome src f kr.name) ∙ h) c.news;
          is_known = All-map _ _ c.vs (λ kr h. sym (same_new tome src f kr.name) ∙ h) c.olds;
          target =
              subst (Perm (final tome src f).target.keyrings)
                (sym (
                    ap
                      (λ j.
                        (final tome src f).target.keyrings
                        ++ take j (final tome src f).src_keyrings)
                      empty
                    ∙ append-nil _)
                  ∙ made tome src f)
                Perm.rfl;
          source = subst (Perm left.keyrings) c.problems left_perm;
        })
]
  where
    Merged : KeyTome × KeyTome → Type 0
    Merged r = IsTomeMerged tome src r

    sum : KeyTome
    sum = record (final tome src f).target {
      keyrings =
          (final tome src f).target.keyrings
          ++ take (final tome src f).kr_to_add (final tome src f).src_keyrings;
    }

    left : KeyTome
    left = optimize (record src { keyrings = (final tome src f).problems })

    c :
        Content
          (ready tome).keyrings
          src.keyrings
          (names (ready tome).keyrings)
          (final tome src f).kr_to_add
          (final tome src f)
    c = final-Content tome src f

    us : List Keyring
    us = take (final tome src f).kr_to_add c.os

    left_perm : Perm left.keyrings (final tome src f).problems
    left_perm = (optimize-IsNamed (record src { keyrings = (final tome src f).problems })).1

    kept : All (λ kr. ltb 0 (length kr.keys) ≡ true) left.keyrings
    kept =
        All-perm _ (λ x. hlevel) _ _
          (Perm.symm (optimize-IsNamed (record src { keyrings = (final tome src f).problems })).1)
          (final-TomeInv tome src f).stays
