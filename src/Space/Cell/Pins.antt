-- ===== src/Space/Cell/Pins.antt =====
-- removeSync, which puts the last pin in the place of the one that it removes.
use mathlib.Core.Path.{subst}
use mathlib.Core.List.Perm
use mathlib.Core.Bool.{true≢false}
use amp_host_go.Base.{
  ℕ, sym, ◌∙◌, Perm, Bool-cases, inl, inr, List, [], ◌∷◌, ◌==◌, ==_iff, if_true, if_false, In,
}
use amp_host_go.Space.Cell.{last_of, without_last, fill_gap, remove_sync}

last_of-Perm : (d : ℕ) (ps : List ℕ) → Perm (d ∷ ps) (last_of d ps ∷ without_last d ps)
last_of-Perm d [] = Perm.rfl
last_of-Perm d (p ∷ ps) =
    Perm.trans (Perm.cons d (last_of-Perm p ps)) (Perm.swap (last_of p ps) d (without_last p ps))

fill_gap-Perm : (ps : List ℕ) → Perm ps (fill_gap ps)
fill_gap-Perm [] = Perm.rfl
fill_gap-Perm (p ∷ ps) = last_of-Perm p ps

-- removeSync takes exactly one occurrence of a pin that is maintained out of a cell's pins, and
-- keeps all others.
pub remove_sync-Perm : (pin : ℕ) (ps : List ℕ) → In pin ps → Perm ps (pin ∷ remove_sync pin ps)
unfolding remove_sync
remove_sync-Perm pin [] h = absurd h
remove_sync-Perm pin (p ∷ ps) h = elim (Bool-cases (p == pin)) [
  | inl t ↦
      subst (λ l. Perm (p ∷ ps) (pin ∷ l)) (sym (if_true _ _ t))
        (subst (λ q. Perm (p ∷ ps) (q ∷ fill_gap ps)) ((==_iff p pin).0 t)
          (Perm.cons p (fill_gap-Perm ps)))
  | inr f ↦
      subst (λ l. Perm (p ∷ ps) (pin ∷ l)) (sym (if_false _ _ f))
        (elim h [
          | inl e ↦ absurd (true≢false (sym ((==_iff p pin).1 (sym e)) ∙ f))
          | inr i ↦
              Perm.trans (Perm.cons p (remove_sync-Perm pin ps i))
                (Perm.swap pin p (remove_sync pin ps))
        ])
]
