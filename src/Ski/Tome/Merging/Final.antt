-- ===== src/Ski/Tome/Merging/Final.antt =====
-- The end of MergeTome's loop.
use mathlib.Core.Path.{subst}
use mathlib.Core.List.{append-nil}
use mathlib.Core.List.Perm
use amp_host_go.Base.{
  ◌+◌, ◌%◌, ◌^◌, ◌≡◌, refl, sym, ap, ◌∙◌, Bool, true, not, List, [], ◌∷◌, ◌++◌, inl, inr, Perm,
  arith, ltb, if◌then◌else◌, if_true, if_false, Bool-cases, length, take, take_all, select, map,
}
use amp_host_go.Base.Perms.{length-perm, select-perm, select-All}
use amp_host_go.Base.Bytes.{Bytes, equal_bytes}
use amp_host_go.Ski.Keyring.{Keyring}
use amp_host_go.Ski.Keyring
use amp_host_go.Ski.Tome.{KeyTome, TomeState, optimize, merge_tome_loop}
use amp_host_go.Ski.Tome.Naming.{IsNamed, optimize-IsNamed}
use amp_host_go.Ski.Tome.Names.{names, knows, map-take, length-map_of}
use amp_host_go.Ski.Tome.Merging.Absorbing.{absorb_all, left_all}
use amp_host_go.Ski.Tome.Merging.Content.{Content, merge_tome_loop-Content}
use amp_host_go.Ski.Tome.Merging.{is_new, TomeInv, merge_tome_loop-TomeInv}

knows-select :
    (ms : List Bytes) (n : Bytes) → knows ms n ≡ ltb 0 (length (select (λ m. equal_bytes m n) ms))
unfolding knows
knows-select [] n = ground arith
knows-select (m ∷ ms) n = ground (arith, knows-select ms n)

knows-perm : (ms ls : List Bytes) (n : Bytes) → Perm ms ls → knows ms n ≡ knows ls n
knows-perm ms ls n p =
    knows-select ms n
    ∙ ap (ltb 0) (length-perm (select-perm (λ m. equal_bytes m n) p))
    ∙ sym (knows-select ls n)

select_ext :
    (p q : Bytes → Bool) (xs : List Bytes) → ((x : Bytes) → p x ≡ q x) → select p xs ≡ select q xs
select_ext p q [] h = refl
select_ext p q (x ∷ xs) h = rw (h x, select_ext p q xs h) refl

names-append : (a b : List Keyring) → names (a ++ b) ≡ names a ++ names b
names-append [] b = refl
names-append (x ∷ a) b = ap (λ l. x.name ∷ l) (names-append a b)

pub names-perm : {a b : List Keyring} → Perm a b → Perm (names a) (names b)
names-perm p = Perm.map (λ (kr : Keyring). kr.name) p

-- The target with its new revision, in order.
abbrev pub ready : KeyTome → KeyTome
ready tome =
    let bumped = record tome { rev = (tome.rev + 1) % 2 ^ 64 } in
    if bumped.sorted_by_name then bumped else optimize bumped

abbrev IsReady : KeyTome → KeyTome → Type 0
IsReady tome t =
    IsNamed t.keyrings
    × (t.sorted_by_name ≡ true)
    × (t.rev ≡ (tome.rev + 1) % 2 ^ 64)
    × Perm (names t.keyrings) (names tome.keyrings)

ready-IsReady :
    (tome : KeyTome)
    → (tome.sorted_by_name ≡ true → IsNamed tome.keyrings)
    → IsReady tome (ready tome)
unfolding optimize
ready-IsReady tome f = elim (Bool-cases tome.sorted_by_name) [
  | inl t ↦ subst (IsReady tome) (sym (if_true _ _ t)) (f t, t, refl, Perm.rfl)
  | inr n ↦
      let (o, p) = optimize-IsNamed (record tome { rev = (tome.rev + 1) % 2 ^ 64 }) in
      subst (IsReady tome) (sym (if_false _ _ n)) (o, refl, refl, names-perm p)
]

module _ (tome src : KeyTome) (f : tome.sorted_by_name ≡ true → IsNamed tome.keyrings) where
  abbrev pub final : TomeState
  final = merge_tome_loop (length src.keyrings) 0 (record {
    kr_to_add = length src.keyrings;
    src_keyrings = src.keyrings;
    problems = [];
    target = ready tome;
  })

  start-TomeInv :
      TomeInv
        (names (ready tome).keyrings)
        (names src.keyrings)
        ((tome.rev + 1) % 2 ^ 64)
        0
        (record {
          kr_to_add = length src.keyrings;
          src_keyrings = src.keyrings;
          problems = [];
          target = ready tome;
        })
  start-TomeInv =
      let (named, flag, rev, _) = ready-IsReady tome f in
      let whole : take (length src.keyrings) (names src.keyrings) ≡ names src.keyrings =
        take_all (length src.keyrings) (names src.keyrings)
          (omega (arith, length-map_of (λ (kr : Keyring). kr.name) src.keyrings)) in
      (record {
        index = omega arith;
        bound = omega arith;
        same_names = refl;
        named = named;
        flag = flag;
        same_rev = rev;
        fresh = tt;
        kept =
            subst
              (λ l.
                Perm (select (is_new (names (ready tome).keyrings)) l)
                  (select (is_new (names (ready tome).keyrings)) (names src.keyrings)))
              (sym whole) Perm.rfl;
        stays = tt;
      })

  pub final-TomeInv :
      TomeInv
        (names (ready tome).keyrings)
        (names src.keyrings)
        ((tome.rev + 1) % 2 ^ 64)
        final.kr_to_add
        final
  final-TomeInv =
      merge_tome_loop-TomeInv (names (ready tome).keyrings) (names src.keyrings) _
        (length src.keyrings) 0 _ start-TomeInv (omega arith)

  pub final-Content :
      Content (ready tome).keyrings src.keyrings (names (ready tome).keyrings) final.kr_to_add final
  unfolding absorb_all left_all
  final-Content =
      let whole : take (length src.keyrings) src.keyrings ≡ src.keyrings =
        take_all (length src.keyrings) src.keyrings (omega arith) in
      merge_tome_loop-Content (ready tome).keyrings src.keyrings (names (ready tome).keyrings)
        (names src.keyrings) ((tome.rev + 1) % 2 ^ 64) (length src.keyrings) 0 _ start-TomeInv
        (record {
          os = src.keyrings;
          vs = [];
          whole = subst (λ l. Perm l src.keyrings) (sym (append-nil _ ∙ whole)) Perm.rfl;
          done = refl;
          ahead = λ j h. refl;
          news = tt;
          olds = tt;
          target = refl;
          problems = refl;
        })
        (omega arith)

  pub same_new :
      (n : Bytes) → is_new (names (ready tome).keyrings) n ≡ is_new (names tome.keyrings) n
  same_new n =
      ap not
        (knows-perm (names (ready tome).keyrings) (names tome.keyrings) n (ready-IsReady tome f).3)

  pub made :
      final.target.keyrings ++ take final.kr_to_add final.src_keyrings
      ≡ absorb_all final-Content.vs (ready tome).keyrings
        ++ map Keyring.optimize (take final.kr_to_add final-Content.os)
  made =
      ap (λ l. l ++ take final.kr_to_add final.src_keyrings) final-Content.target
      ∙ ap (λ l. absorb_all final-Content.vs (ready tome).keyrings ++ l) final-Content.done

  added :
      Perm
        (take final.kr_to_add (names final.src_keyrings))
        (select (is_new (names tome.keyrings)) (names src.keyrings))
  added =
      let v = final-TomeInv in
      let known = names (ready tome).keyrings in
      let p = (ready-IsReady tome f).3 in
      let same =
        select_ext (is_new known) (is_new (names tome.keyrings)) (names src.keyrings)
          (λ n. ap not (knows-perm known (names tome.keyrings) n p)) in
      subst (λ l. Perm (take final.kr_to_add (names final.src_keyrings)) l) same
        (subst (λ l. Perm l (select (is_new known) (names src.keyrings)))
          (select-All (is_new known) _ v.fresh) v.kept)

  pub grown :
      Perm
        (names (final.target.keyrings ++ take final.kr_to_add final.src_keyrings))
        (names tome.keyrings ++ select (is_new (names tome.keyrings)) (names src.keyrings))
  grown =
      subst
        (λ l.
          Perm l
            (names tome.keyrings ++ select (is_new (names tome.keyrings)) (names src.keyrings)))
        (sym (
          names-append final.target.keyrings (take final.kr_to_add final.src_keyrings)
          ∙ ap (λ l. names final.target.keyrings ++ l)
              (map-take (λ (kr : Keyring). kr.name) final.kr_to_add final.src_keyrings)))
        (Perm.append
          (subst (λ l. Perm l (names tome.keyrings)) (sym final-TomeInv.same_names)
            (ready-IsReady tome f).3)
          added)
