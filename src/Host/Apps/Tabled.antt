-- ===== src/Host/Apps/Tabled.antt =====
-- The table of apps has exactly the contexts that have not closed.
use mathlib.Core.Path.{subst}
use mathlib.Core.Bool.{true≢false}
use mathlib.Core.Option.{none-ne-some, some-injective}
use amp_host_go.Base.{
  ℕ, ◌≡◌, ◌≢◌, ◌↔◌, refl, sym, ap, ◌∙◌, Bool, true, false, Option, none, some, List, [], ◌∷◌, ◌++◌,
  ◌==◌, if◌then◌else◌, length, get_elem?, set, Option-cases, Bool-cases, if_true, if_false, ==_iff,
  inl, inr, get_elem?-length,
}
use amp_host_go.Base.Elems.{get_elem?-snoc, get_elem?-grown, get_elem?-set_ne, get_elem?-set_same}
use amp_host_go.Base.Assoc.{lookup, insert, delete, lookup-insert, lookup-delete}
use amp_host_go.Host.Apps.{
  AppContext, Apps, AppFound, app_context, no_context, app_failed, app_context_for_app_id,
  get_app_instance, on_app_closing, close_app, AppEvent, asks, ends, app_step, app_run, no_apps,
}

-- The context `c` is of the app and has not closed.
abbrev pub IsLive : Apps → ℕ → ℕ → Type 0
IsLive s app_id c =
    (ctx : AppContext) × (get_elem? s.contexts c ≡ some ctx)
    × (ctx.spec_id ≡ app_id)
    × (ctx.gone ≡ false)

abbrev pub IsTabled : Apps → Type 0
IsTabled s = (app_id c : ℕ) → (lookup app_id s.active_apps ≡ some c) ↔ IsLive s app_id c

-- GetAppByTag gives the module with the ID that is asked for.
abbrev pub IsRegistry : (ℕ → Option ℕ) → Type 0
IsRegistry module_of = (k m : ℕ) → module_of k ≡ some m → m ≡ k

no_apps-IsTabled : IsTabled no_apps
unfolding lookup
no_apps-IsTabled app_id c =
    (λ e. absurd (none-ne-some c e), λ (ctx, e, _, _). absurd (none-ne-some ctx e))

abbrev added : ℕ → ℕ → Apps → Apps
added app_id inst s = record s {
  active_apps = insert app_id (length s.contexts) s.active_apps;
  contexts = s.contexts ++ record { spec_id = app_id; inst = inst; gone = false } ∷ [];
}

added-IsTabled :
    (app_id inst : ℕ) (s : Apps)
    → IsTabled s
    → lookup app_id s.active_apps ≡ none
    → IsTabled (added app_id inst s)
added-IsTabled app_id inst s t absent k c =
    let fresh : AppContext = record { spec_id = app_id; inst = inst; gone = false } in
    let now = lookup-insert app_id k (length s.contexts) s.active_apps in
    elim (Bool-cases (app_id == k)) [
      | inl same ↦
          let e : app_id ≡ k = (==_iff app_id k).0 same in
          (
            λ h.
                let at : length s.contexts ≡ c =
                  some-injective _ _ (sym (now ∙ if_true _ _ same) ∙ h) in
                (
                  fresh,
                  subst (λ i. get_elem? (s.contexts ++ fresh ∷ []) i ≡ some fresh) at
                      (get_elem?-length s.contexts fresh),
                  e,
                  refl,
                ),
            λ (ctx, h, spec, live). elim (get_elem?-snoc s.contexts fresh ctx c h) [
              | inl old ↦ absurd (
                  none-ne-some c (
                    sym absent
                    ∙ ap (λ i. lookup i s.active_apps) e
                    ∙ (t k c).1 (ctx, old, spec, live)))
              | inr (at, _) ↦ now ∙ if_true _ _ same ∙ ap some (sym at)
            ],
          )
      | inr other ↦ (
        λ h.
            let (ctx, at, spec, live) = (t k c).0 (sym (now ∙ if_false _ _ other) ∙ h) in
            (ctx, get_elem?-grown s.contexts (fresh ∷ []) ctx c at, spec, live),
        λ (ctx, h, spec, live). elim (get_elem?-snoc s.contexts fresh ctx c h) [
          | inl old ↦ now ∙ if_false _ _ other ∙ (t k c).1 (ctx, old, spec, live)
          | inr (_, is_fresh) ↦
              let e : app_id ≡ k = ap (λ (x : AppContext). x.spec_id) is_fresh ∙ spec in
              absurd (true≢false (sym ((==_iff app_id k).1 e) ∙ other))
        ],
      )
    ]

asks-IsTabled :
    (module_of : ℕ → Option ℕ) (app_id : ℕ) (auto_create : Bool) (started : Option ℕ) (s : Apps)
    → IsRegistry module_of
    → IsTabled s
    → IsTabled (get_app_instance module_of app_id auto_create started s).0
unfolding get_app_instance app_context_for_app_id
asks-IsTabled module_of app_id auto_create started s r t =
    elim (Option-cases (lookup app_id s.active_apps)) [
      | inr (c, e) ↦ subst Kept (sym (ap out e)) t
      | inl e ↦
          subst Kept (sym (ap out e))
            (made auto_create (module_of app_id) started (λ m h. r app_id m h) e)
    ]
  where
    Kept : Apps × AppFound → Type 0
    Kept p = IsTabled p.0

    make : Bool → Option ℕ → Option ℕ → Apps × AppFound
    make auto spec begun =
        if auto
        then elim spec [
          | none ↦ (s, app_failed)
          | some spec_id ↦ elim begun [
            | none ↦ (s, app_failed)
            | some inst ↦ (
              record s {
                active_apps = insert app_id (length s.contexts) s.active_apps;
                contexts =
                    s.contexts ++ record { spec_id = spec_id; inst = inst; gone = false } ∷ [];
              },
              app_context (length s.contexts),
            )
          ]
        ]
        else (s, no_context)

    out : Option ℕ → Apps × AppFound
    out o = elim o [
      | some c ↦ (s, app_context c)
      | none ↦ make auto_create (module_of app_id) started
    ]

    made :
        (auto : Bool) (spec begun : Option ℕ)
        → ((m : ℕ) → spec ≡ some m → m ≡ app_id)
        → lookup app_id s.active_apps ≡ none
        → Kept (make auto spec begun)
    made false spec begun named absent = t
    made true none begun named absent = t
    made true (some m) none named absent = t
    made true (some m) (some inst) named absent =
        subst (λ i. Kept (make true (some i) (some inst))) (sym (named m refl))
          (added-IsTabled app_id inst s t absent)

abbrev removed : ℕ → AppContext → Apps → Apps
removed c ctx s = record {
  active_apps = delete ctx.spec_id s.active_apps;
  contexts = set s.contexts c (record ctx { gone = true });
  closed_insts = ctx.inst ∷ s.closed_insts;
}

removed-IsTabled :
    (c : ℕ) (ctx : AppContext) (s : Apps)
    → IsTabled s
    → get_elem? s.contexts c ≡ some ctx
    → ctx.gone ≡ false
    → IsTabled (removed c ctx s)
removed-IsTabled c ctx s t at live k c' =
    let now = lookup-delete ctx.spec_id k s.active_apps in
    let mine : lookup ctx.spec_id s.active_apps ≡ some c =
      (t ctx.spec_id c).1 (ctx, at, refl, live) in
    let closed : AppContext = record ctx { gone = true } in
    elim (Bool-cases (ctx.spec_id == k)) [
      | inl same ↦
          let e : ctx.spec_id ≡ k = (==_iff ctx.spec_id k).0 same in
          (
            λ h. absurd (none-ne-some c' (sym (now ∙ if_true _ _ same) ∙ h)),
            λ (x, h, spec, unclosed). elim (Bool-cases (c == c')) [
              | inl t' ↦ absurd (ended x h unclosed ((==_iff c c').0 t'))
              | inr f ↦
                  let other : lookup k s.active_apps ≡ some c' = (t k c').1 (
                    x,
                    sym (get_elem?-set_ne s.contexts c c' closed (apart f)) ∙ h,
                    spec,
                    unclosed,
                  ) in
                  absurd (
                    apart f
                      (some-injective _ _ (sym mine ∙ ap (λ i. lookup i s.active_apps) e ∙ other)))
            ],
          )
      | inr differs ↦ (
        λ h.
            let (x, h', spec, unclosed) = (t k c').0 (sym (now ∙ if_false _ _ differs) ∙ h) in
            let n : c ≢ c' = λ e. true≢false (
              sym (
                (==_iff ctx.spec_id k).1 (
                  ap (λ (y : AppContext). y.spec_id)
                    (some-injective _ _ (sym at ∙ ap (get_elem? s.contexts) e ∙ h'))
                  ∙ spec))
              ∙ differs) in
            (x, get_elem?-set_ne s.contexts c c' closed n ∙ h', spec, unclosed),
        λ (x, h, spec, unclosed). elim (Bool-cases (c == c')) [
          | inl t' ↦ absurd (ended x h unclosed ((==_iff c c').0 t'))
          | inr f ↦
              now
              ∙ if_false _ _ differs
              ∙ (t k c').1
                  (x, sym (get_elem?-set_ne s.contexts c c' closed (apart f)) ∙ h, spec, unclosed)
        ],
      )
    ]
  where
    apart : (c == c') ≡ false → c ≢ c'
    apart f e = true≢false (sym ((==_iff c c').1 e) ∙ f)

    ended :
        (x : AppContext)
        → get_elem? (set s.contexts c (record ctx { gone = true })) c' ≡ some x
        → x.gone ≡ false
        → c ≡ c'
        → ⊥
    ended x h unclosed e =
        let is_closed : record ctx { gone = true } ≡ x = some-injective _ _ (
          sym (get_elem?-set_same s.contexts c ctx (record ctx { gone = true }) at)
          ∙ ap (get_elem? (set s.contexts c (record ctx { gone = true }))) e
          ∙ h) in
        true≢false (ap (λ (y : AppContext). y.gone) is_closed ∙ unclosed)

ends-IsTabled : (c : ℕ) (s : Apps) → IsTabled s → IsTabled (close_app c s)
unfolding close_app on_app_closing
ends-IsTabled c s t = elim (Option-cases (get_elem? s.contexts c)) [
  | inl e ↦ subst IsTabled (sym (ap out e)) t
  | inr (ctx, e) ↦ elim (Bool-cases ctx.gone) [
    | inl g ↦ subst IsTabled (sym (ap out e ∙ if_true _ _ g)) t
    | inr live ↦
        subst IsTabled (sym (ap out e ∙ if_false _ _ live)) (removed-IsTabled c ctx s t e live)
  ]
]
  where
    out : Option AppContext → Apps
    out o = elim o [ none ↦ s | some ctx ↦ if ctx.gone then s else removed c ctx s ]

run_from :
    (module_of : ℕ → Option ℕ) (es : List AppEvent) (s : Apps)
    → IsRegistry module_of
    → IsTabled s
    → IsTabled (app_run module_of es s)
unfolding app_run app_step
run_from module_of [] s r t = t
run_from module_of (asks k auto_create started ∷ es) s r t =
    run_from module_of es _ r (asks-IsTabled module_of k auto_create started s r t)
run_from module_of (ends c ∷ es) s r t = run_from module_of es _ r (ends-IsTabled c s t)

-- If GetAppByTag gives the module of the ID that is asked for, then, however requests for apps and
-- the closing of their contexts interleave, the table has under each ID the context of that app
-- that has not closed, if there is one, and there is never more than one.
pub app_run-IsTabled :
    (module_of : ℕ → Option ℕ) (es : List AppEvent)
    → IsRegistry module_of
    → IsTabled (app_run module_of es no_apps)
      × ((app_id c c' : ℕ)
          → IsLive (app_run module_of es no_apps) app_id c
          → IsLive (app_run module_of es no_apps) app_id c'
          → c ≡ c')
app_run-IsTabled module_of es r =
    let t = run_from module_of es no_apps r no_apps-IsTabled in
    (t, λ app_id c c' a b. some-injective _ _ (sym ((t app_id c).1 a) ∙ (t app_id c').1 b))
