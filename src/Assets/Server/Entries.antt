-- ===== src/Assets/Server/Entries.antt =====
-- What a new publication and the replacement of one by another leave.
use mathlib.Core.Path.{subst}
use mathlib.Core.Bool.{true≢false}
use mathlib.Core.Option.{none-ne-some, some-injective}
use amp_host_go.Base.{
  ℕ, ◌≡◌, ◌≢◌, ◌↔◌, refl, sym, ap, ◌∙◌, true, false, none, some, List, [], ◌∷◌, ◌==◌, if◌then◌else◌,
  get_elem?, set, Bool-cases, if_true, if_false, ==_iff, inl, inr,
}
use amp_host_go.Base.Elems.{get_elem?-snoc, get_elem?-grown, get_elem?-set_ne, get_elem?-set_same}
use amp_host_go.Base.Assoc.{lookup}
use amp_host_go.Assets.Server.{Publication, HttpServer, start_asset, handle_asset}
use amp_host_go.Assets.Server.Table.{is_served, ServedAs, IsLate, IsServer, IsNew}

pub start_asset-IsServer :
    (id : ℕ) (s : HttpServer) → IsServer s → IsNew id s → IsServer (start_asset id s)
unfolding start_asset handle_asset
start_asset-IsServer id s i n = record {
  apart = λ p q x y a b e. elim (get_elem?-snoc s.publications fresh x p a) [
    | inl h ↦ elim (get_elem?-snoc s.publications fresh y q b) [
      | inl k ↦ i.apart p q x y h k e
      | inr (_, k) ↦ absurd (n p x h (e ∙ sym (ap (λ (z : Publication). z.asset_id) k)))
    ]
    | inr (h, is_x) ↦ elim (get_elem?-snoc s.publications fresh y q b) [
      | inl k ↦ absurd (n q y k (sym e ∙ sym (ap (λ (z : Publication). z.asset_id) is_x)))
      | inr (k, _) ↦ h ∙ sym k
    ]
  ];
  late = λ p x a. elim (get_elem?-snoc s.publications fresh x p a) [
    | inl h ↦ i.late p x h
    | inr (_, k) ↦ subst IsLate k (λ e. absurd (true≢false (sym e)))
  ];
  served = λ asset_id p. (
    λ h.
        let (x, at, name, ok) = (i.served asset_id p).0 h in
        (x, get_elem?-grown s.publications (fresh ∷ []) x p at, name, ok),
    λ (x, at, name, ok). elim (get_elem?-snoc s.publications fresh x p at) [
      | inl h ↦ (i.served asset_id p).1 (x, h, name, ok)
      | inr (_, k) ↦ absurd (true≢false (sym ok ∙ ap is_served (sym k)))
    ],
  );
}
  where
    fresh : Publication
    fresh = record { asset_id = id; is_entered = false; is_closed = false; was_late = false }

-- A publication is replaced by one of its ID.
pub replaced :
    (s : HttpServer) (p : ℕ) (x y : Publication) (assets : List (ℕ × ℕ)) (expired : List ℕ)
    → IsServer s
    → get_elem? s.publications p ≡ some x
    → x.asset_id ≡ y.asset_id
    → IsLate y
    → ((asset_id : ℕ)
        → lookup asset_id assets ≡ (
            if x.asset_id == asset_id
            then (if is_served y then some p else none)
            else lookup asset_id s.assets))
    → IsServer
        (record { assets = assets; publications = set s.publications p y; expired = expired })
unfolding handle_asset
replaced s p x y assets expired i at name lateness now = record {
  apart = λ q r u v a b e.
      i.apart q r (was u q a) (was v r b) (before u q a) (before v r b)
        (same u q a ∙ e ∙ sym (same v r b));
  late = λ q u a. elim (Bool-cases (p == q)) [
    | inl t ↦
        let e : p ≡ q = (==_iff p q).0 t in
        subst IsLate
          (some-injective _ _ (
            sym (get_elem?-set_same s.publications p x y at)
            ∙ ap (get_elem? (set s.publications p y)) e
            ∙ a))
          lateness
    | inr f ↦ i.late q u (
        sym (get_elem?-set_ne s.publications p q y (λ e. true≢false (sym ((==_iff p q).1 e) ∙ f)))
        ∙ a)
  ];
  served = λ asset_id q. elim (Bool-cases (p == q)) [
    | inl t ↦
        subst (λ j. (lookup asset_id assets ≡ some j) ↔ ServedAs after asset_id j)
          ((==_iff p q).0 t) (here asset_id)
    | inr f ↦ there asset_id q (λ e. true≢false (sym ((==_iff p q).1 e) ∙ f))
  ];
}
  where
    after : HttpServer
    after = record { assets = assets; publications = set s.publications p y; expired = expired }

    Before : Publication → ℕ → Type 0
    Before u q =
        (z : Publication) × (get_elem? s.publications q ≡ some z) × (z.asset_id ≡ u.asset_id)

    old : (u : Publication) (q : ℕ) → get_elem? (set s.publications p y) q ≡ some u → Before u q
    old u q a = elim (Bool-cases (p == q)) [
      | inl t ↦
          let e : p ≡ q = (==_iff p q).0 t in
          let is_u : y ≡ u = some-injective _ _ (
            sym (get_elem?-set_same s.publications p x y at)
            ∙ ap (get_elem? (set s.publications p y)) e
            ∙ a) in
          (
            x,
            subst (λ j. get_elem? s.publications j ≡ some x) e at,
            name ∙ ap (λ (z : Publication). z.asset_id) is_u,
          )
      | inr f ↦ (
        u,
        sym (get_elem?-set_ne s.publications p q y (λ e. true≢false (sym ((==_iff p q).1 e) ∙ f)))
            ∙ a,
        refl,
      )
    ]

    was : (u : Publication) (q : ℕ) → get_elem? (set s.publications p y) q ≡ some u → Publication
    was u q a = (old u q a).0

    before :
        (u : Publication) (q : ℕ) (a : get_elem? (set s.publications p y) q ≡ some u)
        → get_elem? s.publications q ≡ some (was u q a)
    before u q a = (old u q a).1

    same :
        (u : Publication) (q : ℕ) (a : get_elem? (set s.publications p y) q ≡ some u)
        → (was u q a).asset_id ≡ u.asset_id
    same u q a = (old u q a).2

    here : (asset_id : ℕ) → (lookup asset_id assets ≡ some p) ↔ ServedAs after asset_id p
    here asset_id = (
      λ h. elim (Bool-cases (x.asset_id == asset_id)) [
        | inl t ↦ elim (Bool-cases (is_served y)) [
          | inl k ↦ (y, get_elem?-set_same s.publications p x y at, sym name ∙ (==_iff _ _).0 t, k)
          | inr k ↦
              absurd (none-ne-some p (sym (now asset_id ∙ if_true _ _ t ∙ if_false _ _ k) ∙ h))
        ]
        | inr f ↦
            let (z, h', e, ok) =
              (i.served asset_id p).0 (sym (now asset_id ∙ if_false _ _ f) ∙ h) in
            absurd (
              true≢false (
                sym (
                  (==_iff _ _).1
                    (ap (λ (w : Publication). w.asset_id) (some-injective _ _ (sym at ∙ h')) ∙ e))
                ∙ f))
      ],
      λ (z, h, e, ok).
          let is_z : y ≡ z =
            some-injective _ _ (sym (get_elem?-set_same s.publications p x y at) ∙ h) in
          let t : (x.asset_id == asset_id) ≡ true =
            (==_iff _ _).1 (name ∙ ap (λ (w : Publication). w.asset_id) is_z ∙ e) in
          now asset_id ∙ if_true _ _ t ∙ if_true _ _ (ap is_served is_z ∙ ok),
    )

    there : (asset_id q : ℕ) → p ≢ q → (lookup asset_id assets ≡ some q) ↔ ServedAs after asset_id q
    there asset_id q n = (
      λ h. elim (Bool-cases (x.asset_id == asset_id)) [
        | inl t ↦ elim (Bool-cases (is_served y)) [
          | inl k ↦
              absurd
                (n (some-injective _ _ (sym (now asset_id ∙ if_true _ _ t ∙ if_true _ _ k) ∙ h)))
          | inr k ↦
              absurd (none-ne-some q (sym (now asset_id ∙ if_true _ _ t ∙ if_false _ _ k) ∙ h))
        ]
        | inr f ↦
            let (z, h', e, ok) =
              (i.served asset_id q).0 (sym (now asset_id ∙ if_false _ _ f) ∙ h) in
            (z, get_elem?-set_ne s.publications p q y n ∙ h', e, ok)
      ],
      λ (z, h, e, ok).
          let h' : get_elem? s.publications q ≡ some z =
            sym (get_elem?-set_ne s.publications p q y n) ∙ h in
          elim (Bool-cases (x.asset_id == asset_id)) [
            | inl t ↦ absurd (n (i.apart p q x z at h' ((==_iff _ _).0 t ∙ sym e)))
            | inr f ↦ now asset_id ∙ if_false _ _ f ∙ (i.served asset_id q).1 (z, h', e, ok)
          ],
    )
