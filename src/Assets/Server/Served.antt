-- ===== src/Assets/Server/Served.antt =====
-- Which assets a request is answered with.
use mathlib.Core.Path.{subst}
use mathlib.Core.Bool.{true≢false}
use mathlib.Core.Option.{none-ne-some}
use amp_host_go.Base.{
  ℕ, ◌≡◌, refl, sym, ap, ◌∙◌, Bool, true, false, not, ◌||◌, Option, none, some, List, [], ◌∷◌, ◌==◌,
  if◌then◌else◌, get_elem?, set, Option-cases, Bool-cases, if_true, if_false, inl, inr,
}
use amp_host_go.Base.Assoc.{lookup, insert, delete, lookup-insert, lookup-delete}
use amp_host_go.Assets.Server.{
  Publication, HttpServer, start_asset, enter_asset, close_asset, handle_asset, AssetEvent, starts,
  enters, closes, asset_step, asset_run, no_assets,
}
use amp_host_go.Assets.Server.Table.{IsServer, AllNew}
use amp_host_go.Assets.Server.Entries.{start_asset-IsServer, replaced}

enter_asset-IsServer : (p : ℕ) (s : HttpServer) → IsServer s → IsServer (enter_asset p s)
unfolding enter_asset handle_asset
enter_asset-IsServer p s i = elim (Option-cases (get_elem? s.publications p)) [
  | inl e ↦ subst IsServer (sym (ap out e)) i
  | inr (x, e) ↦ elim (Bool-cases x.is_entered) [
    | inl t ↦ subst IsServer (sym (ap out e ∙ if_true _ _ t)) i
    | inr f ↦
        let y : Publication = record x { is_entered = true; was_late = x.is_closed } in
        subst IsServer (sym (ap out e ∙ if_false _ _ f)) (
          replaced s p x y _ _ i e refl (λ h. h)
            (λ k.
              lookup-insert x.asset_id k p s.assets
              ∙ ap (λ r. if x.asset_id == k then r else lookup k s.assets)
                  (sym (if_true _ _ (shown x.is_closed)))))
  ]
]
  where
    shown : (b : Bool) → not b || b ≡ true
    shown true = refl
    shown false = refl

    out : Option Publication → HttpServer
    out o = elim o [
      | none ↦ s
      | some x ↦ if x.is_entered then s else record s {
        assets = insert x.asset_id p s.assets;
        publications =
            set s.publications p (record x { is_entered = true; was_late = x.is_closed });
      }
    ]

close_asset-IsServer : (p : ℕ) (s : HttpServer) → IsServer s → IsServer (close_asset p s)
unfolding close_asset handle_asset
close_asset-IsServer p s i = elim (Option-cases (get_elem? s.publications p)) [
  | inl e ↦ subst IsServer (sym (ap out e)) i
  | inr (x, e) ↦ elim (Bool-cases x.is_closed) [
    | inl t ↦ subst IsServer (sym (ap out e ∙ if_true _ _ t)) i
    | inr f ↦
        let y : Publication = record x { is_closed = true } in
        let on_time : x.was_late ≡ false = elim (Bool-cases x.was_late) [
          | inl t ↦ absurd (true≢false (sym (i.late p x e t) ∙ f))
          | inr k ↦ k
        ] in
        subst IsServer (sym (ap out e ∙ if_false _ _ f)) (
          replaced s p x y _ _ i e refl (λ h. refl)
            (λ k.
              lookup-delete x.asset_id k s.assets
              ∙ ap (λ r. if x.asset_id == k then r else lookup k s.assets)
                  (sym (if_false _ _ (ap (hidden x.is_entered) on_time ∙ gone x.is_entered)))))
  ]
]
  where
    hidden : Bool → Bool → Bool
    hidden entered was_late = if entered then not true || was_late else false

    gone : (b : Bool) → hidden b false ≡ false
    gone true = refl
    gone false = refl

    out : Option Publication → HttpServer
    out o = elim o [
      | none ↦ s
      | some x ↦ if x.is_closed then s else record {
        assets = delete x.asset_id s.assets;
        publications = set s.publications p (record x { is_closed = true });
        expired = p ∷ s.expired;
      }
    ]

run_from :
    (es : List AssetEvent) (s : HttpServer) → AllNew es s → IsServer s → IsServer (asset_run es s)
unfolding asset_run asset_step AllNew
run_from [] s n i = i
run_from (starts id ∷ es) s n i =
    run_from es (start_asset id s) n.1 (start_asset-IsServer id s i n.0)
run_from (enters p ∷ es) s n i = run_from es (enter_asset p s) n (enter_asset-IsServer p s i)
run_from (closes p ∷ es) s n i = run_from es (close_asset p s) n (close_asset-IsServer p s i)

-- If no ID is generated twice, then, however the calls of PublishAsset and the closing of contexts
-- interleave, a request is answered with exactly the asset of that ID whose entry was made and whose
-- context has not closed since: an asset whose context closed before the entry was made stays.
pub asset_run-IsServer :
    (es : List AssetEvent) → AllNew es no_assets → IsServer (asset_run es no_assets)
unfolding handle_asset lookup
asset_run-IsServer es n = run_from es no_assets n (record {
  apart = λ p q x y a b e. absurd (none-ne-some x a);
  late = λ p x a. absurd (none-ne-some x a);
  served =
      λ asset_id p. (λ h. absurd (none-ne-some p h), λ (x, h, _, _). absurd (none-ne-some x h));
})
