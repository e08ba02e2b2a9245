-- ===== src/Tests/AssetRuns.antt =====
-- Published assets and their IDs.
use mathlib.Core.Option.{none-ne-some, some-injective}
use amp_host_go.Base.{
  ℕ, zero, suc, ◌+◌, ◌*◌, ◌/◌, ◌%◌, ◌^◌, ◌<◌, ◌≡◌, refl, ap, true, false, some, List, [], ◌∷◌,
  arith, length, get_elem?,
}
use amp_host_go.Base.Assoc.{lookup, insert, delete}
use amp_host_go.Assets.Ids.{asset_char, generate_asset_id, with_extension}
use amp_host_go.Assets.Ids.Chars.{generate_asset_id-chars}
use amp_host_go.Assets.Server.{
  Publication, AssetEvent, starts, enters, closes, asset_run, asset_step, start_asset, enter_asset,
  close_asset, handle_asset, no_assets,
}
use amp_host_go.Assets.Server.Table.{AllNew, IsServer}
use amp_host_go.Assets.Server.Served.{asset_run-IsServer}

-- The same bits at each call.
abbrev same_bits : ℕ → ℕ
same_bits call = 1 + 2 * 64

twelve_chars :
    generate_asset_id same_bits 12 ≡ 98 ∷ 99 ∷ 97 ∷ 97 ∷ 97 ∷ 97 ∷ 97 ∷ 97 ∷ 97 ∷ 97 ∷ 98 ∷ 99 ∷ []
unfolding generate_asset_id
twelve_chars = refl

-- The content type is "a/b".
named_by_type : with_extension (120 ∷ []) (97 ∷ 47 ∷ 98 ∷ []) ≡ 120 ∷ 46 ∷ 98 ∷ []
unfolding with_extension
named_by_type = refl

generate_asset_id-chars_example :
    (length (generate_asset_id same_bits 12) ≡ 12)
    × ((i : ℕ)
        → i < 12
        → get_elem? (generate_asset_id same_bits 12) i
          ≡ some (asset_char (same_bits (i / 10) / 64 ^ (i % 10))))
generate_asset_id-chars_example = generate_asset_id-chars same_bits 12

-- The second asset closes before its entry is made.
abbrev two_assets : List AssetEvent
two_assets = starts 5 ∷ enters 0 ∷ starts 6 ∷ closes 1 ∷ enters 1 ∷ closes 0 ∷ []

stays : handle_asset 6 (asset_run two_assets no_assets) ≡ some 1
unfolding handle_asset asset_run lookup insert delete
stays = refl

two_assets-AllNew : AllNew two_assets no_assets
unfolding AllNew asset_step enter_asset start_asset close_asset
two_assets-AllNew = (λ p x h. absurd (none-ne-some x h), (six_is_new, tt))
  where
    six_is_new :
        (p : ℕ) (x : Publication)
        → get_elem? {A = Publication}
            (record { asset_id = 5; is_entered = true; is_closed = false; was_late = false } ∷ [])
            p
          ≡ some x
        → x.asset_id ≡ 6
        → ⊥
    six_is_new zero x h e =
        let five : 5 ≡ x.asset_id = ap (λ (y : Publication). y.asset_id) (some-injective _ _ h) in
        omega (arith, five, e)
    six_is_new (suc p) x h e = none-ne-some x h

asset_run-IsServer_example : IsServer (asset_run two_assets no_assets)
asset_run-IsServer_example = asset_run-IsServer two_assets two_assets-AllNew
