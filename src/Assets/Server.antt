-- ===== src/Assets/Server.antt =====
-- amp/assets/assetServer.go: the table of published assets. A call of PublishAsset takes two steps,
-- the start of the asset's context and the entry into the table, since the context can close in
-- between. An asset ID is a number, and an asset is named by its place among those whose context was
-- started.
pub mod Table
pub mod Entries
pub mod Served
use amp_host_go.Base.{
  ℕ, Bool, true, false, not, ◌&&◌, ◌||◌, Option, none, some, List, [], ◌∷◌, ◌++◌, if◌then◌else◌,
  length, get_elem?, set,
}
use amp_host_go.Base.Assoc.{lookup, insert, delete}

pub record Publication : Type 0 where
  pub asset_id : ℕ
  pub is_entered : Bool
  pub is_closed : Bool
  -- the context had closed when the entry was made
  pub was_late : Bool

pub record HttpServer : Type 0 where
  pub assets : List (ℕ × ℕ)
  pub publications : List Publication
  -- the publications whose OnExpired was called, latest first
  pub expired : List ℕ

-- StartChild succeeds.
unfoldable pub start_asset : ℕ → HttpServer → HttpServer
start_asset asset_id s = record s {
  publications =
      s.publications
      ++ record { asset_id = asset_id; is_entered = false; is_closed = false; was_late = false }
        ∷ [];
}

unfoldable pub enter_asset : ℕ → HttpServer → HttpServer
enter_asset p s = elim (get_elem? s.publications p) [
  | none ↦ s
  | some x ↦ if x.is_entered then s else record s {
    assets = insert x.asset_id p s.assets;
    publications = set s.publications p (record x { is_entered = true; was_late = x.is_closed });
  }
]

-- OnClosing of the asset's context, which runs once. OnExpired is taken to be set.
unfoldable pub close_asset : ℕ → HttpServer → HttpServer
close_asset p s = elim (get_elem? s.publications p) [
  | none ↦ s
  | some x ↦ if x.is_closed then s else record {
    assets = delete x.asset_id s.assets;
    publications = set s.publications p (record x { is_closed = true });
    expired = p ∷ s.expired;
  }
]

-- The asset that a request is answered with; `none` is NotFound.
unfoldable pub handle_asset : ℕ → HttpServer → Option ℕ
handle_asset asset_id s = lookup asset_id s.assets

pub data AssetEvent : Type 0 where
  starts enters closes : ℕ → AssetEvent

unfoldable pub asset_step : AssetEvent → HttpServer → HttpServer
unfolding start_asset enter_asset close_asset
asset_step (starts asset_id) s = start_asset asset_id s
asset_step (enters p) s = enter_asset p s
asset_step (closes p) s = close_asset p s

unfoldable pub asset_run : List AssetEvent → HttpServer → HttpServer
unfolding asset_step
asset_run [] s = s
asset_run (e ∷ es) s = asset_run es (asset_step e s)

abbrev pub no_assets : HttpServer
no_assets = record { assets = []; publications = []; expired = [] }
