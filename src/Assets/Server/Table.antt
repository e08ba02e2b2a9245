-- ===== src/Assets/Server/Table.antt =====
-- What the table of assets holds, and that no ID is given twice.
use amp_host_go.Base.{
  ℕ, ◌≡◌, ◌≢◌, ◌↔◌, Bool, true, false, not, ◌||◌, some, List, [], ◌∷◌, if◌then◌else◌, get_elem?,
}
use amp_host_go.Assets.Server.{
  Publication, HttpServer, handle_asset, AssetEvent, starts, enters, closes, asset_step,
}

-- The asset is in the table: it was entered, and has not closed since.
abbrev pub is_served : Publication → Bool
is_served x = if x.is_entered then not x.is_closed || x.was_late else false

abbrev pub ServedAs : HttpServer → ℕ → ℕ → Type 0
ServedAs s asset_id p =
    (x : Publication) × (get_elem? s.publications p ≡ some x)
    × (x.asset_id ≡ asset_id)
    × (is_served x ≡ true)

-- No two assets have one ID.
abbrev pub AreApart : List Publication → Type 0
AreApart xs =
    (p q : ℕ) (x y : Publication)
    → get_elem? xs p ≡ some x
    → get_elem? xs q ≡ some y
    → x.asset_id ≡ y.asset_id
    → p ≡ q

abbrev pub IsLate : Publication → Type 0
IsLate x = x.was_late ≡ true → x.is_closed ≡ true

-- No ID stands twice, and requests are answered with what has been entered and not closed since.
pub record IsServer (s : HttpServer) : Type 0 where
  pub apart : AreApart s.publications
  pub late : (p : ℕ) (x : Publication) → get_elem? s.publications p ≡ some x → IsLate x
  pub served : (asset_id p : ℕ) → (handle_asset asset_id s ≡ some p) ↔ ServedAs s asset_id p

abbrev pub IsNew : ℕ → HttpServer → Type 0
IsNew asset_id s =
    (p : ℕ) (x : Publication) → get_elem? s.publications p ≡ some x → x.asset_id ≢ asset_id

-- Each ID that is generated is new.
unfoldable pub AllNew : List AssetEvent → HttpServer → Type 0
AllNew [] s = Unit {0}
AllNew (starts asset_id ∷ es) s = IsNew asset_id s × AllNew es (asset_step (starts asset_id) s)
AllNew (enters p ∷ es) s = AllNew es (asset_step (enters p) s)
AllNew (closes p ∷ es) s = AllNew es (asset_step (closes p) s)
