-- ===== src/Space/Serving.antt =====
-- The requests of amp/apps/amp.app.space/app.spaces.db.go: ServeRequest, getSpaceSess, mountSpace,
-- getCell and launchPin. A plSess and a plCell are named by the object that they are, a tag.ID is a
-- number, and 0 the nil ID. What the symbol tables, badger and the contexts answer are parameters.
pub mod Termination
use amp_host_go.Base.{
  ℕ, zero, suc, ◌+◌, ◌≡◌, Bool, true, false, not, ◌&&◌, Option, none, some, List, [], ◌∷◌, ◌==◌,
  if◌then◌else◌, length, drop,
}
use amp_host_go.Base.Assoc.{lookup, insert, delete}
use amp_host_go.Base.Bytes.{Bytes, equal_bytes}

-- `symbol_id` is what a plSess has for a text when it may issue an ID.
pub record Env : Type 0 where
  pub user_id : ℕ
  pub user_name : Bytes
  pub symbol_id : ℕ → Bytes → ℕ
  pub from_string : Bytes → ℕ
  pub to_string : ℕ → Bytes
  pub opens : ℕ → Bytes → Bool
  pub starts_cell : ℕ → Bool
  pub starts_pin : ℕ → Bool

pub record AppInst : Type 0 where
  pub home : Option ℕ
  pub pl_sess : List (ℕ × ℕ)
  pub cells : List (ℕ × List (ℕ × ℕ))
  pub next : ℕ

pub record Request : Type 0 where
  pub path : Option Bytes
  pub target_id : ℕ
  pub pin_target : Option ℕ

pub data ServeError : Type 0 where
  bad_request planet_failure cell_not_found mount_failed start_failed : ServeError

pub data Found : Type 0 where
  found : ℕ → Found
  not_found : ServeError → Found
  nil_home : Found

-- A pin on a cell of a space, an error, or a panic.
pub data Served : Type 0 where
  served : ℕ → ℕ → Served
  serve_fails : ServeError → Served
  serve_panics out_of_fuel : Served

abbrev pub cells_of : ℕ → AppInst → List (ℕ × ℕ)
cells_of pl app = elim (lookup pl app.cells) [ none ↦ [] | some m ↦ m ]

abbrev pub is_empty : Bytes → Bool
is_empty [] = true
is_empty (c ∷ cs) = false

unfoldable pub mount_space : Env → ℕ → Bytes → AppInst → AppInst × Found
mount_space v id name app =
    let db_name = if is_empty name then v.to_string id else name in
    let db_id = if id == 0 then v.from_string db_name else id in
    elim (lookup db_id app.pl_sess) [
      | some pl ↦ (app, found pl)
      | none ↦
          if v.opens db_id db_name
          then (
            record app {
              pl_sess = insert db_id app.next app.pl_sess;
              cells = insert app.next [] app.cells;
              next = app.next + 1;
            },
            found app.next,
          )
          else (app, not_found mount_failed)
    ]

unfoldable pub on_planet_closed : ℕ → AppInst → AppInst
on_planet_closed db_id app = record app { pl_sess = delete db_id app.pl_sess }

unfoldable pub home_planet : Env → AppInst → AppInst × Found
unfolding mount_space
home_planet v app = elim app.home [
  | some pl ↦ (app, found pl)
  | none ↦
      let (app', r) = mount_space v v.user_id v.user_name app in
      elim r [
        | found pl ↦ (record app' { home = some pl }, found pl)
        | not_found err ↦ (app', not_found err)
        | nil_home ↦ (app', nil_home)
      ]
]

-- `~` is 126.
unfoldable pub get_space_sess : Env → Bytes → AppInst → AppInst × Found
unfolding home_planet mount_space
get_space_sess v alias app =
    if equal_bytes alias (126 ∷ [])
    then home_planet v app
    else (if is_empty alias then (app, not_found planet_failure) else elim app.home [
      | none ↦ (app, nil_home)
      | some home ↦
          let space_tag = v.symbol_id home alias in
          if space_tag == 0
          then (app, not_found planet_failure)
          else elim (lookup space_tag app.pl_sess) [
            | some pl ↦ (app, found pl)
            | none ↦ mount_space v space_tag alias app
          ]
    ])

unfoldable pub get_cell : Env → ℕ → ℕ → AppInst → AppInst × Option ℕ
get_cell v pl cell_id app = elim (lookup cell_id (cells_of pl app)) [
  | some cell ↦ (app, some cell)
  | none ↦
      if v.starts_cell cell_id
      then (
        record app {
          cells = insert pl (insert cell_id app.next (cells_of pl app)) app.cells;
          next = app.next + 1;
        },
        some app.next,
      )
      else (app, none)
]

-- launchPin once it has an ID.
unfoldable pub pin_cell : Env → ℕ → ℕ → AppInst → AppInst × Served
unfolding get_cell
pin_cell v pl cell_id app =
    let (app', fetched) = get_cell v pl cell_id app in
    elim fetched [
      | none ↦ (app', serve_fails start_failed)
      | some cell ↦
          if v.starts_pin cell then (app', served pl cell) else (app', serve_fails start_failed)
    ]

-- The names of the space and of the cell; `/` is 47.
abbrev pub split_path : Bytes → Bytes × Bytes
split_path [] = ([], [])
split_path (c ∷ cs) = let rest = split_path cs in if c == 47 then ([], cs) else (c ∷ rest.0, rest.1)

abbrev pub pin_target_id : Request → ℕ
pin_target_id req = elim req.pin_target [ none ↦ 0 | some id ↦ id ]

-- The cell's ID in ServeRequest.
abbrev pub cell_id_of : Env → ℕ → Request → Bytes → Found
cell_id_of v pl req cell_name =
    if req.target_id == 0 && not (is_empty cell_name)
    then (if v.symbol_id pl cell_name == 0
        then not_found planet_failure
        else found (v.symbol_id pl cell_name))
    else (if req.target_id == 0 then not_found cell_not_found else found req.target_id)

-- launchPin calls ServeRequest, which calls launchPin. Fuel: three calls are enough.
unfoldable mutual
  unfolding get_space_sess pin_cell

  pub launch_pin : Env → ℕ → ℕ → ℕ → Request → AppInst → AppInst × Served
  launch_pin v zero pl cell_id req app = (app, out_of_fuel)
  launch_pin v (suc fuel) pl cell_id req app =
      let id = if cell_id == 0 then pin_target_id req else cell_id in
      let again = serve_request v fuel req app in if id == 0 then again else pin_cell v pl id app

  pub serve_request : Env → ℕ → Request → AppInst → AppInst × Served
  serve_request v zero req app = (app, out_of_fuel)
  serve_request v (suc fuel) req app = elim req.path [
    | none ↦ (app, serve_fails bad_request)
    | some path ↦
        let names = split_path (drop 1 path) in
        let (app', space) = get_space_sess v names.0 app in
        if is_empty path then (app, serve_fails bad_request) else elim space [
          | not_found err ↦ (app', serve_fails err)
          | nil_home ↦ (app', serve_panics)
          | found pl ↦ elim (cell_id_of v pl req names.1) [
            | not_found err ↦ (app', serve_fails err)
            | nil_home ↦ (app', serve_panics)
            | found cell_id ↦ launch_pin v fuel pl cell_id req app'
          ]
        ]
  ]
