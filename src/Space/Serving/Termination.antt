-- ===== src/Space/Serving/Termination.antt =====
-- launchPin and ServeRequest call each other, and return.
use mathlib.Core.Path.{subst}
use amp_host_go.Base.{
  ℕ, suc, ◌+◌, ◌≡◌, ◌≢◌, refl, sym, ap, ◌∙◌, false, not, ◌&&◌, Option, none, some, Option-cases,
  Bool-cases, inl, inr, List, [], arith, ◌==◌, ==_iff, if◌then◌else◌, if_true, if_false, drop,
}
use amp_host_go.Base.Assoc.{lookup, insert, lookup-insert}
use amp_host_go.Base.Bytes.{Bytes}
use amp_host_go.Space.Serving.{
  Env, AppInst, Request, Found, found, not_found, nil_home, Served, served, serve_fails,
  serve_panics, out_of_fuel, cells_of, is_empty, get_space_sess, get_cell, pin_cell, split_path,
  pin_target_id, cell_id_of, launch_pin, serve_request, bad_request, start_failed,
}

-- A request that has been served has a pin on a cell that its space has under an ID that is not nil.
abbrev pub IsServed : AppInst × Served → Type 0
IsServed (app, served pl cell) = (id : ℕ) × (id ≢ 0) × (lookup id (cells_of pl app) ≡ some cell)
IsServed (app, serve_fails err) = Unit {0}
IsServed (app, serve_panics) = Unit {0}
IsServed (app, out_of_fuel) = ⊥

abbrev IsThere : ℕ → ℕ → AppInst × Option ℕ → Type 0
IsThere pl id (app, none) = Unit {0}
IsThere pl id (app, some cell) = lookup id (cells_of pl app) ≡ some cell

get_cell-IsThere : (v : Env) (pl id : ℕ) (app : AppInst) → IsThere pl id (get_cell v pl id app)
unfolding get_cell
get_cell-IsThere v pl id app = elim (Option-cases (lookup id (cells_of pl app))) [
  | inr (cell, e) ↦ subst (IsThere pl id) (sym (ap after e)) e
  | inl n ↦ subst (IsThere pl id) (sym (ap after n)) (elim (Bool-cases (v.starts_cell id)) [
    | inl t ↦ subst (IsThere pl id) (sym (if_true _ _ t)) (
        ap (λ o. lookup id (cells_in o))
          (lookup-insert pl pl (insert id app.next (cells_of pl app)) app.cells
            ∙ if_true _ _ ((==_iff pl pl).1 refl))
        ∙ lookup-insert id id app.next (cells_of pl app)
        ∙ if_true _ _ ((==_iff id id).1 refl))
    | inr f ↦ subst (IsThere pl id) (sym (if_false _ _ f)) tt
  ])
]
  where
    cells_in : Option (List (ℕ × ℕ)) → List (ℕ × ℕ)
    cells_in o = elim o [ none ↦ [] | some m ↦ m ]

    after : Option ℕ → AppInst × Option ℕ
    after o = elim o [
      | some cell ↦ (app, some cell)
      | none ↦
          if v.starts_cell id
          then (
            record app {
              cells = insert pl (insert id app.next (cells_of pl app)) app.cells;
              next = app.next + 1;
            },
            some app.next,
          )
          else (app, none)
    ]

pin_cell-IsServed : (v : Env) (pl id : ℕ) (app : AppInst) → id ≢ 0 → IsServed (pin_cell v pl id app)
unfolding pin_cell
pin_cell-IsServed v pl id app n =
    pinned (get_cell v pl id app).0 (get_cell v pl id app).1 (get_cell-IsThere v pl id app)
  where
    pinned :
        (app' : AppInst) (o : Option ℕ)
        → IsThere pl id (app', o)
        → IsServed (elim o [
          | none ↦ (app', serve_fails start_failed)
          | some cell ↦
              if v.starts_pin cell then (app', served pl cell) else (app', serve_fails start_failed)
        ])
    pinned app' none t = tt
    pinned app' (some cell) t = elim (Bool-cases (v.starts_pin cell)) [
      | inl yes_ ↦ subst IsServed (sym (if_true _ _ yes_)) (id, n, t)
      | inr no_ ↦ subst IsServed (sym (if_false _ _ no_)) tt
    ]

abbrev IsKnown : Found → Type 0
IsKnown (found id) = id ≢ 0
IsKnown (not_found err) = Unit {0}
IsKnown nil_home = Unit {0}

cell_id_of-IsKnown :
    (v : Env) (pl : ℕ) (req : Request) (name : Bytes) → IsKnown (cell_id_of v pl req name)
cell_id_of-IsKnown v pl req name = elim (Bool-cases (req.target_id == 0 && not (is_empty name))) [
  | inl t ↦ subst IsKnown (sym (if_true _ _ t)) (elim (Bool-cases (v.symbol_id pl name == 0)) [
    | inl z ↦ subst IsKnown (sym (if_true _ _ z)) tt
    | inr nz ↦ subst IsKnown (sym (if_false _ _ nz)) (λ e. ground (arith, nz, e))
  ])
  | inr f ↦ subst IsKnown (sym (if_false _ _ f)) (elim (Bool-cases (req.target_id == 0)) [
    | inl z ↦ subst IsKnown (sym (if_true _ _ z)) tt
    | inr nz ↦ subst IsKnown (sym (if_false _ _ nz)) (λ e. ground (arith, nz, e))
  ])
]

launch_known :
    (v : Env) (fuel pl id : ℕ) (req : Request) (app : AppInst)
    → id ≢ 0
    → IsServed (launch_pin v (suc fuel) pl id req app)
unfolding launch_pin
launch_known v fuel pl id req app n =
    let known : (id == 0) ≡ false = ground (arith, n) in
    let same : (if id == 0 then pin_target_id req else id) ≡ id = if_false _ _ known in
    let still : ((if id == 0 then pin_target_id req else id) == 0) ≡ false =
      ap (λ j. j == 0) same ∙ known in
    subst IsServed (sym (if_false _ _ still)) (
      pin_cell-IsServed v pl (if id == 0 then pin_target_id req else id) app
        (λ z. n (sym same ∙ z)))

serve_request-IsServed :
    (v : Env) (fuel : ℕ) (req : Request) (app : AppInst)
    → IsServed (serve_request v (suc (suc fuel)) req app)
unfolding serve_request
serve_request-IsServed v fuel req app = at_path req.path
  where
    in_cell :
        (app' : AppInst) (pl : ℕ) (f : Found)
        → IsKnown f
        → IsServed (elim f [
          | not_found err ↦ (app', serve_fails err)
          | nil_home ↦ (app', serve_panics)
          | found cell_id ↦ launch_pin v (suc fuel) pl cell_id req app'
        ])
    in_cell app' pl (not_found err) k = tt
    in_cell app' pl nil_home k = tt
    in_cell app' pl (found id) k = launch_known v fuel pl id req app' k

    in_space :
        (name : Bytes) (app' : AppInst) (f : Found)
        → IsServed (elim f [
          | not_found err ↦ (app', serve_fails err)
          | nil_home ↦ (app', serve_panics)
          | found pl ↦ elim (cell_id_of v pl req name) [
            | not_found err ↦ (app', serve_fails err)
            | nil_home ↦ (app', serve_panics)
            | found cell_id ↦ launch_pin v (suc fuel) pl cell_id req app'
          ]
        ])
    in_space name app' (not_found err) = tt
    in_space name app' nil_home = tt
    in_space name app' (found pl) =
        in_cell app' pl (cell_id_of v pl req name) (cell_id_of-IsKnown v pl req name)

    at_path :
        (p : Option Bytes)
        → IsServed (elim p [
          | none ↦ (app, serve_fails bad_request)
          | some path ↦
              let names = split_path (drop 1 path) in
              let (app', space) = get_space_sess v names.0 app in
              if is_empty path then (app, serve_fails bad_request) else elim space [
                | not_found err ↦ (app', serve_fails err)
                | nil_home ↦ (app', serve_panics)
                | found pl ↦ elim (cell_id_of v pl req names.1) [
                  | not_found err ↦ (app', serve_fails err)
                  | nil_home ↦ (app', serve_panics)
                  | found cell_id ↦ launch_pin v (suc fuel) pl cell_id req app'
                ]
              ]
        ])
    at_path none = tt
    at_path (some path) =
        let names = split_path (drop 1 path) in
        let r = get_space_sess v names.0 app in
        elim (Bool-cases (is_empty path)) [
          | inl t ↦ subst IsServed (sym (if_true _ _ t)) tt
          | inr f ↦ subst IsServed (sym (if_false _ _ f)) (in_space names.1 r.0 r.1)
        ]

-- launchPin, for a request to a pin or to the app and whatever the symbol tables, the databases and
-- the contexts answer, returns: with three calls at most, since ServeRequest only calls it with an ID.
-- If it returns a pin, the pin is on a cell that its space has mounted under an ID that is not nil.
pub launch_pin-IsServed :
    (v : Env) (fuel pl id : ℕ) (req : Request) (app : AppInst)
    → IsServed (launch_pin v (suc (suc (suc fuel))) pl id req app)
unfolding launch_pin
launch_pin-IsServed v fuel pl id req app =
    elim (Bool-cases ((if id == 0 then pin_target_id req else id) == 0)) [
      | inl z ↦ subst IsServed (sym (if_true _ _ z)) (serve_request-IsServed v fuel req app)
      | inr nz ↦ subst IsServed (sym (if_false _ _ nz)) (
          pin_cell-IsServed v pl (if id == 0 then pin_target_id req else id) app
            (λ e. ground (arith, nz, e)))
    ]
