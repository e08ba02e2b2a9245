-- ===== src/Host/Apps.antt =====
-- amp/host/host.go: the apps of a session, from appContextForAppID to onAppClosing. Both hold
-- activeAppsMu, so each is one step. An app ID is a number, a context is named by its place among
-- those that were ever made. What the registry, StartChild and NewAppInstance give are arguments.
pub mod Tabled
use amp_host_go.Base.{
  ℕ, Bool, true, false, Option, none, some, List, [], ◌∷◌, ◌++◌, if◌then◌else◌, length, get_elem?,
  set,
}
use amp_host_go.Base.Assoc.{lookup, insert, delete}

pub record AppContext : Type 0 where
  -- module.AppSpec.ID
  pub spec_id : ℕ
  pub inst : ℕ
  -- OnClosing has run
  pub gone : Bool

pub record Apps : Type 0 where
  pub active_apps : List (ℕ × ℕ)
  pub contexts : List AppContext
  -- the instances whose OnClosing was called, latest first
  pub closed_insts : List ℕ

-- A context, a nil context with no error, or an error.
pub data AppFound : Type 0 where
  app_context : ℕ → AppFound
  no_context app_failed : AppFound

-- `module_of` gives the ID of the module that GetAppByTag finds, and `started` the instance if
-- StartChild succeeds.
unfoldable pub app_context_for_app_id :
    (ℕ → Option ℕ) → ℕ → Bool → Option ℕ → Apps → Apps × AppFound
app_context_for_app_id module_of app_id auto_create started s = elim (lookup app_id s.active_apps) [
  | some c ↦ (s, app_context c)
  | none ↦
      if auto_create
      then elim (module_of app_id) [
        | none ↦ (s, app_failed)
        | some spec_id ↦ elim started [
          | none ↦ (s, app_failed)
          | some inst ↦ (
            record s {
              active_apps = insert app_id (length s.contexts) s.active_apps;
              contexts = s.contexts ++ record { spec_id = spec_id; inst = inst; gone = false } ∷ [];
            },
            app_context (length s.contexts),
          )
        ]
      ]
      else (s, no_context)
]

-- GetAppInstance dereferences a nil context.
pub data InstFound : Type 0 where
  app_instance : ℕ → InstFound
  instance_failed instance_panics : InstFound

unfoldable pub instance_of : Apps × AppFound → InstFound
instance_of (s, app_context c) = elim (get_elem? s.contexts c) [
  | none ↦ instance_panics
  | some ctx ↦ app_instance ctx.inst
]
instance_of (s, no_context) = instance_panics
instance_of (s, app_failed) = instance_failed

unfoldable pub get_app_instance : (ℕ → Option ℕ) → ℕ → Bool → Option ℕ → Apps → Apps × InstFound
unfolding app_context_for_app_id instance_of
get_app_instance module_of app_id auto_create started s =
    let found = app_context_for_app_id module_of app_id auto_create started s in
    (found.0, instance_of found)

-- onAppClosing of the context.
unfoldable pub on_app_closing : AppContext → List (ℕ × ℕ) → List (ℕ × ℕ)
on_app_closing ctx active_apps = delete ctx.spec_id active_apps

-- OnClosing of the task of a context, which runs once.
unfoldable pub close_app : ℕ → Apps → Apps
unfolding on_app_closing
close_app c s = elim (get_elem? s.contexts c) [
  | none ↦ s
  | some ctx ↦ if ctx.gone then s else record {
    active_apps = on_app_closing ctx s.active_apps;
    contexts = set s.contexts c (record ctx { gone = true });
    closed_insts = ctx.inst ∷ s.closed_insts;
  }
]

pub data AppEvent : Type 0 where
  -- an app is asked for, by its ID
  asks : ℕ → Bool → Option ℕ → AppEvent
  -- a context closes, for example when it is idle
  ends : ℕ → AppEvent

unfoldable pub app_step : (ℕ → Option ℕ) → AppEvent → Apps → Apps
unfolding get_app_instance close_app
app_step module_of (asks app_id auto_create started) s =
    (get_app_instance module_of app_id auto_create started s).0
app_step module_of (ends c) s = close_app c s

unfoldable pub app_run : (ℕ → Option ℕ) → List AppEvent → Apps → Apps
unfolding app_step
app_run module_of [] s = s
app_run module_of (e ∷ es) s = app_run module_of es (app_step module_of e s)

abbrev pub no_apps : Apps
no_apps = record { active_apps = []; contexts = []; closed_insts = [] }
