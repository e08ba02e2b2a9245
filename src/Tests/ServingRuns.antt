-- ===== src/Tests/ServingRuns.antt =====
-- Requests to the space app, and the theorem of Space.Serving at one.
use amp_host_go.Base.{◌≡◌, refl, true, none, some, [], ◌∷◌}
use amp_host_go.Base.Assoc.{lookup, insert}
use amp_host_go.Base.Bytes.{equal_bytes}
use amp_host_go.Space.Serving.{
  Env, AppInst, Request, served, serve_panics, launch_pin, serve_request,
}
use amp_host_go.Space.Serving.Termination.{IsServed, launch_pin-IsServed}

abbrev answers : Env
answers = record {
  user_id = 77;
  user_name = 117 ∷ [];
  symbol_id = λ pl text. 4000;
  from_string = λ text. 1;
  to_string = λ id. id ∷ [];
  opens = λ id name. true;
  starts_cell = λ id. true;
  starts_pin = λ cell. true;
}

abbrev fresh_app : AppInst
fresh_app = record { home = none; pl_sess = []; cells = []; next = 10 }

-- `/~/a`, with no target.
abbrev home_request : Request
home_request = record { path = some (47 ∷ 126 ∷ 47 ∷ 97 ∷ []); target_id = 0; pin_target = none }

-- `/b/a`.
abbrev other_request : Request
other_request = record { path = some (47 ∷ 98 ∷ 47 ∷ 97 ∷ []); target_id = 0; pin_target = none }

serve_request-home : (serve_request answers 2 home_request fresh_app).1 ≡ served 10 11
unfolding serve_request launch_pin lookup insert equal_bytes
serve_request-home = refl

-- The home space is not mounted yet.
serve_request-nil_home : (serve_request answers 2 other_request fresh_app).1 ≡ serve_panics
unfolding serve_request equal_bytes
serve_request-nil_home = refl

launch_pin-IsServed_example : IsServed (launch_pin answers 3 10 0 home_request fresh_app)
launch_pin-IsServed_example = launch_pin-IsServed answers 0 10 0 home_request fresh_app
