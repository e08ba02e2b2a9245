-- ===== src/Tests/HostRuns.antt =====
-- Apps, a login and the link to a transport, at small inputs.
use mathlib.Core.Option.{some-injective}
use amp_host_go.Base.{
  ◌^◌, ℕ, ◌≡◌, refl, sym, true, false, Option, none, some, List, [], ◌∷◌, arith, inr, replicate,
  length,
}
use amp_host_go.Base.Assoc.{lookup, insert, delete}
use amp_host_go.Host.Session.{TxMsg, closed}
use amp_host_go.Host.Apps.{AppEvent, asks, ends, app_run, get_app_instance, no_apps}
use amp_host_go.Host.Apps.Tabled.{IsTabled, IsLive, IsRegistry, app_run-IsTabled}
use amp_host_go.Host.LibService.{dim_sz, LibEvent, reallocs, lib_run, new_client, no_buffer, Client}
use amp_host_go.Host.LibService
use amp_host_go.Host.LibService.Replacing.{IsTracked}
use amp_host_go.Host.LibService.Tracked.{lib_run-IsTracked}
use amp_host_go.Host.Login.{LoginAnswers, takes, on_run, new_login}
use amp_host_go.Host.Login.Accepted.{LoginOutcome, on_run-LoginOutcome}
use amp_host_go.Host.Link.{
  LinkEvent, posts, forwards, finishes_out, receives, hands_over, is_done_now, link_run, new_link,
}
use amp_host_go.Host.Link.Fifo.{IsFifo, link_run-IsFifo}

-- Every app is registered under its ID.
abbrev all_apps : ℕ → Option ℕ
all_apps k = some k

all_apps-IsRegistry : IsRegistry all_apps
all_apps-IsRegistry k m e = sym (some-injective _ _ e)

-- An app that closes and is asked for again.
abbrev asked_twice : List AppEvent
asked_twice = asks 7 true (some 100) ∷ asks 7 true none ∷ ends 0 ∷ asks 7 true (some 101) ∷ []

asked_twice_run : app_run all_apps asked_twice no_apps ≡ record {
  active_apps = (7, 1) ∷ [];
  contexts =
      record { spec_id = 7; inst = 100; gone = true }
      ∷ record { spec_id = 7; inst = 101; gone = false }
      ∷ [];
  closed_insts = 100 ∷ [];
}
unfolding app_run get_app_instance lookup insert delete
asked_twice_run = refl

app_run-IsTabled_example :
    IsTabled (app_run all_apps asked_twice no_apps)
    × ((app_id c c' : ℕ)
        → IsLive (app_run all_apps asked_twice no_apps) app_id c
        → IsLive (app_run all_apps asked_twice no_apps) app_id c'
        → c ≡ c')
app_run-IsTabled_example = app_run-IsTabled all_apps asked_twice all_apps-IsRegistry

-- A user with a text and no ID.
abbrev logs_in_by_text : LoginAnswers
logs_in_by_text = record {
  from_token = λ text. 42;
  first = takes 5 (some (record { tag_id = 0; text = 97 ∷ [] }));
  app_ready = true;
  challenge_sent = true;
  second = takes 6 (some tt);
  checkpoint_sent = true;
}

on_run-LoginOutcome_example : LoginOutcome logs_in_by_text (on_run logs_in_by_text new_login)
on_run-LoginOutcome_example = on_run-LoginOutcome logs_in_by_text

abbrev meta_tx : TxMsg
meta_tx = record { genesis_id = 8; context_id = 0; status = closed }

-- Two messages go out, one comes in, and the session ends.
abbrev both_ways : List LinkEvent
both_ways =
    posts meta_tx true
    ∷ posts (record meta_tx { context_id = 3 }) true
    ∷ forwards
    ∷ receives (some meta_tx)
    ∷ hands_over true
    ∷ is_done_now
    ∷ finishes_out
    ∷ []

link_run-IsFifo_example : IsFifo 9 (link_run both_ways (new_link 9))
link_run-IsFifo_example = link_run-IsFifo 9 both_ways (λ e. omega (arith, e))

-- Buffer 0 is grown, moved and freed, and Close is called twice.
abbrev lib_calls : List LibEvent
lib_calls =
    reallocs 0 100
    ∷ reallocs 0 2000
    ∷ reallocs 1 5
    ∷ reallocs 0 0
    ∷ LibService.closes
    ∷ LibService.closes
    ∷ []

lib_calls_run :
    lib_run (2 ^ 40) lib_calls (new_client (replicate 2 no_buffer))
    ≡ some (record {
      buffers = no_buffer ∷ record { ptr = 3; len = 5; cap = 1024 } ∷ [];
      session = record { mallocs = (3, tt) ∷ []; next_ptr = 4; closed = 1; closing = 1 };
    })
unfolding lib_run insert delete dim_sz
lib_calls_run = refl

lib_run-IsTracked_example :
    (c : Client) × (lib_run (2 ^ 40) lib_calls (new_client (replicate 2 no_buffer)) ≡ some c)
    × IsTracked c
    × (length c.buffers ≡ 2)
unfolding dim_sz
lib_run-IsTracked_example = lib_run-IsTracked (2 ^ 40) 2 lib_calls (
  (omega arith, inr (omega arith, omega arith)),
  (
    (omega arith, inr (omega arith, omega arith)),
    (
      (omega arith, inr (omega arith, omega arith)),
      ((omega arith, inr (omega arith, omega arith)), (tt, (tt, tt))),
    ),
  ),
)
