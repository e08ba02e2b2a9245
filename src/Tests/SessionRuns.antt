-- ===== src/Tests/SessionRuns.antt =====
-- A session with one open request: runs of its steps, and the theorems of Host at it.
use mathlib.Core.Bool.{true≢false}
use amp_host_go.Base.{sym, ℕ, ◌≡◌, refl, inl, true, false, none, some, List, [], ◌∷◌, arith}
use amp_host_go.Base.Assoc.{lookup, insert, delete}
use amp_host_go.Host.Session.{
  bad_request, ok, synced, closed, other, TxMsg, ClientOp, no_attr, pin_request, Route, Waiting,
  Session,
}
use amp_host_go.Host.Session.Closing.{on_complete, close_all_reqs}
use amp_host_go.Host.Session.Closing.Laws.{IsConsistent, closed_session}
use amp_host_go.Host.Session.Closing.Shutdown.{IsShutDown, close_all_reqs-IsShutDown}
use amp_host_go.Host.Session.Incoming.{handle_incoming_op}
use amp_host_go.Host.Session.Incoming.Laws.{
  IsConfined, handle_incoming_op-IsConfined, handle_incoming_op_duplicate,
}
use amp_host_go.Host.Session.Events.{
  Event, receives, takes, serves, pushes, closes, run, push_tx, new_session,
}
use amp_host_go.Host.Session.Events.Stuck.{Stays}
use amp_host_go.Host.Session.Events.Deadlock.{run-Stays}
use amp_host_go.Host.Session.Events.Pushing.{sent_out, push_tx-open}

abbrev served_op : ClientOp
served_op = record {
  id = 5;
  own_outlet = false;
  is_pin_request = true;
  close_on_sync = true;
  has_commit_tx = false;
  app_ctx = some 2;
  pin = some 9;
  parent = none;
  started = true;
  cancelled = false;
  was_closed = false;
}

abbrev one_open : Session
one_open = record {
  open_ops = (5, 0) ∷ [];
  ops = served_op ∷ [];
  closing_pins = [];
  meta_calls = [];
  tx_out = [];
  own_out = [];
  inbox = [];
  serving = [];
  failing = [];
  waiting = none;
}

one_open-IsConsistent : IsConsistent one_open
unfolding lookup
one_open-IsConsistent = record {
  distinct = (refl, tt);
  opened = ((omega arith, (served_op, refl, refl, refl)), tt);
  ended = (λ e. absurd (true≢false (sym e)), tt);
}

abbrev message : ℕ → ℕ → TxMsg
message genesis_id context_id = record {
  genesis_id = genesis_id;
  context_id = context_id;
  status = other;
}

abbrev route : Route
route = record { has_url = true; url_parses = true; query_parses = true; app = ok 3 }

abbrev stuck_on : Waiting
stuck_on = record { child_at = 1; parent_at = 1 }

abbrev stuck_session : Session
stuck_session = record one_open {
  open_ops = (6, 1) ∷ (5, 0) ∷ [];
  ops = served_op ∷ record served_op { id = 6; started = false } ∷ [];
  waiting = some stuck_on;
}

-- From a new session: a request is accepted, served, and closed by the message of its pin.
abbrev life : List Event
life =
    receives (message 7 0) (pin_request false) route
    ∷ takes 3
    ∷ serves 3 (ok 4)
    ∷ pushes 0 (message 1 0) true
    ∷ pushes 0 (record (message 2 0) { status = closed }) true
    ∷ []

life_sent :
    (run life new_session).tx_out ≡ message 1 7 ∷ record (message 2 7) { status = closed } ∷ []
unfolding run new_session handle_incoming_op lookup on_complete insert delete
life_sent = refl

life_closed :
    ((run life new_session).open_ops ≡ [])
    × ((run life new_session).meta_calls ≡ record { req_id = 7; reason = none } ∷ [])
unfolding run new_session handle_incoming_op lookup on_complete insert delete
life_closed = (refl, refl)

close_all_reqs-IsShutDown_example : IsShutDown one_open ((5, 0) ∷ []) (close_all_reqs one_open)
close_all_reqs-IsShutDown_example = close_all_reqs-IsShutDown one_open one_open-IsConsistent

handle_incoming_op-IsConfined_example :
    IsConfined 5 one_open (handle_incoming_op (message 5 0) no_attr route one_open).0
handle_incoming_op-IsConfined_example =
    handle_incoming_op-IsConfined (message 5 0) no_attr route one_open one_open-IsConsistent

handle_incoming_op_duplicate_example :
    handle_incoming_op (message 5 0) no_attr route one_open
    ≡ (closed_session one_open 5 0 served_op (some bad_request) true, ok tt)
unfolding lookup
handle_incoming_op_duplicate_example =
    handle_incoming_op_duplicate (message 5 0) no_attr route one_open 0 served_op
      one_open-IsConsistent (inl refl) (omega arith) refl refl

push_tx-open_example : push_tx 0 (record (message 8 0) { status = synced }) true one_open ≡ (
  closed_session
      (sent_out served_op (record (message 8 0) { status = synced }) one_open)
      5
      0
      served_op
      none
      true,
  ok tt,
)
unfolding lookup
push_tx-open_example =
    push_tx-open one_open 0 served_op (record (message 8 0) { status = synced })
      one_open-IsConsistent refl refl refl refl

run-Stays_example : Stays stuck_on stuck_session (run (closes ∷ life) stuck_session)
run-Stays_example = run-Stays (closes ∷ life) stuck_on stuck_session (record {
  waits = refl;
  unstarted = (record served_op { id = 6; started = false }, refl, refl);
  unsent = tt;
  unserved = tt;
})
