-- ===== src/Host/Tcp.antt =====
-- amp/host/tcp_service/tcp.service.go: the connections of the TCP server. A connection is a number
-- that Accept gives, a new one each time. `sessions` is the map of the server, and `closed` logs the
-- calls of conn.Close. Times are in milliseconds.
pub mod Tracking
pub mod Delays
pub mod Runs
pub mod Stuck
use amp_host_go.Base.{
  ℕ, ◌+◌, ◌*◌, ◌≡◌, Bool, true, false, not, ◌&&◌, ◌||◌, Option, none, some, List, [], ◌∷◌, ◌++◌,
  ◌==◌, ltb, if◌then◌else◌,
}
use amp_host_go.Base.Assoc.{lookup, insert, delete}

-- What the code is at: Serve in StartNewSession for a connection, and Stop between its swap of
-- `stopped` and its lock of `mu`, or after it.
pub data StopStage : Type 0 where
  not_called before_lock returned : StopStage

pub record TcpServer : Type 0 where
  pub host_set : Bool
  pub lis_set : Bool
  pub lis_open : Bool
  pub ctx_set : Bool
  pub ctx_open : Bool
  pub stopped : Bool
  pub mu_held : Bool
  pub sessions : List (ℕ × Bool)
  pub broadcasts : ℕ
  pub closed : List ℕ
  pub next_conn : ℕ
  pub serving : Bool
  pub starting : Option ℕ
  pub err_delay : ℕ
  pub stop_stage : StopStage

-- NewTcpServer.
abbrev pub new_tcp_server : TcpServer
new_tcp_server = record {
  host_set = false;
  lis_set = false;
  lis_open = false;
  ctx_set = false;
  ctx_open = false;
  stopped = false;
  mu_held = false;
  sessions = [];
  broadcasts = 0;
  closed = [];
  next_conn = 0;
  serving = false;
  starting = none;
  err_delay = 0;
  stop_stage = not_called;
}

pub data Outcome : Type 0 where
  done fails panics blocks : Outcome

-- The outcomes of net.Listen and of StartChild, which runs Serve.
unfoldable pub start_service : Bool → Bool → TcpServer → TcpServer × Outcome
start_service listens child_starts srv =
    let listening = record srv { host_set = true; lis_set = true; lis_open = true } in
    if srv.host_set || srv.lis_set || srv.ctx_set
    then (srv, panics)
    else (if not listens
        then (record srv { host_set = true }, fails)
        else (if not child_starts then (listening, fails) else (
          record listening { ctx_set = true; ctx_open = true; serving = true; err_delay = 0 },
          done,
        )))

abbrev pub has_sess : Option Bool → Bool
has_sess none = false
has_sess (some _) = true

abbrev pub is_empty : List (ℕ × Bool) → Bool
is_empty [] = true
is_empty (e ∷ m) = false

-- tryCloseSess under `mu`.
unfoldable pub close_tracked : ℕ → TcpServer → TcpServer
close_tracked sess srv =
    let left = delete sess srv.sessions in
    if has_sess (lookup sess srv.sessions)
    then record srv {
      sessions = left;
      closed = sess ∷ srv.closed;
      broadcasts = if is_empty left && srv.stopped then srv.broadcasts + 1 else srv.broadcasts;
    }
    else srv

unfoldable pub try_close_sess : ℕ → Bool → TcpServer → TcpServer × Outcome
unfolding close_tracked
try_close_sess sess needs_lock srv =
    if needs_lock && srv.mu_held then (srv, blocks) else (close_tracked sess srv, done)

-- addClient up to StartNewSession.
unfoldable pub add_client : ℕ → TcpServer → TcpServer × Outcome
add_client conn srv =
    if srv.mu_held
    then (srv, blocks)
    else (if srv.stopped
        then (record srv { mu_held = true; closed = conn ∷ srv.closed }, done)
        else (record srv { sessions = insert conn true srv.sessions; starting = some conn }, done))

-- addClient after StartNewSession.
unfoldable pub session_started : Bool → TcpServer → TcpServer × Outcome
unfolding try_close_sess
session_started starts srv = elim srv.starting [
  | none ↦ (srv, blocks)
  | some sess ↦
      if starts
      then (record srv { starting = none }, done)
      else try_close_sess sess true (record srv { starting = none })
]

abbrev pub next_delay : ℕ → ℕ
next_delay err_delay =
    let longer = if err_delay == 0 then 5 else err_delay * 2 in
    if ltb 1000 longer then 1000 else longer

-- Serve, once Accept has returned: with an error, where `closing` says what the select takes, or
-- with a connection.
unfoldable pub accept_failed : Bool → TcpServer → TcpServer × Outcome
accept_failed closing srv =
    (record srv { err_delay = next_delay srv.err_delay; serving = not closing }, done)

unfoldable pub accepted : TcpServer → TcpServer × Outcome
unfolding add_client
accepted srv =
    add_client srv.next_conn (record srv { err_delay = 0; next_conn = srv.next_conn + 1 })

-- Stop up to its lock.
unfoldable pub stop_swaps : TcpServer → TcpServer × Outcome
stop_swaps srv =
    if not srv.lis_set || not srv.ctx_set || srv.stopped
    then (srv, done)
    else (record srv { stopped = true; stop_stage = before_lock }, done)

unfoldable pub close_sessions : List (ℕ × Bool) → TcpServer → TcpServer
unfolding close_tracked
close_sessions [] srv = srv
close_sessions ((sess, _) ∷ rest) srv = close_sessions rest (close_tracked sess srv)

-- Stop from its lock on.
unfoldable pub stop_sweeps : TcpServer → TcpServer × Outcome
unfolding close_sessions
stop_sweeps srv = if srv.mu_held then (srv, blocks) else (
  record (close_sessions srv.sessions srv) {
    ctx_open = false;
    lis_open = false;
    stop_stage = returned;
  },
  done,
)

-- The steps of Serve, of Stop, and of Close of a session, in any order.
pub data Event : Type 0 where
  accepts : Event
  accept_fails : Bool → Event
  starts_session : Bool → Event
  closes_session : ℕ → Event
  stops : Event
  sweeps : Event

abbrev pub is_before_lock : StopStage → Bool
is_before_lock before_lock = true
is_before_lock not_called = false
is_before_lock returned = false

abbrev pub is_accepting : TcpServer → Bool
is_accepting srv = srv.serving && not (elim srv.starting [ none ↦ false | some _ ↦ true ])

unfoldable pub serve_step : Event → TcpServer → TcpServer × Outcome
unfolding accept_failed accepted session_started try_close_sess stop_swaps stop_sweeps
serve_step accepts srv = if is_accepting srv then accepted srv else (srv, blocks)
serve_step (accept_fails closing) srv =
    if is_accepting srv then accept_failed closing srv else (srv, blocks)
serve_step (starts_session starts) srv = session_started starts srv
serve_step (closes_session sess) srv = try_close_sess sess true srv
serve_step stops srv = stop_swaps srv
serve_step sweeps srv = if is_before_lock srv.stop_stage then stop_sweeps srv else (srv, blocks)

unfoldable pub run_server : List Event → TcpServer → TcpServer
unfolding serve_step
run_server [] srv = srv
run_server (e ∷ es) srv = run_server es (serve_step e srv).0
