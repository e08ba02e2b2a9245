-- ===== src/Host/Tcp/Stuck.antt =====
-- A connection that Accept gives while the server is being stopped.
use mathlib.Core.Path.{subst}
use amp_host_go.Base.{
  ℕ, ◌≡◌, inl, inr, sym, Bool, true, false, not, ◌||◌, List, [], ◌∷◌, arith, Option, if_true,
  if_false, Bool-cases, Option-cases,
}
use amp_host_go.Host.Tcp.{
  TcpServer, before_lock, Outcome, Event, accepts, accept_fails, starts_session, closes_session,
  stops, sweeps, serve_step, run_server, stop_sweeps, is_accepting, is_before_lock, add_client,
  accepted, accept_failed, try_close_sess, session_started, stop_swaps,
}

-- The mutex is held for ever, and what it guards Stays as it is.
pub record IsStuck (srv srv' : TcpServer) : Type 0 where
  pub held : srv'.mu_held ≡ true
  pub same_sessions : srv'.sessions ≡ srv.sessions
  pub same_ctx : srv'.ctx_open ≡ srv.ctx_open
  pub same_lis : srv'.lis_open ≡ srv.lis_open
  pub same_closed : srv'.closed ≡ srv.closed
  pub waits : srv'.stop_stage ≡ before_lock
  pub same_stopped : srv'.stopped ≡ true

abbrev Stays : TcpServer → TcpServer × Outcome → Type 0
Stays srv r = IsStuck srv r.0

-- The fields of Serve may change.
again :
    (srv srv' : TcpServer) {n d : ℕ} {serving : Bool} {starting : Option ℕ}
    → IsStuck srv srv'
    → IsStuck srv
        (record srv' { next_conn = n; err_delay = d; serving = serving; starting = starting })
again srv srv' t = record {
  held = t.held;
  same_sessions = t.same_sessions;
  same_ctx = t.same_ctx;
  same_lis = t.same_lis;
  same_closed = t.same_closed;
  waits = t.waits;
  same_stopped = t.same_stopped;
}

serve_step-IsStuck :
    (e : Event) (srv srv' : TcpServer) → IsStuck srv srv' → IsStuck srv (serve_step e srv').0
unfolding serve_step accepted add_client accept_failed session_started try_close_sess stop_swaps
    stop_sweeps
serve_step-IsStuck accepts srv srv' t = elim (Bool-cases (is_accepting srv')) [
  | inl can ↦
      subst (Stays srv) (sym (if_true _ _ can))
        (subst (Stays srv) (sym (if_true _ _ t.held)) (again srv srv' t))
  | inr not_ ↦ subst (Stays srv) (sym (if_false _ _ not_)) t
]
serve_step-IsStuck (accept_fails closing) srv srv' t = elim (Bool-cases (is_accepting srv')) [
  | inl can ↦ subst (Stays srv) (sym (if_true _ _ can)) (again srv srv' t)
  | inr not_ ↦ subst (Stays srv) (sym (if_false _ _ not_)) t
]
serve_step-IsStuck (starts_session starts) srv srv' t = elim (Option-cases srv'.starting) [
  | inl e ↦ rw e (again srv srv' t)
  | inr (sess, e) ↦ rw e (elim (Bool-cases starts) [
    | inl ok_ ↦ subst (Stays srv) (sym (if_true _ _ ok_)) (again srv srv' t)
    | inr bad ↦
        subst (Stays srv) (sym (if_false _ _ bad))
          (subst (Stays srv) (sym (if_true _ _ t.held)) (again srv srv' t))
  ])
]
serve_step-IsStuck (closes_session sess) srv srv' t = subst (Stays srv) (sym (if_true _ _ t.held)) t
serve_step-IsStuck stops srv srv' t =
    let is_stopped : (not srv'.lis_set || not srv'.ctx_set || srv'.stopped) ≡ true =
      ground (arith, t.same_stopped) in
    subst (Stays srv) (sym (if_true _ _ is_stopped)) t
serve_step-IsStuck sweeps srv srv' t =
    let at_lock : is_before_lock srv'.stop_stage ≡ true = ground (arith, t.waits) in
    subst (Stays srv) (sym (if_true _ _ at_lock)) (subst (Stays srv) (sym (if_true _ _ t.held)) t)

run_server-IsStuck :
    (es : List Event) (srv srv' : TcpServer) → IsStuck srv srv' → IsStuck srv (run_server es srv')
unfolding run_server
run_server-IsStuck [] srv srv' t = t
run_server-IsStuck (e ∷ es) srv srv' t =
    run_server-IsStuck es srv (serve_step e srv').0 (serve_step-IsStuck e srv srv' t)

-- A connection that Accept gives after Stop has set `stopped` and before Stop has the mutex: the
-- connection is closed and addClient leaves the mutex held, so whatever steps follow, Stop never gets
-- beyond its lock. The context and the listener stay as they are, and no tracked connection is closed.
pub refused-IsStuck :
    (es : List Event) (srv : TcpServer)
    → is_accepting srv ≡ true
    → srv.mu_held ≡ false
    → srv.stopped ≡ true
    → srv.stop_stage ≡ before_lock
    → IsStuck
        (record srv { closed = srv.next_conn ∷ srv.closed })
        (run_server es (serve_step accepts srv).0)
unfolding serve_step accepted add_client
refused-IsStuck es srv can free stopped stage =
    run_server-IsStuck es _ (serve_step accepts srv).0 (record {
      held = ground arith;
      same_sessions = ground arith;
      same_ctx = ground arith;
      same_lis = ground arith;
      same_closed = ground arith;
      waits = ground arith;
      same_stopped = ground arith;
    })
