-- ===== src/Host/Tcp/Runs.antt =====
-- The steps of the server keep its connections tracked or closed.
use mathlib.Core.Path.{subst}
use amp_host_go.Base.{
  ℕ, ◌+◌, ◌≤◌, ◌<◌, ◌≡◌, inl, inr, refl, sym, ◌∙◌, Bool, true, false, not, ◌&&◌, ◌||◌, List, [],
  ◌∷◌, ◌==◌, if◌then◌else◌, arith, none, if_true, if_false, Bool-cases, Option-cases,
}
use amp_host_go.Base.Assoc.{lookup, insert, lookup-insert}
use amp_host_go.Host.Tcp.{
  TcpServer, start_service, new_tcp_server, returned, Outcome, Event, accepts, accept_fails,
  starts_session, closes_session, stops, sweeps, serve_step, run_server, close_tracked,
  close_sessions, stop_sweeps, has_sess, is_accepting, is_before_lock, add_client, accepted,
  accept_failed, accept_failed, try_close_sess, session_started, stop_swaps,
}
use amp_host_go.Host.Tcp.Tracking.{
  times_closed, tracked, IsTracked, close_tracked-IsClosing, close_sessions-IsClosing,
  all_untracked, closing-IsTracked,
}

abbrev Kept : ℕ → TcpServer → TcpServer × Outcome → Type 0
Kept k srv r = IsTracked k r.0

accepted-IsTracked : (k : ℕ) (srv : TcpServer) → IsTracked k srv → Kept k srv (accepted srv)
unfolding accepted add_client
accepted-IsTracked k srv t = elim (Bool-cases srv.mu_held) [
  | inl held ↦ subst (Kept k srv) (sym (if_true _ _ held)) (record {
    never = λ (h : srv.next_conn + 1 ≤ k). t.never (omega arith);
    at_most = t.at_most;
    once = λ (free : srv.mu_held ≡ false) lt. absurd (cc (free, held));
    swept = t.swept;
    stopping = t.stopping;
  })
  | inr free ↦ subst (Kept k srv) (sym (if_false _ _ free)) (elim (Bool-cases srv.stopped) [
    | inl stopped ↦ subst (Kept k srv) (sym (if_true _ _ stopped)) (record {
      never = λ (h : srv.next_conn + 1 ≤ k). ground (arith, t.never (omega arith));
      at_most = ground (arith, t.never, t.at_most);
      once = λ free lt. absurd (cc free);
      swept = t.swept;
      stopping = t.stopping;
    })
    | inr going ↦ subst (Kept k srv) (sym (if_false _ _ going)) (record {
      never = λ (h : srv.next_conn + 1 ≤ k). inserted_below h;
      at_most = inserted_at_most;
      once = λ (free : srv.mu_held ≡ false) (lt : k < srv.next_conn + 1). inserted_once free lt;
      swept = λ (h : srv.stop_stage ≡ returned). absurd (cc (going, (t.swept h).0));
      stopping = t.stopping;
    })
  ])
]
  where
    new_tracked : ℕ
    new_tracked = if has_sess (lookup k (insert srv.next_conn true srv.sessions)) then 1 else 0

    new_eq : new_tracked ≡ (if srv.next_conn == k then 1 else tracked k srv)
    new_eq = elim (Bool-cases (srv.next_conn == k)) [
      | inl e ↦ rw (lookup-insert srv.next_conn k true srv.sessions, e) refl
      | inr e ↦ rw (lookup-insert srv.next_conn k true srv.sessions, e) refl
    ]

    inserted_below : srv.next_conn + 1 ≤ k → times_closed k srv.closed + new_tracked ≡ 0
    inserted_below h = ground (arith, new_eq, t.never (omega arith))

    inserted_at_most : times_closed k srv.closed + new_tracked ≤ 1
    inserted_at_most = ground (arith, new_eq, t.never, t.at_most)

    inserted_once :
        srv.mu_held ≡ false → k < srv.next_conn + 1 → times_closed k srv.closed + new_tracked ≡ 1
    inserted_once free lt = ground (arith, new_eq, t.never, t.once free)

try_close_sess-IsTracked :
    (k sess : ℕ) (lock : Bool) (srv : TcpServer)
    → IsTracked k srv
    → Kept k srv (try_close_sess sess lock srv)
unfolding try_close_sess
try_close_sess-IsTracked k sess lock srv t = elim (Bool-cases (lock && srv.mu_held)) [
  | inl held ↦ subst (Kept k srv) (sym (if_true _ _ held)) t
  | inr free ↦
      subst (Kept k srv) (sym (if_false _ _ free))
        (closing-IsTracked k srv (close_tracked sess srv) (close_tracked-IsClosing k sess srv) t)
]

session_started-IsTracked :
    (k : ℕ) (starts : Bool) (srv : TcpServer)
    → IsTracked k srv
    → Kept k srv (session_started starts srv)
unfolding session_started
session_started-IsTracked k starts srv t = elim (Option-cases srv.starting) [
  | inl e ↦ rw e idle
  | inr (sess, e) ↦ rw e (elim (Bool-cases starts) [
    | inl ok_ ↦ subst (Kept k srv) (sym (if_true _ _ ok_)) idle
    | inr bad ↦
        subst (Kept k srv) (sym (if_false _ _ bad))
          (try_close_sess-IsTracked k sess true (record srv { starting = none }) idle)
  ])
]
  where
    idle : IsTracked k (record srv { starting = none })
    idle = record {
      never = t.never;
      at_most = t.at_most;
      once = t.once;
      swept = t.swept;
      stopping = t.stopping;
    }

swept-IsTracked :
    (k : ℕ) (srv : TcpServer)
    → srv.stopped ≡ true
    → IsTracked k srv
    → IsTracked k (record (close_sessions srv.sessions srv) {
      ctx_open = false;
      lis_open = false;
      stop_stage = returned;
    })
swept-IsTracked k srv stopped t =
    let c = close_sessions-IsClosing k srv.sessions srv in
    let t' = closing-IsTracked k srv (close_sessions srv.sessions srv) c t in
    record {
      never = t'.never;
      at_most = t'.at_most;
      once = t'.once;
      swept = λ h. (c.same_stopped ∙ stopped, all_untracked k srv);
      stopping = λ h. absurd (cc h);
    }

serve_step-IsTracked :
    (k : ℕ) (e : Event) (srv : TcpServer) → IsTracked k srv → Kept k srv (serve_step e srv)
unfolding serve_step accept_failed session_started try_close_sess stop_swaps stop_sweeps
serve_step-IsTracked k accepts srv t = elim (Bool-cases (is_accepting srv)) [
  | inl can ↦ subst (Kept k srv) (sym (if_true _ _ can)) (accepted-IsTracked k srv t)
  | inr not_ ↦ subst (Kept k srv) (sym (if_false _ _ not_)) t
]
serve_step-IsTracked k (accept_fails closing) srv t = elim (Bool-cases (is_accepting srv)) [
  | inl can ↦ subst (Kept k srv) (sym (if_true _ _ can)) (record {
    never = t.never;
    at_most = t.at_most;
    once = t.once;
    swept = t.swept;
    stopping = t.stopping;
  })
  | inr not_ ↦ subst (Kept k srv) (sym (if_false _ _ not_)) t
]
serve_step-IsTracked k (starts_session starts) srv t = session_started-IsTracked k starts srv t
serve_step-IsTracked k (closes_session sess) srv t = try_close_sess-IsTracked k sess true srv t
serve_step-IsTracked k stops srv t =
    elim (Bool-cases (not srv.lis_set || not srv.ctx_set || srv.stopped)) [
      | inl done_ ↦ subst (Kept k srv) (sym (if_true _ _ done_)) t
      | inr goes ↦ subst (Kept k srv) (sym (if_false _ _ goes)) (record {
        never = t.never;
        at_most = t.at_most;
        once = t.once;
        swept = λ h. absurd (cc h);
        stopping = λ h. refl;
      })
    ]
serve_step-IsTracked k sweeps srv t = elim (Bool-cases (is_before_lock srv.stop_stage)) [
  | inl at_lock ↦ subst (Kept k srv) (sym (if_true _ _ at_lock)) (elim (Bool-cases srv.mu_held) [
    | inl held ↦ subst (Kept k srv) (sym (if_true _ _ held)) t
    | inr free ↦
        subst (Kept k srv) (sym (if_false _ _ free)) (swept-IsTracked k srv (ground arith) t)
  ])
  | inr not_ ↦ subst (Kept k srv) (sym (if_false _ _ not_)) t
]

run_server-kept :
    (k : ℕ) (es : List Event) (srv : TcpServer) → IsTracked k srv → IsTracked k (run_server es srv)
unfolding run_server
run_server-kept k [] srv t = t
run_server-kept k (e ∷ es) srv t =
    run_server-kept k es (serve_step e srv).0 (serve_step-IsTracked k e srv t)

-- Whatever steps of Serve, of Stop and of Close follow the start of a server, in any order: no
-- connection is closed twice, none is closed and still tracked, and none is either before Accept
-- gave it; as long as the mutex is not held for ever, each connection that Accept gave is tracked
-- or has been closed; and when Stop has returned, none is tracked.
pub run_server-IsTracked :
    (es : List Event) (k : ℕ)
    → IsTracked k (run_server es (start_service true true new_tcp_server).0)
unfolding start_service lookup
run_server-IsTracked es k =
    run_server-kept k es (start_service true true new_tcp_server).0 (record {
      never = λ h. refl;
      at_most = omega arith;
      once = λ h lt. absurd (omega arith);
      swept = λ h. absurd (cc h);
      stopping = λ h. absurd (cc h);
    })
