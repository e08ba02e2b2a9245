-- ===== src/Host/Tcp/Tracking.antt =====
-- Each connection is open and tracked or closed once.
use mathlib.Core.Path.{subst}
use amp_host_go.Base.{
  ℕ, ◌+◌, ◌≤◌, ◌<◌, ◌≡◌, inl, inr, refl, sym, ◌∙◌, Bool, true, false, List, [], ◌∷◌, ◌==◌,
  if◌then◌else◌, arith, if_true, if_false, Bool-cases, ==_iff,
}
use amp_host_go.Base.Assoc.{lookup, delete, lookup-delete}
use amp_host_go.Host.Tcp.{TcpServer, before_lock, returned, close_tracked, close_sessions, has_sess}

abbrev pub times_closed : ℕ → List ℕ → ℕ
times_closed k [] = 0
times_closed k (j ∷ js) = if j == k then times_closed k js + 1 else times_closed k js

abbrev pub tracked : ℕ → TcpServer → ℕ
tracked k srv = if has_sess (lookup k srv.sessions) then 1 else 0

-- For each connection that Accept gave, either it is tracked or it has been closed, once.
pub record IsTracked (k : ℕ) (srv : TcpServer) : Type 0 where
  pub never : srv.next_conn ≤ k → times_closed k srv.closed + tracked k srv ≡ 0
  pub at_most : times_closed k srv.closed + tracked k srv ≤ 1
  pub once : srv.mu_held ≡ false → k < srv.next_conn → times_closed k srv.closed + tracked k srv ≡ 1
  pub swept : srv.stop_stage ≡ returned → (srv.stopped ≡ true) × (tracked k srv ≡ 0)
  pub stopping : srv.stop_stage ≡ before_lock → srv.stopped ≡ true

-- What a call leaves alone, and the sum that it keeps.
pub record IsClosing (k : ℕ) (srv srv' : TcpServer) : Type 0 where
  pub total :
      times_closed k srv'.closed + tracked k srv' ≡ times_closed k srv.closed + tracked k srv
  pub less : tracked k srv' ≤ tracked k srv
  pub same_held : srv'.mu_held ≡ srv.mu_held
  pub same_next : srv'.next_conn ≡ srv.next_conn
  pub same_stage : srv'.stop_stage ≡ srv.stop_stage
  pub same_stopped : srv'.stopped ≡ srv.stopped

moved :
    (k sess : ℕ) (srv : TcpServer)
    → has_sess (lookup sess srv.sessions) ≡ true
    → (times_closed k (sess ∷ srv.closed)
          + (if has_sess (lookup k (delete sess srv.sessions)) then 1 else 0)
        ≡ times_closed k srv.closed + tracked k srv)
      × ((if has_sess (lookup k (delete sess srv.sessions)) then 1 else 0) ≤ tracked k srv)
moved k sess srv h = elim (Bool-cases (sess == k)) [
  | inl e ↦
      let same : sess ≡ k = (==_iff sess k).0 e in
      let held : has_sess (lookup k srv.sessions) ≡ true =
        subst (λ x. has_sess (lookup x srv.sessions) ≡ true) same h in
      rw (lookup-delete sess k srv.sessions, e, held) (omega arith, omega arith)
  | inr e ↦ rw (lookup-delete sess k srv.sessions, e) (refl, omega arith)
]

pub close_tracked-IsClosing :
    (k sess : ℕ) (srv : TcpServer) → IsClosing k srv (close_tracked sess srv)
unfolding close_tracked
close_tracked-IsClosing k sess srv = elim (Bool-cases (has_sess (lookup sess srv.sessions))) [
  | inl held ↦
      let m = moved k sess srv held in
      subst (IsClosing k srv) (sym (if_true _ _ held)) (record {
        total = m.0;
        less = m.1;
        same_held = refl;
        same_next = refl;
        same_stage = refl;
        same_stopped = refl;
      })
  | inr free ↦ subst (IsClosing k srv) (sym (if_false _ _ free)) (record {
    total = refl;
    less = omega arith;
    same_held = refl;
    same_next = refl;
    same_stage = refl;
    same_stopped = refl;
  })
]

close_tracked_untracked : (k : ℕ) (srv : TcpServer) → tracked k (close_tracked k srv) ≡ 0
unfolding close_tracked
close_tracked_untracked k srv = ground (arith, lookup-delete k k srv.sessions)

pub close_sessions-IsClosing :
    (k : ℕ) (l : List (ℕ × Bool)) (srv : TcpServer) → IsClosing k srv (close_sessions l srv)
unfolding close_sessions
close_sessions-IsClosing k [] srv = record {
  total = refl;
  less = omega arith;
  same_held = refl;
  same_next = refl;
  same_stage = refl;
  same_stopped = refl;
}
close_sessions-IsClosing k ((sess, b) ∷ rest) srv =
    let first = close_tracked-IsClosing k sess srv in
    let then_ = close_sessions-IsClosing k rest (close_tracked sess srv) in
    record {
      total = then_.total ∙ first.total;
      less = omega (arith, then_.less, first.less);
      same_held = then_.same_held ∙ first.same_held;
      same_next = then_.same_next ∙ first.same_next;
      same_stage = then_.same_stage ∙ first.same_stage;
      same_stopped = then_.same_stopped ∙ first.same_stopped;
    }

close_sessions_untracked :
    (k : ℕ) (l : List (ℕ × Bool)) (srv : TcpServer)
    → has_sess (lookup k l) ≡ true
    → tracked k (close_sessions l srv) ≡ 0
unfolding close_sessions lookup
close_sessions_untracked k [] srv h = absurd (cc h)
close_sessions_untracked k ((sess, b) ∷ rest) srv h = elim (Bool-cases (sess == k)) [
  | inl e ↦
      let same : sess ≡ k = (==_iff sess k).0 e in
      let gone : tracked k (close_tracked sess srv) ≡ 0 =
        subst (λ x. tracked k (close_tracked x srv) ≡ 0) (sym same)
          (close_tracked_untracked k srv) in
      omega (arith, (close_sessions-IsClosing k rest (close_tracked sess srv)).less, gone)
  | inr e ↦ close_sessions_untracked k rest (close_tracked sess srv) (rw e at h)
]

-- After the sweep nothing is tracked.
pub all_untracked : (k : ℕ) (srv : TcpServer) → tracked k (close_sessions srv.sessions srv) ≡ 0
all_untracked k srv = elim (Bool-cases (has_sess (lookup k srv.sessions))) [
  | inl held ↦ close_sessions_untracked k srv.sessions srv held
  | inr free ↦
      let zero_tracked : tracked k srv ≡ 0 = if_false _ _ free in
      omega (arith, (close_sessions-IsClosing k srv.sessions srv).less, zero_tracked)
]

pub closing-IsTracked :
    (k : ℕ) (srv srv' : TcpServer) → IsClosing k srv srv' → IsTracked k srv → IsTracked k srv'
closing-IsTracked k srv srv' c t = record {
  never = λ h. c.total ∙ t.never (omega (arith, c.same_next, h));
  at_most = omega (arith, c.total, t.at_most);
  once = λ h lt. c.total ∙ t.once (sym c.same_held ∙ h) (omega (arith, c.same_next, lt));
  swept = λ h.
      let w = t.swept (sym c.same_stage ∙ h) in (c.same_stopped ∙ w.0, omega (arith, c.less, w.1));
  stopping = λ h. c.same_stopped ∙ t.stopping (sym c.same_stage ∙ h);
}
