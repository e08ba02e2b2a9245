-- ===== src/Host/Session/Events/Deadlock.antt =====
-- No step of a session ends a wait under openOpsMu for a request that no app will start.
use mathlib.Core.Path.{subst}
use amp_host_go.Host.Session.Closing.{close_all_reqs}
use amp_host_go.Base.{
  ℕ, ◌≡◌, refl, sym, ap, ◌∙◌, Bool, ◌||◌, Option, none, some, List, [], ◌∷◌, if◌then◌else◌,
  get_elem?, Bool-cases, Option-cases, inl, inr,
}
use amp_host_go.Host.Session.{
  request_closed, Result, ok, err, blocks, TxMsg, MetaCheck, Route, Waiting, Session, pin_closed,
}
use amp_host_go.Host.Session.Adding.{wait_for_parent}
use amp_host_go.Host.Session.Adding.Laws.{wait_for_parent_unstarted}
use amp_host_go.Host.Session.Incoming.{submit_added, mark_op, finish_incoming}
use amp_host_go.Host.Session.Events.{
  consume_tx, complete_locked, route_tx, is_closed, put_out, finish_push, push_tx, Event, receives,
  finishes, takes, fails, serves, pushes, completes, closes, resumes, resume, unless_waiting, step,
  run,
}
use amp_host_go.Host.Session.Events.Stuck.{IsStuck, Stays, Stays-trans}
use amp_host_go.Host.Session.Events.Waits.{
  end_serve-Stays, complete_failed-Stays, finish_closing-Stays, put_out-Stays,
  complete_locked-Stays, run_app-Stays,
}

push_tx-Stays :
    (w : Waiting) (i : ℕ) (tx : TxMsg) (taken : Bool) (s : Session)
    → IsStuck w s
    → Stays w s (push_tx i tx taken s).0
unfolding push_tx finish_push
push_tx-Stays w i tx taken s k = elim (Option-cases (get_elem? s.ops i)) [
  | inl e ↦ rw (push_tx, e) (k, refl)
  | inr (op, e) ↦
      let s' = if taken then put_out i op (route_tx op tx) s else s in
      let pushed : Result (Unit {0}) = if taken then ok tt else err request_closed in
      let h : Stays w s s' = elim (Bool-cases taken) [
        | inl t ↦ rw t (put_out-Stays w i op (route_tx op tx) s k)
        | inr f ↦ rw f (k, refl)
      ] in
      elim (Bool-cases (taken || op.cancelled || pin_closed s op)) [
        | inr f ↦ rw (push_tx, e, f) (k, refl)
        | inl t ↦ elim (Bool-cases (is_closed (route_tx op tx).status)) [
          | inl c ↦
              let q : (finish_push pushed (complete_locked i none s')).0 ≡ s' =
                ap (λ p. (finish_push pushed p).0) (complete_locked-Stays w i none s' h.0) in
              rw (push_tx, e, t, c, q) h
          | inr c ↦ rw (push_tx, e, t, c) h
        ]
      ]
]

resume-Stays :
    (w : Waiting) (g : ℕ) (check : MetaCheck) (r : Route) (s : Session)
    → IsStuck w s
    → resume g check r s ≡ (s, blocks)
unfolding resume submit_added finish_incoming
resume-Stays w g check r s k =
    let (op, e, h) = k.unstarted in
    let same : record s { waiting = some w } ≡ s =
      ap (λ x. record s { waiting = x }) (sym k.waits) in
    let go : Option Waiting → Session × Result (Unit {0}) = λ x. elim x [
      | none ↦ (s, blocks)
      | some v ↦
          finish_incoming g
            (submit_added (mark_op check) r (wait_for_parent v.child_at v.parent_at s))
    ] in
    ap go k.waits
    ∙ ap (λ p. finish_incoming g (submit_added (mark_op check) r p))
        (wait_for_parent_unstarted w.child_at w.parent_at s op e h)
    ∙ ap (λ t. (t, blocks)) same

-- The session's own loop does nothing.
loop-Stays :
    (w : Waiting) (s : Session) (next : Session × Result (Unit {0}))
    → IsStuck w s
    → Stays w s (unless_waiting s.waiting s next).0
unfolding unless_waiting
loop-Stays w s next k =
    subst (λ p. Stays w s p.0) (sym (ap (λ x. unless_waiting x s next) k.waits)) (k, refl)

step-Stays : (w : Waiting) (e : Event) (s : Session) → IsStuck w s → Stays w s (step e s).0
unfolding step unless_waiting
step-Stays w (receives tx check r) s k = loop-Stays w s (consume_tx tx check r s) k
step-Stays w (takes app) s k = run_app-Stays w app s k
step-Stays w (serves app served) s k = end_serve-Stays w app served s k
step-Stays w (fails app) s k = rw (complete_failed-Stays w app s k) (k, refl)
step-Stays w (pushes i tx taken) s k = push_tx-Stays w i tx taken s k
step-Stays w (completes i reason) s k = rw (complete_locked-Stays w i reason s k) (k, refl)
step-Stays w (finishes i reason sends) s k = finish_closing-Stays w i reason sends s k
step-Stays w closes s k = loop-Stays w s (close_all_reqs s, ok tt) k
step-Stays w (resumes g check r) s k = rw (resume-Stays w g check r s k) (k, refl)

-- A session that waits, with openOpsMu held, for a request that is not started, and that no app has
-- in its inbox or is serving, does so after any further steps: openOps stays as it is, even when
-- the session closes.
pub run-Stays : (es : List Event) (w : Waiting) (s : Session) → IsStuck w s → Stays w s (run es s)
unfolding run
run-Stays [] w s k = (k, refl)
run-Stays (e ∷ es) w s k =
    let h = step-Stays w e s k in Stays-trans w s (step e s).0 _ h (run-Stays es w (step e s).0 h.0)
