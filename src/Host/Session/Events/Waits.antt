-- ===== src/Host/Session/Events/Waits.antt =====
-- What the steps of apps, pins and closings, of amp/host/host.go, do while a session waits under
-- openOpsMu.
use mathlib.Core.Option
use mathlib.Core.Option.{some-injective, none-ne-some}
use amp_host_go.Base.{
  not, ◌&&◌, ℕ, ◌≡◌, ◌≢◌, refl, ap, ◌∙◌, true, false, Option, none, some, ◌==◌, get_elem?,
  Bool-cases, Option-cases, inl, inr, ◌⊎◌, ◌||◌, Bool, if_true, if_false, if◌then◌else◌,
}
use amp_host_go.Host.Session.{
  OpStatus, synced, closed, other, ErrCode, Result, ok, err, blocks, TxMsg, ClientOp, Waiting,
  Session, update_op,
}
use amp_host_go.Host.Session.Closing.{on_complete, send_close, finish_op}
use amp_host_go.Host.Session.Closing.Laws.{get_elem?-update_op}
use amp_host_go.Host.Session.Events.{
  finish_closing, take_from_inbox, start_op, complete_locked, is_busy, serve_op, run_app, end_serve,
  complete_failed, put_out,
}
use amp_host_go.Host.Session.Events.Stuck.{
  IsUnstarted, IsStuck, Stays, Stays-trans, same-Stays, take_from_inbox-All, take_from_inbox-ne,
  update-Stays,
}

pub complete_locked-Stays :
    (w : Waiting) (i : ℕ) (reason : Option ErrCode) (s : Session)
    → IsStuck w s
    → complete_locked i reason s ≡ (s, blocks)
unfolding complete_locked
complete_locked-Stays w i reason s k = rw k.waits refl

start_op-Stays :
    (w : Waiting) (i : ℕ) (served : Result ℕ) (s : Session)
    → i ≢ w.parent_at
    → IsStuck w s
    → Stays w s (start_op i served s)
unfolding start_op
start_op-Stays w i (ok pin) s n k =
    update-Stays w s _ i (λ o. record o { parent = none; pin = some pin }) n refl refl refl refl
      refl k
start_op-Stays w i _ s n k =
    update-Stays w s _ i (λ o. record o { parent = none; pin = none }) n refl refl refl refl refl k

serve_op-Stays :
    (w : Waiting) (app i : ℕ) (served : Result ℕ) (s : Session)
    → i ≢ w.parent_at
    → IsStuck w s
    → Stays w s (serve_op app i served s).0
unfolding serve_op
serve_op-Stays w app i (ok pin) s n k =
    let s' = start_op i (ok pin) s in
    let h = start_op-Stays w i (ok pin) s n k in
    Stays-trans w s s' _ h
      (update-Stays w s' _ i (λ o. record o { started = true }) n refl refl refl refl refl h.0)
serve_op-Stays w app i (err e) s n k =
    let h = start_op-Stays w i (err e) s n k in
    Stays-trans w s (start_op i (err e) s) _ h
      (same-Stays w _ _ refl refl h.0.unsent h.0.unserved refl h.0)
serve_op-Stays w app i blocks s n k = same-Stays w s _ refl refl k.unsent (n, k.unserved) refl k

pub run_app-Stays :
    (w : Waiting) (app : ℕ) (s : Session) → IsStuck w s → Stays w s (run_app app s).0
unfolding run_app
run_app-Stays w app s k = elim (Bool-cases (is_busy app s.serving || is_busy app s.failing)) [
  | inl t ↦ rw (run_app, t) (k, refl)
  | inr f ↦ elim (Option-cases (take_from_inbox app s.inbox).0) [
    | inl e ↦ rw (run_app, f, e) (k, refl)
    | inr (i, e) ↦
        rw (run_app, f, e)
          (same-Stays w s _ refl refl (take_from_inbox-All _ app s.inbox k.unsent)
            (take_from_inbox-ne app i w.parent_at s.inbox e k.unsent, k.unserved) refl k)
  ]
]

pub end_serve-Stays :
    (w : Waiting) (app : ℕ) (served : Result ℕ) (s : Session)
    → IsStuck w s
    → Stays w s (end_serve app served s).0
unfolding end_serve
end_serve-Stays w app served s k = elim (Option-cases (take_from_inbox app s.serving).0) [
  | inl e ↦ rw (end_serve, e) (k, refl)
  | inr (i, e) ↦
      let s' = record s { serving = (take_from_inbox app s.serving).1 } in
      let h =
        same-Stays w s s' refl refl k.unsent (take_from_inbox-All _ app s.serving k.unserved) refl
          k in
      let n = take_from_inbox-ne app i w.parent_at s.serving e k.unserved in
      rw (end_serve, e) (Stays-trans w s s' _ h (serve_op-Stays w app i served s' n h.0))
]

pub complete_failed-Stays :
    (w : Waiting) (app : ℕ) (s : Session) → IsStuck w s → (complete_failed app s).0 ≡ s
unfolding complete_failed
complete_failed-Stays w app s k = elim (Option-cases (take_from_inbox app s.failing).0) [
  | inl e ↦ rw (complete_failed, e) refl
  | inr ((i, reason), e) ↦ rw (complete_failed, e) (ap (gone i reason) k.waits)
]
  where
    gone : ℕ → ErrCode → Option Waiting → Session
    gone i reason o =
        (elim o as (λ x. Session × Result (Unit {0})) [
          | none ↦ (
            on_complete i (some reason) (record s { failing = (take_from_inbox app s.failing).1 }),
            ok tt,
          )
          | some _ ↦ (s, blocks)
        ]).0

send_close-Stays :
    (w : Waiting) (id : ℕ) (reason : Option ErrCode) (sends : Bool) (s : Session)
    → IsStuck w s
    → Stays w s (if sends then send_close id reason s else s)
unfolding send_close
send_close-Stays w id reason true s k = same-Stays w s _ refl refl k.unsent k.unserved refl k
send_close-Stays w id reason false s k = (k, refl)

-- The end of a closeOp starts no request.
finish_op-Stays :
    (w : Waiting) (i : ℕ) (op : ClientOp) (s : Session) → IsStuck w s → Stays w s (finish_op i op s)
unfolding finish_op
finish_op-Stays w i op s k = (
  record { waits = k.waits; unstarted = unstarted; unsent = k.unsent; unserved = k.unserved },
  refl,
)
  where
    ended : ClientOp → ClientOp
    ended o = record o { cancelled = true; has_commit_tx = false }

    unstarted : IsUnstarted (update_op s.ops i ended) w.parent_at
    unstarted =
        let (o, at, h) = k.unstarted in
        elim (Bool-cases (i == w.parent_at)) [
          | inl t ↦ (
            ended o,
            get_elem?-update_op s.ops i w.parent_at ended
                ∙ if_true _ _ t
                ∙ ap (Option.map ended) at,
            h,
          )
          | inr f ↦ (o, get_elem?-update_op s.ops i w.parent_at ended ∙ if_false _ _ f ∙ at, h)
        ]

pub finish_closing-Stays :
    (w : Waiting) (i : ℕ) (reason : Option ErrCode) (sends : Bool) (s : Session)
    → IsStuck w s
    → Stays w s (finish_closing i reason sends s).0
unfolding finish_closing
finish_closing-Stays w i reason sends s k = elim (Option-cases (get_elem? s.ops i)) [
  | inl e ↦ rw (finish_closing, e) (k, refl)
  | inr (op, e) ↦ elim (Bool-cases (op.was_closed && not op.cancelled)) [
    | inr f ↦ rw (finish_closing, e, f) (k, refl)
    | inl t ↦
        let h = send_close-Stays w op.id reason sends s k in
        rw (finish_closing, e, t)
          (Stays-trans w s _ _ h
            (finish_op-Stays w i op (if sends then send_close op.id reason s else s) h.0))
  ]
]

pub put_out-Stays :
    (w : Waiting) (i : ℕ) (op : ClientOp) (tx : TxMsg) (s : Session)
    → IsStuck w s
    → Stays w s (put_out i op tx s)
unfolding put_out
put_out-Stays w i op tx s k = elim (Bool-cases op.own_outlet) [
  | inl t ↦ rw (put_out, t) (same-Stays w s _ refl refl k.unsent k.unserved refl k)
  | inr f ↦ rw (put_out, f) (same-Stays w s _ refl refl k.unsent k.unserved refl k)
]

pub is_closed_cases : (st : OpStatus) → (st ≡ closed) ⊎ ((st ≡ synced) ⊎ (st ≡ other))
is_closed_cases closed = inl refl
is_closed_cases synced = inr (inl refl)
is_closed_cases other = inr (inr refl)
