-- ===== src/Host/Session/Events/Pushing.antt =====
-- What PushTx does for a request that is open.
use amp_host_go.Base.{
  ℕ, ◌≡◌, refl, ap, ◌∙◌, Bool, true, false, Option, none, some, [], ◌∷◌, ◌++◌, if◌then◌else◌,
  get_elem?, if_false,
}
use amp_host_go.Base.Assoc.{lookup}
use amp_host_go.Host.Session.{
  Result, ok, blocks, OpStatus, synced, closed, other, TxMsg, ClientOp, Session, Waiting,
}
use amp_host_go.Host.Session.Closing.{on_complete}
use amp_host_go.Host.Session.Closing.Laws.{IsConsistent, close_op-open, closed_session}
use amp_host_go.Host.Session.Adding.Laws.{same-IsConsistent}
use amp_host_go.Host.Session.Events.{
  route_tx, is_closed, put_out, finish_push, complete_locked, push_tx,
}

-- The status with which a message of status `st` reaches the originator.
abbrev pub pushed_status : ClientOp → OpStatus → OpStatus
pushed_status op synced = if op.close_on_sync then closed else synced
pushed_status op closed = closed
pushed_status op other = other

-- The session after the message of `op` was put into txOut.
abbrev pub sent_out : ClientOp → TxMsg → Session → Session
sent_out op tx s = record s {
  tx_out =
      s.tx_out
      ++ record {
        genesis_id = tx.genesis_id;
        context_id = op.id;
        status = pushed_status op tx.status;
      }
        ∷ [];
}

route_tx_lem :
    (op : ClientOp) (tx : TxMsg)
    → route_tx op tx ≡ record {
      genesis_id = tx.genesis_id;
      context_id = op.id;
      status = pushed_status op tx.status;
    }
unfolding route_tx
route_tx_lem op tx =
    ap (λ st. record { genesis_id = tx.genesis_id; context_id = op.id; status = st })
      (same_status tx.status)
  where
    same_status :
        (st : OpStatus)
        → elim st [ synced ↦ if op.close_on_sync then closed else synced | x ↦ x ]
          ≡ pushed_status op st
    same_status synced = refl
    same_status closed = refl
    same_status other = refl

complete_locked-open :
    (s : Session) (i : ℕ) (op : ClientOp)
    → IsConsistent s
    → lookup op.id s.open_ops ≡ some i
    → get_elem? s.ops i ≡ some op
    → s.waiting ≡ none
    → complete_locked i none s ≡ (closed_session s op.id i op none true, ok tt)
unfolding complete_locked on_complete
complete_locked-open s i op v e g idle =
    let closing : on_complete i none s ≡ closed_session s op.id i op none true =
      rw (on_complete, g) (close_op-open s op.id i op none true v e g) in
    let go : Option Waiting → Session × Result (Unit {0}) =
      λ w. elim w [ none ↦ (on_complete i none s, ok tt) | some _ ↦ (s, blocks) ] in
    ap go idle ∙ ap (λ t. (t, ok tt)) closing

-- The end of PushTx, by whether the message went out as closed.
finish_push-cases :
    (b : Bool) (i : ℕ) (s t : Session)
    → complete_locked i none s ≡ (t, ok tt)
    → (if b then finish_push (ok tt) (complete_locked i none s) else (s, ok tt))
      ≡ ((if b then t else s), ok tt)
unfolding finish_push
finish_push-cases true i s t e = ap (finish_push (ok tt)) e
finish_push-cases false i s t e = refl

-- A message that an open request of a session sends, and that the client takes, goes into txOut
-- under the ID of the request. If it is a closing message, or a synced one of a request that
-- closes on sync, it goes out as closed, and then the request is closed, with one closing
-- attribute and no error.
pub push_tx-open :
    (s : Session) (i : ℕ) (op : ClientOp) (tx : TxMsg)
    → IsConsistent s
    → lookup op.id s.open_ops ≡ some i
    → get_elem? s.ops i ≡ some op
    → op.own_outlet ≡ false
    → s.waiting ≡ none
    → push_tx i tx true s ≡ (
      if is_closed (pushed_status op tx.status)
          then closed_session (sent_out op tx s) op.id i op none true
          else sent_out op tx s,
      ok tt,
    )
unfolding push_tx route_tx put_out finish_push complete_locked on_complete
push_tx-open s i op tx v e g shared idle =
    let s' = sent_out op tx s in
    let closes_op = complete_locked-open s' i op (same-IsConsistent s s' refl refl v) e g idle in
    let sent : put_out i op (route_tx op tx) s ≡ s' =
      if_false _ _ shared
      ∙ ap (λ m. record s { tx_out = s.tx_out ++ m ∷ [] }) (route_tx_lem op tx) in
    let st : (route_tx op tx).status ≡ pushed_status op tx.status =
      ap (λ m. m.status) (route_tx_lem op tx) in
    let tail : Bool → Session → Session × Result (Unit {0}) =
      λ b t. if b then finish_push (ok tt) (complete_locked i none t) else (t, ok tt) in
    let taken : push_tx i tx true s
        ≡ tail (is_closed (route_tx op tx).status) (put_out i op (route_tx op tx) s) =
      rw (push_tx, g) refl in
    taken
    ∙ ap (tail (is_closed (route_tx op tx).status)) sent
    ∙ ap (λ m. tail (is_closed m) s') st
    ∙ finish_push-cases (is_closed (pushed_status op tx.status)) i s' _ closes_op
