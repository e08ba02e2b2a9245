-- ===== src/Host/Session/Events.antt =====
-- amp/host/host.go: the steps of the session's loop and of the apps' loops.
pub mod Stuck
pub mod Waits
pub mod Deadlock
pub mod Pushing
pub mod AppAttrs
use amp_host_go.Base.{Option, Bool}
use amp_host_go.Base.{
  not, ◌&&◌, ℕ, Bool, true, false, ◌||◌, Option, none, some, List, [], ◌∷◌, ◌++◌, ◌==◌,
  if◌then◌else◌, get_elem?, any,
}
use amp_host_go.Host.Session.{
  ErrCode, bad_request, request_closed, shutting_down, app_error, Result, ok, err, blocks, OpStatus,
  synced, closed, other, TxMsg, CloseAttr, ClientOp, MetaCheck, failed, no_attr, pin_request,
  unsupported, Route, Waiting, Session, update_op, pin_closed, wait_on_ready,
}
use amp_host_go.Host.Session.Closing.{send_close, finish_op, close_op, on_complete, close_all_reqs}
use amp_host_go.Host.Session.Adding.{wait_for_parent}
use amp_host_go.Host.Session.Incoming.{handle_incoming_op, submit_added, mark_op, finish_incoming}

-- consumeInbox on a message.
unfoldable pub consume_tx : TxMsg → MetaCheck → Route → Session → Session × Result (Unit {0})
consume_tx tx check r s = elim tx.status [
  | closed ↦ (close_op tx.context_id none false s, ok tt)
  | _ ↦ handle_incoming_op tx check r s
]

-- The oldest entry of an app, and the entries without it.
unfoldable pub take_from_inbox : {A : Type 0} → ℕ → List (ℕ × A) → Option A × List (ℕ × A)
take_from_inbox app [] = (none, [])
take_from_inbox app ((a, i) ∷ rest) =
    let (found, left) = take_from_inbox app rest in
    if a == app then (some i, rest) else (found, (a, i) ∷ left)

-- appContext.startOp with what the pinner's ServeRequest returns.
unfoldable pub start_op : ℕ → Result ℕ → Session → Session
start_op i (ok pin) s = record s {
  ops = update_op s.ops i (λ o. record o { parent = none; pin = some pin });
}
start_op i served s = record s {
  ops = update_op s.ops i (λ o. record o { parent = none; pin = none });
}

-- OnComplete takes openOpsMu.
unfoldable pub complete_locked : ℕ → Option ErrCode → Session → Session × Result (Unit {0})
complete_locked i reason s = elim s.waiting [
  | none ↦ (on_complete i reason s, ok tt)
  | some _ ↦ (s, blocks)
]

abbrev pub is_busy : {A : Type 0} → ℕ → List (ℕ × A) → Bool
is_busy app entries = any (λ e. e.0 == app) entries

-- An app that is not busy with another request takes one from its inbox.
unfoldable pub run_app : ℕ → Session → Session × Result (Unit {0})
unfolding take_from_inbox
run_app app s =
    let (found, left) = take_from_inbox app s.inbox in
    if is_busy app s.serving || is_busy app s.failing then (s, blocks) else elim found [
      | none ↦ (s, blocks)
      | some i ↦ (record s { inbox = left; serving = (app, i) ∷ s.serving }, ok tt)
    ]

-- The end of startOp for the request `i`: it is started, or OnComplete is called with the error.
unfoldable pub serve_op : ℕ → ℕ → Result ℕ → Session → Session × Result (Unit {0})
unfolding start_op
serve_op app i (ok pin) s =
    let s' = start_op i (ok pin) s in
    (record s' { ops = update_op s'.ops i (λ o. record o { started = true }) }, ok tt)
serve_op app i (err e) s =
    let s' = start_op i (err e) s in (record s' { failing = (app, (i, e)) ∷ s'.failing }, ok tt)
serve_op app i blocks s = (record s { serving = (app, i) ∷ s.serving }, blocks)

-- ServeRequest of the request that the app is serving returns.
unfoldable pub end_serve : ℕ → Result ℕ → Session → Session × Result (Unit {0})
unfolding take_from_inbox serve_op
end_serve app served s =
    let (found, left) = take_from_inbox app s.serving in
    elim found [ none ↦ (s, blocks) | some i ↦ serve_op app i served (record s { serving = left }) ]

-- OnComplete of the request that the app failed to serve, which takes openOpsMu.
unfoldable pub complete_failed : ℕ → Session → Session × Result (Unit {0})
unfolding take_from_inbox
complete_failed app s =
    let (found, left) = take_from_inbox app s.failing in
    elim found [
      | none ↦ (s, blocks)
      | some (i, e) ↦ elim s.waiting [
        | none ↦ (on_complete i (some e) (record s { failing = left }), ok tt)
        | some _ ↦ (s, blocks)
      ]
    ]

-- closeOp from the swap of `closed` on.
unfoldable pub finish_closing : ℕ → Option ErrCode → Bool → Session → Session × Result (Unit {0})
finish_closing i reason sends s = elim (get_elem? s.ops i) [
  | none ↦ (s, blocks)
  | some op ↦
      let s' = if sends then send_close op.id reason s else s in
      if op.was_closed && not op.cancelled then (finish_op i op s', ok tt) else (s, blocks)
]

-- PushTx's change of the message.
unfoldable pub route_tx : ClientOp → TxMsg → TxMsg
route_tx op tx = record {
  genesis_id = tx.genesis_id;
  context_id = op.id;
  status = elim tx.status [ synced ↦ if op.close_on_sync then closed else synced | st ↦ st ];
}

abbrev pub is_closed : OpStatus → Bool
is_closed closed = true
is_closed st = false

-- The outlet is txOut, or the request's own.
unfoldable pub put_out : ℕ → ClientOp → TxMsg → Session → Session
put_out i op tx s =
    if op.own_outlet
    then record s { own_out = s.own_out ++ (i, tx) ∷ [] }
    else record s { tx_out = s.tx_out ++ tx ∷ [] }

-- PushTx returns what its select gave, once OnComplete has returned.
unfoldable pub finish_push :
    Result (Unit {0}) → Session × Result (Unit {0}) → Session × Result (Unit {0})
finish_push pushed (s, ok u) = (s, pushed)
finish_push pushed (s, err e) = (s, pushed)
finish_push pushed (s, blocks) = (s, blocks)

-- PushTx of a request; `taken` says whether the outlet takes the message before the request ends.
unfoldable pub push_tx : ℕ → TxMsg → Bool → Session → Session × Result (Unit {0})
unfolding route_tx put_out complete_locked finish_push
push_tx i tx taken s = elim (get_elem? s.ops i) [
  | none ↦ (s, blocks)
  | some op ↦
      let sent = route_tx op tx in
      let s' = if taken then put_out i op sent s else s in
      let pushed = if taken then ok tt else err request_closed in
      if taken || op.cancelled || pin_closed s op
      then (if is_closed sent.status
          then finish_push pushed (complete_locked i none s')
          else (s', pushed))
      else (s, blocks)
]

-- What the goroutines around a session do, one step each; a call of closeOp is part of the step that
-- makes it, or goes on in one of its own. A result `blocks` means that the step has to wait.
pub data Event : Type 0 where
  -- consumeInbox takes a message
  receives : TxMsg → MetaCheck → Route → Event
  -- an app takes a request from its inbox
  takes : ℕ → Event
  -- ServeRequest of the request that the app is serving returns
  serves : ℕ → Result ℕ → Event
  -- OnComplete of the request that the app failed to serve goes on
  fails : ℕ → Event
  -- a pin sends a message to the originator of a request
  pushes : ℕ → TxMsg → Bool → Event
  completes : ℕ → Option ErrCode → Event
  -- a closeOp of another goroutine that has marked its request as closed goes on to its end
  finishes : ℕ → Option ErrCode → Bool → Event
  -- consumeInbox sees that the session closes
  closes : Event
  -- the waiting addClientOp looks at its parent again, and handleIncomingOp goes on
  resumes : ℕ → MetaCheck → Route → Event

unfoldable pub resume : ℕ → MetaCheck → Route → Session → Session × Result (Unit {0})
unfolding wait_for_parent submit_added mark_op finish_incoming
resume g check r s = elim s.waiting [
  | none ↦ (s, blocks)
  | some w ↦
      finish_incoming g (submit_added (mark_op check) r (wait_for_parent w.child_at w.parent_at s))
]

-- A step of the session's own loop, which does nothing while that loop waits.
unfoldable pub unless_waiting :
    Option Waiting → Session → Session × Result (Unit {0}) → Session × Result (Unit {0})
unless_waiting none s next = next
unless_waiting (some w) s next = (s, blocks)

unfoldable pub step : Event → Session → Session × Result (Unit {0})
unfolding unless_waiting consume_tx run_app end_serve complete_failed finish_closing push_tx
    complete_locked close_all_reqs resume
step (receives tx check r) s = unless_waiting s.waiting s (consume_tx tx check r s)
step (takes app) s = run_app app s
step (serves app served) s = end_serve app served s
step (fails app) s = complete_failed app s
step (pushes i tx taken) s = push_tx i tx taken s
step (completes i reason) s = complete_locked i reason s
step (finishes i reason sends) s = finish_closing i reason sends s
step closes s = unless_waiting s.waiting s (close_all_reqs s, ok tt)
step (resumes g check r) s = resume g check r s

unfoldable pub run : List Event → Session → Session
unfolding step
run [] s = s
run (e ∷ es) s = run es (step e s).0

unfoldable pub new_session : Session
new_session = record {
  open_ops = [];
  ops = [];
  closing_pins = [];
  meta_calls = [];
  tx_out = [];
  own_out = [];
  inbox = [];
  serving = [];
  failing = [];
  waiting = none;
}
