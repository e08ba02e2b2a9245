-- ===== src/Host/Session/Closing.antt =====
-- amp/host/host.go: how a request is closed.
pub mod Laws
pub mod Shutdown
use amp_host_go.Base.{
  ℕ, zero, suc, ◌≡◌, Bool, true, false, not, ◌&&◌, ◌||◌, Option, none, some, List, [], ◌∷◌, ◌++◌,
  map, ◌==◌, if◌then◌else◌, length, get_elem?, any,
}
use amp_host_go.Base.Assoc.{lookup, delete, insert}
use amp_host_go.Host.Session.{
  ErrCode, bad_request, request_closed, shutting_down, app_error, Result, ok, err, blocks, OpStatus,
  synced, closed, other, TxMsg, CloseAttr, ClientOp, MetaCheck, failed, no_attr, pin_request,
  unsupported, Route, Waiting, Session, update_op, pin_closed, wait_on_ready,
}

-- session.detachOp: the place of the request that was detached.
unfoldable pub detach_op : ℕ → Session → Option ℕ × Session
detach_op req_id s =
    if req_id == 0
    then (none, s)
    else (lookup req_id s.open_ops, record s { open_ops = delete req_id s.open_ops })

-- The call of SendMetaAttr, whose SendTx drops the message if it takes the closing of the session.
unfoldable pub send_close : ℕ → Option ErrCode → Session → Session
send_close req_id reason s = record s {
  meta_calls = s.meta_calls ++ record { req_id = req_id; reason = reason } ∷ [];
}

-- The swap of `closed`.
unfoldable pub mark_closed : ℕ → Session → Session
mark_closed i s = record s { ops = update_op s.ops i (λ o. record o { was_closed = true }) }

-- The end of closeOp: close(op.cancel), the pin's context, and the release of CommitTx.
unfoldable pub finish_op : ℕ → ClientOp → Session → Session
finish_op i op s = record s {
  ops = update_op s.ops i (λ o. record o { cancelled = true; has_commit_tx = false });
  closing_pins = elim op.pin [ none ↦ s.closing_pins | some pin ↦ pin ∷ s.closing_pins ];
}

unfoldable pub close_detached : ℕ → ℕ → Option ErrCode → Bool → Session → Session
unfolding mark_closed finish_op send_close
close_detached req_id i reason sends s = elim (get_elem? s.ops i) [
  | none ↦ s
  | some op ↦
      let marked = mark_closed i s in
      if op.was_closed
      then s
      else finish_op i op (if sends then send_close req_id reason marked else marked)
]

-- The call, with nothing else in between. SendMetaAttr may wait between the mark and the cancelling.
unfoldable pub close_op : ℕ → Option ErrCode → Bool → Session → Session
unfolding detach_op close_detached
close_op req_id reason sends s =
    let (found, s') = detach_op req_id s in
    elim found [ none ↦ s' | some i ↦ close_detached req_id i reason sends s' ]

-- clientOp.OnComplete.
unfoldable pub on_complete : ℕ → Option ErrCode → Session → Session
unfolding close_op
on_complete i reason s = elim (get_elem? s.ops i) [
  | none ↦ s
  | some op ↦ close_op op.id reason true s
]

abbrev pub close_each : List ℕ → Session → Session
close_each [] s = s
close_each (req_id ∷ ids) s = close_each ids (close_op req_id (some shutting_down) true s)

-- The IDs are collected first; Go visits the map in any order.
unfoldable pub close_all_reqs : Session → Session
unfolding close_op
close_all_reqs s = close_each (map (λ e. e.0) s.open_ops) s
