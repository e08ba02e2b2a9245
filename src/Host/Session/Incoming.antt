-- ===== src/Host/Session/Incoming.antt =====
-- amp/host/host.go: handleIncomingOp and the way of a request to its app.
pub mod Laws
pub mod Delivery
use amp_host_go.Base.{Option}
use amp_host_go.Base.{ℕ, true, not, ◌&&◌, none, some, [], ◌∷◌, ◌++◌, if◌then◌else◌, get_elem?}
use amp_host_go.Host.Session.{
  bad_request, Result, ok, err, blocks, TxMsg, ClientOp, MetaCheck, failed, no_attr, pin_request,
  unsupported, Route, Session, update_op,
}
use amp_host_go.Host.Session.Closing.{close_op}
use amp_host_go.Host.Session.Adding.{add_client_op}

-- appCtxForInvocation for the target of the message.
unfoldable pub app_ctx_for : Route → Result ℕ
app_ctx_for r = if r.has_url then r.app else err bad_request

unfoldable pub send_to_inbox : ℕ → ℕ → Session → Session × Result (Unit {0})
send_to_inbox app i s = (
  record s {
    ops = update_op s.ops i (λ o. record o { app_ctx = some app });
    inbox = s.inbox ++ (app, i) ∷ [];
  },
  ok tt,
)

-- The app context of the parent, if there is one, or else that for the target.
unfoldable pub choose_app_ctx : Option ℕ → Route → Result ℕ
unfolding app_ctx_for
choose_app_ctx (some app) r = ok app
choose_app_ctx none r = app_ctx_for r

unfoldable pub submit_with : ℕ → Session → Result ℕ → Session × Result (Unit {0})
unfolding send_to_inbox
submit_with i s (ok app) = send_to_inbox app i s
submit_with i s (err e) = (s, err e)
submit_with i s blocks = (s, blocks)

unfoldable pub submit_to_app : Route → ℕ → Session → Session × Result (Unit {0})
unfolding submit_with choose_app_ctx
submit_to_app r i s =
    if r.has_url && not (r.url_parses && r.query_parses)
    then (s, err bad_request)
    else elim (get_elem? s.ops i) [
      | none ↦ (s, err bad_request)
      | some op ↦ submit_with i s (choose_app_ctx op.app_ctx r)
    ]

-- The end of handleIncomingOp, on an error and on none.
unfoldable pub finish_incoming : ℕ → Session × Result (Unit {0}) → Session × Result (Unit {0})
unfolding close_op
finish_incoming new_req_id (s, ok u) = (s, ok u)
finish_incoming new_req_id (s, err e) = (close_op new_req_id (some e) true s, ok tt)
finish_incoming new_req_id (s, blocks) = (s, blocks)

-- handleIncomingOp from the return of addClientOp on; `mark` records what the message brought.
unfoldable pub submit_added :
    (ClientOp → ClientOp) → Route → Session × Result ℕ → Session × Result (Unit {0})
unfolding submit_to_app
submit_added mark r (s, ok i) = submit_to_app r i (record s { ops = update_op s.ops i mark })
submit_added mark r (s, err e) = (s, err e)
submit_added mark r (s, blocks) = (s, blocks)

unfoldable pub mark_op : MetaCheck → ClientOp → ClientOp
mark_op (pin_request sync) op = record op { is_pin_request = true; close_on_sync = sync }
mark_op check op = record op { has_commit_tx = true }

unfoldable pub handle_incoming_op :
    TxMsg → MetaCheck → Route → Session → Session × Result (Unit {0})
unfolding finish_incoming submit_added add_client_op mark_op
handle_incoming_op tx (failed e) r s = finish_incoming tx.genesis_id (s, err e)
handle_incoming_op tx unsupported r s = finish_incoming tx.genesis_id (s, err bad_request)
handle_incoming_op tx no_attr r s =
    finish_incoming tx.genesis_id
      (submit_added (mark_op no_attr) r (add_client_op tx.genesis_id tx.context_id s))
handle_incoming_op tx (pin_request sync) r s =
    finish_incoming tx.genesis_id
      (submit_added (mark_op (pin_request sync)) r (add_client_op tx.genesis_id tx.context_id s))
