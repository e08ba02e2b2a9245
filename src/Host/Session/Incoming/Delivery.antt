-- ===== src/Host/Session/Incoming/Delivery.antt =====
-- A pin request that is accepted: what it leaves in the session and in the inbox of its app.
use amp_host_go.Base.{
  ℕ, ◌≡◌, ◌≢◌, refl, ap, ◌∙◌, inr, Bool, true, false, not, ◌&&◌, none, some, List, [], ◌∷◌, ◌++◌,
  ◌==◌, arith, length, get_elem?, get_elem?-length, if_true, if_false,
}
use amp_host_go.Base.Assoc.{lookup, insert}
use amp_host_go.Host.Session.{Result, ok, TxMsg, pin_request, Route, ClientOp, Session, update_op}
use amp_host_go.Host.Session.Adding.{new_op, adopt, add_client_op}
use amp_host_go.Host.Session.Adding.Laws.{add_client_op_new, opened_session}
use amp_host_go.Host.Session.Incoming.{
  app_ctx_for, send_to_inbox, submit_to_app, submit_with, choose_app_ctx, finish_incoming,
  submit_added, mark_op, handle_incoming_op,
}
use amp_host_go.Host.Session.Incoming.Laws.{handle_added}

update_op-append :
    (ops : List ClientOp) (op : ClientOp) (f : ClientOp → ClientOp)
    → update_op (ops ++ op ∷ []) (length ops) f ≡ ops ++ f op ∷ []
update_op-append [] op f = refl
update_op-append (o ∷ ops) op f = ap (λ l. o ∷ l) (update_op-append ops op f)

-- The session after the request `op` was added at the end of the store and sent to its app.
abbrev pub sent_session : ℕ → Bool → ClientOp → ℕ → Session → Session
sent_session g sync op app s = record s {
  open_ops = insert g (length s.ops) s.open_ops;
  ops = s.ops ++ record op { is_pin_request = true; close_on_sync = sync; app_ctx = some app } ∷ [];
  inbox = s.inbox ++ (app, length s.ops) ∷ [];
}

submit_to_app_chosen :
    (r : Route) (i : ℕ) (s : Session) (op : ClientOp) (app : ℕ)
    → get_elem? s.ops i ≡ some op
    → (r.has_url && not (r.url_parses && r.query_parses)) ≡ false
    → choose_app_ctx op.app_ctx r ≡ ok app
    → submit_to_app r i s ≡ send_to_inbox app i s
unfolding submit_to_app submit_with
submit_to_app_chosen r i s op app e parses chosen =
    if_false _ _ parses ∙ rw e (ap (submit_with i s) chosen)

-- submitToApp of the last request of the store.
submit_added_last :
    (sync : Bool) (r : Route) (s t : Session) (op : ClientOp) (app : ℕ)
    → t.ops ≡ s.ops ++ op ∷ []
    → (r.has_url && not (r.url_parses && r.query_parses)) ≡ false
    → choose_app_ctx op.app_ctx r ≡ ok app
    → submit_added (mark_op (pin_request sync)) r (t, ok (length s.ops)) ≡ (
      record t {
        ops =
            s.ops
            ++ record op { is_pin_request = true; close_on_sync = sync; app_ctx = some app } ∷ [];
        inbox = t.inbox ++ (app, length s.ops) ∷ [];
      },
      ok tt,
    )
unfolding submit_added send_to_inbox mark_op
submit_added_last sync r s t op app e parses chosen =
    let i = length s.ops in
    let marked = record op { is_pin_request = true; close_on_sync = sync } in
    let last : update_op t.ops i (mark_op (pin_request sync)) ≡ s.ops ++ marked ∷ [] =
      ap (λ l. update_op l i (mark_op (pin_request sync))) e
      ∙ update_op-append s.ops op (mark_op (pin_request sync)) in
    let send : List ClientOp → Session × Result (Unit {0}) =
      λ l. send_to_inbox app i (record t { ops = l }) in
    ap (λ l. submit_to_app r i (record t { ops = l })) last
    ∙ submit_to_app_chosen r i (record t { ops = s.ops ++ marked ∷ [] }) marked app
        (get_elem?-length s.ops marked) parses chosen
    ∙ ap (λ l. (record t { ops = l; inbox = t.inbox ++ (app, i) ∷ [] }, ok tt))
        (update_op-append s.ops marked (λ o. record o { app_ctx = some app }))

finish_incoming_ok :
    (sync : Bool) (g : ℕ) (s : Session) (p : Session × Result ℕ) (r : Route) (t u : Session) (i : ℕ)
    → p ≡ (t, ok i)
    → submit_added (mark_op (pin_request sync)) r (t, ok i) ≡ (u, ok tt)
    → finish_incoming g (submit_added (mark_op (pin_request sync)) r p) ≡ (u, ok tt)
unfolding finish_incoming
finish_incoming_ok sync g s p r t u i e f =
    ap (λ q. finish_incoming g (submit_added (mark_op (pin_request sync)) r q)) e
    ∙ ap (finish_incoming g) f

-- A pin request with a new ID, no parent, a URL that parses, and an app that the host has: the
-- request becomes open with its StateSync and comes last in the inbox of that app, and nothing else
-- changes.
pub handle_incoming_op_accepts :
    (tx : TxMsg) (sync : Bool) (r : Route) (s : Session) (app : ℕ)
    → tx.genesis_id ≢ 0
    → tx.context_id ≡ 0
    → lookup tx.genesis_id s.open_ops ≡ none
    → (r.has_url && r.url_parses && r.query_parses) ≡ true
    → r.app ≡ ok app
    → handle_incoming_op tx (pin_request sync) r s
      ≡ (sent_session tx.genesis_id sync (new_op tx.genesis_id) app s, ok tt)
unfolding new_op adopt choose_app_ctx app_ctx_for
handle_incoming_op_accepts tx sync r s app n root e parses served =
    let g = tx.genesis_id in
    let f : (g == 0) ≡ false = ground arith in
    let u : r.has_url ≡ true = ground arith in
    handle_added tx (pin_request sync) r s (inr (sync, refl))
    ∙ ap
        (λ c. finish_incoming g (submit_added (mark_op (pin_request sync)) r (add_client_op g c s)))
        root
    ∙ finish_incoming_ok sync g s _ r (opened_session g s) _ (length s.ops)
        (add_client_op_new g 0 s f e)
        (submit_added_last sync r s (opened_session g s) (new_op g) app refl (ground arith)
          (if_true _ _ u ∙ served))
