-- ===== src/Host/Session/Incoming/Laws.antt =====
-- handleIncomingOp keeps the bookkeeping and touches no other request; its rejections.
use amp_host_go.Base.{
  ℕ, ◌≡◌, ◌≢◌, ◌⊎◌, refl, ap, ◌∙◌, Bool, true, not, ◌&&◌, none, some, arith, length, get_elem?,
  Bool-cases, Option-cases, inl, inr,
}
use amp_host_go.Base.Assoc.{lookup}
use amp_host_go.Host.Session.{
  bad_request, Result, ok, err, blocks, TxMsg, MetaCheck, failed, no_attr, pin_request, unsupported,
  Route, ClientOp, Session, update_op,
}
use amp_host_go.Host.Session.Closing.Laws.{
  IsConsistent, Keeps, update-IsConsistent, close_op-IsConsistent, lookup-close_op, close_op-open,
  closed_session,
}
use amp_host_go.Host.Session.Adding.{add_client_op}
use amp_host_go.Host.Session.Adding.Laws.{
  SameOpen, add_client_op-IsConsistent, lookup-add_client_op, add_client_op_used,
  add_client_op_self, opened_session,
}
use amp_host_go.Host.Session.Incoming.{
  send_to_inbox, submit_to_app, submit_with, choose_app_ctx, finish_incoming, submit_added, mark_op,
  handle_incoming_op,
}

send_to_inbox-SameOpen : (app i : ℕ) (s : Session) → SameOpen s (send_to_inbox app i s).0
unfolding send_to_inbox
send_to_inbox-SameOpen app i s = (
  refl,
  update-IsConsistent s _ i (λ o. record o { app_ctx = some app }) (λ op. (refl, refl, refl)) refl
      refl,
)

submit_with-SameOpen : (i : ℕ) (s : Session) (a : Result ℕ) → SameOpen s (submit_with i s a).0
unfolding submit_with
submit_with-SameOpen i s (ok app) = send_to_inbox-SameOpen app i s
submit_with-SameOpen i s (err e) = (refl, λ v. v)
submit_with-SameOpen i s blocks = (refl, λ v. v)

submit_to_app-SameOpen : (r : Route) (i : ℕ) (s : Session) → SameOpen s (submit_to_app r i s).0
unfolding submit_to_app
submit_to_app-SameOpen r i s =
    elim (Bool-cases (r.has_url && not (r.url_parses && r.query_parses))) [
      | inl t ↦ rw (submit_to_app, t) (refl, λ v. v)
      | inr f ↦ elim (Option-cases (get_elem? s.ops i)) [
        | inl e ↦ rw (submit_to_app, f, e) (refl, λ v. v)
        | inr (op, e) ↦
            rw (submit_to_app, f, e) (submit_with-SameOpen i s (choose_app_ctx op.app_ctx r))
      ]
    ]

pub submit_added-SameOpen :
    (mark : ClientOp → ClientOp) (r : Route) (p : Session × Result ℕ)
    → Keeps mark
    → SameOpen p.0 (submit_added mark r p).0
unfolding submit_added
submit_added-SameOpen mark r (s, ok i) k =
    let (o, c) = submit_to_app-SameOpen r i (record s { ops = update_op s.ops i mark }) in
    (o, λ v. c (update-IsConsistent s _ i mark k refl refl v))
submit_added-SameOpen mark r (s, err e) k = (refl, λ v. v)
submit_added-SameOpen mark r (s, blocks) k = (refl, λ v. v)

-- What handleIncomingOp does to the open requests: all others stay.
pub record IsConfined (g : ℕ) (s t : Session) : Type 0 where
  pub consistent : IsConsistent t
  pub others : (j : ℕ) → g ≢ j → lookup j t.open_ops ≡ lookup j s.open_ops

pub finish_incoming-IsConfined :
    (g : ℕ) (s : Session) (p : Session × Result (Unit {0}))
    → IsConfined g s p.0
    → IsConfined g s (finish_incoming g p).0
unfolding finish_incoming
finish_incoming-IsConfined g s (t, ok u) c = c
finish_incoming-IsConfined g s (t, blocks) c = c
finish_incoming-IsConfined g s (t, err e) c = record {
  consistent = close_op-IsConsistent t g (some e) true c.consistent;
  others = λ j n. lookup-close_op t g j (some e) true c.consistent ∙ ground (arith, c.others j n);
}

submit-IsConfined :
    (mark : ClientOp → ClientOp) (g parent_req_id : ℕ) (r : Route) (s : Session)
    → Keeps mark
    → IsConsistent s
    → IsConfined g s (submit_added mark r (add_client_op g parent_req_id s)).0
submit-IsConfined mark g parent_req_id r s k v =
    let p = add_client_op g parent_req_id s in
    let (o, c) = submit_added-SameOpen mark r p k in
    record {
      consistent = c (add_client_op-IsConsistent g parent_req_id s v);
      others = λ j n. ap (lookup j) o ∙ lookup-add_client_op g parent_req_id j s n;
    }

pub mark_op-Keeps : (check : MetaCheck) → Keeps (mark_op check)
unfolding mark_op
mark_op-Keeps (pin_request sync) op = (refl, refl, refl)
mark_op-Keeps _ op = (refl, refl, refl)

-- Whatever a message brings, and however handling it ends, the bookkeeping stays consistent and
-- no request but the one of the message's own ID is opened or closed.
pub handle_incoming_op-IsConfined :
    (tx : TxMsg) (check : MetaCheck) (r : Route) (s : Session)
    → IsConsistent s
    → IsConfined tx.genesis_id s (handle_incoming_op tx check r s).0
unfolding handle_incoming_op
handle_incoming_op-IsConfined tx (failed e) r s v =
    finish_incoming-IsConfined tx.genesis_id s (s, err e)
      (record { consistent = v; others = λ j n. refl })
handle_incoming_op-IsConfined tx unsupported r s v =
    finish_incoming-IsConfined tx.genesis_id s (s, err bad_request)
      (record { consistent = v; others = λ j n. refl })
handle_incoming_op-IsConfined tx no_attr r s v =
    finish_incoming-IsConfined tx.genesis_id s _ (
      submit-IsConfined (mark_op no_attr) tx.genesis_id tx.context_id r s (mark_op-Keeps no_attr) v)
handle_incoming_op-IsConfined tx (pin_request sync) r s v =
    finish_incoming-IsConfined tx.genesis_id s _ (
      submit-IsConfined (mark_op (pin_request sync)) tx.genesis_id tx.context_id r s
        (mark_op-Keeps (pin_request sync)) v)

-- The messages that open a request.
abbrev pub Opens : MetaCheck → Type 0
Opens check = (check ≡ no_attr) ⊎ ((sync : Bool) × (check ≡ pin_request sync))

pub handle_added :
    (tx : TxMsg) (check : MetaCheck) (r : Route) (s : Session)
    → Opens check
    → handle_incoming_op tx check r s
      ≡ finish_incoming tx.genesis_id
          (submit_added (mark_op check) r (add_client_op tx.genesis_id tx.context_id s))
unfolding handle_incoming_op
handle_added tx check r s (inl e) = rw e refl
handle_added tx check r s (inr (sync, e)) = rw e refl

-- A message whose ID is that of an open request closes that request: it is detached, cancelled and
-- told about a bad request.
pub handle_incoming_op_duplicate :
    (tx : TxMsg) (check : MetaCheck) (r : Route) (s : Session) (i : ℕ) (op : ClientOp)
    → IsConsistent s
    → Opens check
    → tx.genesis_id ≢ 0
    → lookup tx.genesis_id s.open_ops ≡ some i
    → get_elem? s.ops i ≡ some op
    → handle_incoming_op tx check r s
      ≡ (closed_session s tx.genesis_id i op (some bad_request) true, ok tt)
unfolding finish_incoming submit_added
handle_incoming_op_duplicate tx check r s i op v opens n e g =
    handle_added tx check r s opens
    ∙ ap (λ p. finish_incoming tx.genesis_id (submit_added (mark_op check) r p))
        (add_client_op_used tx.genesis_id tx.context_id i s (ground arith) e)
    ∙ ap (λ t. (t, ok tt)) (close_op-open s tx.genesis_id i op (some bad_request) true v e g)

-- A message that names its own new ID as its parent leaves the session's loop waiting, with
-- openOpsMu held, for the request that it has just opened.
pub handle_incoming_op_self :
    (tx : TxMsg) (check : MetaCheck) (r : Route) (s : Session)
    → Opens check
    → tx.genesis_id ≢ 0
    → tx.context_id ≡ tx.genesis_id
    → lookup tx.genesis_id s.open_ops ≡ none
    → handle_incoming_op tx check r s ≡ (
      record (opened_session tx.genesis_id s) {
        waiting = some (record { child_at = length s.ops; parent_at = length s.ops });
      },
      blocks,
    )
unfolding finish_incoming submit_added
handle_incoming_op_self tx check r s opens n same e =
    handle_added tx check r s opens
    ∙ ap (λ p. finish_incoming tx.genesis_id (submit_added (mark_op check) r p))
        (ap (λ c. add_client_op tx.genesis_id c s) same ∙ add_client_op_self tx.genesis_id s n e)
