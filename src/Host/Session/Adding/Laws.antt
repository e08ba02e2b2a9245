-- ===== src/Host/Session/Adding/Laws.antt =====
-- addClientOp keeps the bookkeeping, adds at most its own ID, and can wait for itself.
use mathlib.Core.Bool.{true≢false}
use amp_host_go.Base.{
  sym, ℕ, ◌≡◌, ◌≢◌, refl, ap, ◌∙◌, true, false, none, some, [], ◌∷◌, ◌++◌, ◌==◌, arith, length,
  get_elem?, get_elem?-append, get_elem?-length, All-map, All-append, Bool-cases, Option-cases, inl,
  inr, if_true, if_false,
}
use amp_host_go.Base.Assoc.{lookup, insert, lookup-insert, IsDistinct-insert, All-delete}
use amp_host_go.Host.Session.{
  bad_request, Result, ok, err, blocks, ClientOp, Session, update_op, wait_on_ready,
}
use amp_host_go.Host.Session.Closing.Laws.{IsConsistent, update-IsConsistent}
use amp_host_go.Host.Session.Adding.{
  new_op, with_parent, take_parent, wait_for_parent, adopt, add_client_op,
}

-- The bookkeeping reads only the open requests and the store.
pub same-IsConsistent :
    (s t : Session) → t.open_ops ≡ s.open_ops → t.ops ≡ s.ops → IsConsistent s → IsConsistent t
same-IsConsistent s t o p v = record {
  distinct = rw o v.distinct;
  opened = rw (o, p) v.opened;
  ended = rw p v.ended;
}

-- The session with a new request in the store, not open yet, and open under its ID.
abbrev pub made_session : ℕ → Session → Session
made_session g s = record s { ops = s.ops ++ new_op g ∷ [] }

abbrev pub opened_session : ℕ → Session → Session
opened_session g s = record (made_session g s) { open_ops = insert g (length s.ops) s.open_ops }

made-IsConsistent : (g : ℕ) (s : Session) → IsConsistent s → IsConsistent (made_session g s)
unfolding new_op
made-IsConsistent g s v = record {
  distinct = v.distinct;
  opened =
      All-map _ _ s.open_ops
        (λ e (z, (op, h, d, c)). (z, (op, get_elem?-append s.ops _ e.1 h, d, c))) v.opened;
  ended = All-append _ s.ops _ v.ended (λ e. absurd (true≢false (sym e)), tt);
}

opened-IsConsistent :
    (g : ℕ) (s : Session) → g ≢ 0 → IsConsistent s → IsConsistent (opened_session g s)
unfolding insert new_op
opened-IsConsistent g s n v =
    let w = made-IsConsistent g s v in
    record {
      distinct = IsDistinct-insert g (length s.ops) s.open_ops v.distinct;
      opened = (
        (n, (new_op g, get_elem?-length s.ops (new_op g), refl, refl)),
        All-delete _ g s.open_ops w.opened,
      );
      ended = w.ended;
    }

-- Taking the parent over changes neither the open requests nor the bookkeeping.
abbrev pub SameOpen : Session → Session → Type 0
SameOpen s t = (t.open_ops ≡ s.open_ops) × (IsConsistent s → IsConsistent t)

take_parent-SameOpen :
    (i : ℕ) (parent : ClientOp) (s t : Session) (r : Result (Unit {0}))
    → t.open_ops ≡ s.open_ops
    → t.ops ≡ s.ops
    → SameOpen s (take_parent i parent t r).0
unfolding take_parent
take_parent-SameOpen i parent s t (ok u) o p = (
  o,
  λ v.
      update-IsConsistent s _ i (with_parent parent) (λ op. (refl, refl, refl)) o
        (ap (λ l. update_op l i (with_parent parent)) p) v,
)
take_parent-SameOpen i parent s t (err e) o p = (o, λ v. same-IsConsistent s _ o p v)
take_parent-SameOpen i parent s t blocks o p = (o, λ v. same-IsConsistent s _ o p v)

pub wait_for_parent-SameOpen : (i p : ℕ) (s : Session) → SameOpen s (wait_for_parent i p s).0
unfolding wait_for_parent
wait_for_parent-SameOpen i p s = elim (Option-cases (get_elem? s.ops p)) [
  | inl e ↦ rw (wait_for_parent, e) (refl, λ v. v)
  | inr (op, e) ↦
      rw (wait_for_parent, e) (take_parent-SameOpen i op s _ (wait_on_ready s op) refl refl)
]

adopt-SameOpen : (i parent_req_id : ℕ) (s : Session) → SameOpen s (adopt i parent_req_id s).0
unfolding adopt
adopt-SameOpen i parent_req_id s = elim (Bool-cases (parent_req_id == 0)) [
  | inl t ↦ rw (adopt, t) (refl, λ v. v)
  | inr f ↦ elim (Option-cases (lookup parent_req_id s.open_ops)) [
    | inl e ↦ rw (adopt, f, e) (refl, λ v. v)
    | inr (p, e) ↦ rw (adopt, f, e) (wait_for_parent-SameOpen i p s)
  ]
]

-- addClientOp by its three cases: no ID, an ID that is open already, and a new ID.
pub add_client_op_nil :
    (g parent_req_id : ℕ) (s : Session)
    → (g == 0) ≡ true
    → add_client_op g parent_req_id s ≡ adopt (length s.ops) parent_req_id (made_session g s)
unfolding add_client_op
add_client_op_nil g parent_req_id s h = if_true _ _ h

pub add_client_op_used :
    (g parent_req_id i : ℕ) (s : Session)
    → (g == 0) ≡ false
    → lookup g s.open_ops ≡ some i
    → add_client_op g parent_req_id s ≡ (s, err bad_request)
unfolding add_client_op
add_client_op_used g parent_req_id i s h e = if_false _ _ h ∙ rw e refl

pub add_client_op_new :
    (g parent_req_id : ℕ) (s : Session)
    → (g == 0) ≡ false
    → lookup g s.open_ops ≡ none
    → add_client_op g parent_req_id s ≡ adopt (length s.ops) parent_req_id (opened_session g s)
unfolding add_client_op
add_client_op_new g parent_req_id s h e = if_false _ _ h ∙ rw e refl

-- addClientOp keeps the bookkeeping consistent, on success, error and wait.
pub add_client_op-IsConsistent :
    (g parent_req_id : ℕ) (s : Session)
    → IsConsistent s
    → IsConsistent (add_client_op g parent_req_id s).0
add_client_op-IsConsistent g parent_req_id s v = elim (Bool-cases (g == 0)) [
  | inl t ↦
      rw (add_client_op_nil g parent_req_id s t) (
        (adopt-SameOpen (length s.ops) parent_req_id (made_session g s)).1
          (made-IsConsistent g s v))
  | inr f ↦ elim (Option-cases (lookup g s.open_ops)) [
    | inr (i, e) ↦ rw (add_client_op_used g parent_req_id i s f e) v
    | inl e ↦ rw (add_client_op_new g parent_req_id s f e) (
        (adopt-SameOpen (length s.ops) parent_req_id (opened_session g s)).1
          (opened-IsConsistent g s (ground arith) v))
  ]
]

-- addClientOp leaves every other ID as it was.
pub lookup-add_client_op :
    (g parent_req_id j : ℕ) (s : Session)
    → g ≢ j
    → lookup j (add_client_op g parent_req_id s).0.open_ops ≡ lookup j s.open_ops
lookup-add_client_op g parent_req_id j s n = elim (Bool-cases (g == 0)) [
  | inl t ↦
      rw (add_client_op_nil g parent_req_id s t)
        (ap (lookup j) (adopt-SameOpen (length s.ops) parent_req_id (made_session g s)).0)
  | inr f ↦ elim (Option-cases (lookup g s.open_ops)) [
    | inr (i, e) ↦ rw (add_client_op_used g parent_req_id i s f e) refl
    | inl e ↦ rw (add_client_op_new g parent_req_id s f e) (
        ap (lookup j) (adopt-SameOpen (length s.ops) parent_req_id (opened_session g s)).0
        ∙ lookup-insert g j (length s.ops) s.open_ops
        ∙ ground arith)
  ]
]

-- The wait for a request that is in the store and not started.
pub wait_for_parent_unstarted :
    (i p : ℕ) (s : Session) (parent : ClientOp)
    → get_elem? s.ops p ≡ some parent
    → parent.started ≡ false
    → wait_for_parent i p s
      ≡ (record s { waiting = some (record { child_at = i; parent_at = p }) }, blocks)
unfolding wait_for_parent
wait_for_parent_unstarted i p s parent e h = ground arith

pub adopt_found :
    (i g p : ℕ) (s : Session)
    → (g == 0) ≡ false
    → lookup g s.open_ops ≡ some p
    → adopt i g s ≡ wait_for_parent i p s
unfolding adopt
adopt_found i g p s f e = if_false _ _ f ∙ rw e refl

-- A request that names itself as its parent: the call takes openOpsMu, opens the request, and
-- then waits for that same request to be started.
pub add_client_op_self :
    (g : ℕ) (s : Session)
    → g ≢ 0
    → lookup g s.open_ops ≡ none
    → add_client_op g g s ≡ (
      record (opened_session g s) {
        waiting = some (record { child_at = length s.ops; parent_at = length s.ops });
      },
      blocks,
    )
unfolding new_op
add_client_op_self g s n e =
    let f : (g == 0) ≡ false = ground arith in
    let here : lookup g (opened_session g s).open_ops ≡ some (length s.ops) =
      lookup-insert g g (length s.ops) s.open_ops ∙ ground arith in
    add_client_op_new g g s f e
    ∙ adopt_found (length s.ops) g (length s.ops) (opened_session g s) f here
    ∙ wait_for_parent_unstarted (length s.ops) (length s.ops) (opened_session g s) (new_op g)
        (get_elem?-length s.ops (new_op g)) refl
