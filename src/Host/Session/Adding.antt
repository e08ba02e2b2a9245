-- ===== src/Host/Session/Adding.antt =====
-- amp/host/host.go: addClientOp.
pub mod Laws
use amp_host_go.Base.{ℕ, false, none, some, [], ◌∷◌, ◌++◌, ◌==◌, if◌then◌else◌, length, get_elem?}
use amp_host_go.Base.Assoc.{lookup, insert}
use amp_host_go.Host.Session.{
  bad_request, Result, ok, err, blocks, ClientOp, Session, update_op, wait_on_ready,
}

unfoldable pub new_op : ℕ → ClientOp
new_op genesis_id = record {
  id = genesis_id;
  own_outlet = genesis_id == 0;
  is_pin_request = false;
  close_on_sync = false;
  has_commit_tx = false;
  app_ctx = none;
  pin = none;
  parent = none;
  started = false;
  cancelled = false;
  was_closed = false;
}

-- The request with its parent's app context and pin.
abbrev pub with_parent : ClientOp → ClientOp → ClientOp
with_parent parent op = record op { app_ctx = parent.app_ctx; parent = parent.pin }

-- The end of addClientOp, when the parent's state is known.
unfoldable pub take_parent : ℕ → ClientOp → Session → Result (Unit {0}) → Session × Result ℕ
take_parent i parent s (ok _) =
    (record s { ops = update_op s.ops i (with_parent parent); waiting = none }, ok i)
take_parent i parent s (err _) = (record s { waiting = none }, err bad_request)
take_parent i parent s blocks = (s, blocks)

-- WaitOnReady of addClientOp for the request at `p`, with openOpsMu held.
unfoldable pub wait_for_parent : ℕ → ℕ → Session → Session × Result ℕ
unfolding wait_on_ready take_parent
wait_for_parent i p s = elim (get_elem? s.ops p) [
  | none ↦ (s, err bad_request)
  | some parent ↦
      take_parent i parent (record s { waiting = some (record { child_at = i; parent_at = p }) })
        (wait_on_ready s parent)
]

-- The part of addClientOp that looks the parent up.
unfoldable pub adopt : ℕ → ℕ → Session → Session × Result ℕ
unfolding wait_for_parent
adopt i parent_req_id s =
    if parent_req_id == 0 then (s, ok i) else elim (lookup parent_req_id s.open_ops) [
      | none ↦ (s, err bad_request)
      | some p ↦ wait_for_parent i p s
    ]

unfoldable pub add_client_op : ℕ → ℕ → Session → Session × Result ℕ
unfolding adopt new_op
add_client_op genesis_id parent_req_id s =
    let i = length s.ops in
    let made = record s { ops = s.ops ++ new_op genesis_id ∷ [] } in
    let opened = record made { open_ops = insert genesis_id i s.open_ops } in
    if genesis_id == 0 then adopt i parent_req_id made else elim (lookup genesis_id s.open_ops) [
      | some _ ↦ (s, err bad_request)
      | none ↦ adopt i parent_req_id opened
    ]
