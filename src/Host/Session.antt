-- ===== src/Host/Session.antt =====
-- amp/host/host.go: the open requests of a session. A tag.ID is the number that its three words
-- spell, and 0 is the nil ID. A request is shared by the session, its app and its children, so
-- requests stand in a store and are named by their place in it; the map openOps goes from request
-- IDs to places. `meta_calls` logs the calls of amp.SendMetaAttr in their
-- order, whose SendTx drops what it is given once the session is closing.
pub mod Closing
pub mod Adding
pub mod Incoming
pub mod Events
use amp_host_go.Base.{
  ℕ, zero, suc, Bool, true, false, not, ◌&&◌, ◌||◌, Option, none, some, List, [], ◌∷◌, ◌++◌, map,
  ◌==◌, if◌then◌else◌, length, get_elem?, any,
}
use amp_host_go.Base.Assoc.{lookup, delete, insert}

pub data ErrCode : Type 0 where
  bad_request request_closed shutting_down app_error : ErrCode

-- The outcome of a call; `blocks` is a wait that nothing in the state ends.
pub data Result (A : Type 0) : Type 0 where
  ok : A → Result A
  err : ErrCode → Result A
  blocks : Result A

pub data OpStatus : Type 0 where
  synced closed other : OpStatus

pub record TxMsg : Type 0 where
  pub genesis_id : ℕ
  pub context_id : ℕ
  pub status : OpStatus

-- One call of amp.SendMetaAttr that closes a request, with the error it carries.
pub record CloseAttr : Type 0 where
  pub req_id : ℕ
  pub reason : Option ErrCode

pub record ClientOp : Type 0 where
  pub id : ℕ
  -- a request with no ID has an outlet of its own
  pub own_outlet : Bool
  pub is_pin_request : Bool
  pub close_on_sync : Bool
  pub has_commit_tx : Bool
  pub app_ctx : Option ℕ
  pub pin : Option ℕ
  pub parent : Option ℕ
  pub started : Bool
  pub cancelled : Bool
  pub was_closed : Bool

-- What tx.CheckMetaAttr finds in a message.
pub data MetaCheck : Type 0 where
  failed : ErrCode → MetaCheck
  no_attr unsupported : MetaCheck
  -- with whether the request's StateSync is CloseOnSync
  pin_request : Bool → MetaCheck

-- What the message's pin target leads to: whether it has a URL, whether that and its query parse,
-- and the app context that the host has or makes for it.
pub record Route : Type 0 where
  pub has_url : Bool
  pub url_parses : Bool
  pub query_parses : Bool
  pub app : Result ℕ

-- A call of addClientOp that waits for the request at `parent_at` to be started.
pub record Waiting : Type 0 where
  pub child_at : ℕ
  pub parent_at : ℕ

pub record Session : Type 0 where
  pub open_ops : List (ℕ × ℕ)
  pub ops : List ClientOp
  -- the pins whose contexts were told to close
  pub closing_pins : List ℕ
  pub meta_calls : List CloseAttr
  -- messages put into txOut, and into the outlets that requests have of their own
  pub tx_out : List TxMsg
  pub own_out : List (ℕ × TxMsg)
  -- the requests sent to the apps' inboxes and not yet taken, oldest first
  pub inbox : List (ℕ × ℕ)
  -- the request that an app has taken and is serving
  pub serving : List (ℕ × ℕ)
  -- the request that an app failed to serve and whose OnComplete it has called, with the error
  pub failing : List (ℕ × (ℕ × ErrCode))
  -- the call that holds openOpsMu while it waits
  pub waiting : Option Waiting

abbrev pub update_op : List ClientOp → ℕ → (ClientOp → ClientOp) → List ClientOp
update_op [] i f = []
update_op (op ∷ ops) zero f = f op ∷ ops
update_op (op ∷ ops) (suc i) f = op ∷ update_op ops i f

-- clientOp.pinClosed: a request with no pin waits on a nil channel.
unfoldable pub pin_closed : Session → ClientOp → Bool
pin_closed s op = elim op.pin [ none ↦ false | some pin ↦ any (λ p. p == pin) s.closing_pins ]

unfoldable pub wait_on_ready : Session → ClientOp → Result (Unit {0})
unfolding pin_closed
wait_on_ready s op =
    if op.started
    then (if op.cancelled || pin_closed s op then err request_closed else ok tt)
    else blocks
