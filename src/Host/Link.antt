-- ===== src/Host/Link.antt =====
-- amp/host/host.go: the two loops of StartNewSession between a session and its transport, and SendTx.
-- A step is one message or one signal. Which case a select takes when several are ready, and what
-- the transport answers, are arguments. Messages that are nil are left out.
pub mod Fifo
use amp_host_go.Base.{
  ℕ, Bool, true, false, not, ◌&&◌, ◌||◌, Option, none, some, List, [], ◌∷◌, ◌++◌, ◌==◌, ltb,
  if◌then◌else◌, length,
}
use amp_host_go.Host.Session.{TxMsg, OpStatus, synced}

-- `accepted` and `via_sent` log what SendTx has put into txOut and what was given to the transport,
-- `received` and `handed` what came from it and what the session took from txIn.
pub record Link : Type 0 where
  pub login_id : ℕ
  pub tx_out : List TxMsg
  pub accepted : List TxMsg
  pub via_sent : List TxMsg
  pub received : List TxMsg
  pub pending : Option TxMsg
  pub handed : List TxMsg
  pub is_closing : Bool
  pub is_done : Bool
  pub via_closed : Bool
  pub out_running : Bool
  pub in_running : Bool

pub data Sent : Type 0 where
  sent shutting_down waits : Sent

-- SendTx's change of the message.
unfoldable pub with_context : ℕ → TxMsg → TxMsg
with_context login_id tx =
    if tx.context_id == 0 then record tx { context_id = login_id; status = synced } else tx

-- The capacity of txOut is 4; `prefers` says which case the select takes if it can take both.
unfoldable pub send_tx : TxMsg → Bool → Link → Link × Sent
unfolding with_context
send_tx tx prefers s =
    let routed = with_context s.login_id tx in
    if ltb (length s.tx_out) 4 && (prefers || not s.is_closing)
    then (record s { tx_out = s.tx_out ++ routed ∷ []; accepted = s.accepted ++ routed ∷ [] }, sent)
    else (s, if s.is_closing then shutting_down else waits)

-- The loop that sends: a message of txOut, whose error is only logged.
unfoldable pub forward : Link → Link
forward s =
    if s.out_running
    then elim s.tx_out [
      | [] ↦ s
      | tx ∷ rest ↦ record s { tx_out = rest; via_sent = s.via_sent ++ tx ∷ [] }
    ]
    else s

-- The same loop when the session is done.
unfoldable pub finish_out : Link → Link
finish_out s =
    if s.out_running && s.is_done then record s { via_closed = true; out_running = false } else s

-- The loop that receives: RecvTx gives a message or an error.
unfoldable pub receive : Option TxMsg → Link → Link
receive got s = elim s.pending [
  | some _ ↦ s
  | none ↦
      if s.in_running
      then elim got [
        | none ↦ record s { is_closing = true; in_running = false }
        | some tx ↦ record s { received = s.received ++ tx ∷ []; pending = some tx }
      ]
      else s
]

-- The session takes the message from txIn, or is done.
unfoldable pub hand_over : Bool → Link → Link
hand_over takes s = elim s.pending [
  | none ↦ s
  | some tx ↦
      if takes && not s.is_done
      then record s { handed = s.handed ++ tx ∷ []; pending = none }
      else (if s.is_done then record s { pending = none; in_running = false } else s)
]

pub data LinkEvent : Type 0 where
  posts : TxMsg → Bool → LinkEvent
  forwards finishes_out : LinkEvent
  receives : Option TxMsg → LinkEvent
  hands_over : Bool → LinkEvent
  starts_closing is_done_now : LinkEvent

unfoldable pub link_step : LinkEvent → Link → Link
unfolding send_tx forward finish_out receive hand_over
link_step (posts tx prefers) s = (send_tx tx prefers s).0
link_step forwards s = forward s
link_step finishes_out s = finish_out s
link_step (receives got) s = receive got s
link_step (hands_over takes) s = hand_over takes s
link_step starts_closing s = record s { is_closing = true }
link_step is_done_now s = record s { is_closing = true; is_done = true }

unfoldable pub link_run : List LinkEvent → Link → Link
unfolding link_step
link_run [] s = s
link_run (e ∷ es) s = link_run es (link_step e s)

abbrev pub new_link : ℕ → Link
new_link login_id = record {
  login_id = login_id;
  tx_out = [];
  accepted = [];
  via_sent = [];
  received = [];
  pending = none;
  handed = [];
  is_closing = false;
  is_done = false;
  via_closed = false;
  out_running = true;
  in_running = true;
}
