-- ===== src/Host/Login.antt =====
-- amp/host/host.go: handleLogin, and the start of a session's OnRun. A tag.ID is a number, and 0 the
-- nil ID. What the two selects, the registry and SendMetaAttr answer are arguments; of the loaded
-- values only the user's ID and text count.
pub mod Accepted
use amp_host_go.Base.{
  ℕ, Bool, true, false, not, Option, none, some, List, [], ◌∷◌, ◌++◌, ◌==◌, if◌then◌else◌,
}
use amp_host_go.Base.Bytes.{Bytes}

pub record UserUid : Type 0 where
  pub tag_id : ℕ
  pub text : Bytes

pub data LoginError : Type 0 where
  login_failed timed_out session_closes load_failed app_error send_failed : LoginError

-- How the select of nextTxValue ends: with a message of that genesis ID, from which the value is
-- loaded unless that fails.
pub data Received (A : Type 0) : Type 0 where
  takes : ℕ → Option A → Received A
  timer_fires sees_closing : Received A

pub data LoginAttr : Type 0 where
  login_challenge login_checkpoint : LoginAttr

pub record LoginAnswers : Type 0 where
  pub from_token : Bytes → ℕ
  pub first : Received UserUid
  -- appContextForAppID of the space app
  pub app_ready : Bool
  pub challenge_sent : Bool
  pub second : Received (Unit {0})
  pub checkpoint_sent : Bool

-- LoginInfo, and the attributes that were sent with their context IDs.
pub record LoginInfo : Type 0 where
  pub login_id : ℕ
  pub user_id : ℕ
  pub sent : List (ℕ × LoginAttr)

unfoldable pub next_tx_value : {A : Type 0} → Received A → Option (ℕ × A) × LoginError
next_tx_value (takes tx_id (some val)) = (some (tx_id, val), login_failed)
next_tx_value (takes tx_id none) = (none, load_failed)
next_tx_value timer_fires = (none, timed_out)
next_tx_value sees_closing = (none, session_closes)

unfoldable pub user_id_of : (Bytes → ℕ) → UserUid → ℕ
user_id_of from_token uid = if uid.tag_id == 0 then from_token uid.text else uid.tag_id

-- From the second nextTxValue on.
unfoldable pub finish_login : LoginAnswers → LoginInfo → LoginInfo × Option LoginError
unfolding next_tx_value
finish_login a s = elim (next_tx_value a.second).0 [
  | none ↦ (s, some (next_tx_value a.second).1)
  | some _ ↦
      if not a.checkpoint_sent
      then (s, some send_failed)
      else (record s { sent = s.sent ++ (s.login_id, login_checkpoint) ∷ [] }, none)
]

unfoldable pub handle_login : LoginAnswers → LoginInfo → LoginInfo × Option LoginError
unfolding next_tx_value user_id_of finish_login
handle_login a s = elim (next_tx_value a.first).0 [
  | none ↦ (s, some (next_tx_value a.first).1)
  | some (login_id, uid) ↦
      let user_id = user_id_of a.from_token uid in
      let named = record s { login_id = login_id; user_id = user_id } in
      if user_id == 0
      then (s, some login_failed)
      else (if not a.app_ready
          then (named, some app_error)
          else (if not a.challenge_sent
              then (named, some send_failed)
              else finish_login a
                  (record named { sent = named.sent ++ (login_id, login_challenge) ∷ [] })))
]

-- What OnRun does next.
pub data Next : Type 0 where
  consumes_inbox closes_session : Next

unfoldable pub on_run : LoginAnswers → LoginInfo → LoginInfo × Next
unfolding handle_login
on_run a s = elim (handle_login a s).1 [
  | none ↦ ((handle_login a s).0, consumes_inbox)
  | some _ ↦ ((handle_login a s).0, closes_session)
]

abbrev pub new_login : LoginInfo
new_login = record { login_id = 0; user_id = 0; sent = [] }
