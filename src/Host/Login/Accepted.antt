-- ===== src/Host/Login/Accepted.antt =====
-- When a session accepts a login.
use mathlib.Core.Path.{subst}
use mathlib.Core.Bool.{true≢false}
use amp_host_go.Base.{
  ℕ, ◌≡◌, ◌≢◌, refl, sym, ap, ◌∙◌, Bool, true, false, not, Option, none, some, [], ◌∷◌, ◌==◌,
  if◌then◌else◌, Bool-cases, if_true, if_false, ==_iff, inl, inr,
}
use amp_host_go.Base.Bytes.{Bytes}
use amp_host_go.Host.Login.{
  UserUid, LoginError, app_error, send_failed, Received, takes, timer_fires, sees_closing,
  login_challenge, login_checkpoint, LoginAnswers, LoginInfo, next_tx_value, user_id_of,
  finish_login, handle_login, Next, consumes_inbox, closes_session, on_run, new_login,
}

-- The client has given a user that has an ID, and has answered, and all else worked.
pub record IsAccepted (a : LoginAnswers) (login_id user_id : ℕ) : Type 0 where
  pub uid : UserUid
  pub response_id : ℕ
  pub logs_in : a.first ≡ takes login_id (some uid)
  pub is_user : user_id_of a.from_token uid ≡ user_id
  pub not_nil : user_id ≢ 0
  pub app_ok : a.app_ready ≡ true
  pub challenge_ok : a.challenge_sent ≡ true
  pub responds : a.second ≡ takes response_id (some tt)
  pub checkpoint_ok : a.checkpoint_sent ≡ true

-- What is left of the login when the session does not go on: nothing after the challenge was sent.
pub data IsRefused : LoginInfo → Type 0 where
  unnamed : IsRefused new_login
  named :
      (login_id user_id : ℕ)
      → user_id ≢ 0
      → IsRefused (record { login_id = login_id; user_id = user_id; sent = [] })
  challenged :
      (login_id user_id : ℕ)
      → user_id ≢ 0
      → IsRefused (record {
        login_id = login_id;
        user_id = user_id;
        sent = (login_id, login_challenge) ∷ [];
      })

abbrev pub logged_in : ℕ → ℕ → LoginInfo
logged_in login_id user_id = record {
  login_id = login_id;
  user_id = user_id;
  sent = (login_id, login_challenge) ∷ (login_id, login_checkpoint) ∷ [];
}

pub data LoginOutcome (a : LoginAnswers) : LoginInfo × Next → Type 0 where
  accepted :
      (login_id user_id : ℕ)
      → IsAccepted a login_id user_id
      → LoginOutcome a (logged_in login_id user_id, consumes_inbox)
  refused :
      (s : LoginInfo)
      → IsRefused s
      → ((login_id user_id : ℕ) → IsAccepted a login_id user_id → ⊥)
      → LoginOutcome a (s, closes_session)

abbrev next_of : LoginInfo × Option LoginError → LoginInfo × Next
next_of r = elim r.1 [ none ↦ (r.0, consumes_inbox) | some _ ↦ (r.0, closes_session) ]

-- What handleLogin does once the user has an ID.
abbrev go_on : LoginAnswers → ℕ → ℕ → LoginInfo × Option LoginError
go_on a login_id user_id =
    let named : LoginInfo = record { login_id = login_id; user_id = user_id; sent = [] } in
    if not a.app_ready
    then (named, some app_error)
    else (if not a.challenge_sent
        then (named, some send_failed)
        else finish_login a (record named { sent = (login_id, login_challenge) ∷ [] }))

abbrev answers :
    (Bytes → ℕ) → Received UserUid → Bool → Bool → Received (Unit {0}) → Bool → LoginAnswers
answers f first app_ready challenge second checkpoint = record {
  from_token = f;
  first = first;
  app_ready = app_ready;
  challenge_sent = challenge;
  second = second;
  checkpoint_sent = checkpoint;
}

gone_on :
    (f : Bytes → ℕ) (id : ℕ) (uid : UserUid) (app_ready challenge : Bool)
    (second : Received (Unit {0})) (checkpoint : Bool)
    → user_id_of f uid ≢ 0
    → LoginOutcome (answers f (takes id (some uid)) app_ready challenge second checkpoint) (
        next_of (
          go_on
            (answers f (takes id (some uid)) app_ready challenge second checkpoint)
            id
            (user_id_of f uid)))
unfolding finish_login next_tx_value
gone_on f id uid false challenge second checkpoint n =
    refused _ (named id _ n) (λ l u h. cc h.app_ok)
gone_on f id uid true false second checkpoint n =
    refused _ (named id _ n) (λ l u h. cc h.challenge_ok)
gone_on f id uid true true timer_fires checkpoint n =
    refused _ (challenged id _ n) (λ l u h. cc h.responds)
gone_on f id uid true true sees_closing checkpoint n =
    refused _ (challenged id _ n) (λ l u h. cc h.responds)
gone_on f id uid true true (takes r none) checkpoint n =
    refused _ (challenged id _ n) (λ l u h. cc h.responds)
gone_on f id uid true true (takes r (some tt)) false n =
    refused _ (challenged id _ n) (λ l u h. cc h.checkpoint_ok)
gone_on f id uid true true (takes r (some tt)) true n = accepted id (user_id_of f uid) (record {
  uid = uid;
  response_id = r;
  logs_in = refl;
  is_user = refl;
  not_nil = n;
  app_ok = refl;
  challenge_ok = refl;
  responds = refl;
  checkpoint_ok = refl;
})

begun :
    (f : Bytes → ℕ) (first : Received UserUid) (app_ready challenge : Bool)
    (second : Received (Unit {0})) (checkpoint : Bool)
    → LoginOutcome
        (answers f first app_ready challenge second checkpoint)
        (on_run (answers f first app_ready challenge second checkpoint) new_login)
unfolding on_run handle_login next_tx_value
begun f timer_fires app_ready challenge second checkpoint =
    refused _ unnamed (λ l u h. cc h.logs_in)
begun f sees_closing app_ready challenge second checkpoint =
    refused _ unnamed (λ l u h. cc h.logs_in)
begun f (takes id none) app_ready challenge second checkpoint =
    refused _ unnamed (λ l u h. cc h.logs_in)
begun f (takes id (some uid)) app_ready challenge second checkpoint =
    elim (Bool-cases (user_id_of f uid == 0)) [
      | inl z ↦ subst (LoginOutcome a) (sym (ap next_of (if_true _ _ z))) (
          refused _ unnamed (λ l u h.
            let same : uid ≡ h.uid = cc h.logs_in in
            h.not_nil (sym h.is_user ∙ ap (user_id_of f) (sym same) ∙ (==_iff _ 0).0 z)))
      | inr n ↦ subst (LoginOutcome a) (sym (ap next_of (if_false _ _ n))) (
          gone_on f id uid app_ready challenge second checkpoint
            (λ e. true≢false (sym ((==_iff _ 0).1 e) ∙ n)))
    ]
  where
    a : LoginAnswers
    a = answers f (takes id (some uid)) app_ready challenge second checkpoint

-- A session goes on to its inbox exactly if its client has logged in as a user whose ID is not nil
-- and has answered the challenge, and the space app and every sending worked; then the challenge
-- and the checkpoint were sent under the ID of the login. Otherwise the session closes, and no
-- checkpoint was sent.
pub on_run-LoginOutcome : (a : LoginAnswers) → LoginOutcome a (on_run a new_login)
on_run-LoginOutcome a =
    begun a.from_token a.first a.app_ready a.challenge_sent a.second a.checkpoint_sent
