-- ===== src/Host/Session/Events/AppAttrs.antt =====
-- amp/host/host.go: GetAppAttr and PutAppAttr, requests of an app to its own session, with no ID.
-- The steps of each between its waits are functions of their own.
use amp_host_go.Base.{ℕ, Bool, true, false, if◌then◌else◌}
use amp_host_go.Host.Session.{bad_request, Result, ok, err, blocks, Route, Session, update_op}
use amp_host_go.Host.Session.Adding.{add_client_op}
use amp_host_go.Host.Session.Incoming.{submit_to_app}

-- pinAppAttr, for StateSync_CloseOnSync or StateSync_None.
unfoldable pub pin_app_attr : Bool → Session → Session × Result ℕ
unfolding add_client_op
pin_app_attr close_on_sync s =
    let (t, added) = add_client_op 0 0 s in
    elim added [
      | ok i ↦ (
        record t {
          ops =
              update_op t.ops i
                (λ o. record o { is_pin_request = true; close_on_sync = close_on_sync });
        },
        ok i,
      )
      | err e ↦ (t, err e)
      | blocks ↦ (t, blocks)
    ]

abbrev pub submitted : ℕ → Session × Result (Unit {0}) → Session × Result ℕ
submitted i (s, ok _) = (s, ok i)
submitted i (s, err e) = (s, err e)
submitted i (s, blocks) = (s, blocks)

-- GetAppAttr up to WaitOnReady.
unfoldable pub get_app_attr : Route → Session → Session × Result ℕ
unfolding pin_app_attr submit_to_app
get_app_attr r s =
    let (t, pinned) = pin_app_attr true s in
    elim pinned [
      | ok i ↦ submitted i (submit_to_app r i t)
      | err e ↦ (t, err e)
      | blocks ↦ (t, blocks)
    ]

-- PutAppAttr up to WaitOnReady; `marshalled` says whether amp.MarshalAttr succeeds.
unfoldable pub put_app_attr : Route → Bool → Session → Session × Result ℕ
unfolding pin_app_attr submit_to_app
put_app_attr r marshalled s =
    let (t, pinned) = pin_app_attr false s in
    elim pinned [
      | ok i ↦
          if marshalled
          then submitted i (
              submit_to_app r i
                (record t { ops = update_op t.ops i (λ o. record o { has_commit_tx = true }) }))
          else (t, err bad_request)
      | err e ↦ (t, err e)
      | blocks ↦ (t, blocks)
    ]
