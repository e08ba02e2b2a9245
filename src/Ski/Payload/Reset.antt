-- ===== src/Ski/Payload/Reset.antt =====
-- The packer after ResetSession.
use mathlib.Core.Path.{subst}
use mathlib.Core.Option.{none-ne-some, some-injective}
use amp_host_go.Base.{
  ℕ, ◌≡◌, refl, sym, ap, ◌∙◌, not, Option, none, some, Option-cases, Bool-cases, ◌⊎◌, inl, inr,
  arith, ◌==◌, if◌then◌else◌, if_true, if_false, ==_iff, length,
}
use amp_host_go.Base.Bytes.{Bytes}
use amp_host_go.Ski.Key.{KeyInfo}
use amp_host_go.Ski.Payload.{
  Env, EnclaveSession, KeyRef, HashKit, Hasher, PayloadPacker, PackError, check_ready,
  reset_session, pack_and_sign, pack_fails, new_hash_kit, cleared, key_not_found, session_not_ready,
  hash_kit_not_found,
}
use amp_host_go.Ski.Payload.Verified.{IsReady}

-- The kit that NewHashKit gives is the one for its own ID.
new_hash_kit_again :
    (v : Env) (id : ℕ) (kit : HashKit)
    → new_hash_kit v id ≡ some kit
    → new_hash_kit v kit.hash_kit_id ≡ some kit
unfolding new_hash_kit
new_hash_kit_again v id kit e = elim (Option-cases (v.hasher_of (if id == 0 then 1 else id))) [
  | inl n ↦ absurd (none-ne-some kit (sym (made id n) ∙ e))
  | inr (h, f) ↦
      let same = some-injective _ _ (sym (made id f) ∙ e) in
      subst (λ (k : HashKit). new_hash_kit v k.hash_kit_id ≡ some k) same
        (ap (λ j. out j (v.hasher_of j)) kept_id ∙ ap (out (if id == 0 then 1 else id)) f)
]
  where
    out : ℕ → Option Hasher → Option HashKit
    out j o = elim o [
      | none ↦ none
      | some h ↦ some (record { hash_kit_id = j; hasher = h; hash_sz = h.size })
    ]

    made :
        (j : ℕ) {o : Option Hasher}
        → v.hasher_of (if j == 0 then 1 else j) ≡ o
        → new_hash_kit v j ≡ out (if j == 0 then 1 else j) o
    made j f = ap (out (if j == 0 then 1 else j)) f

    kept_id :
        (if (if id == 0 then 1 else id) == 0 then 1 else (if id == 0 then 1 else id))
        ≡ (if id == 0 then 1 else id)
    kept_id = ground arith

-- How ResetSession ends.
abbrev pub IsReset : Env → EnclaveSession → KeyRef → PayloadPacker × Option PackError → Type 0
IsReset v session key (p, none) =
    (kit : HashKit) × IsReady v p session kit
    × (session.fetch_key_info key ≡ some p.signing_key)
    × (p.signing_key.key_type ≡ 3)
    × (p.signing_key_ref
        ≡ record { keyring_name = key.keyring_name; pub_key = p.signing_key.pub_key })
IsReset v session key (p, some e) =
    (codec : ℕ) (header body : Bytes) (extra_alloc : ℕ)
    → pack_and_sign v p codec header body extra_alloc ≡ pack_fails session_not_ready

no_session :
    (v : Env) (p : PayloadPacker) (codec : ℕ) (header body : Bytes) (extra_alloc : ℕ)
    → check_ready p ≡ some session_not_ready
    → pack_and_sign v p codec header body extra_alloc ≡ pack_fails session_not_ready
unfolding pack_and_sign
no_session v p codec header body extra_alloc e = rw (pack_and_sign, e) refl

cleared_not_ready :
    (p : PayloadPacker) → p.sign_session ≡ none → check_ready p ≡ some session_not_ready
unfolding check_ready
cleared_not_ready p e = elim (Option-cases p.hash_kit) [
  | inl n ↦ rw (check_ready, n) refl
  | inr (k, s) ↦ rw (check_ready, s, e) refl
]

check_ready-cases :
    (p : PayloadPacker) → (check_ready p ≡ none) ⊎ (check_ready p ≡ some session_not_ready)
unfolding check_ready
check_ready-cases p = elim (Option-cases p.hash_kit) [
  | inl n ↦ inr (rw (check_ready, n) refl)
  | inr (k, s) ↦ elim (Option-cases p.sign_session) [
    | inl n ↦ inr (rw (check_ready, s, n) refl)
    | inr (g, t) ↦ elim (Bool-cases (length p.signing_key_ref.keyring_name == 0)) [
      | inl z ↦ inr (rw (check_ready, s, t, z) refl)
      | inr nz ↦ elim (Bool-cases (p.signing_key.crypto_kit_id == 0)) [
        | inl z ↦ inr (rw (check_ready, s, t, nz, z) refl)
        | inr y ↦ inl (rw (check_ready, s, t, nz, y) refl)
      ]
    ]
  ]
]

-- The only error of checkReady.
only_not_ready :
    (p : PayloadPacker) (e : PackError)
    → check_ready p ≡ some e
    → check_ready p ≡ some session_not_ready
only_not_ready p e h = elim (check_ready-cases p) [
  | inl ok_ ↦ absurd (none-ne-some e (sym ok_ ∙ h))
  | inr bad ↦ bad
]

-- ResetSession ends in one of two ways. With no error, the key that the session gives for the
-- reference is a signing key and has become the packer's, and the packer is ready with the session
-- and a hash kit that NewHashKit gives. With an error, every PackAndSign that follows fails with
-- ErrCode_SessionNotReady, also where the packer was ready before.
pub reset_session-IsReset :
    (v : Env) (session : EnclaveSession) (key : KeyRef) (id : ℕ) (p : PayloadPacker)
    → IsReset v session key (reset_session v session key id p)
unfolding reset_session
reset_session-IsReset v session key id p = elim (Option-cases (session.fetch_key_info key)) [
  | inl n ↦
      subst (IsReset v session key) (sym (ap fetched n))
        (λ c h b x. no_session v (cleared p) c h b x (cleared_not_ready (cleared p) refl))
  | inr (entry, f) ↦
      subst (IsReset v session key) (sym (ap fetched f)) (elim (Bool-cases (entry.key_type == 3)) [
        | inr other ↦
            subst (IsReset v session key) (sym (if_true _ _ (ap not other)))
              (λ c h b x. no_session v (cleared p) c h b x (cleared_not_ready (cleared p) refl))
        | inl signs ↦
            subst (IsReset v session key) (sym (if_false _ _ (ap not signs)))
              (elim (Option-cases (new_hash_kit v id)) [
                | inl m ↦ subst (IsReset v session key) (sym (ap (with_kit entry) m)) (λ c h b x.
                    no_session v (record (cleared p) { hash_kit = none }) c h b x
                      (cleared_not_ready (record (cleared p) { hash_kit = none }) refl))
                | inr (kit, m) ↦
                    subst (IsReset v session key) (sym (ap (with_kit entry) m))
                      (elim (Option-cases (check_ready (ready entry kit))) [
                        | inl ok_ ↦
                            subst (λ o. IsReset v session key (ready entry kit, o)) (sym ok_)
                              (
                                kit,
                                record {
                                  has_session = refl;
                                  has_kit = refl;
                                  ready = ok_;
                                  known = new_hash_kit_again v id kit m;
                                },
                                f,
                                (==_iff entry.key_type 3).0 signs,
                                refl,
                              )
                        | inr (e, bad) ↦
                            subst (λ o. IsReset v session key (ready entry kit, o)) (sym bad)
                              (λ c h b x.
                                no_session v (ready entry kit) c h b x
                                  (only_not_ready (ready entry kit) e bad))
                      ])
              ])
      ])
]
  where
    ready : KeyInfo → HashKit → PayloadPacker
    ready entry kit = record {
      sign_session = some session;
      hash_kit = some kit;
      signing_key_ref = record { keyring_name = key.keyring_name; pub_key = entry.pub_key };
      signing_key = entry;
    }

    with_kit : KeyInfo → Option HashKit → PayloadPacker × Option PackError
    with_kit entry o = elim o [
      | none ↦ (record (cleared p) { hash_kit = none }, some hash_kit_not_found)
      | some kit ↦ (ready entry kit, check_ready (ready entry kit))
    ]

    fetched : Option KeyInfo → PayloadPacker × Option PackError
    fetched o = elim o [
      | none ↦ (cleared p, some key_not_found)
      | some entry ↦
          if not (entry.key_type == 3)
          then (cleared p, some session_not_ready)
          else with_kit entry (new_hash_kit v id)
    ]
