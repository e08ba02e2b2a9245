-- ===== src/Ski/Nacl/Laws/Signing.antt =====
-- Both kits that can sign accept what they have signed.
use amp_host_go.Base.{
  ◌≡◌, sym, ap, ◌∙◌, true, false, not, Option, none, some, [], ◌==◌, ltb, if_true, if_false, length,
  take, arith, length-append,
}
use amp_host_go.Base.Slices.{take_exact}
use amp_host_go.Base.Bytes.{Bytes}
use amp_host_go.Ski.CryptoKit.{
  Random, verify_signature_failed, Outcome, gives, fails_with, IsSigner,
}
use amp_host_go.Ski.Nacl.{Library, pair_key, generate_new_key, sign, verify_signature, nacl_kit}
use amp_host_go.Ski.Nacl.Laws.{IsNacl}
use amp_host_go.Ski.Nacl.Laws.Made.{take_all, made_pair}
use amp_host_go.Ski.Ed25519.{
  EdLibrary, IsEd, ed_generate_new_key, ed_sign, ed_verify_signature, ed_kit,
}

module _ {r : Random} where
  nacl_kit-IsSigner : (n : Library r) → IsNacl n → IsSigner (nacl_kit n)
  unfolding nacl_kit generate_new_key pair_key sign verify_signature
  nacl_kit-IsSigner n l size rand rand' entry made digest is_signing done =
      let not_symmetric : (entry.key_type == 1) ≡ false = ground (arith, is_signing) in
      let not_box : (entry.key_type == 2) ≡ false = ground (arith, is_signing) in
      let chosen : (entry.key_type == 3) ≡ true = ground (arith, is_signing) in
      let (pair, pub_32, priv_64) =
        made_pair Pair entry entry made (n.sign_generate rand).1 rand' (n.sign_generate rand).0
          (λ p s h. l.signing_pairs rand p s h)
          (sym (if_false _ _ not_symmetric ∙ if_false _ _ not_box ∙ if_true _ _ chosen) ∙ done) in
      let (sig, sig_64, whole) = l.signed digest made.priv_key priv_64 in
      let sized : not (length made.priv_key == 64) ≡ false = ground (arith, priv_64) in
      let long : ltb (length (n.sign_message digest made.priv_key)) 64 ≡ false =
        rw whole (ground (arith, length-append sig digest, sig_64)) in
      let in_range : ltb (length made.pub_key) 32 ≡ false = ground (arith, pub_32) in
      (
        sig,
        if_false _ _ sized
            ∙ if_false _ _ long
            ∙ ap gives (ap (take 64) whole ∙ take_exact 64 sig digest sig_64),
        sig_64,
        if_false _ _ in_range
            ∙ ap out (
                ap (λ m. n.sign_open m (take 32 made.pub_key)) (sym whole)
                ∙ ap (λ k. n.sign_open (n.sign_message digest made.priv_key) k)
                    (take_all 32 made.pub_key pub_32)
                ∙ l.sign_opens digest made.pub_key made.priv_key pair),
      )
    where
      Pair : Bytes → Bytes → Type 0
      Pair p s = l.IsSigningPair p s × (length p ≡ 32) × (length s ≡ 64)

      out : Option Bytes → Outcome (Unit {0})
      out o = elim o [ none ↦ fails_with verify_signature_failed | some _ ↦ gives tt ]

  ed_kit-IsSigner : (n : EdLibrary r) → IsEd n → IsSigner (ed_kit n)
  unfolding ed_kit ed_generate_new_key ed_sign ed_verify_signature
  ed_kit-IsSigner n l size rand rand' entry made digest is_signing done =
      let chosen : not (entry.key_type == 3) ≡ false = ground (arith, is_signing) in
      let (pair, pub_32, priv_64) =
        made_pair Pair
          (record entry { key_info = record entry.key_info { pub_key = [] }; priv_key = [] }) entry
          made (n.generate_key rand).1 rand' (n.generate_key rand).0 (λ p s h. l.pairs rand p s h)
          (sym (if_false _ _ chosen) ∙ done) in
      let sized : not (length made.priv_key == 64) ≡ false = ground (arith, priv_64) in
      let sized' : not (length made.pub_key == 32) ≡ false = ground (arith, pub_32) in
      (
        n.sign_with made.priv_key digest,
        if_false _ _ sized,
        l.signature_length made.priv_key digest,
        if_false _ _ sized' ∙ if_true _ _ (l.accepts made.pub_key made.priv_key digest pair),
      )
    where
      Pair : Bytes → Bytes → Type 0
      Pair p s = l.IsPair p s × (length p ≡ 32) × (length s ≡ 64)

  -- Where the libraries do what they document, both kits make, for each digest and with a signing
  -- key of their GenerateNewKey, a signature of 64 bytes that their own VerifySignature accepts
  -- with the public key.
  pub kits-AreSigners :
      (n : Library r) (d : EdLibrary r)
      → IsNacl n
      → IsEd d
      → IsSigner (nacl_kit n) × IsSigner (ed_kit d)
  kits-AreSigners n d l k = (nacl_kit-IsSigner n l, ed_kit-IsSigner d k)
