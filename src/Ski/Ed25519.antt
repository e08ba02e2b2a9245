-- ===== src/Ski/Ed25519.antt =====
-- ski/ed25519/ed25519.go. golang.org/x/crypto/ed25519 is a parameter.
use amp_host_go.Base.{ℕ, ◌≡◌, Bool, true, not, Option, none, some, [], ◌==◌, if◌then◌else◌, length}
use amp_host_go.Base.Bytes.{Bytes}
use amp_host_go.Ski.Key.{KeyEntry}
use amp_host_go.Ski.CryptoKit.{
  Random, CryptoError, bad_key_format, key_generation_failed, unimplemented,
  verify_signature_failed, Outcome, gives, fails_with, CryptoKit,
}

pub record EdLibrary (r : Random) : Type 0 where
  pub generate_key : r.Reader → Option (Bytes × Bytes) × r.Reader
  pub sign_with : Bytes → Bytes → Bytes
  pub verifies : Bytes → Bytes → Bytes → Bool

-- What the package documents of the keys that it makes.
pub record IsEd {r : Random} (n : EdLibrary r) : Type 1 where
  pub IsPair : Bytes → Bytes → Type 0
  pub pairs :
      (rand : r.Reader) (p s : Bytes)
      → (n.generate_key rand).0 ≡ some (p, s)
      → IsPair p s × (length p ≡ 32) × (length s ≡ 64)
  pub signature_length : (s m : Bytes) → length (n.sign_with s m) ≡ 64
  pub accepts : (p s m : Bytes) → IsPair p s → n.verifies p m (n.sign_with s m) ≡ true

module _ {r : Random} (n : EdLibrary r) where
  unfoldable pub ed_generate_new_key :
      ℕ → r.Reader → KeyEntry → KeyEntry × Option CryptoError × r.Reader
  ed_generate_new_key size rand entry =
      if not (entry.key_type == 3)
      then (entry, some unimplemented, rand)
      else elim (n.generate_key rand).0 [
        | none ↦ (
          record entry { key_info = record entry.key_info { pub_key = [] }; priv_key = [] },
          some key_generation_failed,
          (n.generate_key rand).1,
        )
        | some (p, s) ↦ (
          record entry { key_info = record entry.key_info { pub_key = p }; priv_key = s },
          none,
          (n.generate_key rand).1,
        )
      ]

  -- PrivateKeySize is 64 and PublicKeySize is 32.
  unfoldable pub ed_sign : Bytes → Bytes → Outcome Bytes
  ed_sign digest signer_priv_key =
      if not (length signer_priv_key == 64)
      then fails_with bad_key_format
      else gives (n.sign_with signer_priv_key digest)

  unfoldable pub ed_verify_signature : Bytes → Bytes → Bytes → Outcome (Unit {0})
  ed_verify_signature sig digest signer_pub_key =
      if not (length signer_pub_key == 32)
      then fails_with bad_key_format
      else (if n.verifies signer_pub_key digest sig
          then gives tt
          else fails_with verify_signature_failed)

  unfoldable pub ed_kit : CryptoKit r
  unfolding ed_generate_new_key ed_sign ed_verify_signature
  ed_kit = record {
    crypto_kit_id = 2;
    generate_new_key = ed_generate_new_key;
    encrypt = λ rand msg key. (fails_with unimplemented, rand);
    decrypt = λ msg key. fails_with unimplemented;
    encrypt_using_password = λ rand msg pwd. (fails_with unimplemented, rand);
    decrypt_using_password = λ msg pwd. fails_with unimplemented;
    encrypt_for = λ rand msg peer_pub_key priv_key. (fails_with unimplemented, rand);
    decrypt_from = λ msg peer_pub_key priv_key. fails_with unimplemented;
    sign = ed_sign;
    verify_signature = ed_verify_signature;
  }
