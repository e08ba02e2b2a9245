-- ===== src/Ski/Payload/Sound.antt =====
-- What it means that UnpackAndVerify returns without an error.
use amp_host_go.Base.{ℕ, ◌+◌, ◌%◌, ◌^◌, ◌≡◌, true, Option, none, some, ◌++◌, length, take}
use amp_host_go.Base.Bytes.{Bytes}
use amp_host_go.Ski.Payload.{
  Env, HashKit, SigHeader, read_sig_header, unpacked, unpack_panics, new_hash_kit, Unpacked,
  SignedPayload,
}

-- A payload that is returned without an error.
pub record IsVerified (v : Env) (buf : Bytes) (p : SignedPayload) : Type 0 where
  pub kit : HashKit
  pub hdr : SigHeader
  pub hdr_end : ℕ
  pub signed_end : ℕ
  pub read : read_sig_header v buf ≡ (hdr, hdr_end, true)
  pub codec : p.header_codec ≡ hdr.header_codec
  pub signer : p.signer_pub_key ≡ hdr.signer_pub_key
  pub crypto_kit : p.signer_crypto_kit ≡ hdr.signer_crypto_kit
  pub hash_kit : p.hash_kit ≡ hdr.hash_kit_id
  pub header_size : hdr_end + length p.header ≡ (hdr_end + hdr.header_sz) % 2 ^ 32
  pub body_size :
      hdr_end + length p.header + length p.body ≡ (hdr_end + length p.header + hdr.body_sz) % 2 ^ 32
  pub known : new_hash_kit v p.hash_kit ≡ some kit
  pub hashed : p.hash ≡ kit.hasher.digest (take signed_end buf)
  pub laid_out : take signed_end buf ≡ take hdr_end buf ++ p.header ++ p.body
  pub verified : v.verify p.signer_crypto_kit p.hash_sig p.hash p.signer_pub_key ≡ true

abbrev pub IsSound : Env → Bytes → Unpacked → Type 0
IsSound v buf (unpacked p none) = IsVerified v buf p
IsSound v buf (unpacked p (some e)) = Unit {0}
IsSound v buf unpack_panics = Unit {0}
