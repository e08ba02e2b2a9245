-- ===== src/Ski/Payload/Verified.antt =====
-- PackAndSign and UnpackAndVerify, the one after the other.
use mathlib.Core.Path.{subst}
use mathlib.Core.Option.{none-ne-some, some-injective}
use amp_host_go.Base.{
  ℕ, ◌+◌, ◌%◌, ◌^◌, ◌≤◌, ◌<◌, ◌≡◌, refl, sym, ap, ◌∙◌, true, Option, none, some, Option-cases, inl,
  inr, arith, ◌==◌, if◌then◌else◌, length,
}
use amp_host_go.Base.Bytes.{Bytes}
use amp_host_go.Ski.Payload.{
  Env, EnclaveSession, HashKit, Hasher, SigHeader, PayloadPacker, check_ready, sig_header,
  pack_and_sign, pack_payload, packed, PackingInfo, unpack_and_verify, unpacked, new_hash_kit,
  PayloadUnpacker, SignedPayload,
}
use amp_host_go.Ski.Payload.Packing.{frame, pack_payload_lem}
use amp_host_go.Ski.Payload.RoundTrip.{IsCached, unpack_and_verify_lem}

-- What the generated codec and the hash functions promise.
pub record IsLawful (v : Env) : Type 0 where
  pub sized :
      (hdr : SigHeader) (bytes : Bytes) → v.marshal hdr ≡ some bytes → v.size hdr ≡ length bytes
  pub decodes :
      (hdr : SigHeader) (bytes : Bytes)
      → v.marshal hdr ≡ some bytes
      → v.unmarshal bytes ≡ (hdr, true)
  pub digests :
      (id : ℕ) (h : Hasher) (m : Bytes) → v.hasher_of id ≡ some h → length (h.digest m) ≡ h.size

-- A packer that is ready with a session and a kit.
pub record IsReady (v : Env) (p : PayloadPacker) (session : EnclaveSession) (kit : HashKit)
    : Type 0 where
  pub has_session : p.sign_session ≡ some session
  pub has_kit : p.hash_kit ≡ some kit
  pub ready : check_ready p ≡ none
  pub known : new_hash_kit v kit.hash_kit_id ≡ some kit

kit_digests :
    (v : Env) (id : ℕ) (kit : HashKit) (m : Bytes)
    → IsLawful v
    → new_hash_kit v id ≡ some kit
    → length (kit.hasher.digest m) ≡ kit.hash_sz
unfolding new_hash_kit
kit_digests v id kit m l e = elim (Option-cases (v.hasher_of (if id == 0 then 1 else id))) [
  | inl n ↦ absurd (none-ne-some kit (sym (made n) ∙ e))
  | inr (h, f) ↦
      let same = some-injective _ _ (sym (made f) ∙ e) in
      subst (λ (k : HashKit). length (k.hasher.digest m) ≡ k.hash_sz) same (l.digests _ h m f)
]
  where
    out : Option Hasher → Option HashKit
    out o = elim o [
      | none ↦ none
      | some h ↦
          some (record { hash_kit_id = if id == 0 then 1 else id; hasher = h; hash_sz = h.size })
    ]

    made :
        {o : Option Hasher}
        → v.hasher_of (if id == 0 then 1 else id) ≡ o
        → new_hash_kit v id ≡ out o
    made f = ap out f

-- A SignedPayload has all that was packed.
abbrev pub payload_of : SigHeader → Bytes → Bytes → Bytes → Bytes → SignedPayload
payload_of hdr header body hash sig = record {
  header_codec = hdr.header_codec;
  header = header;
  body = body;
  hash_kit = hdr.hash_kit_id;
  hash = hash;
  hash_sig = sig;
  signer_pub_key = hdr.signer_pub_key;
  signer_crypto_kit = hdr.signer_crypto_kit;
}

-- What PackAndSign returns for a header and a body, UnpackAndVerify accepts, and it gives back the
-- header, the body, the codec, the hash kit, the hash, the signature and the signer: for a packer
-- that is ready, a SigHeader of less than 510 bytes, a signature of 47 to 99 bytes that the kit
-- accepts, and a buffer of less than 2^32 bytes.
pub pack_and_sign-unpack_and_verify :
    (v : Env) (p : PayloadPacker) (session : EnclaveSession) (kit : HashKit) (u : PayloadUnpacker)
    (codec : ℕ) (header body : Bytes) (extra_alloc : ℕ) (bytes sig spare old_hash : Bytes)
    → IsLawful v
    → IsReady v p session kit
    → IsCached v u
    → v.marshal (sig_header p kit codec header body) ≡ some bytes
    → session.sign p.signing_key_ref (kit.hasher.digest (frame bytes header body)) ≡ some sig
    → v.verify p.signing_key.crypto_kit_id sig
        (kit.hasher.digest (frame bytes header body))
        p.signing_key.pub_key
      ≡ true
    → length bytes < 510
    → 47 ≤ length sig
    → length sig ≤ 99
    → length bytes + length header + length body + length sig + 3 < 2 ^ 32
    → (info : PackingInfo) × (pack_and_sign v p codec header body extra_alloc ≡ packed info)
      × ((unpack_and_verify v info.signed_buf spare old_hash u).1
          ≡ unpacked
              (payload_of
                (sig_header p kit codec header body)
                header
                body
                (kit.hasher.digest (frame bytes header body))
                sig)
              none)
unfolding pack_and_sign
pack_and_sign-unpack_and_verify v p session kit u codec header body extra_alloc bytes sig spare
      old_hash l r c m s ok_ short low high small =
    let (info, returns, signed, _, _) =
      pack_payload_lem session p kit hdr bytes header body extra_alloc sig
        (λ x. kit_digests v kit.hash_kit_id kit x l r.known) high s in
    (
      info,
      packs ∙ returns,
      ap (λ b. (unpack_and_verify v b spare old_hash u).1) signed
          ∙ unpack_and_verify_lem v hdr bytes header body sig spare old_hash u kit short low small
              (l.decodes hdr bytes m) (omega arith) refl c r.known ok_,
    )
  where
    hdr : SigHeader
    hdr = sig_header p kit codec header body

    header_sz : length header % 2 ^ 32 ≡ length header
    header_sz = omega (arith, small)

    resized :
        pack_payload session p kit hdr (v.size hdr) bytes header body extra_alloc
        ≡ pack_payload session p kit
            (record hdr { header_sz = length header; body_sz = length body })
            (length bytes)
            bytes
            header
            body
            extra_alloc
    resized = λ i.
        pack_payload session p kit (record hdr { header_sz = header_sz i; body_sz = length body })
          (l.sized hdr bytes m i) bytes header body extra_alloc

    packs :
        pack_and_sign v p codec header body extra_alloc
        ≡ pack_payload session p kit
            (record hdr { header_sz = length header; body_sz = length body })
            (length bytes)
            bytes
            header
            body
            extra_alloc
    packs = rw (pack_and_sign, r.ready, r.has_kit, r.has_session, m) resized
