-- ===== src/Tests/PayloadRuns.antt =====
-- Payloads that are packed and unpacked with a small codec, hash and signature, and the theorems of
-- Ski.Payload at them.
use mathlib.Core.Path.{subst}
use mathlib.Core.Option.{none-ne-some, some-injective}
use amp_host_go.Base.{
  ℕ, ◌%◌, ◌≡◌, refl, sym, ap, ◌∙◌, Bool, true, false, none, some, Bool-cases, inl, inr, [], ◌∷◌,
  ◌++◌, arith, ◌==◌, if◌then◌else◌, if_true, if_false, length, take, replicate,
}
use amp_host_go.Base.Assoc.{lookup}
use amp_host_go.Base.Bytes.{Bytes, equal_bytes}
use amp_host_go.Ski.Key.{KeyInfo}
use amp_host_go.Ski.Payload.{
  Env, Hasher, HashKit, KeyRef, EnclaveSession, SigHeader, PayloadPacker, PayloadUnpacker,
  PackingInfo, sig_header, no_header, no_key, reset_session, check_ready, new_hash_kit,
  pack_and_sign, packed, unpack_and_verify, unpack_from, read_sig_header, unpacked, unpack_panics,
}
use amp_host_go.Ski.Payload.RoundTrip.{IsCached}
use amp_host_go.Ski.Payload.Packing.{frame}
use amp_host_go.Ski.Payload.Verified.{
  IsLawful, IsReady, payload_of, pack_and_sign-unpack_and_verify,
}
use amp_host_go.Ski.Payload.Reset.{IsReset, reset_session-IsReset}

abbrev count_hasher : Hasher
count_hasher = record { size = 1; digest = λ m. length m % 256 ∷ [] }

abbrev decode : Bytes → SigHeader × Bool
decode (kit ∷ hash ∷ sz ∷ codec ∷ body ∷ key) = (
  record {
    signer_crypto_kit = kit;
    signer_pub_key = key;
    hash_kit_id = hash;
    header_sz = sz;
    header_codec = codec;
    body_sz = body;
  },
  true,
)
decode other = (no_header, false)

abbrev encode : SigHeader → Bytes
encode h =
    h.signer_crypto_kit ∷ h.hash_kit_id ∷ h.header_sz ∷ h.header_codec ∷ h.body_sz
    ∷ h.signer_pub_key

abbrev small_env : Env
small_env = record {
  hasher_of = λ id. if id == 1 then some count_hasher else none;
  size = λ h. length (encode h);
  marshal = λ h. some (encode h);
  unmarshal = decode;
  verify = λ kit sig hash key. equal_bytes (take 1 sig) hash;
}

small_digests :
    (id : ℕ) (h : Hasher) (m : Bytes)
    → small_env.hasher_of id ≡ some h
    → length (h.digest m) ≡ h.size
small_digests id h m e = elim (Bool-cases (id == 1)) [
  | inl t ↦
      subst (λ (x : Hasher). length (x.digest m) ≡ x.size)
        (some-injective count_hasher h (sym (if_true _ _ t) ∙ e)) refl
  | inr f ↦ absurd (none-ne-some h (sym (if_false (some count_hasher) none f) ∙ e))
]

small_env-IsLawful : IsLawful small_env
small_env-IsLawful = record {
  sized = λ hdr bytes e. ap length (some-injective _ _ e);
  decodes = λ hdr bytes e. ap decode (sym (some-injective _ _ e));
  digests = small_digests;
}

abbrev signer : KeyInfo
signer = record { key_type = 3; crypto_kit_id = 9; time_created = 0; pub_key = 4 ∷ 2 ∷ [] }

abbrev session : EnclaveSession
session = record {
  fetch_key_info = λ r. some signer;
  sign = λ r hash. some (hash ++ replicate 63 0);
}

abbrev key : KeyRef
key = record { keyring_name = 1 ∷ []; pub_key = [] }

abbrev count_kit : HashKit
count_kit = record { hash_kit_id = 1; hasher = count_hasher; hash_sz = 1 }

abbrev empty_packer : PayloadPacker
empty_packer = record {
  sign_session = none;
  hash_kit = none;
  signing_key_ref = key;
  signing_key = no_key;
}

abbrev packer : PayloadPacker
packer = record {
  sign_session = some session;
  hash_kit = some count_kit;
  signing_key_ref = record { keyring_name = 1 ∷ []; pub_key = 4 ∷ 2 ∷ [] };
  signing_key = signer;
}

reset_gives_packer : (reset_session small_env session key 0 empty_packer).0 ≡ packer
unfolding reset_session new_hash_kit
reset_gives_packer = refl

reset_session-IsReset_example :
    IsReset small_env session key (reset_session small_env session key 7 packer)
reset_session-IsReset_example = reset_session-IsReset small_env session key 7 packer

packer-IsReady : IsReady small_env packer session count_kit
unfolding check_ready new_hash_kit
packer-IsReady = record { has_session = refl; has_kit = refl; ready = refl; known = refl }

abbrev unpacker : PayloadUnpacker
unpacker = record { hash_kits = [] }

unpacker-IsCached : IsCached small_env unpacker
unfolding lookup
unpacker-IsCached id kit e = absurd (none-ne-some kit e)

abbrev hdr_bytes : Bytes
hdr_bytes = encode (sig_header packer count_kit 8 (5 ∷ 6 ∷ []) (7 ∷ []))

abbrev signature : Bytes
signature = 12 ∷ replicate 63 0

pack_and_sign-unpack_and_verify_example :
    (info : PackingInfo) × (pack_and_sign small_env packer 8 (5 ∷ 6 ∷ []) (7 ∷ []) 0 ≡ packed info)
    × ((unpack_and_verify small_env info.signed_buf [] [] unpacker).1
        ≡ unpacked
            (payload_of
              (sig_header packer count_kit 8 (5 ∷ 6 ∷ []) (7 ∷ []))
              (5 ∷ 6 ∷ [])
              (7 ∷ [])
              (count_hasher.digest (frame hdr_bytes (5 ∷ 6 ∷ []) (7 ∷ [])))
              signature)
            none)
unfolding equal_bytes
pack_and_sign-unpack_and_verify_example =
    pack_and_sign-unpack_and_verify small_env packer session count_kit unpacker 8 (5 ∷ 6 ∷ [])
      (7 ∷ []) 0 hdr_bytes signature [] [] small_env-IsLawful packer-IsReady unpacker-IsCached refl
      refl refl (omega arith) (omega arith) (omega arith) (omega arith)

-- A SigHeader of five bytes and a body that is said to be longer than the buffer: the call panics.
abbrev past_end : Bytes
past_end = 5 ∷ 0 ∷ 9 ∷ 1 ∷ 0 ∷ 0 ∷ 200 ∷ replicate 60 0

unpack_and_verify-past_end : (unpack_and_verify small_env past_end [] [] unpacker).1 ≡ unpack_panics
unfolding unpack_and_verify
unpack_and_verify-past_end = refl

abbrev signed_buf : Bytes
signed_buf = frame hdr_bytes (5 ∷ 6 ∷ []) (7 ∷ []) ++ (64 ∷ []) ++ signature

unpack_and_verify-signed_buf :
    (unpack_and_verify small_env signed_buf [] [] unpacker).1
    ≡ unpacked
        (payload_of
          (sig_header packer count_kit 8 (5 ∷ 6 ∷ []) (7 ∷ []))
          (5 ∷ 6 ∷ [])
          (7 ∷ [])
          (12 ∷ [])
          signature)
        none
unfolding unpack_and_verify unpack_from read_sig_header equal_bytes lookup
unpack_and_verify-signed_buf = refl
