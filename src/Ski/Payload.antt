-- ===== src/Ski/Payload.antt =====
-- PayloadPacker and PayloadUnpacker of ski/ski.support.go. The codec that protoc generates for
-- SigHeader, the hash functions, an EnclaveSession and VerifySignature of a kit are parameters, an
-- Env. A slice expression that is out of range, an index past the end and a nil Hasher panic.
pub mod Writes
pub mod Bits
pub mod Packing
pub mod Reset
pub mod RoundTrip
pub mod Sound
pub mod Verified
use Prim.Native.Nat.{bit_or}
use amp_host_go.Base.{
  ℕ, ◌+◌, ◌-◌, ◌*◌, ◌/◌, ◌%◌, ◌^◌, ◌≤◌, ◌<◌, ◌≡◌, Bool, true, false, not, ◌&&◌, ◌||◌, Option, none,
  some, List, [], ◌∷◌, ◌++◌, ◌==◌, ltb, leb, if◌then◌else◌, length, take, drop, replicate,
  get_elem?,
}
use amp_host_go.Base.Assoc.{lookup, insert}
use amp_host_go.Base.Bytes.{Bytes}
use amp_host_go.Ski.Key.{KeyInfo}

pub record SigHeader : Type 0 where
  pub signer_crypto_kit : ℕ
  pub signer_pub_key : Bytes
  pub hash_kit_id : ℕ
  pub header_sz : ℕ
  pub header_codec : ℕ
  pub body_sz : ℕ

pub record Hasher : Type 0 where
  pub size : ℕ
  pub digest : Bytes → Bytes

pub record KeyRef : Type 0 where
  pub keyring_name : Bytes
  pub pub_key : Bytes

pub record EnclaveSession : Type 0 where
  pub fetch_key_info : KeyRef → Option KeyInfo
  pub sign : KeyRef → Bytes → Option Bytes

-- `hasher_of` is what FetchHasher gives. `unmarshal` gives what it has read when it fails, too.
pub record Env : Type 0 where
  pub hasher_of : ℕ → Option Hasher
  pub size : SigHeader → ℕ
  pub marshal : SigHeader → Option Bytes
  pub unmarshal : Bytes → SigHeader × Bool
  pub verify : ℕ → Bytes → Bytes → Bytes → Bool

pub record HashKit : Type 0 where
  pub hash_kit_id : ℕ
  pub hasher : Hasher
  pub hash_sz : ℕ

-- HashKitID_LegacyKeccak_256 is 1.
unfoldable pub new_hash_kit : Env → ℕ → Option HashKit
new_hash_kit v id =
    let hash_kit_id = if id == 0 then 1 else id in
    elim (v.hasher_of hash_kit_id) [
      | none ↦ none
      | some h ↦ some (record { hash_kit_id = hash_kit_id; hasher = h; hash_sz = h.size })
    ]

pub data PackError : Type 0 where
  key_not_found session_not_ready hash_kit_not_found marshal_failed assert_failed sign_failed :
      PackError

pub record PayloadPacker : Type 0 where
  pub sign_session : Option EnclaveSession
  pub hash_kit : Option HashKit
  pub signing_key_ref : KeyRef
  pub signing_key : KeyInfo

abbrev pub no_key : KeyInfo
no_key = record { key_type = 0; crypto_kit_id = 0; time_created = 0; pub_key = [] }

unfoldable pub check_ready : PayloadPacker → Option PackError
check_ready p = elim p.hash_kit [
  | none ↦ some session_not_ready
  | some _ ↦ elim p.sign_session [
    | none ↦ some session_not_ready
    | some _ ↦
        if length p.signing_key_ref.keyring_name == 0
        then some session_not_ready
        else (if p.signing_key.crypto_kit_id == 0 then some session_not_ready else none)
  ]
]

-- What ResetSession leaves when it ends early, but for the hash kit.
abbrev pub cleared : PayloadPacker → PayloadPacker
cleared p = record p {
  sign_session = none;
  signing_key_ref = record { keyring_name = []; pub_key = [] };
  signing_key = no_key;
}

-- KeyType_SigningKey is 3. The KeyInfo that is handed out is the packer's `signing_key`.
unfoldable pub reset_session :
    Env → EnclaveSession → KeyRef → ℕ → PayloadPacker → PayloadPacker × Option PackError
unfolding check_ready new_hash_kit
reset_session v session key hash_kit_id p = elim (session.fetch_key_info key) [
  | none ↦ (cleared p, some key_not_found)
  | some key_entry ↦
      if not (key_entry.key_type == 3)
      then (cleared p, some session_not_ready)
      else elim (new_hash_kit v hash_kit_id) [
        | none ↦ (record (cleared p) { hash_kit = none }, some hash_kit_not_found)
        | some kit ↦
            let ready : PayloadPacker = record {
              sign_session = some session;
              hash_kit = some kit;
              signing_key_ref = record {
                keyring_name = key.keyring_name;
                pub_key = key_entry.pub_key;
              };
              signing_key = key_entry;
            } in
            (ready, check_ready ready)
      ]
]

-- `copy(buf[pos:], xs)`, for `pos ≤ len(buf)`.
abbrev pub write : ℕ → Bytes → Bytes → Bytes
write pos xs buf = take (length buf) (take pos buf ++ xs ++ drop (pos + length xs) buf)

pub record PackingInfo : Type 0 where
  pub signed_buf : Bytes
  pub hash : Bytes
  pub sig : Bytes
  pub extra : Bytes

pub data Packed : Type 0 where
  packed : PackingInfo → Packed
  pack_fails : PackError → Packed
  pack_panics : Packed

-- From step 5 on: the buffer, the end of the body, and where the digest lies in the buffer.
unfoldable pub append_sig : EnclaveSession → PayloadPacker → HashKit → Bytes → ℕ → ℕ → Packed
append_sig session p kit buf pos extra_pos =
    elim (session.sign p.signing_key_ref (take kit.hash_sz (drop extra_pos buf))) [
      | none ↦ pack_fails sign_failed
      | some sig ↦
          let sig_len = length sig in
          let signed = write (pos + 1) sig (write pos (sig_len ∷ []) buf) in
          if ltb 255 sig_len
          then pack_fails assert_failed
          else (if ltb (length buf) (pos + 1 + sig_len)
              then pack_panics
              else packed (record {
                signed_buf = take (pos + 1 + sig_len) signed;
                hash = take kit.hash_sz (drop extra_pos signed);
                sig = take sig_len (drop (pos + 1) signed);
                extra = drop (extra_pos + kit.hash_sz) signed;
              }))
    ]

-- Steps 1 to 4: the SigHeader `hdr` is marshalled to `bytes`. The digest is written behind the body,
-- at the extra part of the buffer.
unfoldable pub pack_payload :
    EnclaveSession → PayloadPacker → HashKit → SigHeader → ℕ → Bytes → Bytes → Bytes → ℕ → Packed
unfolding append_sig
pack_payload session p kit hdr hdr_size bytes header body extra_alloc =
    let extra = extra_alloc + kit.hash_sz in
    let buf_sz = 2 + hdr_size + hdr.header_sz + hdr.body_sz + 100 + extra in
    let pos = 2 + length bytes in
    let body_end = pos + hdr.header_sz + hdr.body_sz in
    let sized =
      write 0 (length bytes % 256 ∷ length bytes / 256 % 256 ∷ [])
        (write 2 bytes (replicate buf_sz 0)) in
    let filled = write (pos + hdr.header_sz) body (write pos header sized) in
    let digest = kit.hasher.digest (take body_end filled) in
    let extra_pos = buf_sz - extra in
    if not (length digest == kit.hash_sz)
    then pack_fails assert_failed
    else append_sig session p kit (write extra_pos digest filled) body_end extra_pos

abbrev pub sig_header : PayloadPacker → HashKit → ℕ → Bytes → Bytes → SigHeader
sig_header p kit codec header body = record {
  signer_crypto_kit = p.signing_key.crypto_kit_id;
  signer_pub_key = p.signing_key.pub_key;
  hash_kit_id = kit.hash_kit_id;
  header_codec = codec;
  header_sz = length header % 2 ^ 32;
  body_sz = length body;
}

unfoldable pub pack_and_sign : Env → PayloadPacker → ℕ → Bytes → Bytes → ℕ → Packed
unfolding check_ready pack_payload
pack_and_sign v p codec header body extra_alloc = elim (check_ready p) [
  | some e ↦ pack_fails e
  | none ↦ elim p.hash_kit [
    | none ↦ pack_panics
    | some kit ↦ elim p.sign_session [
      | none ↦ pack_panics
      | some session ↦
          let hdr = sig_header p kit codec header body in
          elim (v.marshal hdr) [
            | none ↦ pack_fails marshal_failed
            | some bytes ↦ pack_payload session p kit hdr (v.size hdr) bytes header body extra_alloc
          ]
    ]
  ]
]

pub record SignedPayload : Type 0 where
  pub header_codec : ℕ
  pub header : Bytes
  pub body : Bytes
  pub hash_kit : ℕ
  pub hash : Bytes
  pub hash_sig : Bytes
  pub signer_pub_key : Bytes
  pub signer_crypto_kit : ℕ

pub data UnpackError : Type 0 where
  unmarshal_failed : UnpackError
  bad_signature : UnpackError

pub data Unpacked : Type 0 where
  unpacked : SignedPayload → Option UnpackError → Unpacked
  unpack_panics : Unpacked

-- `inSignedBuf[lo:hi]`, where `spare` lies behind the buffer, up to its capacity.
unfoldable pub slice : ℕ → ℕ → Bytes → Bytes → Option Bytes
slice lo hi buf spare =
    if leb lo hi && leb hi (length buf + length spare)
    then some (take (hi - lo) (drop lo (buf ++ spare)))
    else none

abbrev pub no_header : SigHeader
no_header = record {
  signer_crypto_kit = 0;
  signer_pub_key = [];
  hash_kit_id = 0;
  header_sz = 0;
  header_codec = 0;
  body_sz = 0;
}

abbrev pub byte_at : ℕ → Bytes → ℕ
byte_at i buf = elim (get_elem? buf i) [ none ↦ 0 | some b ↦ b ]

abbrev pub read_hdr_end : Bytes → ℕ
read_hdr_end buf = bit_or (2 + byte_at 0 buf) (byte_at 1 buf * 256)

-- The header, where it ends, and whether there is no error so far.
unfoldable pub read_sig_header : Env → Bytes → SigHeader × ℕ × Bool
read_sig_header v buf =
    let buf_len = length buf % 2 ^ 32 in
    let hdr_end = read_hdr_end buf in
    let (hdr, ok_) = v.unmarshal (take (hdr_end - 2) (drop 2 buf)) in
    if ltb buf_len 50
    then (no_header, 0, false)
    else (if ltb (buf_len - 10) hdr_end then (no_header, hdr_end, false) else (hdr, hdr_end, ok_))

pub record PayloadUnpacker : Type 0 where
  pub hash_kits : List (ℕ × HashKit)

-- Step 3: the kit of the map, or a new one that is put into it.
unfoldable pub fetch_hash_kit : Env → ℕ → PayloadUnpacker → PayloadUnpacker × Option HashKit
unfolding new_hash_kit
fetch_hash_kit v id u = elim (lookup id u.hash_kits) [
  | some kit ↦ (u, some kit)
  | none ↦ elim (new_hash_kit v id) [
    | none ↦ (u, none)
    | some kit ↦ (record u { hash_kits = insert id kit u.hash_kits }, some kit)
  ]
]

-- The slices of the result, and how the call ends.
unfoldable pub finish_unpack :
    SigHeader → Option Bytes → Option Bytes → Option Bytes → Bytes → Option UnpackError → Unpacked
finish_unpack hdr (some header) (some sig) (some body) hash err =
    unpacked
      (record {
        header_codec = hdr.header_codec;
        header = header;
        body = body;
        hash_kit = hdr.hash_kit_id;
        hash = hash;
        hash_sig = sig;
        signer_pub_key = hdr.signer_pub_key;
        signer_crypto_kit = hdr.signer_crypto_kit;
      })
      err
finish_unpack hdr none sig body hash err = unpack_panics
finish_unpack hdr (some _) none body hash err = unpack_panics
finish_unpack hdr (some _) (some _) none hash err = unpack_panics

-- Steps 3 to 5.
unfoldable pub verify_payload :
    Env
    → Bytes
    → SigHeader
    → Option Bytes
    → Option Bytes
    → Option Bytes
    → PayloadUnpacker
    → PayloadUnpacker × Unpacked
unfolding fetch_hash_kit finish_unpack
verify_payload v signed hdr header sig body u =
    let (u', fetched) = fetch_hash_kit v hdr.hash_kit_id u in
    elim fetched [
      | none ↦ (u', unpack_panics)
      | some kit ↦
          let hash = kit.hasher.digest signed in
          elim sig [
            | none ↦ (u', unpack_panics)
            | some s ↦ (
              u',
              finish_unpack hdr header (some s) body hash (
                  if v.verify hdr.signer_crypto_kit s hash hdr.signer_pub_key
                  then none
                  else some bad_signature),
            )
          ]
    ]

-- From the SigHeader on, as it is read from `buf`. `old_hash` is what the caller's SignedPayload has
-- as its Hash.
unfoldable pub unpack_from :
    Env
    → Bytes
    → Bytes
    → Bytes
    → PayloadUnpacker
    → SigHeader × ℕ × Bool
    → PayloadUnpacker × Unpacked
unfolding slice finish_unpack verify_payload
unpack_from v buf spare old_hash u (hdr, header_pos, ok_) =
    let header_end = (header_pos + hdr.header_sz) % 2 ^ 32 in
    let body_end = (header_end + hdr.body_sz) % 2 ^ 32 in
    let fits = ok_ && not (ltb (length buf % 2 ^ 32 - 1) body_end) in
    let sig_pos = (body_end + 1) % 2 ^ 32 in
    let sig_end = (sig_pos + byte_at body_end buf) % 2 ^ 32 in
    let header = slice header_pos header_end buf spare in
    let sig = slice sig_pos sig_end buf spare in
    let body = slice header_end body_end buf spare in
    if leb (length buf) body_end
    then (u, unpack_panics)
    else (if fits
        then verify_payload v (take body_end buf) hdr header sig body u
        else (u, finish_unpack hdr header sig body old_hash (some unmarshal_failed)))

unfoldable pub unpack_and_verify :
    Env → Bytes → Bytes → Bytes → PayloadUnpacker → PayloadUnpacker × Unpacked
unfolding read_sig_header unpack_from
unpack_and_verify v buf spare old_hash u =
    unpack_from v buf spare old_hash u (read_sig_header v buf)
