-- ===== src/Ski/Nacl.antt =====
-- ski/nacl/nacl.go. golang.org/x/crypto's secretbox, box, sign and pbkdf2 are parameters, as is the
-- reader of random bytes. What is appended to a slice that the function got is written out. The
-- private key's copy, which is zeroed at the end, is left out. A key that is sliced to 32 bytes is the
-- bytes up to the slice's capacity, which bounds `key[:32]`; `msg[24:]` and `msg[26:]` end at the
-- length, so that a message that is shorter panics whatever its capacity.
pub mod Laws
use amp_host_go.Base.{
  ℕ, ◌<◌, ◌≡◌, Bool, true, false, not, ◌||◌, Option, none, some, List, [], ◌∷◌, ◌++◌, ◌==◌, ltb,
  if◌then◌else◌, length, take, drop, get_elem?,
}
use amp_host_go.Base.Bytes.{Bytes}
use amp_host_go.Ski.Key.{KeyEntry}
use amp_host_go.Ski.CryptoKit.{
  Random, CryptoError, bad_key_format, read_failed, decrypt_failed, key_generation_failed,
  unimplemented, hash_kit_not_found, verify_signature_failed, Outcome, gives, fails_with, panics,
  fill, CryptoKit, HashFunction, fetch_hasher, blake2b_256,
}

-- The arguments are in the order of the packages, without `out`.
pub record Library (r : Random) : Type 0 where
  pub secret_seal : Bytes → Bytes → Bytes → Bytes
  pub secret_open : Bytes → Bytes → Bytes → Option Bytes
  pub box_generate : r.Reader → Option (Bytes × Bytes) × r.Reader
  pub box_seal : Bytes → Bytes → Bytes → Bytes → Bytes
  pub box_open : Bytes → Bytes → Bytes → Bytes → Option Bytes
  pub sign_generate : r.Reader → Option (Bytes × Bytes) × r.Reader
  pub sign_message : Bytes → Bytes → Bytes
  pub sign_open : Bytes → Bytes → Option Bytes
  pub pbkdf2_key : Bytes → Bytes → HashFunction → Bytes

module _ {r : Random} (n : Library r) where
  unfoldable pub encrypt : r.Reader → Bytes → Bytes → Outcome Bytes × r.Reader
  encrypt rand msg key =
      let (got, ok, rand') = r.read 24 rand in
      let salt = fill 24 got in
      if not (length key == 32)
      then (fails_with bad_key_format, rand)
      else (if not ok
          then (fails_with read_failed, rand')
          else (gives (salt ++ n.secret_seal msg salt key), rand'))

  unfoldable pub decrypt : Bytes → Bytes → Outcome Bytes
  decrypt msg key =
      if ltb (length msg) 24 || ltb (length key) 32
      then panics
      else elim (n.secret_open (drop 24 msg) (take 24 msg) (take 32 key)) [
        | none ↦ fails_with decrypt_failed
        | some plain ↦ gives plain
      ]

  unfoldable pub symmetric_key : ℕ → r.Reader → KeyEntry → KeyEntry × Option CryptoError × r.Reader
  symmetric_key size rand entry =
      let (pub_bytes, pub_ok, rand') = r.read size rand in
      let named = record entry {
        key_info = record entry.key_info { pub_key = fill size pub_bytes };
      } in
      let (priv_bytes, priv_ok, rand'') = r.read 32 rand' in
      if not pub_ok then (named, some key_generation_failed, rand') else (
        record named { priv_key = fill 32 priv_bytes },
        if priv_ok then none else some key_generation_failed,
        rand'',
      )

  unfoldable pub pair_key :
      Option (Bytes × Bytes) × r.Reader → KeyEntry → KeyEntry × Option CryptoError × r.Reader
  pair_key (pair, rand) entry = elim pair [
    | none ↦ (entry, some key_generation_failed, rand)
    | some (pub_bytes, priv_bytes) ↦ (
      record entry {
        key_info = record entry.key_info { pub_key = pub_bytes };
        priv_key = priv_bytes;
      },
      none,
      rand,
    )
  ]

  -- A size that is negative panics and is left out.
  unfoldable pub generate_new_key :
      ℕ → r.Reader → KeyEntry → KeyEntry × Option CryptoError × r.Reader
  unfolding symmetric_key pair_key
  generate_new_key size rand entry =
      if entry.key_type == 1
      then symmetric_key size rand entry
      else (if entry.key_type == 2
          then pair_key (n.box_generate rand) entry
          else (if entry.key_type == 3
              then pair_key (n.sign_generate rand) entry
              else (entry, some unimplemented, rand)))

  -- HashKitID_Blake2b_256 is 5. Read's error is not looked at.
  unfoldable pub encrypt_using_password : r.Reader → Bytes → Bytes → Outcome Bytes × r.Reader
  unfolding encrypt
  encrypt_using_password rand msg pwd = elim (fetch_hasher 5) [
    | none ↦ (panics, rand)
    | some hasher ↦
        let (got, ok, rand') = r.read 24 rand in
        let salt = fill 24 got in
        let (buf, rand'') = encrypt rand' msg (n.pbkdf2_key pwd salt hasher) in
        (
          elim buf [
            | panics ↦ panics
            | fails_with e ↦ fails_with e
            | gives sealed ↦ gives (5 ∷ 0 ∷ (salt ++ sealed))
          ],
          rand'',
        )
  ]

  unfoldable pub decrypt_using_password : Bytes → Bytes → Outcome Bytes
  unfolding decrypt
  decrypt_using_password msg pwd = elim (get_elem? msg 0) [
    | none ↦ panics
    | some hash_kit_id ↦ elim (fetch_hasher hash_kit_id) [
      | none ↦ fails_with hash_kit_not_found
      | some hasher ↦
          if ltb (length msg) 26
          then panics
          else decrypt (drop 26 msg) (n.pbkdf2_key pwd (drop 2 (take 26 msg)) hasher)
    ]
  ]

  unfoldable pub encrypt_for : r.Reader → Bytes → Bytes → Bytes → Outcome Bytes × r.Reader
  encrypt_for rand msg peer_pub_key priv_key =
      let (got, ok, rand') = r.read 24 rand in
      let salt = fill 24 got in
      if not (length peer_pub_key == 32)
      then (fails_with bad_key_format, rand)
      else (if not (length priv_key == 32)
          then (fails_with bad_key_format, rand)
          else (if not ok
              then (fails_with read_failed, rand')
              else (gives (salt ++ n.box_seal msg salt peer_pub_key priv_key), rand')))

  unfoldable pub decrypt_from : Bytes → Bytes → Bytes → Outcome Bytes
  decrypt_from msg peer_pub_key priv_key =
      if ltb (length msg) 24 || ltb (length peer_pub_key) 32 || ltb (length priv_key) 32
      then panics
      else elim (n.box_open (drop 24 msg) (take 24 msg) (take 32 peer_pub_key) (take 32 priv_key)) [
        | none ↦ fails_with decrypt_failed
        | some plain ↦ gives plain
      ]

  -- sign.Overhead is 64.
  unfoldable pub sign : Bytes → Bytes → Outcome Bytes
  sign digest signer_priv_key =
      if not (length signer_priv_key == 64)
      then fails_with bad_key_format
      else (let sig = n.sign_message digest signer_priv_key in
          if ltb (length sig) 64 then panics else gives (take 64 sig))

  unfoldable pub verify_signature : Bytes → Bytes → Bytes → Outcome (Unit {0})
  verify_signature sig digest signer_pub_key =
      if ltb (length signer_pub_key) 32
      then panics
      else elim (n.sign_open (sig ++ digest) (take 32 signer_pub_key)) [
        | none ↦ fails_with verify_signature_failed
        | some _ ↦ gives tt
      ]

  unfoldable pub nacl_kit : CryptoKit r
  unfolding generate_new_key encrypt decrypt encrypt_using_password decrypt_using_password
      encrypt_for decrypt_from sign verify_signature
  nacl_kit = record {
    crypto_kit_id = 1;
    generate_new_key = generate_new_key;
    encrypt = encrypt;
    decrypt = decrypt;
    encrypt_using_password = encrypt_using_password;
    decrypt_using_password = decrypt_using_password;
    encrypt_for = encrypt_for;
    decrypt_from = decrypt_from;
    sign = sign;
    verify_signature = verify_signature;
  }
