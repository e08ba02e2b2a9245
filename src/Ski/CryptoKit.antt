-- ===== src/Ski/CryptoKit.antt =====
-- ski/api.ski.go and ski/ski.support.go: what a crypto kit offers, and FetchHasher. A slice has no
-- room beyond its length, and a slice expression that is out of range panics.
use mathlib.Core.Path.{subst}
use amp_host_go.Base.{
  ℕ, ◌-◌, ◌≡◌, ◌≢◌, sym, ◌∙◌, Bool, Option, none, some, ◌++◌, ◌==◌, if◌then◌else◌, length, take,
  replicate, arith, length-append, length-take, zero, suc,
}
use amp_host_go.Base.Bytes.{Bytes}
use amp_host_go.Ski.Key.{KeyEntry}

pub data CryptoError : Type 0 where
  bad_key_format read_failed decrypt_failed key_generation_failed unimplemented hash_kit_not_found
        verify_signature_failed :
      CryptoError

-- How a call ends.
pub data Outcome {ℓ} (A : Type ℓ) : Type ℓ where
  gives : A → Outcome A
  fails_with : CryptoError → Outcome A
  panics : Outcome A

abbrev IsPanic {ℓ} : {A : Type ℓ} → Outcome A → Type 0
IsPanic (gives _) = ⊥
IsPanic (fails_with _) = ⊥
IsPanic panics = Unit {0}

pub gives_not_panics {ℓ} : {A : Type ℓ} (a : A) (o : Outcome A) → gives a ≡ o → o ≢ panics
gives_not_panics a o e h = subst IsPanic (sym (e ∙ h)) tt

pub fails_not_panics {ℓ} :
    {A : Type ℓ} (c : CryptoError) (o : Outcome A) → fails_with c ≡ o → o ≢ panics
fails_not_panics c o e h = subst IsPanic (sym (e ∙ h)) tt

-- What a Read into a buffer of a length does: the bytes, whether there was no error, and the reader
-- afterwards.
pub record Random : Type 1 where
  pub Reader : Type 0
  pub read : ℕ → Reader → Bytes × Bool × Reader

length_of_replicate : (n b : ℕ) → length (replicate n b) ≡ n
length_of_replicate zero b = omega arith
length_of_replicate (suc n) b = omega (arith, length_of_replicate n b)

-- A buffer of zeros after a Read.
unfoldable pub fill : ℕ → Bytes → Bytes
fill n bs = take n bs ++ replicate (n - length bs) 0

pub length-fill : (n : ℕ) (bs : Bytes) → length (fill n bs) ≡ n
unfolding fill
length-fill n bs = ground (
  arith,
  length-append (take n bs) (replicate (n - length bs) 0),
  length-take n bs,
  length_of_replicate (n - length bs) 0,
)

pub record CryptoKit (r : Random) : Type 0 where
  pub crypto_kit_id : ℕ
  pub generate_new_key : ℕ → r.Reader → KeyEntry → KeyEntry × Option CryptoError × r.Reader
  pub encrypt : r.Reader → Bytes → Bytes → Outcome Bytes × r.Reader
  pub decrypt : Bytes → Bytes → Outcome Bytes
  pub encrypt_using_password : r.Reader → Bytes → Bytes → Outcome Bytes × r.Reader
  pub decrypt_using_password : Bytes → Bytes → Outcome Bytes
  pub encrypt_for : r.Reader → Bytes → Bytes → Bytes → Outcome Bytes × r.Reader
  pub decrypt_from : Bytes → Bytes → Bytes → Outcome Bytes
  pub sign : Bytes → Bytes → Outcome Bytes
  pub verify_signature : Bytes → Bytes → Bytes → Outcome (Unit {0})

-- KeyType_SigningKey is 3. With a key that the kit has made, a signature of 64 bytes is made of each
-- digest, and the kit accepts it.
abbrev pub IsSigner : {r : Random} → CryptoKit r → Type 0
IsSigner {r = r} kit =
    (size : ℕ) (rand rand' : r.Reader) (entry made : KeyEntry) (digest : Bytes)
    → entry.key_type ≡ 3
    → kit.generate_new_key size rand entry ≡ (made, none, rand')
    → (sig : Bytes) × (kit.sign digest made.priv_key ≡ gives sig)
      × (length sig ≡ 64)
      × (kit.verify_signature sig digest made.pub_key ≡ gives tt)

pub data HashFunction : Type 0 where
  legacy_keccak_256 legacy_keccak_512 sha3_256 sha3_512 blake2b_256 blake2b_512 : HashFunction

unfoldable pub fetch_hasher : ℕ → Option HashFunction
fetch_hasher id =
    if id == 1
    then some legacy_keccak_256
    else (if id == 2
        then some legacy_keccak_512
        else (if id == 3
            then some sha3_256
            else (if id == 4
                then some sha3_512
                else (if id == 5
                    then some blake2b_256
                    else (if id == 6 then some blake2b_512 else none)))))
