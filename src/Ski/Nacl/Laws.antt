-- ===== src/Ski/Nacl/Laws.antt =====
-- What golang.org/x/crypto documents, and that the kits' own functions undo one another.
pub mod Made
pub mod Trips
pub mod Peers
pub mod Panics
pub mod Signing
use amp_host_go.Base.{ℕ, ◌≡◌, Option, none, some, length, ◌++◌}
use amp_host_go.Base.Bytes.{Bytes}
use amp_host_go.Ski.CryptoKit.{Random, HashFunction}
use amp_host_go.Ski.Nacl.{Library}

-- A nonce has 24 bytes, a pair of keys for a box 32 each, one for signatures 32 and 64.
pub record IsNacl {r : Random} (n : Library r) : Type 1 where
  pub secret_opens :
      (m nonce key : Bytes)
      → length nonce ≡ 24
      → length key ≡ 32
      → n.secret_open (n.secret_seal m nonce key) nonce key ≡ some m
  pub IsBoxPair : Bytes → Bytes → Type 0
  pub box_pairs :
      (rand : r.Reader) (p s : Bytes)
      → (n.box_generate rand).0 ≡ some (p, s)
      → IsBoxPair p s × (length p ≡ 32) × (length s ≡ 32)
  pub box_opens :
      (m nonce p s p' s' : Bytes)
      → length nonce ≡ 24
      → IsBoxPair p s
      → IsBoxPair p' s'
      → n.box_open (n.box_seal m nonce p' s) nonce p s' ≡ some m
  pub IsSigningPair : Bytes → Bytes → Type 0
  pub signing_pairs :
      (rand : r.Reader) (p s : Bytes)
      → (n.sign_generate rand).0 ≡ some (p, s)
      → IsSigningPair p s × (length p ≡ 32) × (length s ≡ 64)
  pub signed :
      (m s : Bytes)
      → length s ≡ 64
      → (sig : Bytes) × (length sig ≡ 64) × (n.sign_message m s ≡ sig ++ m)
  pub sign_opens : (m p s : Bytes) → IsSigningPair p s → n.sign_open (n.sign_message m s) p ≡ some m
  pub key_length : (pwd salt : Bytes) (h : HashFunction) → length (n.pbkdf2_key pwd salt h) ≡ 32
