-- ===== src/Tests/KitRuns.antt =====
-- The kits over a toy of the libraries: what is sealed has its key in front, and a private key shows
-- its public key.
use mathlib.Core.Path.{subst}
use mathlib.Core.Option.{some-injective}
use amp_host_go.Base.{
  ℕ, ◌+◌, ◌<◌, ◌≡◌, ◌≢◌, ◌↔◌, refl, sym, ap, ◌∙◌, true, Option, none, some, [], ◌∷◌, ◌++◌,
  if◌then◌else◌, if_true, arith, length, take, drop, replicate, get_elem?, length-append,
}
use amp_host_go.Base.Slices.{take_exact, drop_exact, take-append_le}
use amp_host_go.Base.Bytes.{Bytes, equal_bytes, equal_bytes_refl}
use amp_host_go.Ski.Key.{KeyEntry}
use amp_host_go.Ski.CryptoKit.{Random, gives, panics, fill, length-fill, fetch_hasher, IsSigner}
use amp_host_go.Ski.Nacl.{
  Library, pair_key, generate_new_key, encrypt_using_password, decrypt_using_password, encrypt_for,
  decrypt_from, nacl_kit,
}
use amp_host_go.Ski.Nacl.Laws.{IsNacl}
use amp_host_go.Ski.Nacl.Laws.Trips.{encrypt_using_password-decrypt}
use amp_host_go.Ski.Nacl.Laws.Peers.{encrypt_for-decrypt_from}
use amp_host_go.Ski.Nacl.Laws.Panics.{decrypt_using_password-panics}
use amp_host_go.Ski.Nacl.Laws.Signing.{kits-AreSigners}
use amp_host_go.Ski.Ed25519.{EdLibrary, IsEd, ed_kit}

-- A reader whose n-th Read gives the byte n.
abbrev counter : Random
counter = record { Reader = ℕ; read = λ n k. (replicate n k, true, k + 1) }

abbrev strip : Bytes → Bytes → Option Bytes
strip key b = if equal_bytes (take (length key) b) key then some (drop (length key) b) else none

strip-append : (key m : Bytes) → strip key (key ++ m) ≡ some m
strip-append key m =
    let same : equal_bytes (take (length key) (key ++ m)) key ≡ true =
      ap (λ k. equal_bytes k key) (take_exact (length key) key m refl) ∙ equal_bytes_refl key in
    if_true _ _ same ∙ ap some (drop_exact (length key) key m refl)

abbrev opens_signed : Bytes → Bytes → Option Bytes
opens_signed b p = if equal_bytes (take 32 b) p then some (drop 64 b) else none

opens-signed : (m p s : Bytes) → length s ≡ 64 → take 32 s ≡ p → opens_signed (s ++ m) p ≡ some m
opens-signed m p s h e =
    let shown : equal_bytes (take 32 (s ++ m)) p ≡ true =
      ap (λ k. equal_bytes k p) (take-append_le 32 s m (omega (arith, h)) ∙ e)
      ∙ equal_bytes_refl p in
    if_true _ _ shown ∙ ap some (drop_exact 64 s m h)

abbrev toy : Library counter
toy = record {
  secret_seal = λ m nonce key. key ++ m;
  secret_open = λ b nonce key. strip key b;
  box_generate = λ k. (some (replicate 32 k, replicate 32 k), k + 1);
  box_seal = λ m nonce peer priv. priv ++ peer ++ m;
  box_open = λ b nonce peer priv. strip (peer ++ priv) b;
  sign_generate = λ k. (some (replicate 32 k, replicate 64 k), k + 1);
  sign_message = λ m priv. priv ++ m;
  sign_open = opens_signed;
  pbkdf2_key = λ pwd salt h. fill 32 pwd;
}

abbrev BoxPair : Bytes → Bytes → Type 0
BoxPair p s = p ≡ s

abbrev SigningPair : Bytes → Bytes → Type 0
SigningPair p s = (length s ≡ 64) × (take 32 s ≡ p)

toy-IsNacl : IsNacl toy
toy-IsNacl = record {
  secret_opens = λ m nonce key h k. strip-append key m;
  IsBoxPair = BoxPair;
  box_pairs = λ rand p s e.
      subst (λ (q : Bytes × Bytes). BoxPair q.0 q.1 × (length q.0 ≡ 32) × (length q.1 ≡ 32))
        (some-injective _ _ e) (refl, refl, refl);
  box_opens = λ m nonce p s p' s' h e e'.
      ap (λ k. strip (p ++ s') (k ++ p' ++ m)) (sym e)
      ∙ ap (λ k. strip (p ++ s') (p ++ k ++ m)) e'
      ∙ strip-append (p ++ s') m;
  IsSigningPair = SigningPair;
  signing_pairs = λ rand p s e.
      subst (λ (q : Bytes × Bytes). SigningPair q.0 q.1 × (length q.0 ≡ 32) × (length q.1 ≡ 64))
        (some-injective _ _ e) ((refl, refl), refl, refl);
  signed = λ m s h. (s, h, refl);
  sign_opens = λ m p s pair. opens-signed m p s pair.0 pair.1;
  key_length = λ pwd salt h. length-fill 32 pwd;
}

abbrev toy_ed : EdLibrary counter
toy_ed = record {
  generate_key = λ k. (some (replicate 32 k, replicate 64 k), k + 1);
  sign_with = λ s m. fill 32 s ++ fill 32 m;
  verifies = λ p m sig. equal_bytes sig (p ++ fill 32 m);
}

toy_ed-IsEd : IsEd toy_ed
unfolding fill
toy_ed-IsEd = record {
  IsPair = λ p s. p ≡ fill 32 s;
  pairs = λ rand p s e.
      subst (λ (q : Bytes × Bytes). (q.0 ≡ fill 32 q.1) × (length q.0 ≡ 32) × (length q.1 ≡ 64))
        (some-injective _ _ e) (refl, refl, refl);
  signature_length = λ s m.
      omega (arith, length-append (fill 32 s) (fill 32 m), length-fill 32 s, length-fill 32 m);
  accepts = λ p s m e.
      ap (λ k. equal_bytes (fill 32 s ++ fill 32 m) (k ++ fill 32 m)) e
      ∙ equal_bytes_refl (fill 32 s ++ fill 32 m);
}

abbrev unmade : ℕ → KeyEntry
unmade key_type = record {
  key_info = record { key_type = key_type; crypto_kit_id = 1; time_created = 0; pub_key = [] };
  priv_key = [];
}

abbrev made_of : ℕ → Bytes → Bytes → KeyEntry
made_of key_type p s = record {
  key_info = record { key_type = key_type; crypto_kit_id = 1; time_created = 0; pub_key = p };
  priv_key = s;
}

encrypt_using_password-decrypt_example :
    (sealed : Bytes) × ((encrypt_using_password toy 3 (1 ∷ 2 ∷ []) (7 ∷ 7 ∷ [])).0 ≡ gives sealed)
    × (decrypt_using_password toy sealed (7 ∷ 7 ∷ []) ≡ gives (1 ∷ 2 ∷ []))
encrypt_using_password-decrypt_example =
    encrypt_using_password-decrypt toy toy-IsNacl 3 (1 ∷ 2 ∷ []) (7 ∷ 7 ∷ []) refl

decrypt_using_password-panics_example :
    (decrypt_using_password toy (5 ∷ 0 ∷ 1 ∷ []) (7 ∷ []) ≡ panics) ↔ (
      (id : ℕ)
      → get_elem? {A = ℕ} (5 ∷ 0 ∷ 1 ∷ []) 0 ≡ some id
      → (fetch_hasher id ≢ none) × (length {A = ℕ} (5 ∷ 0 ∷ 1 ∷ []) < 50))
decrypt_using_password-panics_example =
    decrypt_using_password-panics toy toy-IsNacl (5 ∷ 0 ∷ 1 ∷ []) (7 ∷ [])

encrypt_for-decrypt_from_example :
    (sealed : Bytes) × ((encrypt_for toy 9 (1 ∷ 2 ∷ []) (replicate 32 8) (replicate 32 5)).0
      ≡ gives sealed)
    × (decrypt_from toy sealed (replicate 32 5) (replicate 32 8) ≡ gives (1 ∷ 2 ∷ []))
unfolding generate_new_key pair_key
encrypt_for-decrypt_from_example =
    encrypt_for-decrypt_from toy toy-IsNacl 0 5 6 8 9 9 (unmade 2)
      (made_of 2 (replicate 32 5) (replicate 32 5)) (unmade 2)
      (made_of 2 (replicate 32 8) (replicate 32 8)) (1 ∷ 2 ∷ []) refl refl refl refl refl

kits-AreSigners_example : IsSigner (nacl_kit toy) × IsSigner (ed_kit toy_ed)
kits-AreSigners_example = kits-AreSigners toy toy_ed toy-IsNacl toy_ed-IsEd
