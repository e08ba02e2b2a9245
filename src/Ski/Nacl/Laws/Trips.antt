-- ===== src/Ski/Nacl/Laws/Trips.antt =====
-- What is encrypted can be decrypted: with a key, with a password.
use mathlib.Core.Option.{none-ne-some}
use amp_host_go.Base.{
  ℕ, ◌≡◌, sym, ap, ◌∙◌, true, false, not, ◌||◌, Option, none, some, ◌∷◌, ◌++◌, ◌==◌, ltb, if_true,
  if_false, Bool-cases, inl, inr, length, take, drop, arith, length-append,
}
use amp_host_go.Base.Slices.{take_exact, drop_exact}
use amp_host_go.Base.Bytes.{Bytes}
use amp_host_go.Ski.Key.{KeyEntry}
use amp_host_go.Ski.CryptoKit.{
  Random, CryptoError, decrypt_failed, Outcome, gives, fails_with, panics, fill, length-fill,
  blake2b_256, fetch_hasher,
}
use amp_host_go.Ski.Nacl.{
  Library, encrypt, decrypt, symmetric_key, generate_new_key, encrypt_using_password,
  decrypt_using_password,
}
use amp_host_go.Ski.Nacl.Laws.{IsNacl}
use amp_host_go.Ski.Nacl.Laws.Made.{take_all}

module _ {r : Random} (n : Library r) (l : IsNacl n) where
  decrypt-sealed :
      (msg salt key : Bytes)
      → length salt ≡ 24
      → length key ≡ 32
      → decrypt n (salt ++ n.secret_seal msg salt key) key ≡ gives msg
  unfolding decrypt
  decrypt-sealed msg salt key s k =
      let box = n.secret_seal msg salt key in
      let in_range : (ltb (length (salt ++ box)) 24 || ltb (length key) 32) ≡ false =
        ground (arith, length-append salt box, s, k) in
      if_false _ _ in_range
      ∙ ap out (
          ap (λ b. n.secret_open b (take 24 (salt ++ box)) (take 32 key)) (drop_exact 24 salt box s)
          ∙ ap (λ b. n.secret_open box b (take 32 key)) (take_exact 24 salt box s)
          ∙ ap (λ b. n.secret_open box salt b) (take_all 32 key k)
          ∙ l.secret_opens msg salt key s k)
    where
      out : Option Bytes → Outcome Bytes
      out o = elim o [ none ↦ fails_with decrypt_failed | some plain ↦ gives plain ]

  encrypt_ok :
      (rand : r.Reader) (msg key : Bytes)
      → length key ≡ 32
      → (r.read 24 rand).1 ≡ true
      → (encrypt n rand msg key).0
        ≡ gives (fill 24 (r.read 24 rand).0 ++ n.secret_seal msg (fill 24 (r.read 24 rand).0) key)
  unfolding encrypt
  encrypt_ok rand msg key k ok =
      let sized : not (length key == 32) ≡ false = ground (arith, k) in
      let read_it : not (r.read 24 rand).1 ≡ false = ground (arith, ok) in
      ap (λ (p : Outcome Bytes × r.Reader). p.0) (if_false _ _ sized ∙ if_false _ _ read_it)

  symmetric_key_length :
      (size : ℕ) (rand rand' : r.Reader) (entry made : KeyEntry)
      → entry.key_type ≡ 1
      → generate_new_key n size rand entry ≡ (made, none, rand')
      → length made.priv_key ≡ 32
  unfolding generate_new_key symmetric_key
  symmetric_key_length size rand rand' entry made is_symmetric done =
      let chosen : (entry.key_type == 1) ≡ true = ground (arith, is_symmetric) in
      let made_it : symmetric_key n size rand entry ≡ (made, none, rand') =
        sym (if_true _ _ chosen) ∙ done in
      elim (Bool-cases (r.read size rand).1) [
        | inl ok ↦
            let read_it : not (r.read size rand).1 ≡ false = ground (arith, ok) in
            ap (λ (p : KeyEntry × Option CryptoError × r.Reader). length p.0.priv_key)
              (sym (sym (if_false _ _ read_it) ∙ made_it))
            ∙ length-fill 32 (r.read 32 (r.read size rand).2).0
        | inr fails ↦
            let failed : not (r.read size rand).1 ≡ true = ground (arith, fails) in
            absurd (
              none-ne-some _ (
                ap (λ (p : KeyEntry × Option CryptoError × r.Reader). p.1)
                  (sym (sym (if_true _ _ failed) ∙ made_it))))
      ]

  -- A message that is encrypted under a symmetric key of GenerateNewKey is what Decrypt gives, and
  -- Encrypt fails only if the reader does.
  pub encrypt-decrypt :
      (size : ℕ) (rand rand' salts : r.Reader) (entry made : KeyEntry) (msg : Bytes)
      → entry.key_type ≡ 1
      → generate_new_key n size rand entry ≡ (made, none, rand')
      → (r.read 24 salts).1 ≡ true
      → (sealed : Bytes) × ((encrypt n salts msg made.priv_key).0 ≡ gives sealed)
        × (decrypt n sealed made.priv_key ≡ gives msg)
  encrypt-decrypt size rand rand' salts entry made msg is_symmetric done ok =
      let key = symmetric_key_length size rand rand' entry made is_symmetric done in
      (
        _,
        encrypt_ok salts msg made.priv_key key ok,
        decrypt-sealed msg _ made.priv_key (length-fill 24 _) key,
      )

  -- Where the libraries do what they document, a message that is encrypted with a password is what
  -- DecryptUsingPassword gives for the password; EncryptUsingPassword succeeds whenever the second
  -- of its two reads does, and whatever the first one gives.
  pub encrypt_using_password-decrypt :
      (rand : r.Reader) (msg pwd : Bytes)
      → (r.read 24 (r.read 24 rand).2).1 ≡ true
      → (sealed : Bytes) × ((encrypt_using_password n rand msg pwd).0 ≡ gives sealed)
        × (decrypt_using_password n sealed pwd ≡ gives msg)
  unfolding encrypt_using_password decrypt_using_password fetch_hasher
  encrypt_using_password-decrypt rand msg pwd ok =
      let salt = fill 24 (r.read 24 rand).0 in
      let key = n.pbkdf2_key pwd salt blake2b_256 in
      let key_ok = l.key_length pwd salt blake2b_256 in
      let nonce = fill 24 (r.read 24 (r.read 24 rand).2).0 in
      let buf = nonce ++ n.secret_seal msg nonce key in
      let whole : Bytes = 5 ∷ 0 ∷ (salt ++ buf) in
      let salt_ok : length salt ≡ 24 = length-fill 24 _ in
      let long : ltb (length whole) 26 ≡ false = ground (arith, length-append salt buf, salt_ok) in
      let same : drop 2 (take 26 whole) ≡ salt = take_exact 24 salt buf salt_ok in
      (
        whole,
        ap out (encrypt_ok (r.read 24 rand).2 msg key key_ok ok),
        if_false _ _ long
            ∙ ap (λ b. decrypt n b (n.pbkdf2_key pwd (drop 2 (take 26 whole)) blake2b_256))
                (drop_exact 24 salt buf salt_ok)
            ∙ ap (λ s. decrypt n buf (n.pbkdf2_key pwd s blake2b_256)) same
            ∙ decrypt-sealed msg nonce key (length-fill 24 _) key_ok,
      )
    where
      out : Outcome Bytes → Outcome Bytes
      out o = elim o [
        | panics ↦ panics
        | fails_with e ↦ fails_with e
        | gives sealed ↦ gives (5 ∷ 0 ∷ (fill 24 (r.read 24 rand).0 ++ sealed))
      ]
