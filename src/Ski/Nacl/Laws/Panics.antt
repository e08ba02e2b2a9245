-- ===== src/Ski/Nacl/Laws/Panics.antt =====
-- The inputs at which DecryptUsingPassword panics.
use mathlib.Core.Option.{none-ne-some, some-injective}
use mathlib.Core.Bool.{true≢false}
use amp_host_go.Base.{
  ℕ, ◌+◌, ◌≤◌, ◌<◌, ◌≡◌, ◌≢◌, ◌↔◌, refl, sym, ap, ◌∙◌, true, false, ◌||◌, Option, none, some, [],
  ◌∷◌, ltb, if◌then◌else◌, if_true, if_false, Bool-cases, Option-cases, inl, inr, length, take,
  drop, get_elem?, arith, length-drop,
}
use amp_host_go.Base.Bytes.{Bytes}
use amp_host_go.Ski.CryptoKit.{
  Random, decrypt_failed, hash_kit_not_found, Outcome, gives, fails_with, panics, gives_not_panics,
  fails_not_panics, HashFunction, fetch_hasher,
}
use amp_host_go.Ski.Nacl.{Library, decrypt, decrypt_using_password}
use amp_host_go.Ski.Nacl.Laws.{IsNacl}

module _ {r : Random} (n : Library r) (l : IsNacl n) where
  decrypt_cases :
      (msg key : Bytes) → length key ≡ 32 → (decrypt n msg key ≡ panics) ↔ (length msg < 24)
  unfolding decrypt
  decrypt_cases msg key k = elim (Bool-cases (ltb (length msg) 24)) [
    | inl short ↦
        let out_of_range : (ltb (length msg) 24 || ltb (length key) 32) ≡ true =
          ground (arith, short) in
        (λ e. ground (arith, short), λ h. if_true _ _ out_of_range)
    | inr long ↦
        let in_range : (ltb (length msg) 24 || ltb (length key) 32) ≡ false =
          ground (arith, long, k) in
        (
          λ e. absurd (
              opens (n.secret_open (drop 24 msg) (take 24 msg) (take 32 key))
                (sym (if_false _ _ in_range) ∙ e)),
          λ h. absurd (true≢false (sym (ground (arith, h)) ∙ long)),
        )
  ]
    where
      opens :
          (o : Option Bytes)
          → elim o [ none ↦ fails_with decrypt_failed | some plain ↦ gives plain ] ≡ panics
          → ⊥
      opens none e = fails_not_panics decrypt_failed _ refl e
      opens (some m) e = gives_not_panics m _ refl e

  -- Where pbkdf2 gives a key of 32 bytes, DecryptUsingPassword panics exactly on what is empty or
  -- names a known hash function and is shorter than 50 bytes: the two bytes of the name and the two
  -- salts.
  pub decrypt_using_password-panics :
      (msg pwd : Bytes)
      → (decrypt_using_password n msg pwd ≡ panics)
        ↔ ((id : ℕ) → get_elem? msg 0 ≡ some id → (fetch_hasher id ≢ none) × (length msg < 50))
  unfolding decrypt_using_password
  decrypt_using_password-panics [] pwd = (λ e. λ id h. absurd (none-ne-some id h), λ h. refl)
  decrypt_using_password-panics (id ∷ msg) pwd = elim (Option-cases (fetch_hasher id)) [
    | inl e ↦ (
      λ h. absurd (fails_not_panics hash_kit_not_found _ refl (sym (ap out e) ∙ h)),
      λ h. absurd ((h id refl).0 e),
    )
    | inr (hasher, e) ↦ elim (Bool-cases (ltb (length (id ∷ msg)) 26)) [
      | inl short ↦
          let less : length (id ∷ msg) < 26 = ground (arith, short) in
          (
            λ h. λ id' same. (known hasher id' e same, omega (arith, less)),
            λ h. ap out e ∙ if_true _ _ short,
          )
      | inr long ↦
          let key = n.pbkdf2_key pwd (drop 2 (take 26 (id ∷ msg))) hasher in
          let inner = decrypt_cases (drop 26 (id ∷ msg)) key (l.key_length _ _ _) in
          let more : 26 ≤ length (id ∷ msg) = ground (arith, long) in
          let left : length (drop 26 (id ∷ msg)) + 26 ≡ length (id ∷ msg) =
            ground (arith, length-drop 26 (id ∷ msg), more) in
          (
            λ h. λ id' same. (
              known hasher id' e same,
              omega (arith, left, inner.0 (sym (ap out e ∙ if_false _ _ long) ∙ h)),
            ),
            λ h. ap out e ∙ if_false _ _ long ∙ inner.1 (omega (arith, left, (h id refl).1)),
          )
    ]
  ]
    where
      out : Option HashFunction → Outcome Bytes
      out o = elim o [
        | none ↦ fails_with hash_kit_not_found
        | some hasher ↦
            if ltb (length (id ∷ msg)) 26
            then panics
            else decrypt n (drop 26 (id ∷ msg))
                (n.pbkdf2_key pwd (drop 2 (take 26 (id ∷ msg))) hasher)
      ]

      known :
          (hasher : HashFunction) (id' : ℕ)
          → fetch_hasher id ≡ some hasher
          → some id ≡ some id'
          → fetch_hasher id' ≢ none
      known hasher id' e same h =
          none-ne-some hasher (sym h ∙ ap fetch_hasher (sym (some-injective _ _ same)) ∙ e)
