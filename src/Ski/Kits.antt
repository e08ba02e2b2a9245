-- ===== src/Ski/Kits.antt =====
-- ski/api.ski.go: the registry of crypto kits. A kit is named by the object that it is; its
-- CryptoKitID and its VerifySignature are parameters. A nil map is the empty one.
use mathlib.Core.Option.{none-ne-some}
use mathlib.Core.Path.{subst}
use mathlib.Core.Bool.{true≢false}
use amp_host_go.Base.{
  ℕ, ◌≡◌, ◌↔◌, refl, sym, ap, ◌∙◌, false, Option, none, some, List, ◌==◌, if◌then◌else◌,
  Option-cases, Bool-cases, if_true, if_false, inl, inr, ==_iff,
}
use amp_host_go.Base.Assoc.{lookup, insert, lookup-insert}
use amp_host_go.Base.Bytes.{Bytes}

pub data KitError : Type 0 where
  crypto_kit_already_registered bad_signature : KitError

-- A kit, or an error.
pub data Fetched : Type 0 where
  fetched : ℕ → Fetched
  fails_with : KitError → Fetched

unfoldable pub register_crypto_kit : (ℕ → ℕ) → ℕ → List (ℕ × ℕ) → List (ℕ × ℕ) × Option KitError
register_crypto_kit id_of kit registry = elim (lookup (id_of kit) registry) [
  | none ↦ (insert (id_of kit) kit registry, none)
  | some existing ↦
      if existing == kit then (registry, none) else (registry, some crypto_kit_already_registered)
]

unfoldable pub get_crypto_kit : List (ℕ × ℕ) → ℕ → Fetched
get_crypto_kit registry crypto_kit_id = elim (lookup crypto_kit_id registry) [
  | none ↦ fails_with crypto_kit_already_registered
  | some kit ↦ fetched kit
]

unfoldable pub verify_signature :
    (ℕ → Bytes → Bytes → Bytes → Option KitError)
    → List (ℕ × ℕ)
    → ℕ
    → Bytes
    → Bytes
    → Bytes
    → Option KitError
unfolding get_crypto_kit
verify_signature verify_of registry crypto_kit_id sig digest signer_pub_key =
    elim (get_crypto_kit registry crypto_kit_id) [
      | fails_with e ↦ some e
      | fetched kit ↦ verify_of kit sig digest signer_pub_key
    ]

-- What the registry has under each ID after a call of RegisterCryptoKit, and how the call ended.
abbrev pub IsRegistered : (ℕ → ℕ) → ℕ → List (ℕ × ℕ) → List (ℕ × ℕ) × Option KitError → Type 0
IsRegistered id_of kit registry p =
    ((j : ℕ)
      → get_crypto_kit p.0 j ≡ (elim (lookup j registry) [
        | none ↦ if id_of kit == j then fetched kit else fails_with crypto_kit_already_registered
        | some first ↦ fetched first
      ]))
    × ((p.1 ≡ none) ↔ (get_crypto_kit p.0 (id_of kit) ≡ fetched kit))

-- An ID that has a kit keeps it.
kept :
    (registry : List (ℕ × ℕ)) (id kit first j : ℕ)
    → lookup id registry ≡ some first
    → elim (lookup j registry) [
      | none ↦ fails_with crypto_kit_already_registered
      | some k ↦ fetched k
    ]
      ≡ elim (lookup j registry) [
        | none ↦ if id == j then fetched kit else fails_with crypto_kit_already_registered
        | some k ↦ fetched k
      ]
kept registry id kit first j e = elim (Option-cases (lookup j registry)) [
  | inr (k, h) ↦ rw h refl
  | inl h ↦
      let apart : (id == j) ≡ false = elim (Bool-cases (id == j)) [
        | inr f ↦ f
        | inl t ↦
            absurd (
              none-ne-some first
                (sym h ∙ ap (λ i. lookup i registry) (sym ((==_iff id j).0 t)) ∙ e))
      ] in
      rw (h, apart) refl
]

fetched_kit : Fetched → ℕ → ℕ
fetched_kit (fetched k) d = k
fetched_kit (fails_with e) d = d

differs :
    (registry : List (ℕ × ℕ)) (id kit first : ℕ)
    → lookup id registry ≡ some first
    → (first == kit) ≡ false
    → elim (lookup id registry) [
      | none ↦ fails_with crypto_kit_already_registered
      | some k ↦ fetched k
    ]
      ≡ fetched kit
    → ⊥
unfolding fetched_kit
differs registry id kit first e f h =
    let same : first ≡ kit = ap (λ r. fetched_kit r 0) (rw e at h) in
    absurd (true≢false (sym ((==_iff first kit).1 same) ∙ f))

-- RegisterCryptoKit gives a kit its ID if no kit has it, and never replaces a kit; it returns no
-- error exactly if GetCryptoKit gives that very kit for the ID afterwards.
pub register_crypto_kit-IsRegistered :
    (id_of : ℕ → ℕ) (kit : ℕ) (registry : List (ℕ × ℕ))
    → IsRegistered id_of kit registry (register_crypto_kit id_of kit registry)
unfolding register_crypto_kit get_crypto_kit
register_crypto_kit-IsRegistered id_of kit registry =
    elim (Option-cases (lookup (id_of kit) registry)) [
      | inl e ↦
          let q : register_crypto_kit id_of kit registry ≡ (insert (id_of kit) kit registry, none) =
            ap out e in
          let now = λ (j : ℕ). lookup-insert (id_of kit) j kit registry in
          subst (IsRegistered id_of kit registry) (sym q) (
            λ j. elim (Bool-cases (id_of kit == j)) [
              | inl t ↦
                  let none_there : lookup j registry ≡ none =
                    ap (λ i. lookup i registry) (sym ((==_iff _ j).0 t)) ∙ e in
                  ap under (now j ∙ if_true _ _ t)
                  ∙ sym (ap (expected j) none_there ∙ if_true _ _ t)
              | inr f ↦ ap under (now j ∙ if_false _ _ f) ∙ missing j f (lookup j registry)
            ],
            (
              λ h.
                  ap under
                    (now (id_of kit) ∙ if_true _ _ ((==_iff (id_of kit) (id_of kit)).1 refl)),
              λ h. refl,
            ),
          )
      | inr (first, e) ↦ elim (Bool-cases (first == kit)) [
        | inl t ↦
            let q : register_crypto_kit id_of kit registry ≡ (registry, none) =
              ap out e ∙ if_true _ _ t in
            subst (IsRegistered id_of kit registry) (sym q) (
              λ j. kept registry (id_of kit) kit first j e,
              (λ h. ap under e ∙ ap fetched ((==_iff first kit).0 t), λ h. refl),
            )
        | inr f ↦
            let q : register_crypto_kit id_of kit registry
                ≡ (registry, some crypto_kit_already_registered) =
              ap out e ∙ if_false _ _ f in
            subst (IsRegistered id_of kit registry) (sym q) (
              λ j. kept registry (id_of kit) kit first j e,
              (
                λ h. absurd (none-ne-some _ (sym h)),
                λ h. absurd (differs registry (id_of kit) kit first e f h),
              ),
            )
      ]
    ]
  where
    out : Option ℕ → List (ℕ × ℕ) × Option KitError
    out o = elim o [
      | none ↦ (insert (id_of kit) kit registry, none)
      | some existing ↦
          if existing == kit
          then (registry, none)
          else (registry, some crypto_kit_already_registered)
    ]

    under : Option ℕ → Fetched
    under o = elim o [ none ↦ fails_with crypto_kit_already_registered | some k ↦ fetched k ]

    expected : ℕ → Option ℕ → Fetched
    expected j o = elim o [
      | none ↦ if id_of kit == j then fetched kit else fails_with crypto_kit_already_registered
      | some first ↦ fetched first
    ]

    missing : (j : ℕ) → (id_of kit == j) ≡ false → (o : Option ℕ) → under o ≡ expected j o
    missing j f none = sym (if_false _ _ f)
    missing j f (some k) = refl
