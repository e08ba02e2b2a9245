-- ===== src/Ski/Tome/Export.antt =====
-- What ExportUsingGuide exports.
use mathlib.Core.Option
use amp_host_go.Base.{
  ◌≡◌, refl, ap, ◌∙◌, Bool, true, false, ◌&&◌, Option, none, some, List, [], ◌∷◌, ◌==◌,
  if◌then◌else◌, length, any, Bool-cases, inl, inr, arith,
}
use amp_host_go.Base.Bytes.{Bytes}
use amp_host_go.Ski.Key.{KeyEntry}
use amp_host_go.Ski.Keyring.{Keyring, fetch_key}
use amp_host_go.Ski.Tome.{
  KeyTome, fetch_keyring, export_keys, export_keyring, export_keyrings, cons_both,
  export_using_guide,
}

-- The answers to a list of questions, without those that are missing.
abbrev answers : {A B : Type 0} → (A → Option B) → List A → List B
answers f [] = []
answers f (x ∷ xs) = elim (f x) [ none ↦ answers f xs | some y ↦ y ∷ answers f xs ]

abbrev is_none : {A : Type 0} → Option A → Bool
is_none none = true
is_none (some x) = false

map-unless :
    {A B : Type 0} (f : A → B) (x : A) (b : Bool)
    → Option.map f (if b then none else some x) ≡ (if b then none else some (f x))
map-unless f x true = refl
map-unless f x false = refl

abbrev pub key_asked : Keyring → KeyEntry → Option KeyEntry
key_asked src entry = fetch_key src entry.pub_key

-- One more entry of a guide, by whether it is found.
answers-cons :
    (o : Option KeyEntry) (strict m : Bool) (rest : Option (List KeyEntry)) (l : List KeyEntry)
    → rest ≡ (if strict && m then none else some l)
    → elim o [
      | none ↦ if strict then none else rest
      | some found ↦ Option.map (λ keys. found ∷ keys) rest
    ]
      ≡ (if strict && (if is_none o then true else m)
          then none
          else some (elim o [ none ↦ l | some y ↦ y ∷ l ]))
answers-cons none true m rest l e = refl
answers-cons none false m rest l e = e
answers-cons (some found) strict m rest l e =
    ap (Option.map (λ keys. found ∷ keys)) e ∙ map-unless (λ keys. found ∷ keys) l (strict && m)

export_keys-answers :
    (strict : Bool) (src : Keyring) (guide : List KeyEntry)
    → export_keys strict src guide ≡ (
        if strict && any (λ entry. is_none (key_asked src entry)) guide
        then none
        else some (answers (key_asked src) guide))
unfolding export_keys
export_keys-answers strict src [] = ground arith
export_keys-answers strict src (entry ∷ rest) =
    answers-cons (fetch_key src entry.pub_key) strict _ _ _ (export_keys-answers strict src rest)

-- What a guide's Keyring asks of the one of its name.
abbrev pub chosen : Keyring → Keyring → Keyring
chosen src guide = if length guide.keys == 0 then src else record {
  name = src.name;
  keys = answers (key_asked src) guide.keys;
  sorted_by_pub_key = false;
  newest_pub_key = [];
}

abbrev pub is_short : Keyring → Keyring → Bool
is_short src guide = any (λ entry. is_none (key_asked src entry)) guide.keys

no_keys : (keys : List KeyEntry) → (length keys == 0) ≡ true → keys ≡ []
no_keys [] h = refl
no_keys (k ∷ keys) h = ground arith

export_keyring-chosen :
    (strict : Bool) (src guide : Keyring)
    → export_keyring strict src guide
      ≡ (if strict && is_short src guide then none else some (chosen src guide))
unfolding export_keyring
export_keyring-chosen strict src guide = elim (Bool-cases (length guide.keys == 0)) [
  | inl t ↦ elim (Bool-cases strict) [
    | inl s ↦ rw (export_keyring, t, s, no_keys guide.keys t) refl
    | inr s ↦ rw (export_keyring, t, s) refl
  ]
  | inr f ↦
      rw (export_keyring, f)
        (ap (Option.map _) (export_keys-answers strict src guide.keys)
          ∙ map-unless _ _ (strict && is_short src guide))
]

-- What a tome has for a guide's Keyring, and whether anything that the guide names is missing.
abbrev pub keyring_asked : KeyTome → Keyring → Option Keyring
keyring_asked tome guide = Option.map (λ src. chosen src guide) (fetch_keyring tome guide.name)

abbrev pub is_missing : KeyTome → Keyring → Bool
is_missing tome guide = elim (fetch_keyring tome guide.name) [
  | none ↦ true
  | some src ↦ is_short src guide
]

cons_both-unless :
    (strict s m : Bool) (c : Keyring) (l : List Keyring)
    → cons_both (if strict && s then none else some c) (if strict && m then none else some l)
      ≡ (if strict && (if s then true else m) then none else some (c ∷ l))
cons_both-unless true true m c l = refl
cons_both-unless true false true c l = refl
cons_both-unless true false false c l = refl
cons_both-unless false s m c l = refl

-- One more Keyring of a guide, by whether the tome has one of its name.
keyrings-cons :
    (o : Option Keyring) (guide : Keyring) (strict m : Bool) (rest : Option (List Keyring))
    (l : List Keyring)
    → rest ≡ (if strict && m then none else some l)
    → elim o [
      | none ↦ if strict then none else rest
      | some src ↦ cons_both (export_keyring strict src guide) rest
    ]
      ≡ (if strict && (if elim o [ none ↦ true | some src ↦ is_short src guide ] then true else m)
          then none
          else some (elim (Option.map (λ src. chosen src guide) o) [ none ↦ l | some y ↦ y ∷ l ]))
keyrings-cons none guide true m rest l e = refl
keyrings-cons none guide false m rest l e = e
keyrings-cons (some src) guide strict m rest l e =
    ap (cons_both (export_keyring strict src guide)) e
    ∙ ap (λ o. cons_both o (if strict && m then none else some l))
        (export_keyring-chosen strict src guide)
    ∙ cons_both-unless strict (is_short src guide) m (chosen src guide) l

export_keyrings-answers :
    (strict : Bool) (tome : KeyTome) (guides : List Keyring)
    → export_keyrings strict tome guides ≡ (
        if strict && any (is_missing tome) guides
        then none
        else some (answers (keyring_asked tome) guides))
unfolding export_keyrings
export_keyrings-answers strict tome [] = ground arith
export_keyrings-answers strict tome (guide ∷ rest) =
    keyrings-cons (fetch_keyring tome guide.name) guide strict _ _ _
      (export_keyrings-answers strict tome rest)

-- The tome that ExportUsingGuide marshals.
abbrev pub exported_tome : KeyTome → KeyTome → KeyTome
exported_tome tome guide = record {
  rev = tome.rev;
  keyrings = answers (keyring_asked tome) guide.keyrings;
  sorted_by_name = false;
}

-- ExportUsingGuide marshals, in the guide's order, each Keyring that the tome has by a guide's
-- name: the whole of it for a guide with no keys, and else the entries that FetchKey finds for the
-- guide's pub keys. With the option to fail, it fails if a Keyring or an entry that the guide names
-- is missing; without it, what is missing is left out.
pub export_using_guide-answers :
    (marshal : KeyTome → Option Bytes) (tome guide : KeyTome) (strict : Bool)
    → export_using_guide marshal tome guide strict ≡ (
        if strict && any (is_missing tome) guide.keyrings
        then none
        else marshal (exported_tome tome guide))
unfolding export_using_guide
export_using_guide-answers marshal tome guide strict =
    ap send (export_keyrings-answers strict tome guide.keyrings)
    ∙ cases (strict && any (is_missing tome) guide.keyrings)
  where
    send : Option (List Keyring) → Option Bytes
    send o = elim o [
      | none ↦ none
      | some krs ↦ marshal (record { rev = tome.rev; keyrings = krs; sorted_by_name = false })
    ]

    cases :
        (b : Bool)
        → send (if b then none else some (answers (keyring_asked tome) guide.keyrings))
          ≡ (if b then none else marshal (exported_tome tome guide))
    cases true = refl
    cases false = refl
