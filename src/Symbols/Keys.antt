-- ===== src/Symbols/Keys.antt =====
-- The two families of keys, and what the writes of a call leave under them.
use mathlib.Core.List.{tail-eq_of_cons-eq}
use mathlib.Core.Bool.{true≢false}
use amp_host_go.Base.{
  ℕ, ◌≡◌, ◌≢◌, refl, sym, ap, ◌∙◌, Bool, true, false, ◌&&◌, Option, none, some, ◌++◌, ◌==◌,
  if◌then◌else◌, arith, length, Bool-cases, if_true, if_false, inl, inr, ◌<◌, ◌^◌, ==_iff,
}
use amp_host_go.Base.Bytes.{Bytes, equal_bytes, equal_bytes_refl, equal_bytes-eq}
use amp_host_go.Symbols.{
  Env, IsLawful, Table, Assignment, val_key, id_key, existing_id, write_pair, get_symbol,
}

module _ (e : Env) (law : IsLawful e) where
  -- An ID that its encoding keeps.
  abbrev pub Fits : ℕ → Type 0
  Fits n = n < 256 ^ e.id_sz

  pub val_key-id_key :
      (prefix n : ℕ) (val : Bytes) → equal_bytes (val_key prefix val) (id_key e prefix n) ≡ false
  unfolding equal_bytes id_key
  val_key-id_key prefix n val = ground arith

  pub id_key-val_key :
      (prefix n : ℕ) (val : Bytes) → equal_bytes (id_key e prefix n) (val_key prefix val) ≡ false
  unfolding equal_bytes id_key
  id_key-val_key prefix n val = ground arith

  pub val_key-val_key :
      (prefix : ℕ) (val other : Bytes)
      → equal_bytes (val_key prefix val) (val_key prefix other) ≡ equal_bytes val other
  unfolding equal_bytes
  val_key-val_key prefix val other = ground arith

  pub id_key-id_key :
      (prefix n m : ℕ)
      → Fits n
      → Fits m
      → equal_bytes (id_key e prefix n) (id_key e prefix m) ≡ (n == m)
  unfolding id_key
  id_key-id_key prefix n m f g = elim (Bool-cases (n == m)) [
    | inl t ↦
        let same : n ≡ m = (==_iff n m).0 t in
        sym (ap (λ k. equal_bytes (id_key e prefix n) (id_key e prefix k)) same)
        ∙ equal_bytes_refl _
        ∙ sym t
    | inr u ↦ elim (Bool-cases (equal_bytes (id_key e prefix n) (id_key e prefix m))) [
      | inr v ↦ v ∙ sym u
      | inl v ↦
          let codes : e.append_to n ≡ e.append_to m =
            tail-eq_of_cons-eq (tail-eq_of_cons-eq (equal_bytes-eq _ _ v)) in
          let same : n ≡ m = sym (law.read_of_id n f) ∙ ap e.read_from codes ∙ law.read_of_id m g in
          absurd (true≢false (sym ((==_iff n m).1 same) ∙ u))
    ]
  ]

  -- What stands under a value's key and under an ID's key once the pair was written.
  pub val_of-write_pair :
      (prefix : ℕ) (db : e.Db) (val other : Bytes) (a : Assignment)
      → e.get (write_pair e prefix val a db) (val_key prefix other) ≡ (
          if equal_bytes val other
          then some (e.append_to a.sym_id)
          else e.get db (val_key prefix other))
  unfolding write_pair
  val_of-write_pair prefix db val other a = elim (Bool-cases a.reassign_id) [
    | inl t ↦
        ap (λ d. e.get d (val_key prefix other)) (if_true _ _ t)
        ∙ law.get_after_set _ _ val _
        ∙ if_false _ _ (id_key-val_key prefix a.sym_id other)
        ∙ plain
    | inr f ↦ ap (λ d. e.get d (val_key prefix other)) (if_false _ _ f) ∙ plain
  ]
    where
      plain :
          e.get (e.set db (val_key prefix val) (e.append_to a.sym_id)) (val_key prefix other) ≡ (
            if equal_bytes val other
            then some (e.append_to a.sym_id)
            else e.get db (val_key prefix other))
      plain =
          law.get_after_set db _ _ _
          ∙ ap (λ b. if b then some (e.append_to a.sym_id) else e.get db (val_key prefix other))
              (val_key-val_key prefix val other)

  pub id_of-write_pair :
      (prefix : ℕ) (db : e.Db) (val : Bytes) (a : Assignment) (m : ℕ)
      → Fits a.sym_id
      → Fits m
      → e.get (write_pair e prefix val a db) (id_key e prefix m)
        ≡ (if a.reassign_id && a.sym_id == m then some val else e.get db (id_key e prefix m))
  unfolding write_pair
  id_of-write_pair prefix db val a m f g = elim (Bool-cases a.reassign_id) [
    | inl t ↦
        ap (λ d. e.get d (id_key e prefix m)) (if_true _ _ t)
        ∙ law.get_after_set _ _ val _
        ∙ ap (λ b. if b then some val else e.get valued (id_key e prefix m))
            (id_key-id_key prefix a.sym_id m f g)
        ∙ ap (λ o. if a.sym_id == m then some val else o) valued_same
        ∙ sym (ap (λ b. if b && a.sym_id == m then some val else e.get db (id_key e prefix m)) t)
    | inr h ↦
        ap (λ d. e.get d (id_key e prefix m)) (if_false _ _ h)
        ∙ valued_same
        ∙ sym (ap (λ b. if b && a.sym_id == m then some val else e.get db (id_key e prefix m)) h)
  ]
    where
      valued : e.Db
      valued = e.set db (val_key prefix val) (e.append_to a.sym_id)

      valued_same : e.get valued (id_key e prefix m) ≡ e.get db (id_key e prefix m)
      valued_same =
          law.get_after_set db _ (e.append_to a.sym_id) _
          ∙ if_false _ _ (val_key-id_key prefix m val)

  -- The ID that a value has once the pair was written.
  pub existing_id-write_pair :
      (prefix : ℕ) (db : e.Db) (val other : Bytes) (a : Assignment)
      → Fits a.sym_id
      → existing_id e prefix (write_pair e prefix val a db) other
        ≡ (if equal_bytes val other then a.sym_id else existing_id e prefix db other)
  unfolding existing_id write_pair
  existing_id-write_pair prefix db val other a f =
      ap read (val_of-write_pair prefix db val other a) ∙ cases (equal_bytes val other)
    where
      read : Option Bytes → ℕ
      read o = elim o [ none ↦ 0 | some buf ↦ if length buf == e.id_sz then e.read_from buf else 0 ]

      cases :
          (b : Bool)
          → read (if b then some (e.append_to a.sym_id) else e.get db (val_key prefix other))
            ≡ (if b then a.sym_id else read (e.get db (val_key prefix other)))
      cases true =
          if_true _ _ ((==_iff _ _).1 (law.length_of_id a.sym_id)) ∙ law.read_of_id a.sym_id f
      cases false = refl

  -- GetSymbol once the pair was written.
  pub get_symbol-write_pair :
      (t : Table e) (seq : e.Seq) (val io : Bytes) (a : Assignment) (m : ℕ)
      → Fits a.sym_id
      → Fits m
      → m ≢ 0
      → get_symbol e m io (record t { db = write_pair e t.prefix val a t.db; seq = seq })
        ≡ (if a.reassign_id && a.sym_id == m then some (io ++ val) else get_symbol e m io t)
  unfolding get_symbol
  get_symbol-write_pair t seq val io a m f g z =
      ap read (id_of-write_pair t.prefix t.db val a m f g) ∙ cases (a.reassign_id && a.sym_id == m)
    where
      read : Option Bytes → Option Bytes
      read o = if m == 0 then none else elim o [ none ↦ none | some v ↦ some (io ++ v) ]

      is_set : (m == 0) ≡ false
      is_set = ground arith

      cases :
          (b : Bool)
          → read (if b then some val else e.get t.db (id_key e t.prefix m))
            ≡ (if b then some (io ++ val) else read (e.get t.db (id_key e t.prefix m)))
      cases true = if_false _ _ is_set
      cases false = refl
