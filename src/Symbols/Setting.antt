-- ===== src/Symbols/Setting.antt =====
-- What SetSymbolID changes.
use mathlib.Core.Path.{subst}
use amp_host_go.Base.{
  ℕ, ◌≡◌, ◌≢◌, refl, sym, ap, ◌∙◌, Bool, true, false, not, ◌&&◌, ◌||◌, Option, some, ◌∷◌, ◌++◌,
  ◌==◌, if◌then◌else◌, arith, Bool-cases, if_true, if_false, inl, inr, ==_iff,
}
use amp_host_go.Base.Bytes.{Bytes, equal_bytes, equal_bytes-eq}
use amp_host_go.Symbols.{
  Env, IsLawful, commits, Table, Assignment, existing_id, write_pair, flush_loop, flush, get_pair,
  assign, set_symbol_id, get_symbol,
}
use amp_host_go.Symbols.Keys.{Fits, get_symbol-write_pair, existing_id-write_pair}

module _ (e : Env) (law : IsLawful e) where
  abbrev setting : ℕ → Bool → Assignment
  setting n reassign_id = record { sym_id = n; reassign_id = reassign_id; reassign_val = true }

  set_flushes :
      (t : Table e) (b : ℕ) (bs : Bytes) (n : ℕ)
      → n ≢ 0
      → set_symbol_id e (b ∷ bs) n commits t
        ≡ flush e (b ∷ bs) commits t (assign n false (existing_id e t.prefix t.db (b ∷ bs)))
  unfolding set_symbol_id
  set_flushes t b bs n z =
      let val = b ∷ bs in
      let x = existing_id e t.prefix t.db val in
      let is_set : (n == 0) ≡ false = ground arith in
      let go : Bool → Table e × Option ℕ = λ c.
        if c
        then get_pair e val c (if c || not c then x else 0) commits t
        else flush e val commits t (assign n c (if c || not c then x else 0)) in
      ap go is_set

  -- What SetSymbolID did, by the ID that the value had.
  abbrev pub Sets : Table e → Bytes → ℕ → Table e × Option ℕ → Type 0
  Sets t val n p =
      (p.1 ≡ some n)
      × ((other : Bytes)
          → existing_id e p.0.prefix p.0.db other
            ≡ (if equal_bytes val other then n else existing_id e t.prefix t.db other))
      × ((m : ℕ) (io : Bytes)
          → Fits e law m
          → m ≢ 0
          → get_symbol e m io p.0 ≡ (
              if existing_id e t.prefix t.db val == 0 && n == m
              then some (io ++ val)
              else get_symbol e m io t))

  written-Sets :
      (t : Table e) (val : Bytes) (n : ℕ) (reassign_id : Bool)
      → Fits e law n
      → (existing_id e t.prefix t.db val == 0) ≡ reassign_id
      → Sets t val n
          (record t { db = write_pair e t.prefix val (setting n reassign_id) t.db }, some n)
  written-Sets t val n reassign_id f h = (
    refl,
    λ other. existing_id-write_pair e law t.prefix t.db val other (setting n reassign_id) f,
    λ m io g z.
        get_symbol-write_pair e law t t.seq val io (setting n reassign_id) m f g z
        ∙ sym (ap (λ b. if b && n == m then some (io ++ val) else get_symbol e m io t) h),
  )

  same-Sets :
      (t : Table e) (val : Bytes) (n : ℕ)
      → n ≢ 0
      → existing_id e t.prefix t.db val ≡ n
      → Sets t val n (t, some n)
  same-Sets t val n z h = (
    refl,
    λ other. elim (Bool-cases (equal_bytes val other)) [
      | inl q ↦
          sym (ap (existing_id e t.prefix t.db) (equal_bytes-eq val other q))
          ∙ h
          ∙ sym (if_true _ _ q)
      | inr q ↦ sym (if_false _ _ q)
    ],
    λ m io g y.
        let is_set : (existing_id e t.prefix t.db val == 0) ≡ false = ground arith in
        sym (ap (λ b. if b && n == m then some (io ++ val) else get_symbol e m io t) is_set),
  )

  -- SetSymbolID of an ID other than 0, with a transaction that commits, returns that ID and gives
  -- it to the value and to no other. The value is stored under the ID only if it had no ID before,
  -- and what the ID led to is lost then; all other IDs lead to what they led to.
  pub set_symbol_id_lem :
      (t : Table e) (b : ℕ) (bs : Bytes) (n : ℕ)
      → n ≢ 0
      → Fits e law n
      → Sets t (b ∷ bs) n (set_symbol_id e (b ∷ bs) n commits t)
  unfolding flush flush_loop assign
  set_symbol_id_lem t b bs n z f = subst (Sets t val n) (sym (set_flushes t b bs n z)) go
    where
      val : Bytes
      val = b ∷ bs

      x : ℕ
      x = existing_id e t.prefix t.db val

      Done : Assignment → Type 0
      Done a = Sets t val n (flush e val commits t a)

      go : Done (assign n false x)
      go = elim (Bool-cases (x == 0)) [
        | inl q ↦ subst Done (sym (if_true _ _ q)) (written-Sets t val n true f q)
        | inr q ↦ elim (Bool-cases (n == x)) [
          | inl r ↦
              subst Done (sym (if_false _ _ q ∙ if_true _ _ r))
                (same-Sets t val n z (sym ((==_iff n x).0 r)))
          | inr r ↦
              subst Done (sym (if_false _ _ q ∙ if_false _ _ r)) (written-Sets t val n false f q)
        ]
      ]
