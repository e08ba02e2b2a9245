-- ===== src/Symbols/Assigning.antt =====
-- What a table of symbols promises of GetSymbolID, SetSymbolID and GetSymbol.
use mathlib.Core.Option.{some-injective, none-ne-some}
use mathlib.Core.Path.{subst}
use amp_host_go.Base.{
  ℕ, ◌≡◌, ◌≢◌, refl, sym, ap, ◌∙◌, Bool, true, false, not, Option, none, some, ◌∷◌, ◌++◌, ◌==◌,
  if◌then◌else◌, arith, Bool-cases, Option-cases, if_true, if_false, inl, inr, ◌<◌, ◌≤◌, ◌^◌,
  ==_iff,
}
use amp_host_go.Base.Bytes.{Bytes, equal_bytes, equal_bytes_refl, equal_bytes-eq}
use amp_host_go.Symbols.{
  Env, IsLawful, Attempts, commits, Table, Assignment, id_key, existing_id, write_pair, flush_loop,
  flush, issue, get_pair, get_symbol_id, get_symbol,
}
use amp_host_go.Symbols.Keys.{Fits, id_of-write_pair, existing_id-write_pair}

module _ (e : Env) (law : IsLawful e) where
  -- An ID below a bound that leads to a value.
  abbrev pub LeadsTo : ℕ → e.Db → ℕ → Bytes → ℕ → Type 0
  LeadsTo prefix db bound val n = (e.get db (id_key e prefix n) ≡ some val) × (n < bound)

  -- Each ID that a value has leads back to that value and is below the IDs still to come.
  pub record IsLinked (t : Table e) : Type 0 where
    pub positive : 0 < law.floor t.seq
    pub linked :
        (val : Bytes)
        → existing_id e t.prefix t.db val ≢ 0
        → LeadsTo t.prefix t.db (law.floor t.seq) val (existing_id e t.prefix t.db val)

  abbrev pub new_pair : ℕ → Assignment
  new_pair n = record { sym_id = n; reassign_id = true; reassign_val = true }

  pub new_pair-leads :
      (prefix : ℕ) (db : e.Db) (val : Bytes) (n m : ℕ)
      → Fits e law n
      → Fits e law m
      → e.get (write_pair e prefix val (new_pair n) db) (id_key e prefix m)
        ≡ (if n == m then some val else e.get db (id_key e prefix m))
  new_pair-leads prefix db val n m f g = id_of-write_pair e law prefix db val (new_pair n) m f g

  -- The pair of a new ID, at least the floor of a linked table.
  fresh-IsLinked :
      (t : Table e) (val : Bytes) (n : ℕ) (seq : e.Seq)
      → IsLinked t
      → law.floor t.seq ≤ n
      → n < law.floor seq
      → law.floor seq ≤ 256 ^ e.id_sz
      → IsLinked (record t { db = write_pair e t.prefix val (new_pair n) t.db; seq = seq })
  fresh-IsLinked t val n seq v low high room =
      let db = write_pair e t.prefix val (new_pair n) t.db in
      let fits : Fits e law n = omega arith in
      let now =
        λ (other : Bytes). existing_id-write_pair e law t.prefix t.db val other (new_pair n) fits in
      record {
        positive = omega arith;
        linked = λ other h. elim (Bool-cases (equal_bytes val other)) [
          | inl q ↦
              let same : val ≡ other = equal_bytes-eq val other q in
              subst (LeadsTo t.prefix db (law.floor seq) other) (sym (now other ∙ if_true _ _ q)) (
                new_pair-leads t.prefix t.db val n n fits fits
                    ∙ if_true _ _ ((==_iff n n).1 refl)
                    ∙ ap some same,
                high,
              )
          | inr q ↦
              let old = now other ∙ if_false _ _ q in
              let (leads, below) = v.linked other (λ z. h (old ∙ z)) in
              let m = existing_id e t.prefix t.db other in
              let apart : (n == m) ≡ false = ground arith in
              subst (LeadsTo t.prefix db (law.floor seq) other) (sym old) (
                new_pair-leads t.prefix t.db val n m fits (omega arith)
                    ∙ if_false _ _ apart
                    ∙ leads,
                omega arith,
              )
        ];
      }

  pub get_known :
      (t : Table e) (b : ℕ) (bs : Bytes) (auto_issue : Bool) (attempts : Attempts e.Db)
      → existing_id e t.prefix t.db (b ∷ bs) ≢ 0
      → get_symbol_id e (b ∷ bs) auto_issue attempts t
        ≡ (t, some (existing_id e t.prefix t.db (b ∷ bs)))
  unfolding get_symbol_id get_pair
  get_known t b bs auto_issue attempts n =
      let is_set : not (existing_id e t.prefix t.db (b ∷ bs) == 0) ≡ true = ground arith in
      if_true _ _ is_set

  pub get_unknown :
      (t : Table e) (b : ℕ) (bs : Bytes) (auto_issue : Bool) (attempts : Attempts e.Db)
      → existing_id e t.prefix t.db (b ∷ bs) ≡ 0
      → get_symbol_id e (b ∷ bs) auto_issue attempts t
        ≡ (if auto_issue then issue e (b ∷ bs) attempts t else (t, some 0))
  unfolding get_symbol_id get_pair
  get_unknown t b bs auto_issue attempts z =
      let is_nil : not (existing_id e t.prefix t.db (b ∷ bs) == 0) ≡ false = ground arith in
      if_false _ _ is_nil

  pub issued :
      (t : Table e) (val : Bytes) (n : ℕ)
      → (e.next t.seq).0 ≡ some n
      → issue e val commits t ≡ (
        record t { db = write_pair e t.prefix val (new_pair n) t.db; seq = (e.next t.seq).1 },
        some n,
      )
  unfolding issue flush flush_loop
  issued t val n h = rw (issue, h) refl

  issued_none :
      (t : Table e) (val : Bytes) (attempts : Attempts e.Db)
      → (e.next t.seq).0 ≡ none
      → issue e val attempts t ≡ (record t { seq = (e.next t.seq).1 }, none)
  unfolding issue
  issued_none t val attempts h = rw (issue, h) refl

  -- A linked table answers for a value and for its ID.
  abbrev pub Answers : Bytes → ℕ → Table e → Type 0
  Answers val n t =
      ((again : Bool) (attempts : Attempts e.Db)
        → get_symbol_id e val again attempts t ≡ (t, some n))
      × ((io : Bytes) → get_symbol e n io t ≡ some (io ++ val))

  linked-Answers :
      (t : Table e) (b : ℕ) (bs : Bytes) (n : ℕ)
      → IsLinked t
      → existing_id e t.prefix t.db (b ∷ bs) ≡ n
      → n ≢ 0
      → Answers (b ∷ bs) n t
  unfolding get_symbol
  linked-Answers t b bs n v h z = (
    λ again attempts.
        get_known t b bs again attempts (λ q. z (sym h ∙ q)) ∙ ap (λ m. (t, some m)) h,
    λ io.
        let leads : e.get t.db (id_key e t.prefix n) ≡ some (b ∷ bs) =
          subst (λ m. e.get t.db (id_key e t.prefix m) ≡ some (b ∷ bs)) h
            (v.linked (b ∷ bs) (λ q. z (sym h ∙ q))).0 in
        let is_set : (n == 0) ≡ false = ground arith in if_false _ _ is_set ∙ rw leads refl,
  )

  -- GetSymbolID of a value, in a linked table with room for one more ID and a transaction that
  -- commits, returns an ID that is not 0 only if from then on the table answers: GetSymbolID gives
  -- that ID again and changes nothing, GetSymbol of the ID appends the value to its slice, and the
  -- table is linked as before.
  pub get_symbol_id-Answers :
      (t : Table e) (b : ℕ) (bs : Bytes) (auto_issue : Bool) (n : ℕ)
      → IsLinked t
      → law.floor (e.next t.seq).1 ≤ 256 ^ e.id_sz
      → n ≢ 0
      → (get_symbol_id e (b ∷ bs) auto_issue commits t).1 ≡ some n
      → IsLinked (get_symbol_id e (b ∷ bs) auto_issue commits t).0
        × Answers (b ∷ bs) n (get_symbol_id e (b ∷ bs) auto_issue commits t).0
  get_symbol_id-Answers t b bs auto_issue n v room z h = go h
    where
      val : Bytes
      val = b ∷ bs

      Good : Table e × Option ℕ → Type 0
      Good p = p.1 ≡ some n → IsLinked p.0 × Answers val n p.0

      good_new : (k : ℕ) → (e.next t.seq).0 ≡ some k → Good (issue e val commits t)
      good_new k q =
          let (low, high) = law.next_above t.seq k q in
          let u = record t {
            db = write_pair e t.prefix val (new_pair k) t.db;
            seq = (e.next t.seq).1;
          } in
          let w : IsLinked u = fresh-IsLinked t val k (e.next t.seq).1 v low high room in
          let now : existing_id e u.prefix u.db val ≡ k =
            existing_id-write_pair e law t.prefix t.db val val (new_pair k) (omega arith)
            ∙ if_true _ _ (equal_bytes_refl val) in
          subst Good (sym (issued t val k q))
            (λ r. (w, linked-Answers u b bs n w (now ∙ some-injective _ _ r) z))

      good_issue : Good (issue e val commits t)
      good_issue = elim (Option-cases (e.next t.seq).0) [
        | inl q ↦ subst Good (sym (issued_none t val commits q)) (λ r. absurd (none-ne-some n r))
        | inr (k, q) ↦ good_new k q
      ]

      good_pick : (a : Bool) → Good (if a then issue e val commits t else (t, some 0))
      good_pick true = good_issue
      good_pick false = λ r. absurd (z (sym (some-injective _ _ r)))

      go : Good (get_symbol_id e val auto_issue commits t)
      go = elim (Bool-cases (existing_id e t.prefix t.db val == 0)) [
        | inl q ↦
            let nil : existing_id e t.prefix t.db val ≡ 0 = ground arith in
            subst Good (sym (get_unknown t b bs auto_issue commits nil)) (good_pick auto_issue)
        | inr q ↦
            let is_set : existing_id e t.prefix t.db val ≢ 0 = ground arith in
            subst Good (sym (get_known t b bs auto_issue commits is_set))
              (λ r. (v, linked-Answers t b bs n v (some-injective _ _ r) z))
      ]

  -- In a linked table, two values have the same ID other than 0 only if they are the same.
  pub IsLinked-injective :
      (t : Table e) (val other : Bytes)
      → IsLinked t
      → existing_id e t.prefix t.db val ≢ 0
      → existing_id e t.prefix t.db val ≡ existing_id e t.prefix t.db other
      → val ≡ other
  IsLinked-injective t val other v n h = some-injective _ _ (
      sym (v.linked val n).0
      ∙ ap (λ m. e.get t.db (id_key e t.prefix m)) h
      ∙ (v.linked other (λ z. n (h ∙ z))).0)
