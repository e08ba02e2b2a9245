-- ===== src/Symbols/Races.antt =====
-- GetSymbolID against another writer and against a database that fails.
use mathlib.Core.Path.{subst}
use amp_host_go.Base.{
  ℕ, ◌≡◌, ◌≢◌, refl, sym, ap, ◌∙◌, true, false, Option, some, ◌∷◌, ◌++◌, ◌==◌, arith, if_true,
  if_false, ==_iff,
}
use amp_host_go.Base.Bytes.{Bytes, equal_bytes_refl}
use amp_host_go.Symbols.{
  Env, IsLawful, Attempts, commits, fails, conflicts, Table, existing_id, write_pair, flush_loop,
  flush, issue, get_symbol_id, get_symbol,
}
use amp_host_go.Symbols.Keys.{Fits, get_symbol-write_pair, existing_id-write_pair}
use amp_host_go.Symbols.Assigning.{new_pair, get_known, get_unknown}

module _ (e : Env) (law : IsLawful e) where
  issued_with :
      (t : Table e) (val : Bytes) (n : ℕ) (attempts : Attempts e.Db)
      → (e.next t.seq).0 ≡ some n
      → issue e val attempts t ≡ (
        record t {
          db = flush_loop e t.prefix val (new_pair e law n) attempts t.db;
          seq = (e.next t.seq).1;
        },
        some n,
      )
  unfolding issue flush
  issued_with t val n attempts h = rw (issue, h) refl

  -- GetSymbolID for a new value returns the ID that it was issued also when the transaction fails.
  -- Nothing is stored then: asked again, the table does not know the value, and the ID leads to
  -- what it led to before.
  pub get_symbol_id_unstored :
      (t : Table e) (b : ℕ) (bs : Bytes) (n : ℕ)
      → existing_id e t.prefix t.db (b ∷ bs) ≡ 0
      → (e.next t.seq).0 ≡ some n
      → let (u, id) = get_symbol_id e (b ∷ bs) true fails t in
        (id ≡ some n)
        × ((get_symbol_id e (b ∷ bs) false commits u).1 ≡ some 0)
        × ((io : Bytes) → get_symbol e n io u ≡ get_symbol e n io t)
  unfolding flush_loop get_symbol
  get_symbol_id_unstored t b bs n h q =
      subst Unstored
        (sym (get_unknown e law t b bs true fails h ∙ issued_with t (b ∷ bs) n fails q))
        (refl, ap (λ p. p.1) (get_unknown e law u b bs false commits h), λ io. refl)
    where
      u : Table e
      u = record t { seq = (e.next t.seq).1 }

      Unstored : Table e × Option ℕ → Type 0
      Unstored p =
          (p.1 ≡ some n)
          × ((get_symbol_id e (b ∷ bs) false commits p.0).1 ≡ some 0)
          × ((io : Bytes) → get_symbol e n io p.0 ≡ get_symbol e n io t)

  -- Two callers ask for the ID of a new value; the other one commits first, with an ID of its own.
  -- This call then writes its ID over the other's: it returns one ID, the other caller has another,
  -- the table knows the value by this call's ID only, and both IDs lead to the value.
  pub get_symbol_id_overwrites :
      (t : Table e) (b : ℕ) (bs : Bytes) (n m : ℕ)
      → existing_id e t.prefix t.db (b ∷ bs) ≡ 0
      → (e.next t.seq).0 ≡ some n
      → Fits e law n
      → Fits e law m
      → m ≢ 0
      → n ≢ 0
      → m ≢ n
      → let left = write_pair e t.prefix (b ∷ bs) (new_pair e law m) t.db in
        let (u, id) = get_symbol_id e (b ∷ bs) true (conflicts left commits) t in
        (id ≡ some n)
        × ((get_symbol_id e (b ∷ bs) false commits (record t { db = left })).1 ≡ some m)
        × ((get_symbol_id e (b ∷ bs) false commits u).1 ≡ some n)
        × ((io : Bytes) → get_symbol e m io u ≡ some (io ++ b ∷ bs))
        × ((io : Bytes) → get_symbol e n io u ≡ some (io ++ b ∷ bs))
  unfolding flush_loop
  get_symbol_id_overwrites t b bs n m h q f g z y d =
      subst Overwritten
        (sym (
          get_unknown e law t b bs true (conflicts left commits) h
          ∙ issued_with t (b ∷ bs) n (conflicts left commits) q))
        (
          refl,
          asked t.seq m t.db g z,
          asked (e.next t.seq).1 n left f y,
          λ io. leads_m io,
          λ io. leads_n io,
        )
    where
      left : e.Db
      left = write_pair e t.prefix (b ∷ bs) (new_pair e law m) t.db

      u : Table e
      u = record t {
        db = write_pair e t.prefix (b ∷ bs) (new_pair e law n) left;
        seq = (e.next t.seq).1;
      }

      Overwritten : Table e × Option ℕ → Type 0
      Overwritten p =
          (p.1 ≡ some n)
          × ((get_symbol_id e (b ∷ bs) false commits (record t { db = left })).1 ≡ some m)
          × ((get_symbol_id e (b ∷ bs) false commits p.0).1 ≡ some n)
          × ((io : Bytes) → get_symbol e m io p.0 ≡ some (io ++ b ∷ bs))
          × ((io : Bytes) → get_symbol e n io p.0 ≡ some (io ++ b ∷ bs))

      asked :
          (seq : e.Seq) (k : ℕ) (db : e.Db)
          → Fits e law k
          → k ≢ 0
          → (get_symbol_id e
              (b ∷ bs)
              false
              commits
              (record t { db = write_pair e t.prefix (b ∷ bs) (new_pair e law k) db; seq = seq })).1
            ≡ some k
      asked seq k db fits is_set =
          let w : Table e = record t {
            db = write_pair e t.prefix (b ∷ bs) (new_pair e law k) db;
            seq = seq;
          } in
          let now : existing_id e w.prefix w.db (b ∷ bs) ≡ k =
            existing_id-write_pair e law t.prefix db (b ∷ bs) (b ∷ bs) (new_pair e law k) fits
            ∙ if_true _ _ (equal_bytes_refl (b ∷ bs)) in
          ap (λ p. p.1) (get_known e law w b bs false commits (λ r. is_set (sym now ∙ r)))
          ∙ ap some now

      leads_n : (io : Bytes) → get_symbol e n io u ≡ some (io ++ b ∷ bs)
      leads_n io =
          get_symbol-write_pair e law (record t { db = left }) (e.next t.seq).1 (b ∷ bs) io
            (new_pair e law n) n f f y
          ∙ if_true _ _ ((==_iff n n).1 refl)

      leads_m : (io : Bytes) → get_symbol e m io u ≡ some (io ++ b ∷ bs)
      leads_m io =
          let apart : (n == m) ≡ false = ground arith in
          get_symbol-write_pair e law (record t { db = left }) (e.next t.seq).1 (b ∷ bs) io
            (new_pair e law n) m f g z
          ∙ if_false _ _ apart
          ∙ get_symbol-write_pair e law t t.seq (b ∷ bs) io (new_pair e law m) m g g z
          ∙ if_true _ _ ((==_iff m m).1 refl)
