-- ===== src/Symbols/Lifetime/Closing.antt =====
-- A call on a table that stays open, and Close on an open table.
use mathlib.Core.Path.{subst}
use amp_host_go.Base.{
  ℕ, ◌-◌, ◌≡◌, refl, sym, ap, ◌∙◌, true, false, ◌&&◌, Option, none, some, Bool-cases, inl, inr,
  List, [], ◌∷◌, arith, ◌==◌, if◌then◌else◌, if_true, if_false, get_elem?, set, All-set,
  All-get_elem?,
}
use amp_host_go.Base.Words.{sub_int32, int_of_int32, gt_int64}
use amp_host_go.Symbols.Issuer.{BadgerIssuer, close}
use amp_host_go.Symbols.Lifetime.{
  SymbolTable, Tables, add_ref_table, close_table_last, close_table, adds_ref, table_step,
}
use amp_host_go.Symbols.Lifetime.Counting.{
  total, total-set, is_open, names_db, owns, open_count, owners, count, issuer_for, IsTable,
  IsOwned, IsAllowed, open_table, closed_table,
}

-- What a table may become that stays open.
pub kept-IsOwned :
    (made : List ℕ) (i : ℕ) (s : Tables) (t u : SymbolTable)
    → IsOwned made s
    → get_elem? s.tables i ≡ some t
    → IsTable u
    → u.has_issuer ≡ t.has_issuer
    → u.db ≡ t.db
    → u.db_owned ≡ t.db_owned
    → IsOwned made (record s { tables = set s.tables i u })
unfolding open_count owners
kept-IsOwned made i s t u o e ok_ a b c =
    let still : is_open u ≡ is_open t = ap (λ h. if h then 1 else 0) a in
    let same : total is_open (set s.tables i u) ≡ total is_open s.tables =
      omega (arith, total-set is_open s.tables i t u e, still) in
    record {
      tables_ok = All-set IsTable s.tables i u ok_ o.tables_ok;
      few = omega (arith, same, o.few);
      issuer_eq = o.issuer_eq ∙ ap issuer_for (sym same);
      closed_once = λ d.
          let owned : owns d u ≡ owns d t = λ j. if c j && names_db d (b j) then 1 else 0 in
          omega (arith, o.closed_once d, total-set (owns d) s.tables i t u e, owned);
    }

pub adds_ref-IsOwned :
    (made : List ℕ) (i : ℕ) (s : Tables)
    → IsOwned made s
    → IsAllowed (adds_ref i) s
    → (s' : Tables) × (table_step (adds_ref i) s ≡ some s') × IsOwned made s'
unfolding table_step add_ref_table
adds_ref-IsOwned made i s o (t, e, opened, few) = (
  record s { tables = set s.tables i (add_ref_table t) },
  rw (table_step, e) refl,
  kept-IsOwned made i s t (add_ref_table t) o e
      (counted (All-get_elem? IsTable s.tables i o.tables_ok e)) refl refl refl,
)
  where
    counted : IsTable t → IsTable (add_ref_table t)
    counted (open_table db a b c d) = open_table db a b (omega (arith, c, few)) (omega (arith, few))
    counted (closed_table a b) = absurd (cc (a, opened))

-- Close on an open table: it stays open with a reference less, or it is closed with what it owns.
pub data IsClosing (issuer : BadgerIssuer) (t : SymbolTable)
    : Option (BadgerIssuer × SymbolTable × List ℕ) → Type 0 where
  one_less :
      (u : SymbolTable)
      → IsTable u
      → u.has_issuer ≡ t.has_issuer
      → u.db ≡ t.db
      → u.db_owned ≡ t.db_owned
      → IsClosing issuer t (some (issuer, u, []))
  the_last :
      (u : SymbolTable) (dbs : List ℕ)
      → u.has_issuer ≡ false
      → u.db ≡ none
      → ((d : ℕ) → count d dbs ≡ owns d t)
      → IsClosing issuer t (some ((close none issuer).0, u, dbs))

close_table_last-IsClosing :
    (issuer : BadgerIssuer) (t : SymbolTable) (db r : ℕ)
    → t.has_issuer ≡ true
    → t.db ≡ some db
    → IsClosing issuer t (close_table_last issuer (record t { ref_count = r }))
unfolding close_table_last
close_table_last-IsClosing issuer t db r a b = elim (Bool-cases t.db_owned) [
  | inl c ↦
      rw (close_table_last, a, c, b) (the_last closed (db ∷ []) refl refl (λ d. ground (arith, c)))
  | inr c ↦
      rw (close_table_last, a, c)
        (the_last (record closed { db_owned = false }) [] refl refl (λ d. refl))
]
  where
    closed : SymbolTable
    closed = record t { has_issuer = false; db = none; ref_count = r }

pub close_table-IsClosing :
    (issuer : BadgerIssuer) (t : SymbolTable)
    → IsTable t
    → t.has_issuer ≡ true
    → IsClosing issuer t (close_table issuer t)
unfolding close_table
close_table-IsClosing issuer t (closed_table a b) opened = absurd (cc (a, opened))
close_table-IsClosing issuer t (open_table db a b c d) opened =
    let less : sub_int32 t.ref_count 1 ≡ t.ref_count - 1 = omega (arith, c, d) in
    elim (Bool-cases (t.ref_count == 1)) [
      | inl one ↦
          let none_left : gt_int64 (int_of_int32 (t.ref_count - 1)) 0 ≡ false =
            ground (arith, one) in
          subst (IsClosing issuer t) (sym (ap go less ∙ if_false _ _ none_left))
            (close_table_last-IsClosing issuer t db (t.ref_count - 1) a b)
      | inr more ↦
          let some_left : gt_int64 (int_of_int32 (t.ref_count - 1)) 0 ≡ true =
            ground (arith, more, c, d) in
          subst (IsClosing issuer t) (sym (ap go less ∙ if_true _ _ some_left)) (
            one_less (record t { ref_count = t.ref_count - 1 })
              (open_table db a b (ground (arith, more, c)) (omega (arith, d))) refl refl refl)
    ]
  where
    go : ℕ → Option (BadgerIssuer × SymbolTable × List ℕ)
    go r =
        if gt_int64 (int_of_int32 r) 0
        then some (issuer, record t { ref_count = r }, [])
        else close_table_last issuer (record t { ref_count = r })
