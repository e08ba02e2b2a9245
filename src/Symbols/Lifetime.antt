-- ===== src/Symbols/Lifetime.antt =====
-- amp/badger/symbol_table/api.go and table.go: tables that share an issuer, from CreateTable to the
-- last Close. The issuer is a badger issuer over the database of the first table, and each further
-- table has a database of its own. A database is a number, `closed_dbs` logs the calls of Close on
-- it, and what they return is left out. `refCount` is an int32 pattern.
pub mod Counting
pub mod Closing
pub mod Owning
use amp_host_go.Base.{
  ℕ, zero, suc, ◌+◌, ◌%◌, ◌^◌, ◌≡◌, Bool, true, false, not, Option, none, some, List, [], ◌∷◌, ◌++◌,
  if◌then◌else◌, ◌==◌, get_elem?, set, length,
}
use amp_host_go.Base.Words.{sub_int32, int_of_int32, is_negative, gt_int64}
use amp_host_go.Symbols.Issuer.{BadgerIssuer, close, add_ref, open_issuer}

pub record SymbolTable : Type 0 where
  pub has_issuer : Bool
  pub db : Option ℕ
  pub db_owned : Bool
  pub ref_count : ℕ

pub record Tables : Type 0 where
  pub issuer : BadgerIssuer
  pub tables : List SymbolTable
  pub closed_dbs : List ℕ

-- CreateTable with no issuer, over the database `db`.
abbrev pub create_first : ℕ → Tables
create_first db = record {
  issuer = open_issuer 1;
  tables = record { has_issuer = true; db = some db; db_owned = false; ref_count = 1 } ∷ [];
  closed_dbs = [];
}

-- CreateTable with the shared issuer. A panic is `none`.
unfoldable pub create_shared : ℕ → Tables → Option Tables
create_shared db s = elim (add_ref s.issuer) [
  | none ↦ none
  | some issuer ↦ some (record s {
    issuer = issuer;
    tables =
        s.tables ++ record { has_issuer = true; db = some db; db_owned = true; ref_count = 1 } ∷ [];
  })
]

unfoldable pub add_ref_table : SymbolTable → SymbolTable
add_ref_table t = record t { ref_count = (t.ref_count + 1) % 2 ^ 32 }

-- The last part of Close: what it leaves of the issuer and of the table, and the database it closes.
-- A call on a nil issuer or a nil database panics.
unfoldable pub close_table_last :
    BadgerIssuer → SymbolTable → Option (BadgerIssuer × SymbolTable × List ℕ)
close_table_last issuer t =
    let closed = record t { has_issuer = false; db = none } in
    if not t.has_issuer
    then none
    else (if t.db_owned
        then elim t.db [ none ↦ none | some db ↦ some ((close none issuer).0, closed, db ∷ []) ]
        else some ((close none issuer).0, closed, []))

unfoldable pub close_table :
    BadgerIssuer → SymbolTable → Option (BadgerIssuer × SymbolTable × List ℕ)
unfolding close_table_last
close_table issuer t =
    let ref_count = sub_int32 t.ref_count 1 in
    let counted = record t { ref_count = ref_count } in
    if gt_int64 (int_of_int32 ref_count) 0
    then some (issuer, counted, [])
    else close_table_last issuer counted

-- A call on one of the tables, by its index.
pub data TableEvent : Type 0 where
  shares adds_ref closes : ℕ → TableEvent

unfoldable pub table_step : TableEvent → Tables → Option Tables
unfolding create_shared add_ref_table close_table
table_step (shares db) s = create_shared db s
table_step (adds_ref i) s = elim (get_elem? s.tables i) [
  | none ↦ none
  | some t ↦ some (record s { tables = set s.tables i (add_ref_table t) })
]
table_step (closes i) s = elim (get_elem? s.tables i) [
  | none ↦ none
  | some t ↦ elim (close_table s.issuer t) [
    | none ↦ none
    | some (issuer, closed, dbs) ↦ some (record s {
      issuer = issuer;
      tables = set s.tables i closed;
      closed_dbs = dbs ++ s.closed_dbs;
    })
  ]
]

unfoldable pub table_run : List TableEvent → Tables → Option Tables
unfolding table_step
table_run [] s = some s
table_run (e ∷ es) s = elim (table_step e s) [ none ↦ none | some s' ↦ table_run es s' ]
