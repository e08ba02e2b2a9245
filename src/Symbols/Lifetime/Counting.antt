-- ===== src/Symbols/Lifetime/Counting.antt =====
-- The open tables, their databases and their issuer, counted.
use mathlib.Core.Option.{none-ne-some, some-injective}
use amp_host_go.Base.{
  ℕ, zero, suc, ◌+◌, ◌-◌, ◌^◌, ◌<◌, ◌≡◌, refl, sym, ap, ◌∙◌, Bool, true, false, ◌&&◌, Option, none,
  some, List, [], ◌∷◌, ◌++◌, arith, ◌==◌, if◌then◌else◌, if_false, get_elem?, set, All, All-append,
}
use amp_host_go.Symbols.Issuer.{
  BadgerIssuer, IssuerError, close, add_ref, open_issuer, closed_issuer, close-shared, add_ref-open,
}
use amp_host_go.Symbols.Lifetime.{
  SymbolTable, Tables, create_shared, TableEvent, shares, adds_ref, closes,
}

unfoldable pub total : (SymbolTable → ℕ) → List SymbolTable → ℕ
total f [] = 0
total f (t ∷ ts) = f t + total f ts

pub total-set :
    (f : SymbolTable → ℕ) (ts : List SymbolTable) (i : ℕ) (t u : SymbolTable)
    → get_elem? ts i ≡ some t
    → total f (set ts i u) + f t ≡ total f ts + f u
unfolding total
total-set f [] i t u e = absurd (none-ne-some t e)
total-set f (x ∷ ts) zero t u e =
    let same : f x ≡ f t = ap f (some-injective _ _ e) in omega (arith, same)
total-set f (x ∷ ts) (suc i) t u e = omega (arith, total-set f ts i t u e)

total-append :
    (f : SymbolTable → ℕ) (ts : List SymbolTable) (u : SymbolTable)
    → total f (ts ++ u ∷ []) ≡ total f ts + f u
unfolding total
total-append f [] u = omega arith
total-append f (x ∷ ts) u = omega (arith, total-append f ts u)

abbrev pub is_open : SymbolTable → ℕ
is_open t = if t.has_issuer then 1 else 0

abbrev pub names_db : ℕ → Option ℕ → Bool
names_db d none = false
names_db d (some e) = e == d

-- The table has the database to close.
abbrev pub owns : ℕ → SymbolTable → ℕ
owns d t = if t.db_owned && names_db d t.db then 1 else 0

-- How many tables are open.
unfoldable pub open_count : List SymbolTable → ℕ
unfolding total
open_count ts = total is_open ts

unfoldable pub owners : ℕ → List SymbolTable → ℕ
unfolding total
owners d ts = total (owns d) ts

abbrev pub count : ℕ → List ℕ → ℕ
count d [] = 0
count d (e ∷ es) = if e == d then count d es + 1 else count d es

-- The issuer with as many references: its database is closed when there are none.
abbrev pub issuer_for : ℕ → BadgerIssuer
issuer_for n = if n == 0 then closed_issuer else open_issuer n

-- A table is open, with its database and its references, or closed.
pub data IsTable (t : SymbolTable) : Type 0 where
  open_table :
      (db : ℕ)
      → t.has_issuer ≡ true
      → t.db ≡ some db
      → 0 < t.ref_count
      → t.ref_count < 2 ^ 31
      → IsTable t
  closed_table : t.has_issuer ≡ false → t.db ≡ none → IsTable t

-- The issuer has a reference for each open table, and each database that a sharing table was
-- created with is closed once for each of them, and not as long as the table is open.
pub record IsOwned (made : List ℕ) (s : Tables) : Type 0 where
  pub tables_ok : All IsTable s.tables
  pub few : open_count s.tables < 2 ^ 31
  pub issuer_eq : s.issuer ≡ issuer_for (open_count s.tables)
  pub closed_once : (d : ℕ) → count d s.closed_dbs + owners d s.tables ≡ count d made

abbrev pub OpenAt : ℕ → Tables → Type 0
OpenAt i s = (t : SymbolTable) × (get_elem? s.tables i ≡ some t) × (t.has_issuer ≡ true)

-- A call on an open table, with fewer than 2^31 - 1 references and tables.
abbrev pub IsAllowed : TableEvent → Tables → Type 0
IsAllowed (shares db) s = (0 < open_count s.tables) × (open_count s.tables < 2 ^ 31 - 1)
IsAllowed (adds_ref i) s =
    (t : SymbolTable) × (get_elem? s.tables i ≡ some t)
    × (t.has_issuer ≡ true)
    × (t.ref_count < 2 ^ 31 - 1)
IsAllowed (closes i) s = OpenAt i s

abbrev pub made_by : TableEvent → List ℕ → List ℕ
made_by (shares db) made = db ∷ made
made_by (adds_ref i) made = made
made_by (closes i) made = made

pub issuer_for_open : (n : ℕ) → 0 < n → issuer_for n ≡ open_issuer n
issuer_for_open n h = let some_left : (n == 0) ≡ false = ground (arith, h) in if_false _ _ some_left

pub close-issuer_for :
    (n : ℕ) → n + 1 < 2 ^ 31 → (close none (open_issuer (n + 1))).0 ≡ issuer_for n
unfolding close
close-issuer_for zero h = refl
close-issuer_for (suc n) h =
    let e : suc n + 1 ≡ suc (suc n) = omega arith in
    ap (λ k. (close none (open_issuer k)).0) e
    ∙ ap (λ (r : BadgerIssuer × Option IssuerError). r.0)
        (close-shared (suc n) (omega arith) (omega arith))
    ∙ sym (issuer_for_open (suc n) (omega arith))

pub shares-IsOwned :
    (made : List ℕ) (db : ℕ) (s : Tables)
    → IsOwned made s
    → IsAllowed (shares db) s
    → (s' : Tables) × (create_shared db s ≡ some s') × IsOwned (db ∷ made) s'
unfolding create_shared open_count owners
shares-IsOwned made db s o h =
    let issuer_open : s.issuer ≡ open_issuer (open_count s.tables) =
      o.issuer_eq ∙ issuer_for_open (open_count s.tables) h.0 in
    let added : add_ref s.issuer ≡ some (open_issuer (open_count s.tables + 1)) =
      ap add_ref issuer_open ∙ add_ref-open (open_count s.tables) h.0 h.1 in
    (
      next,
      ap out added,
      record {
        tables_ok =
            All-append IsTable s.tables (fresh ∷ []) o.tables_ok
              (open_table db refl refl (omega arith) (omega arith), tt);
        few = omega (arith, grown, h.1);
        issuer_eq =
            sym (ap issuer_for grown ∙ issuer_for_open (open_count s.tables + 1) (omega arith));
        closed_once = λ d. ground (arith, o.closed_once d, owned d);
      },
    )
  where
    fresh : SymbolTable
    fresh = record { has_issuer = true; db = some db; db_owned = true; ref_count = 1 }

    grown : open_count (s.tables ++ fresh ∷ []) ≡ open_count s.tables + 1
    grown = total-append is_open s.tables fresh

    owned :
        (d : ℕ) → owners d (s.tables ++ fresh ∷ []) ≡ owners d s.tables + (if db == d then 1 else 0)
    owned d = total-append (owns d) s.tables fresh

    next : Tables
    next = record s {
      issuer = open_issuer (open_count s.tables + 1);
      tables = s.tables ++ fresh ∷ [];
    }

    out : Option BadgerIssuer → Option Tables
    out r = elim r [
      | none ↦ none
      | some issuer ↦ some (record s { issuer = issuer; tables = s.tables ++ fresh ∷ [] })
    ]
