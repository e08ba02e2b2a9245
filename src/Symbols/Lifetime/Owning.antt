-- ===== src/Symbols/Lifetime/Owning.antt =====
-- Tables that share an issuer keep its database open as long as one of them is.
use mathlib.Core.Path.{subst}
use amp_host_go.Base.{
  ℕ, ◌+◌, ◌≡◌, refl, sym, ap, ◌∙◌, false, ◌&&◌, Option, none, some, Bool-cases, inl, inr, List, [],
  ◌∷◌, ◌++◌, arith, if◌then◌else◌, if_true, if_false, set, All-set, All-get_elem?,
}
use amp_host_go.Symbols.Issuer.{BadgerIssuer, close, open_issuer}
use amp_host_go.Symbols.Lifetime.{
  SymbolTable, Tables, create_first, close_table, TableEvent, shares, adds_ref, closes, table_step,
  table_run,
}
use amp_host_go.Symbols.Lifetime.Counting.{
  total, total-set, is_open, names_db, owns, open_count, owners, count, IsTable, IsOwned, OpenAt,
  IsAllowed, made_by, issuer_for_open, close-issuer_for, shares-IsOwned, open_table, closed_table,
}
use amp_host_go.Symbols.Lifetime.Closing.{
  kept-IsOwned, adds_ref-IsOwned, IsClosing, close_table-IsClosing, one_less, the_last,
}

count-append : (d : ℕ) (xs ys : List ℕ) → count d (xs ++ ys) ≡ count d xs + count d ys
count-append d [] ys = omega arith
count-append d (x ∷ xs) ys = ground (arith, count-append d xs ys)

unowned : (d : ℕ) (u : SymbolTable) → u.db ≡ none → owns d u ≡ 0
unowned d u b = elim (Bool-cases u.db_owned) [
  | inl y ↦
      ap (λ o. if u.db_owned && names_db d o then 1 else 0) b
      ∙ ap (λ k. if k && false then 1 else 0) y
  | inr n ↦ ap (λ k. if k && names_db d u.db then 1 else 0) n
]

abbrev Kept : List ℕ → Option Tables → Type 0
Kept made r = (s' : Tables) × (r ≡ some s') × IsOwned made s'

closes-IsOwned :
    (made : List ℕ) (i : ℕ) (s : Tables)
    → IsOwned made s
    → OpenAt i s
    → Kept made (table_step (closes i) s)
unfolding table_step open_count owners
closes-IsOwned made i s o (t, e, opened) = subst (Kept made) (sym (ap at e)) (
    after (close_table s.issuer t)
      (close_table-IsClosing s.issuer t (All-get_elem? IsTable s.tables i o.tables_ok e) opened))
  where
    end : Option (BadgerIssuer × SymbolTable × List ℕ) → Option Tables
    end r = elim r [
      | none ↦ none
      | some (issuer, closed, dbs) ↦ some (record s {
        issuer = issuer;
        tables = set s.tables i closed;
        closed_dbs = dbs ++ s.closed_dbs;
      })
    ]

    at : Option SymbolTable → Option Tables
    at r = elim r [ none ↦ none | some t ↦ end (close_table s.issuer t) ]

    after :
        (r : Option (BadgerIssuer × SymbolTable × List ℕ))
        → IsClosing s.issuer t r
        → Kept made (end r)
    after _ (one_less u ok_ a b c) = (_, refl, kept-IsOwned made i s t u o e ok_ a b c)
    after _ (the_last u dbs a b c) =
        let was : is_open t ≡ 1 = if_true _ _ opened in
        let now : is_open u ≡ 0 = if_false _ _ a in
        let fewer : total is_open (set s.tables i u) + 1 ≡ total is_open s.tables =
          omega (arith, total-set is_open s.tables i t u e, was, now) in
        (
          _,
          refl,
          record {
            tables_ok = All-set IsTable s.tables i u (closed_table a b) o.tables_ok;
            few = omega (arith, fewer, o.few);
            issuer_eq =
                ap (λ (g : BadgerIssuer). (close none g).0)
                  (o.issuer_eq
                    ∙ issuer_for_open (total is_open s.tables) (omega (arith, fewer))
                    ∙ ap open_issuer (sym fewer))
                ∙ close-issuer_for (total is_open (set s.tables i u)) (omega (arith, fewer, o.few));
            closed_once = λ d.
                let owned : owns d u ≡ 0 = unowned d u b in
                omega (
                  arith,
                  o.closed_once d,
                  total-set (owns d) s.tables i t u e,
                  owned,
                  count-append d dbs s.closed_dbs,
                  c d,
                );
          },
        )

table_step-IsOwned :
    (made : List ℕ) (e : TableEvent) (s : Tables)
    → IsOwned made s
    → IsAllowed e s
    → Kept (made_by e made) (table_step e s)
unfolding table_step
table_step-IsOwned made (shares db) s o h = shares-IsOwned made db s o h
table_step-IsOwned made (adds_ref i) s o h = adds_ref-IsOwned made i s o h
table_step-IsOwned made (closes i) s o h = closes-IsOwned made i s o h

-- Each event is allowed when it comes.
unfoldable pub AllAllowed : List TableEvent → Tables → Type 0
AllAllowed [] s = Unit {0}
AllAllowed (e ∷ es) s =
    IsAllowed e s × ((s' : Tables) → table_step e s ≡ some s' → AllAllowed es s')

abbrev pub all_made : List TableEvent → List ℕ → List ℕ
all_made [] made = made
all_made (e ∷ es) made = all_made es (made_by e made)

run_from :
    (made : List ℕ) (es : List TableEvent) (s : Tables)
    → IsOwned made s
    → AllAllowed es s
    → (s' : Tables) × (table_run es s ≡ some s') × IsOwned (all_made es made) s'
unfolding table_run AllAllowed
run_from made [] s o h = (s, refl, o)
run_from made (e ∷ es) s o h =
    let (s', done, o') = table_step-IsOwned made e s o h.0 in
    let (end, rest, o'') = run_from (made_by e made) es s' o' (h.1 s' done) in
    (end, ap next done ∙ rest, o'')
  where
    next : Option Tables → Option Tables
    next r = elim r [ none ↦ none | some s' ↦ table_run es s' ]

-- A table is created over a database, further tables with their own databases share its issuer, and
-- AddRef and Close are called on tables that are open, in any order and with fewer than 2^31 - 1
-- references: no call panics, the issuer has one reference for each open table and closes the first
-- database exactly when none is left, and each other database is closed once for each table that
-- was created with it, when that table is.
pub table_run-IsOwned :
    (db : ℕ) (es : List TableEvent)
    → AllAllowed es (create_first db)
    → (s : Tables) × (table_run es (create_first db) ≡ some s) × IsOwned (all_made es []) s
unfolding open_count owners total
table_run-IsOwned db es h =
    run_from [] es (create_first db)
      (record {
        tables_ok = (open_table db refl refl (omega arith) (omega arith), tt);
        few = omega arith;
        issuer_eq = refl;
        closed_once = λ d. refl;
      })
      h
