-- ===== src/Tests/LifetimeRuns.antt =====
-- Tables that share an issuer, and an issuer over a small database.
use mathlib.Core.Path.{subst}
use mathlib.Core.Option.{some-injective}
use amp_host_go.Base.{
  ℕ, ◌≤◌, ◌<◌, ◌≡◌, refl, sym, ◌∙◌, true, false, Option, none, some, List, [], ◌∷◌, arith, All,
  Ordered,
}
use amp_host_go.Base.Bytes.{Bytes, equal_bytes}
use amp_host_go.Symbols.Issuer.{open_issuer, closed_issuer, add_ref, close}
use amp_host_go.Symbols.Issuing.{
  Sequences, IsSequential, new_badger_issuer, issue_next_ids, new_badger_issuer-above,
}
use amp_host_go.Symbols.Lifetime.{
  Tables, create_first, TableEvent, shares, closes, table_step, table_run,
}
use amp_host_go.Symbols.Lifetime.Counting.{IsOwned, open_count}
use amp_host_go.Symbols.Lifetime.Owning.{AllAllowed, table_run-IsOwned}
use amp_host_go.Tests.SymbolRuns.{leading_byte, small, small-IsLawful}

-- The sequence goes on from the one byte that is stored.
abbrev bytewise : Sequences small
bytewise = record {
  get_sequence =
      λ db key. elim (small.get db key) [ none ↦ none | some buf ↦ some (leading_byte buf) ];
  put64 = λ n. n ∷ [];
  get64 = leading_byte;
}

bytewise-IsSequential : IsSequential small-IsLawful bytewise
bytewise-IsSequential = record {
  reads = λ n h. refl;
  starts = λ db key buf seq g h. starts_at (small.get db key) buf seq g h;
}
  where
    starts_at :
        (o : Option Bytes) (buf : Bytes) (seq : ℕ)
        → o ≡ some buf
        → elim o [ none ↦ none | some b ↦ some (leading_byte b) ] ≡ some seq
        → leading_byte buf ≤ seq
    starts_at o buf seq g h =
        let same : leading_byte buf ≡ seq = some-injective _ _ (rw g at h) in omega (arith, same)

new_badger_issuer-above_example :
    All (λ id. 5 ≤ id) (issue_next_ids small 32 3 5).0 × Ordered ◌<◌ (issue_next_ids small 32 3 5).0
unfolding new_badger_issuer equal_bytes issue_next_ids
new_badger_issuer-above_example =
    new_badger_issuer-above small small-IsLawful bytewise 252 5 [] 5 32 3 bytewise-IsSequential
      (omega arith) refl refl (omega arith)

goes_on :
    (e : TableEvent) (es : List TableEvent) (s next : Tables)
    → table_step e s ≡ some next
    → AllAllowed es next
    → (s' : Tables) → table_step e s ≡ some s'
    → AllAllowed es s'
goes_on e es s next done rest s' h = subst (AllAllowed es) (some-injective _ _ (sym done ∙ h)) rest

abbrev after_shares : Tables
after_shares = record {
  issuer = open_issuer 2;
  tables =
      record { has_issuer = true; db = some 1; db_owned = false; ref_count = 1 }
      ∷ record { has_issuer = true; db = some 2; db_owned = true; ref_count = 1 }
      ∷ [];
  closed_dbs = [];
}

abbrev after_close : Tables
after_close = record {
  issuer = open_issuer 1;
  tables =
      record { has_issuer = false; db = none; db_owned = false; ref_count = 0 }
      ∷ record { has_issuer = true; db = some 2; db_owned = true; ref_count = 1 }
      ∷ [];
  closed_dbs = [];
}

abbrev after_all : Tables
after_all = record {
  issuer = closed_issuer;
  tables =
      record { has_issuer = false; db = none; db_owned = false; ref_count = 0 }
      ∷ record { has_issuer = false; db = none; db_owned = true; ref_count = 0 }
      ∷ [];
  closed_dbs = 2 ∷ [];
}

-- The table that owns the issuer's database is closed first.
abbrev shared_and_closed : List TableEvent
shared_and_closed = shares 2 ∷ closes 0 ∷ closes 1 ∷ []

shared_and_closed_allowed : AllAllowed shared_and_closed (create_first 1)
unfolding AllAllowed table_step open_count add_ref close
shared_and_closed_allowed = (
  (omega arith, omega arith),
  goes_on (shares 2) (closes 0 ∷ closes 1 ∷ []) (create_first 1) after_shares refl (
    (_, refl, refl),
    goes_on (closes 0) (closes 1 ∷ []) after_shares after_close refl
        ((_, refl, refl), goes_on (closes 1) [] after_close after_all refl tt),
  ),
)

table_run-IsOwned_example :
    (s : Tables) × (table_run shared_and_closed (create_first 1) ≡ some s) × IsOwned (2 ∷ []) s
table_run-IsOwned_example = table_run-IsOwned 1 shared_and_closed shared_and_closed_allowed
