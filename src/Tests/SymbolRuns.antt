-- ===== src/Tests/SymbolRuns.antt =====
-- Tables of symbols over a small database: runs, and the theorems of Symbols at them.
use mathlib.Core.Option.{some-injective, none-ne-some}
use amp_host_go.Base.{
  sym, ℕ, ◌+◌, ◌≡◌, refl, true, false, Option, none, some, List, [], ◌∷◌, ◌++◌, if◌then◌else◌,
  arith,
}
use amp_host_go.Base.Bytes.{Bytes, equal_bytes}
use amp_host_go.Symbols.{
  Env, IsLawful, commits, conflicts, Table, existing_id, write_pair, get_symbol_id, set_symbol_id,
  get_symbol,
}
use amp_host_go.Symbols.Assigning.{IsLinked, Answers, new_pair, get_symbol_id-Answers}
use amp_host_go.Symbols.Setting.{Sets, set_symbol_id_lem}
use amp_host_go.Symbols.Races.{get_symbol_id_overwrites}

abbrev find : List (Bytes × Bytes) → Bytes → Option Bytes
find [] j = none
find ((k, v) ∷ db) j = if equal_bytes k j then some v else find db j

abbrev pub leading_byte : Bytes → ℕ
leading_byte [] = 0
leading_byte (b ∷ bs) = b

-- IDs of one byte, issued in turn.
abbrev pub small : Env
small = record {
  Db = List (Bytes × Bytes);
  Seq = ℕ;
  get = find;
  set = λ db k v. (k, v) ∷ db;
  next = λ seq. (some seq, seq + 1);
  id_sz = 1;
  append_to = λ n. n ∷ [];
  read_from = leading_byte;
}

abbrev pub small-IsLawful : IsLawful small
small-IsLawful = record {
  get_after_set = λ db k v j. refl;
  length_of_id = λ n. refl;
  read_of_id = λ n h. refl;
  floor = λ seq. seq;
  next_above = λ seq n h. let same : seq ≡ n = some-injective _ _ h in (omega arith, omega arith);
  next_none = λ seq h. absurd (none-ne-some seq (sym h));
}

abbrev no_symbols : Table small
no_symbols = record { prefix = 252; db = []; seq = 5 }

no_symbols-IsLinked : IsLinked small small-IsLawful no_symbols
unfolding existing_id
no_symbols-IsLinked = record { positive = omega arith; linked = λ val h. absurd (h refl) }

get_symbol_id-Answers_example :
    IsLinked small small-IsLawful (get_symbol_id small (7 ∷ 8 ∷ []) true commits no_symbols).0
    × Answers small small-IsLawful
        (7 ∷ 8 ∷ [])
        5
        (get_symbol_id small (7 ∷ 8 ∷ []) true commits no_symbols).0
unfolding get_symbol_id
get_symbol_id-Answers_example =
    get_symbol_id-Answers small small-IsLawful no_symbols 7 (8 ∷ []) true 5 no_symbols-IsLinked
      (omega arith) (omega arith) refl

abbrev one_symbol : Table small
one_symbol = record no_symbols {
  db = write_pair small 252 (7 ∷ 8 ∷ []) (new_pair small small-IsLawful 5) [];
  seq = 6;
}

set_symbol_id_lem_example :
    Sets small small-IsLawful one_symbol
      (7 ∷ 8 ∷ [])
      9
      (set_symbol_id small (7 ∷ 8 ∷ []) 9 commits one_symbol)
set_symbol_id_lem_example =
    set_symbol_id_lem small small-IsLawful one_symbol 7 (8 ∷ []) 9 (omega arith) (omega arith)

get_symbol_id_overwrites_example :
    let left = write_pair small 252 (7 ∷ []) (new_pair small small-IsLawful 4) [] in
    let (u, id) = get_symbol_id small (7 ∷ []) true (conflicts left commits) no_symbols in
    (id ≡ some 5)
    × ((get_symbol_id small (7 ∷ []) false commits (record no_symbols { db = left })).1 ≡ some 4)
    × ((get_symbol_id small (7 ∷ []) false commits u).1 ≡ some 5)
    × ((io : Bytes) → get_symbol small 4 io u ≡ some (io ++ 7 ∷ []))
    × ((io : Bytes) → get_symbol small 5 io u ≡ some (io ++ 7 ∷ []))
unfolding existing_id
get_symbol_id_overwrites_example =
    get_symbol_id_overwrites small small-IsLawful no_symbols 7 [] 5 4 refl refl (omega arith)
      (omega arith) (omega arith) (omega arith) (omega arith)
