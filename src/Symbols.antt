-- ===== src/Symbols.antt =====
-- amp/badger/symbol_table: values and their IDs in a key-value database. The database is badger's,
-- and symbol.ID and badger.Sequence are of other modules, so these are parameters: an `Env` has
-- their operations and `IsLawful` what is documented of them. The table is open: its database and
-- its issuer are not nil.
pub mod Keys
pub mod Assigning
pub mod Setting
pub mod Races
pub mod Issuer
pub mod Issuing
pub mod Lifetime
use amp_host_go.Base.{
  ℕ, ◌≡◌, Bool, true, false, not, ◌&&◌, ◌||◌, Option, none, some, List, [], ◌∷◌, ◌++◌, ◌==◌,
  if◌then◌else◌, length, ◌≤◌, ◌<◌, ◌^◌,
}
use amp_host_go.Base.Bytes.{Bytes, equal_bytes}

-- badger's reads and writes of a committed state, Sequence.Next, and the codec of symbol.ID.
pub record Env : Type 1 where
  pub Db : Type 0
  pub Seq : Type 0
  pub get : Db → Bytes → Option Bytes
  pub set : Db → Bytes → Bytes → Db
  pub next : Seq → Option ℕ × Seq
  pub id_sz : ℕ
  pub append_to : ℕ → Bytes
  pub read_from : Bytes → ℕ

-- `floor` is a bound that all IDs still to come from a sequence reach.
pub record IsLawful (e : Env) : Type 0 where
  pub get_after_set :
      (db : e.Db) (k v j : Bytes)
      → e.get (e.set db k v) j ≡ (if equal_bytes k j then some v else e.get db j)
  pub length_of_id : (n : ℕ) → length (e.append_to n) ≡ e.id_sz
  pub read_of_id : (n : ℕ) → n < 256 ^ e.id_sz → e.read_from (e.append_to n) ≡ n
  pub floor : e.Seq → ℕ
  pub next_above :
      (seq : e.Seq) (n : ℕ) → (e.next seq).0 ≡ some n → (floor seq ≤ n) × (n < floor (e.next seq).1)
  pub next_none : (seq : e.Seq) → (e.next seq).0 ≡ none → floor (e.next seq).1 ≡ floor seq

-- How the transactions of one call end. On ErrConflict the database is as others left it.
pub data Attempts (Db : Type 0) : Type 0 where
  commits fails : Attempts Db
  conflicts : Db → Attempts Db → Attempts Db

pub record Table (e : Env) : Type 0 where
  pub prefix : ℕ
  pub db : e.Db
  pub seq : e.Seq

abbrev pub val_key : ℕ → Bytes → Bytes
val_key prefix val = prefix ∷ 36 ∷ val

unfoldable pub id_key : (e : Env) → ℕ → ℕ → Bytes
id_key e prefix n = prefix ∷ 0 ∷ e.append_to n

-- The ID that a value has, or 0.
unfoldable pub existing_id : (e : Env) → ℕ → e.Db → Bytes → ℕ
existing_id e prefix db val = elim (e.get db (val_key prefix val)) [
  | none ↦ 0
  | some buf ↦ if length buf == e.id_sz then e.read_from buf else 0
]

-- What the call decided on.
pub record Assignment : Type 0 where
  pub sym_id : ℕ
  pub reassign_id : Bool
  pub reassign_val : Bool

-- One transaction's Set calls.
unfoldable pub write_pair : (e : Env) → ℕ → Bytes → Assignment → e.Db → e.Db
unfolding id_key
write_pair e prefix val a db =
    let valued = e.set db (val_key prefix val) (e.append_to a.sym_id) in
    if a.reassign_id then e.set valued (id_key e prefix a.sym_id) val else valued

-- The loop that flushes the assignment. Errors but ErrConflict end it and are dropped.
unfoldable pub flush_loop : (e : Env) → ℕ → Bytes → Assignment → Attempts e.Db → e.Db → e.Db
unfolding write_pair
flush_loop e prefix val a commits db = write_pair e prefix val a db
flush_loop e prefix val a fails db = db
flush_loop e prefix val a (conflicts left rest) db = flush_loop e prefix val a rest left

unfoldable pub flush : (e : Env) → Bytes → Attempts e.Db → Table e → Assignment → Table e × Option ℕ
unfolding flush_loop
flush e val attempts t a =
    if a.reassign_id || a.reassign_val
    then (record t { db = flush_loop e t.prefix val a attempts t.db }, some a.sym_id)
    else (t, some a.sym_id)

-- IssueNextID for a new value. The call panics on an error; a panic is `none`.
unfoldable pub issue : (e : Env) → Bytes → Attempts e.Db → Table e → Table e × Option ℕ
unfolding flush
issue e val attempts t =
    let (issued, seq) = e.next t.seq in
    let t' = record t { seq = seq } in
    elim issued [
      | none ↦ (t', none)
      | some n ↦
          flush e val attempts t' (record { sym_id = n; reassign_id = true; reassign_val = true })
    ]

-- symID is 0.
unfoldable pub get_pair :
    (e : Env) → Bytes → Bool → ℕ → Attempts e.Db → Table e → Table e × Option ℕ
unfolding issue
get_pair e val map_id existing attempts t =
    if not (existing == 0)
    then (t, some existing)
    else (if map_id then issue e val attempts t else (t, some 0))

-- symID is not 0.
unfoldable pub assign : ℕ → Bool → ℕ → Assignment
assign sym_id map_id existing =
    if existing == 0
    then record { sym_id = sym_id; reassign_id = true; reassign_val = true }
    else (if sym_id == existing
        then record { sym_id = sym_id; reassign_id = false; reassign_val = false }
        else record {
          sym_id = if map_id then existing else sym_id;
          reassign_id = map_id;
          reassign_val = true;
        })

unfoldable pub getset_value_id_pair :
    (e : Env) → Bytes → ℕ → Bool → Attempts e.Db → Table e → Table e × Option ℕ
unfolding existing_id get_pair assign flush
getset_value_id_pair e [] sym_id map_id attempts t = (t, some 0)
getset_value_id_pair e (b ∷ bs) sym_id map_id attempts t =
    let val = b ∷ bs in
    let existing = if sym_id == 0 || not map_id then existing_id e t.prefix t.db val else 0 in
    if sym_id == 0
    then get_pair e val map_id existing attempts t
    else flush e val attempts t (assign sym_id map_id existing)

unfoldable pub get_symbol_id :
    (e : Env) → Bytes → Bool → Attempts e.Db → Table e → Table e × Option ℕ
unfolding getset_value_id_pair
get_symbol_id e val auto_issue attempts t = getset_value_id_pair e val 0 auto_issue attempts t

unfoldable pub set_symbol_id : (e : Env) → Bytes → ℕ → Attempts e.Db → Table e → Table e × Option ℕ
unfolding getset_value_id_pair
set_symbol_id e val sym_id attempts t = getset_value_id_pair e val sym_id (sym_id == 0) attempts t

-- The slice that GetSymbol returns; nil is `none`.
unfoldable pub get_symbol : (e : Env) → ℕ → Bytes → Table e → Option Bytes
unfolding id_key
get_symbol e sym_id io t =
    if sym_id == 0
    then none
    else elim (e.get t.db (id_key e t.prefix sym_id)) [ none ↦ none | some val ↦ some (io ++ val) ]
