-- ===== src/Space/Cell.antt =====
-- A plCell and its pins: commitTx, pushSnapshot, addSync and removeSync. badger's database and
-- tag.ID's writers and readers are parameters, an Env, with what is documented of them in IsStore and
-- IsLawful.
-- A tag.ID is a number, and 0 the nil ID.
pub mod Committing
pub mod Pins
pub mod Snapshot
use amp_host_go.Base.{
  ℕ, ◌+◌, ◌-◌, ◌%◌, ◌^◌, ◌≡◌, ◌↔◌, ◌<◌, ◌≤◌, Bool, true, false, not, ◌&&◌, ◌||◌, Option, none, some,
  List, [], ◌∷◌, ◌++◌, ◌==◌, ltb, map, if◌then◌else◌, length, take, drop, replicate, In,
}
use amp_host_go.Base.Bytes.{Bytes, equal_bytes, has_prefix}

pub record Env : Type 1 where
  pub Db : Type 0
  pub get : Db → Bytes → Option Bytes
  pub set : Db → Bytes → Bytes → Db
  pub iterate : Db → Bytes → List (Bytes × Bytes)
  pub put24 : ℕ → Bytes
  pub put16 : ℕ → Bytes
  pub from24 : Bytes → ℕ
  pub from16 : Bytes → ℕ
  pub to_lsm : ℕ → Bytes

-- What is documented of badger's Set and Get.
pub record IsStore (e : Env) : Type 0 where
  pub get_after_set :
      (db : e.Db) (k v j : Bytes)
      → e.get (e.set db k v) j ≡ (if equal_bytes k j then some v else e.get db j)

-- What is documented of badger's iterator and of tag.ID's writers and readers. An ID has 24 bytes, so
-- 16 need not give it back; From16 reads no more than 16 bytes.
pub record IsLawful (e : Env) : Type 0 where
  pub iterates :
      (db : e.Db) (p k v : Bytes)
      → e.get db k ≡ some v
      → has_prefix k p ≡ true
      → In (k, v) (e.iterate db p)
  pub length24 : (id : ℕ) → length (e.put24 id) ≡ 24
  pub length16 : (id : ℕ) → length (e.put16 id) ≡ 16
  pub reads24 : (id : ℕ) (rest : Bytes) → id < 2 ^ 192 → e.from24 (e.put24 id ++ rest) ≡ id
  pub reads16 : (xs rest : Bytes) → length xs ≡ 16 → e.from16 (xs ++ rest) ≡ e.from16 xs
  pub lsm : (id : ℕ) → e.to_lsm id ≡ e.put24 id

pub record TxOp : Type 0 where
  pub cell_id : ℕ
  pub attr_id : ℕ
  pub si : ℕ
  pub edit_id : ℕ
  pub data_ofs : ℕ
  pub data_len : ℕ

pub record TxMsg : Type 0 where
  pub ops : List TxOp
  pub data_store : Bytes
  -- what the array of DataStore has behind its length, up to its capacity
  pub data_spare : Bytes

-- The array of DataStore, which bounds its slices.
abbrev pub data_of : TxMsg → Bytes
data_of tx = tx.data_store ++ tx.data_spare

-- A TxOpKey: 24 bytes of the cell, 16 of the attribute, 24 for the index, of which 16 are written,
-- and 16 of the edit.
unfoldable pub op_key : Env → TxOp → Bytes
op_key e op =
    e.put24 op.cell_id
    ++ (e.put16 op.attr_id ++ (e.put16 op.si ++ (replicate 8 0 ++ e.put16 op.edit_id)))

abbrev pub op_val : TxOp → Bytes → Bytes
op_val op array = take op.data_len (drop op.data_ofs array)

-- The Set calls of one transaction. An op with no EditID is left out. A slice of the data that is out
-- of range panics: `none`.
unfoldable pub set_ops : (e : Env) → Bytes → List TxOp → e.Db → Option e.Db
unfolding op_key
set_ops e array [] db = some db
set_ops e array (op ∷ ops) db =
    let rest =
      set_ops e array ops
        (if op.edit_id == 0 then db else e.set db (op_key e op) (op_val op array)) in
    if not (op.edit_id == 0) && ltb (length array) (op.data_ofs + op.data_len) then none else rest

-- How the transactions of one call end: an error of Commit, or of Set at an op, leaves the loop. On
-- ErrConflict the database is as other writers left it.
pub data Attempts (Db : Type 0) : Type 0 where
  commits : Attempts Db
  fails : ℕ → Attempts Db
  set_fails : ℕ → ℕ → Attempts Db
  conflicts : Db → Attempts Db → Attempts Db

pub data Outcome (Db : Type 0) : Type 0 where
  committed : Db → Outcome Db
  commit_fails : ℕ → Db → Outcome Db
  panics : Db → Outcome Db

-- The loop of commitTx.
unfoldable pub commit_loop : (e : Env) → TxMsg → Attempts e.Db → e.Db → Outcome e.Db
unfolding set_ops
commit_loop e tx commits db = elim (set_ops e (data_of tx) tx.ops db) [
  | none ↦ panics db
  | some db' ↦ committed db'
]
commit_loop e tx (fails c) db = elim (set_ops e (data_of tx) tx.ops db) [
  | none ↦ panics db
  | some _ ↦ commit_fails c db
]
commit_loop e tx (set_fails i c) db = elim (set_ops e (data_of tx) (take (i + 1) tx.ops) db) [
  | none ↦ panics db
  | some _ ↦ commit_fails c db
]
commit_loop e tx (conflicts left rest) db =
    let again = commit_loop e tx rest left in
    elim (set_ops e (data_of tx) tx.ops db) [ none ↦ panics db | some _ ↦ again ]

abbrev pub is_committed : {D : Type 0} → Outcome D → Bool
is_committed (committed db) = true
is_committed (commit_fails c db) = false
is_committed (panics db) = false

-- commitTx: how it ends, the revision, and whether the transaction is pushed to the pins.
unfoldable pub commit_tx :
    (e : Env) → Option TxMsg → Attempts e.Db → e.Db → ℕ → Outcome e.Db × ℕ × Bool
unfolding commit_loop
commit_tx e none attempts db rev = (committed db, rev, false)
commit_tx e (some tx) attempts db rev =
    let out = commit_loop e tx attempts db in
    if length tx.ops == 0
    then (committed db, rev, false)
    else (out, if is_committed out then (rev + 1) % 2 ^ 64 else rev, is_committed out)

-- An op of a snapshot with its value.
pub record SnapOp : Type 0 where
  pub cell_id : ℕ
  pub attr_id : ℕ
  pub si : ℕ
  pub edit_id : ℕ
  pub val : Bytes

unfoldable pub read_key : Env → Bytes × Bytes → SnapOp
read_key e (key, val) = record {
  cell_id = e.from24 key;
  attr_id = e.from16 (drop 24 key);
  si = e.from24 (drop 40 key);
  edit_id = e.from16 (drop 64 key);
  val = val;
}

-- The ops of pushSnapshot.
unfoldable pub snapshot_ops : (e : Env) → ℕ → e.Db → List SnapOp
unfolding read_key
snapshot_ops e cell_id db = map (read_key e) (e.iterate db (e.to_lsm cell_id))

-- addSync.
abbrev pub add_sync : ℕ → List ℕ → List ℕ
add_sync pin pins = pins ++ pin ∷ []

abbrev pub last_of : ℕ → List ℕ → ℕ
last_of d [] = d
last_of d (p ∷ ps) = last_of p ps

abbrev pub without_last : ℕ → List ℕ → List ℕ
without_last d [] = []
without_last d (p ∷ ps) = d ∷ without_last p ps

-- The last pin is put in the place of the removed one, which may be itself.
abbrev pub fill_gap : List ℕ → List ℕ
fill_gap [] = []
fill_gap (p ∷ ps) = last_of p ps ∷ without_last p ps

-- removeSync: the loop ends at the first pin that is found.
unfoldable pub remove_sync : ℕ → List ℕ → List ℕ
remove_sync remove [] = []
remove_sync remove (pin ∷ pins) =
    let rest = remove_sync remove pins in if pin == remove then fill_gap pins else pin ∷ rest
