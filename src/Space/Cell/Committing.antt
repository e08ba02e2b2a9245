-- ===== src/Space/Cell/Committing.antt =====
-- What commitTx leaves in the database, and what a snapshot shows of it.
use mathlib.Core.Path.{subst}
use mathlib.Core.Option.{none-ne-some, some-injective}
use amp_host_go.Base.{
  ℕ, ◌+◌, ◌%◌, ◌^◌, true, arith, if_true, if_false, ◌≡◌, refl, sym, ap, ◌∙◌, Bool, false, not, ◌&&◌,
  Option, none, some, Option-cases, Bool-cases, inl, inr, List, [], ◌∷◌, ◌==◌, ltb, if◌then◌else◌,
  length, take,
}
use amp_host_go.Base.Bytes.{Bytes, equal_bytes}
use amp_host_go.Space.Cell.{
  Env, IsStore, TxOp, TxMsg, op_key, op_val, set_ops, Attempts, commits, fails, set_fails,
  conflicts, data_of, Outcome, committed, commit_fails, panics, commit_loop, commit_tx,
  is_committed,
}

-- What the ops write under a key: the value of the last of them that has it.
abbrev pub latest : Env → Bytes → List TxOp → Bytes → Option Bytes → Option Bytes
latest e array [] key old = old
latest e array (op ∷ ops) key old =
    latest e array ops key (
      if not (op.edit_id == 0) && equal_bytes (op_key e op) key
      then some (op_val op array)
      else old)

set_ops_lem :
    (e : Env) (array : Bytes) (ops : List TxOp) (db db' : e.Db) (key : Bytes)
    → IsStore e
    → set_ops e array ops db ≡ some db'
    → e.get db' key ≡ latest e array ops key (e.get db key)
unfolding set_ops
set_ops_lem e array [] db db' key l h = ap (λ d. e.get d key) (sym (some-injective _ _ h))
set_ops_lem e array (op ∷ ops) db db' key l h = elim (Bool-cases (op.edit_id == 0)) [
  | inl z ↦
      set_ops_lem e array ops db db' key l
        (sym (ap (writes (ltb (length array) (op.data_ofs + op.data_len))) z) ∙ h)
      ∙ sym (ap shows z)
  | inr nz ↦ elim (Bool-cases (ltb (length array) (op.data_ofs + op.data_len))) [
    | inl out ↦
        absurd (none-ne-some db' (sym (ap (writes _) nz ∙ ap (λ b. writes b false) out) ∙ h))
    | inr fits ↦
        set_ops_lem e array ops (e.set db (op_key e op) (op_val op array)) db' key l
          (sym (ap (writes _) nz ∙ ap (λ b. writes b false) fits) ∙ h)
        ∙ ap (latest e array ops key) (l.get_after_set db (op_key e op) (op_val op array) key)
        ∙ sym (ap shows nz)
  ]
]
  where
    writes : Bool → Bool → Option e.Db
    writes out no_edit =
        if not no_edit && out
        then none
        else set_ops e array ops (if no_edit then db else e.set db (op_key e op) (op_val op array))

    shows : Bool → Option Bytes
    shows no_edit = latest e array ops key (
        if not no_edit && equal_bytes (op_key e op) key
        then some (op_val op array)
        else e.get db key)

-- The state that the transaction which ends a call was made on.
abbrev pub base : {D : Type 0} → Attempts D → D → D
base commits db = db
base (fails c) db = db
base (set_fails i c) db = db
base (conflicts left rest) db = base rest left

abbrev pub IsCommitted : (e : Env) → TxMsg → e.Db → Outcome e.Db → Type 0
IsCommitted e tx from (committed db') =
    (key : Bytes) → e.get db' key ≡ latest e (data_of tx) tx.ops key (e.get from key)
IsCommitted e tx from (commit_fails c db') = db' ≡ from
IsCommitted e tx from (panics db') = Unit {0}

commit_loop-IsCommitted :
    (e : Env) (tx : TxMsg) (attempts : Attempts e.Db) (db : e.Db)
    → IsStore e
    → IsCommitted e tx (base attempts db) (commit_loop e tx attempts db)
unfolding commit_loop
commit_loop-IsCommitted e tx commits db l = elim (Option-cases (set_ops e (data_of tx) tx.ops db)) [
  | inl n ↦ rw (commit_loop, n) tt
  | inr (db', s) ↦ rw (commit_loop, s) (λ key. set_ops_lem e (data_of tx) tx.ops db db' key l s)
]
commit_loop-IsCommitted e tx (fails c) db l =
    elim (Option-cases (set_ops e (data_of tx) tx.ops db)) [
      | inl n ↦ rw (commit_loop, n) tt
      | inr (db', s) ↦ rw (commit_loop, s) refl
    ]
commit_loop-IsCommitted e tx (set_fails i c) db l =
    elim (Option-cases (set_ops e (data_of tx) (take (i + 1) tx.ops) db)) [
      | inl n ↦ rw (commit_loop, n) tt
      | inr (db', s) ↦ rw (commit_loop, s) refl
    ]
commit_loop-IsCommitted e tx (conflicts left rest) db l =
    elim (Option-cases (set_ops e (data_of tx) tx.ops db)) [
      | inl n ↦ rw (commit_loop, n) tt
      | inr (db', s) ↦ rw (commit_loop, s) (commit_loop-IsCommitted e tx rest left l)
    ]

-- How a call of commitTx with a transaction ends.
abbrev pub IsTx : (e : Env) → TxMsg → Attempts e.Db → e.Db → ℕ → Outcome e.Db × ℕ × Bool → Type 0
IsTx e tx attempts db rev r =
    IsCommitted e tx (if length tx.ops == 0 then db else base attempts db) r.0
    × (r.1 ≡ (if r.2 then (rev + 1) % 2 ^ 64 else rev))
    × (r.2 ≡ (not (length tx.ops == 0) && is_committed r.0))

-- Whatever conflicts a call of commitTx meets: when it succeeds, the database has under each key the
-- data of the last op of the transaction with that key and an EditID, and elsewhere what it had
-- when the call's last transaction was made, with the writes of others; when it returns an error,
-- it has exactly that. The revision grows by one, and the transaction is pushed to the pins, exactly
-- if the transaction has ops and they were committed.
pub commit_tx-IsTx :
    (e : Env) (tx : TxMsg) (attempts : Attempts e.Db) (db : e.Db) (rev : ℕ)
    → IsStore e
    → IsTx e tx attempts db rev (commit_tx e (some tx) attempts db rev)
unfolding commit_tx
commit_tx-IsTx e tx attempts db rev l = elim (Bool-cases (length tx.ops == 0)) [
  | inl z ↦ subst (IsTx e tx attempts db rev) (sym (if_true _ _ z)) (
    subst (λ b. IsCommitted e tx b (committed db)) (sym (if_true _ _ z)) (nothing tx.ops z),
    refl,
    sym (ap (λ b. not b && true) z),
  )
  | inr nz ↦ subst (IsTx e tx attempts db rev) (sym (if_false _ _ nz)) (
    subst (λ b. IsCommitted e tx b (commit_loop e tx attempts db)) (sym (if_false _ _ nz))
        (commit_loop-IsCommitted e tx attempts db l),
    refl,
    sym (ap (λ b. not b && is_committed (commit_loop e tx attempts db)) nz),
  )
]
  where
    nothing :
        (ops : List TxOp)
        → (length ops == 0) ≡ true
        → (key : Bytes) → e.get db key ≡ latest e (data_of tx) ops key (e.get db key)
    nothing [] z key = refl
    nothing (op ∷ ops) z key = absurd (ground (arith, z))
