-- ===== src/Space/Cell/Snapshot.antt =====
-- What a snapshot shows of an op that was committed.
use mathlib.Core.Path.{subst}
use mathlib.Core.List.{append_assoc, map}
use amp_host_go.Base.{
  ℕ, ◌≡◌, refl, sym, ap, ◌∙◌, ◌<◌, ◌^◌, true, some, inl, inr, List, [], ◌∷◌, ◌++◌, arith, drop,
  length-append, In, replicate,
}
use amp_host_go.Base.Bytes.{Bytes, has_prefix}
use amp_host_go.Base.Slices.{drop_exact, drop-drop}
use amp_host_go.Space.Cell.{Env, IsLawful, TxOp, op_key, SnapOp, read_key, snapshot_ops}

In-map : {A B : Type 0} (f : A → B) (x : A) (xs : List A) → In x xs → In (f x) (map f xs)
In-map f x [] h = elim h [ ]
In-map f x (y ∷ ys) (inl e) = inl (ap f e)
In-map f x (y ∷ ys) (inr h) = inr (In-map f x ys h)

has_prefix-append : (xs ys : Bytes) → has_prefix (xs ++ ys) xs ≡ true
unfolding has_prefix
has_prefix-append [] ys = refl
has_prefix-append (x ∷ xs) ys = ground (arith, has_prefix-append xs ys)

-- The index that a snapshot shows: 24 bytes are read where 16 were written.
abbrev pub shown_si : Env → ℕ → ℕ → ℕ
shown_si e si edit_id = e.from24 (e.put16 si ++ (replicate 8 0 ++ e.put16 edit_id))

abbrev pub shown : Env → TxOp → Bytes → SnapOp
shown e op val = record {
  cell_id = op.cell_id;
  attr_id = e.from16 (e.put16 op.attr_id);
  si = shown_si e op.si op.edit_id;
  edit_id = e.from16 (e.put16 op.edit_id);
  val = val;
}

module _ (e : Env) (op : TxOp) (l : IsLawful e) (small : op.cell_id < 2 ^ 192) where
  edit_part : Bytes
  edit_part = e.put16 op.edit_id

  drop_cell :
      drop 24 (op_key e op)
      ≡ e.put16 op.attr_id ++ (e.put16 op.si ++ (replicate 8 0 ++ e.put16 op.edit_id))
  unfolding op_key
  drop_cell = drop_exact 24 (e.put24 op.cell_id) _ (l.length24 op.cell_id)

  drop_attr : drop 40 (op_key e op) ≡ e.put16 op.si ++ (replicate 8 0 ++ e.put16 op.edit_id)
  drop_attr =
      sym (drop-drop 16 24 (op_key e op))
      ∙ ap (drop 16) drop_cell
      ∙ drop_exact 16 (e.put16 op.attr_id) _ (l.length16 op.attr_id)

  drop_index : drop 64 (op_key e op) ≡ e.put16 op.edit_id
  drop_index =
      sym (drop-drop 24 40 (op_key e op))
      ∙ ap (drop 24)
          (drop_attr ∙ sym (append_assoc (e.put16 op.si) (replicate 8 0) (e.put16 op.edit_id)))
      ∙ drop_exact 24 (e.put16 op.si ++ replicate 8 0) (e.put16 op.edit_id)
          (omega (arith, length-append (e.put16 op.si) (replicate 8 0), l.length16 op.si))

  read_key-op_key : (val : Bytes) → read_key e (op_key e op, val) ≡ shown e op val
  unfolding read_key op_key
  read_key-op_key val = λ i. record {
    cell_id = cell i;
    attr_id = (ap e.from16 drop_cell ∙ l.reads16 (e.put16 op.attr_id) _ (l.length16 op.attr_id)) i;
    si = ap e.from24 drop_attr i;
    edit_id = ap e.from16 drop_index i;
    val = val;
  }
    where
      cell : e.from24 (op_key e op) ≡ op.cell_id
      cell = l.reads24 op.cell_id _ small

  -- Where the database has data under the key of an op whose cell's ID fits 24 bytes, the snapshot of
  -- that cell has an op with the data and the cell's ID; its attribute and its EditID are what
  -- From16 makes of the 16 bytes that Put16 writes for them, and its index is read from 24 bytes
  -- where commitTx wrote 16.
  pub snapshot_ops-shown :
      (db : e.Db) (val : Bytes)
      → e.get db (op_key e op) ≡ some val
      → In (shown e op val) (snapshot_ops e op.cell_id db)
  unfolding snapshot_ops op_key
  snapshot_ops-shown db val h =
      let starts : has_prefix (op_key e op) (e.put24 op.cell_id) ≡ true =
        has_prefix-append (e.put24 op.cell_id) _ in
      let listed = l.iterates db (e.put24 op.cell_id) (op_key e op) val h starts in
      subst (λ p. In (shown e op val) (map (read_key e) (e.iterate db p))) (sym (l.lsm op.cell_id))
        (subst (λ s. In s (map (read_key e) (e.iterate db (e.put24 op.cell_id))))
          (read_key-op_key val) (In-map (read_key e) (op_key e op, val) _ listed))
