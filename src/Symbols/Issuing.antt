-- ===== src/Symbols/Issuing.antt =====
-- amp/badger/symbol_table/issuer.go: NewBadgerIssuer and IssueNextID. badger's GetSequence and the
-- eight bytes of a stored number are parameters with those of Env.
use amp_host_go.Base.{
  ℕ, zero, suc, ◌+◌, ◌%◌, ◌^◌, ◌≤◌, ◌<◌, ◌≡◌, sym, ap, ◌∙◌, Bool, true, not, Option, none, some,
  Option-cases, inl, inr, List, [], ◌∷◌, All, All-map, Ordered, arith, if◌then◌else◌, if_true,
}
use native.Mathlib.Nat.{mod-eq_of_lt}
use mathlib.Core.Path.{subst}
use amp_host_go.Base.Bytes.{Bytes, equal_bytes_refl}
use amp_host_go.Symbols.{Env, IsLawful}

pub record Sequences (e : Env) : Type 0 where
  pub get_sequence : e.Db → Bytes → Option e.Seq
  pub put64 : ℕ → Bytes
  pub get64 : Bytes → ℕ

-- A sequence goes on from the number that is stored under its key.
pub record IsSequential {e : Env} (l : IsLawful e) (q : Sequences e) : Type 0 where
  pub reads : (n : ℕ) → n < 2 ^ 64 → q.get64 (q.put64 n) ≡ n
  pub starts :
      (db : e.Db) (key buf : Bytes) (seq : e.Seq)
      → e.get db key ≡ some buf
      → q.get_sequence db key ≡ some seq
      → q.get64 buf ≤ l.floor seq

-- `N` is 78.
abbrev pub seq_key : ℕ → Bytes
seq_key prefix = prefix ∷ 78 ∷ []

-- NewBadgerIssuer over a database; `commits` is whether the transaction's Set and Commit succeed.
unfoldable pub new_badger_issuer :
    (e : Env) → Sequences e → ℕ → ℕ → Bool → e.Db → e.Db × Option e.Seq
new_badger_issuer e q prefix inits_at commits db = elim (e.get db (seq_key prefix)) [
  | some _ ↦ (db, q.get_sequence db (seq_key prefix))
  | none ↦
      let db' = e.set db (seq_key prefix) (q.put64 inits_at) in
      if commits then (db', q.get_sequence db' (seq_key prefix)) else (db, none)
]

-- IssueNextID: an error is `none`, and the conversion to a symbol.ID of `id_bits` bits wraps. Next is
-- called only on an issuer that has its database.
unfoldable pub issue_next_id : (e : Env) → ℕ → Bool → e.Seq → Option ℕ × e.Seq
issue_next_id e id_bits has_db seq = if not has_db then (none, seq) else (
  elim (e.next seq).0 [ none ↦ none | some next_id ↦ some (next_id % 2 ^ id_bits) ],
  (e.next seq).1,
)

-- `n` calls on an open issuer, with the IDs of the calls that succeed.
unfoldable pub issue_next_ids : (e : Env) → ℕ → ℕ → e.Seq → List ℕ × e.Seq
unfolding issue_next_id
issue_next_ids e id_bits zero seq = ([], seq)
issue_next_ids e id_bits (suc n) seq =
    let r = issue_next_id e id_bits true seq in
    let rest = issue_next_ids e id_bits n r.1 in
    elim r.0 [ none ↦ rest | some id ↦ (id ∷ rest.0, rest.1) ]

module _ (e : Env) (l : IsLawful e) (id_bits : ℕ) where
  -- What the calls leave: IDs from a bound on, in order, where the sequence keeps below the wrap.
  abbrev IsAbove : ℕ → e.Seq → List ℕ × e.Seq → Type 0
  IsAbove low seq r =
      (l.floor seq ≤ l.floor r.1)
      × (l.floor r.1 ≤ 2 ^ id_bits → All (λ id. low ≤ id) r.0 × Ordered ◌<◌ r.0)

  issued-IsAbove :
      (n low : ℕ) (seq : e.Seq)
      → low ≤ l.floor seq
      → IsAbove low seq (issue_next_ids e id_bits n seq)
  unfolding issue_next_ids
  issued-IsAbove zero low seq h = (omega arith, λ room. (tt, tt))
  issued-IsAbove (suc n) low seq h = elim (Option-cases (e.next seq).0) [
    | inl f ↦
        let same = l.next_none seq f in
        let (up, ids) = issued-IsAbove n low (e.next seq).1 (omega (arith, same, h)) in
        subst (IsAbove low seq) (sym (ap out f)) (omega (arith, up, same), ids)
    | inr (id, f) ↦
        let above = l.next_above seq id f in
        let (up, ids) = issued-IsAbove n (id + 1) (e.next seq).1 (omega (arith, above.1)) in
        subst (IsAbove low seq) (sym (ap out f)) (
          omega (arith, above.0, above.1, up),
          λ room.
              let later = ids room in
              let whole : id ≡ id % 2 ^ id_bits =
                sym (small id (omega (arith, above.1, up, room))) in
              subst (λ k. All (λ i. low ≤ i) (k ∷ rest.0) × Ordered ◌<◌ (k ∷ rest.0)) whole
                (
                  (
                    omega (arith, above.0, h),
                    All-map (λ k. id + 1 ≤ k) (λ k. low ≤ k) rest.0
                        (λ k b. omega (arith, above.0, h, b)) later.0,
                  ),
                  (
                    All-map (λ k. id + 1 ≤ k) (λ k. id < k) rest.0 (λ k b. omega (arith, b))
                        later.0,
                    later.1,
                  ),
                ),
        )
  ]
    where
      rest : List ℕ × e.Seq
      rest = issue_next_ids e id_bits n (e.next seq).1

      small : (k : ℕ) → k < 2 ^ id_bits → k % 2 ^ id_bits ≡ k
      small k h = mod-eq_of_lt h

      tried : Option ℕ → List ℕ × e.Seq
      tried o = elim o [ none ↦ rest | some id ↦ (id ∷ rest.0, rest.1) ]

      out : Option ℕ → List ℕ × e.Seq
      out o = tried (elim o [ none ↦ none | some next_id ↦ some (next_id % 2 ^ id_bits) ])

-- If a sequence goes on from the stored number, IssuerInitsAt is below 2^64 and the first
-- transaction commits, the IDs of an issuer over a database that had none of its prefix are at
-- least `IssuerInitsAt`, and each is above the ones before it, whatever calls of IssueNextID fail
-- in between, as long as the sequence has not passed what a symbol.ID can hold.
pub new_badger_issuer-above :
    (e : Env) (l : IsLawful e) (q : Sequences e) (prefix inits_at : ℕ) (db : e.Db) (seq : e.Seq)
    (id_bits n : ℕ)
    → IsSequential l q
    → inits_at < 2 ^ 64
    → e.get db (seq_key prefix) ≡ none
    → (new_badger_issuer e q prefix inits_at true db).1 ≡ some seq
    → l.floor (issue_next_ids e id_bits n seq).1 ≤ 2 ^ id_bits
    → All (λ id. inits_at ≤ id) (issue_next_ids e id_bits n seq).0
      × Ordered ◌<◌ (issue_next_ids e id_bits n seq).0
unfolding new_badger_issuer
new_badger_issuer-above e l q prefix inits_at db seq id_bits n s small absent opened room =
    let db' = e.set db (seq_key prefix) (q.put64 inits_at) in
    let stored : e.get db' (seq_key prefix) ≡ some (q.put64 inits_at) =
      l.get_after_set db (seq_key prefix) (q.put64 inits_at) (seq_key prefix)
      ∙ if_true _ _ (equal_bytes_refl (seq_key prefix)) in
    let got : q.get_sequence db' (seq_key prefix) ≡ some seq =
      rw (absent, new_badger_issuer) at opened in
    (issued-IsAbove e l id_bits n inits_at seq (
        omega (
          arith,
          s.starts db' (seq_key prefix) (q.put64 inits_at) seq stored got,
          s.reads inits_at small,
        ))).1
      room
