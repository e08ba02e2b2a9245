-- ===== src/Tests/SpaceRuns.antt =====
-- Runs of a cell of a space with a small database, and the theorems of Space.Cell at them.
use mathlib.Core.Path.{subst}
use mathlib.Core.Option.{none-ne-some, some-injective}
use amp_host_go.Base.{
  ℕ, ◌≡◌, refl, sym, ap, ◌∙◌, true, Option, none, some, Bool-cases, inl, inr, List, [], ◌∷◌, arith,
  zero, suc, ◌+◌, ◌*◌, ◌/◌, ◌%◌, ◌<◌, ◌++◌, length, if◌then◌else◌, if_true, if_false, In, Perm,
}
use amp_host_go.Base.Bytes.{Bytes, equal_bytes, has_prefix, equal_bytes-eq}
use amp_host_go.Space.Cell.{
  Env, IsStore, IsLawful, TxOp, TxMsg, op_key, commits, conflicts, commit_tx, snapshot_ops,
  remove_sync,
}
use amp_host_go.Space.Cell.Committing.{IsTx, commit_tx-IsTx}
use amp_host_go.Space.Cell.Pins.{remove_sync-Perm}
use amp_host_go.Space.Cell.Snapshot.{shown, snapshot_ops-shown}

abbrev Pairs : Type 0
Pairs = List (Bytes × Bytes)

abbrev get_pair : Pairs → Bytes → Option Bytes
get_pair [] j = none
get_pair ((k, v) ∷ m) j = if equal_bytes k j then some v else get_pair m j

abbrev with_prefix : Pairs → Bytes → Pairs
with_prefix [] p = []
with_prefix ((k, v) ∷ m) p =
    let rest = with_prefix m p in if has_prefix k p then (k, v) ∷ rest else rest

-- A number in `n` bytes, and back.
abbrev digits : ℕ → ℕ → Bytes
digits zero id = []
digits (suc n) id = id % 256 ∷ digits n (id / 256)

abbrev number : ℕ → Bytes → ℕ
number zero xs = 0
number (suc n) [] = 0
number (suc n) (x ∷ xs) = x + 256 * number n xs

abbrev bound : ℕ → ℕ
bound zero = 1
bound (suc n) = 256 * bound n

length-digits : (n id : ℕ) → length (digits n id) ≡ n
length-digits zero id = refl
length-digits (suc n) id = omega (arith, length-digits n (id / 256))

number-digits : (n id : ℕ) (rest : Bytes) → id < bound n → number n (digits n id ++ rest) ≡ id
number-digits zero id rest h = omega (arith, h)
number-digits (suc n) id rest h =
    let fits : id / 256 < bound n = omega (arith, h) in
    omega (arith, number-digits n (id / 256) rest fits)

number-append : (n : ℕ) (xs rest : Bytes) → length xs ≡ n → number n (xs ++ rest) ≡ number n xs
number-append zero xs rest h = refl
number-append (suc n) [] rest h = absurd (omega (arith, h))
number-append (suc n) (x ∷ xs) rest h = omega (arith, number-append n xs rest (omega (arith, h)))

abbrev pairs_env : Env
pairs_env = record {
  Db = Pairs;
  get = get_pair;
  set = λ m k v. (k, v) ∷ m;
  iterate = with_prefix;
  put24 = digits 24;
  put16 = digits 16;
  from24 = number 24;
  from16 = number 16;
  to_lsm = digits 24;
}

with_prefix-get_pair :
    (m : Pairs) (p k v : Bytes)
    → get_pair m k ≡ some v
    → has_prefix k p ≡ true
    → In (k, v) (with_prefix m p)
with_prefix-get_pair [] p k v h q = absurd (none-ne-some v h)
with_prefix-get_pair ((j, w) ∷ m) p k v h q = elim (Bool-cases (equal_bytes j k)) [
  | inl t ↦
      let same : j ≡ k = equal_bytes-eq j k t in
      let val : w ≡ v = some-injective w v (sym (if_true _ _ t) ∙ h) in
      let there : has_prefix j p ≡ true = ap (λ x. has_prefix x p) same ∙ q in
      subst (In (k, v)) (sym (if_true _ _ there)) (inl (λ i. (sym same i, sym val i)))
  | inr f ↦
      let rest = with_prefix-get_pair m p k v (sym (if_false _ _ f) ∙ h) q in
      elim (Bool-cases (has_prefix j p)) [
        | inl t ↦ subst (In (k, v)) (sym (if_true _ _ t)) (inr rest)
        | inr g ↦ subst (In (k, v)) (sym (if_false _ _ g)) rest
      ]
]

pairs_env-IsStore : IsStore pairs_env
pairs_env-IsStore = record { get_after_set = λ db k v j. refl }

pairs_env-IsLawful : IsLawful pairs_env
pairs_env-IsLawful = record {
  iterates = with_prefix-get_pair;
  length24 = length-digits 24;
  length16 = length-digits 16;
  reads24 = number-digits 24;
  reads16 = number-append 16;
  lsm = λ id. refl;
}

abbrev title : TxOp
title = record { cell_id = 5; attr_id = 2; si = 7; edit_id = 9; data_ofs = 1; data_len = 2 }

abbrev tx : TxMsg
tx = record { ops = title ∷ []; data_store = 60 ∷ 61 ∷ []; data_spare = 62 ∷ [] }

-- Another writer has changed the attribute when the first transaction meets a conflict.
abbrev others : Pairs
others = (op_key pairs_env title, 1 ∷ []) ∷ []

commit_tx-IsTx_example :
    IsTx pairs_env tx
      (conflicts others commits)
      []
      3
      (commit_tx pairs_env (some tx) (conflicts others commits) [] 3)
commit_tx-IsTx_example =
    commit_tx-IsTx pairs_env tx (conflicts others commits) [] 3 pairs_env-IsStore

snapshot_ops-shown_example :
    In
      (shown pairs_env title (61 ∷ 62 ∷ []))
      (snapshot_ops pairs_env 5 ((op_key pairs_env title, 61 ∷ 62 ∷ []) ∷ []))
unfolding equal_bytes op_key
snapshot_ops-shown_example =
    snapshot_ops-shown pairs_env title pairs_env-IsLawful (omega arith)
      ((op_key pairs_env title, 61 ∷ 62 ∷ []) ∷ []) (61 ∷ 62 ∷ []) refl

remove_sync-Perm_example : Perm (4 ∷ 8 ∷ 6 ∷ []) (4 ∷ remove_sync 4 (4 ∷ 8 ∷ 6 ∷ []))
remove_sync-Perm_example = remove_sync-Perm 4 (4 ∷ 8 ∷ 6 ∷ []) (inl refl)

remove_sync-first : remove_sync 4 (4 ∷ 8 ∷ 6 ∷ []) ≡ 6 ∷ 8 ∷ []
unfolding remove_sync
remove_sync-first = refl
