-- ===== src/Symbols/Issuer.antt =====
-- amp/badger/symbol_table/issuer.go: the references to an issuer and its end. `refCount` is an int32
-- pattern. What db.Close returns is an argument, and the calls of it and of Sequence.Release are
-- counted.
use amp_host_go.Base.{
  ℕ, zero, suc, ◌+◌, ◌-◌, ◌%◌, ◌^◌, ◌<◌, ◌≤◌, ◌≡◌, refl, ap, ◌∙◌, Bool, true, false, not, Option,
  none, some, if◌then◌else◌, arith, ◌==◌, if_true, if_false,
}
use amp_host_go.Base.Words.{sub_int32, int_of_int32, is_negative, gt_int64}

pub data IssuerError : Type 0 where
  issuer_not_open db_failed : IssuerError

pub record BadgerIssuer : Type 0 where
  pub has_db : Bool
  pub has_next_id_seq : Bool
  pub ref_count : ℕ
  pub releases : ℕ
  pub db_closes : ℕ

unfoldable pub close_db : Option IssuerError → BadgerIssuer → BadgerIssuer × Option IssuerError
close_db result iss = if not iss.has_db then (iss, none) else (
  record iss {
    has_db = false;
    has_next_id_seq = false;
    releases = if iss.has_next_id_seq then iss.releases + 1 else iss.releases;
    db_closes = iss.db_closes + 1;
  },
  result,
)

unfoldable pub close : Option IssuerError → BadgerIssuer → BadgerIssuer × Option IssuerError
unfolding close_db
close result iss =
    let new_ref_count = sub_int32 iss.ref_count 1 in
    let counted = record iss { ref_count = new_ref_count } in
    if is_negative (int_of_int32 new_ref_count)
    then (counted, some issuer_not_open)
    else (if gt_int64 (int_of_int32 new_ref_count) 0
        then (counted, none)
        else close_db result counted)

-- AddRef panics, `none`, on an issuer that had no reference.
unfoldable pub add_ref : BadgerIssuer → Option BadgerIssuer
add_ref iss =
    let new_ref_count = (iss.ref_count + 1) % 2 ^ 32 in
    if gt_int64 (int_of_int32 new_ref_count) 1
    then some (record iss { ref_count = new_ref_count })
    else none

-- NewBadgerIssuer over a database, after `n - 1` further AddRef.
abbrev pub open_issuer : ℕ → BadgerIssuer
open_issuer n = record {
  has_db = true;
  has_next_id_seq = true;
  ref_count = n;
  releases = 0;
  db_closes = 0;
}

abbrev pub closed_issuer : BadgerIssuer
closed_issuer = record {
  has_db = false;
  has_next_id_seq = false;
  ref_count = 0;
  releases = 1;
  db_closes = 1;
}

-- `k` calls of Close.
abbrev pub close_times : ℕ → BadgerIssuer → BadgerIssuer
close_times zero iss = iss
close_times (suc k) iss = close_times k (close none iss).0

pub add_ref-open :
    (n : ℕ) → 0 < n → n < 2 ^ 31 - 1 → add_ref (open_issuer n) ≡ some (open_issuer (n + 1))
unfolding add_ref
add_ref-open n h k =
    let sum : (n + 1) % 2 ^ 32 ≡ n + 1 = omega arith in
    let go : ℕ → Option BadgerIssuer =
      λ r. if gt_int64 (int_of_int32 r) 1 then some (open_issuer r) else none in
    let above : gt_int64 (int_of_int32 (n + 1)) 1 ≡ true = ground arith in
    ap go sum ∙ if_true _ _ above

pub close-shared :
    (n : ℕ) → 0 < n → n < 2 ^ 31 - 1 → close none (open_issuer (suc n)) ≡ (open_issuer n, none)
unfolding close
close-shared n h k =
    let back : sub_int32 (suc n) 1 ≡ n = omega arith in
    let go : ℕ → BadgerIssuer × Option IssuerError = λ r.
      if is_negative (int_of_int32 r)
      then (open_issuer r, some issuer_not_open)
      else (if gt_int64 (int_of_int32 r) 0
          then (open_issuer r, none)
          else close_db none (open_issuer r)) in
    let not_below : is_negative (int_of_int32 n) ≡ false = ground arith in
    let above : gt_int64 (int_of_int32 n) 0 ≡ true = ground arith in
    ap go back ∙ if_false _ _ not_below ∙ if_true _ _ above

-- Close, called once for each of the references of an issuer (fewer than 2^31), closes the database
-- and releases the sequence at the last call and at no call before it.
pub close_times-open :
    (k n : ℕ)
    → 0 < n
    → n < 2 ^ 31
    → k ≤ n
    → close_times k (open_issuer n) ≡ (if k == n then closed_issuer else open_issuer (n - k))
unfolding close
close_times-open k zero h b c = absurd (omega arith)
close_times-open zero (suc n) h b k = ground arith
close_times-open (suc zero) (suc zero) h b c = refl
close_times-open (suc (suc k)) (suc zero) h b c = absurd (omega arith)
close_times-open (suc k) (suc (suc n)) h b c =
    ap (λ p. close_times k p.0) (close-shared (suc n) (omega arith) (omega arith))
    ∙ close_times-open k (suc n) (omega arith) (omega arith) (omega arith)
    ∙ ground arith
