-- ===== src/Ski/Keyring/Lookup.antt =====
-- FetchKey, FetchKeyWithPrefix and FetchNewestKey, and the order that they rely on.
use mathlib.Core.Option
use mathlib.Core.Path.{subst}
use amp_host_go.Base.{
  ◌≡◌, refl, ap, sym, ◌∙◌, true, false, some, List, [], ◌∷◌, inl, inr, arith, Bool-cases, All,
  Ordered, Ordered-map, In,
}
use amp_host_go.Base.Words.{gt_int64}
use amp_host_go.Base.Bytes.{
  Bytes, below_bytes, compare_bytes_cases, below_bytes_weak_trans, equal_bytes_below,
  equal_bytes_above, has_prefix_below, has_prefix_above,
}
use amp_host_go.Base.Search.{find_first, locate-find_first, IsSearchable}
use amp_host_go.Ski.Key.{KeyEntry, compare_key_entry, less_by_newest_pub_key}
use amp_host_go.Ski.Keyring.{
  Keyring, has_pub_key, has_pub_key_prefix, pub_key_below, fetch_key, fetch_key_with_prefix,
  fetch_newest_key, newest_loop,
}

-- A later entry is not less than an earlier one.
abbrev pub IsSorted : List KeyEntry → Type 0
IsSorted = Ordered (λ a b. less_by_newest_pub_key b a ≡ false)

-- The flag tells the truth.
abbrev pub IsFlagged : Keyring → Type 0
IsFlagged kr = kr.sorted_by_pub_key ≡ true → IsSorted kr.keys

sorted_pub_keys :
    (x y : KeyEntry) → less_by_newest_pub_key y x ≡ false → below_bytes y.pub_key x.pub_key ≡ false
unfolding less_by_newest_pub_key compare_key_entry
sorted_pub_keys x y h = ground (arith, compare_bytes_cases y.pub_key x.pub_key)

pub IsSearchable-has_pub_key :
    (t : Bytes) (keys : List KeyEntry)
    → IsSorted keys
    → IsSearchable (pub_key_below t) (has_pub_key t) keys
IsSearchable-has_pub_key t keys o = record {
  misses = λ x b. equal_bytes_below x.pub_key t b;
  rises =
      Ordered-map _ _ keys
        (λ x y h b. below_bytes_weak_trans t x.pub_key y.pub_key b (sorted_pub_keys x y h)) o;
  ends =
      Ordered-map _ _ keys
        (λ x y h b f. equal_bytes_above x.pub_key y.pub_key t b f (sorted_pub_keys x y h)) o;
}

pub IsSearchable-has_pub_key_prefix :
    (t : Bytes) (keys : List KeyEntry)
    → IsSorted keys
    → IsSearchable (pub_key_below t) (has_pub_key_prefix t) keys
IsSearchable-has_pub_key_prefix t keys o = record {
  misses = λ x b. has_prefix_below x.pub_key t b;
  rises =
      Ordered-map _ _ keys
        (λ x y h b. below_bytes_weak_trans t x.pub_key y.pub_key b (sorted_pub_keys x y h)) o;
  ends =
      Ordered-map _ _ keys
        (λ x y h b f. has_prefix_above x.pub_key y.pub_key t b f (sorted_pub_keys x y h)) o;
}

-- FetchKey returns the first entry with the pub key, by binary search where the flag is set and by
-- a scan where it is not, provided that a flagged Keyring is sorted.
pub fetch_key-find_first :
    (kr : Keyring) (t : Bytes)
    → IsFlagged kr
    → fetch_key kr t ≡ Option.map (λ r. r.1) (find_first (has_pub_key t) 0 kr.keys)
unfolding fetch_key
fetch_key-find_first kr t f = ap (Option.map (λ r. r.1)) (
    locate-find_first (pub_key_below t) (has_pub_key t) kr.sorted_by_pub_key kr.keys
      (λ s. IsSearchable-has_pub_key t kr.keys (f s)))

-- FetchKeyWithPrefix returns the first entry whose pub key has the prefix, in both modes,
-- provided that a flagged Keyring is sorted.
pub fetch_key_with_prefix-find_first :
    (kr : Keyring) (t : Bytes)
    → IsFlagged kr
    → fetch_key_with_prefix kr t
      ≡ Option.map (λ r. r.1) (find_first (has_pub_key_prefix t) 0 kr.keys)
unfolding fetch_key_with_prefix
fetch_key_with_prefix-find_first kr t f = ap (Option.map (λ r. r.1)) (
    locate-find_first (pub_key_below t) (has_pub_key_prefix t) kr.sorted_by_pub_key kr.keys
      (λ s. IsSearchable-has_pub_key_prefix t kr.keys (f s)))

-- The entry is in the list, and none in the list is newer.
pub record IsNewest (keys : List KeyEntry) (m : KeyEntry) : Type 0 where
  pub member : In m keys
  pub latest : All (λ e. gt_int64 e.time_created m.time_created ≡ false) keys

newest_loop-some :
    (e : KeyEntry) (keys : List KeyEntry)
    → (m : KeyEntry) × (newest_loop (some e) keys ≡ some m) × IsNewest (e ∷ keys) m
unfolding newest_loop
newest_loop-some e [] = (e, refl, record { member = inl refl; latest = ground arith })
newest_loop-some e (k ∷ keys) = elim (Bool-cases (gt_int64 k.time_created e.time_created)) [
  | inl t ↦
      let (m, eq, n) = newest_loop-some k keys in
      (
        m,
        rw t eq,
        record { member = inr n.member; latest = (ground (arith, n.latest.0), n.latest) },
      )
  | inr f ↦
      let (m, eq, n) = newest_loop-some e keys in
      (
        m,
        rw f eq,
        record {
          member = elim n.member [ inl s ↦ inl s | inr i ↦ inr (inr i) ];
          latest = (n.latest.0, (ground (arith, n.latest.0), n.latest.1));
        },
      )
]

fetch_newest_key_unset :
    (kr : Keyring) (k : KeyEntry) (keys : List KeyEntry)
    → kr.newest_pub_key ≡ []
    → kr.keys ≡ k ∷ keys
    → fetch_newest_key kr ≡ newest_loop (some k) keys
unfolding fetch_newest_key
fetch_newest_key_unset kr k keys u e = ground arith

-- FetchNewestKey finds a newest entry of a non-empty Keyring whose NewestPubKey is not set.
pub fetch_newest_key-IsNewest :
    (kr : Keyring) (k : KeyEntry) (keys : List KeyEntry)
    → kr.newest_pub_key ≡ []
    → kr.keys ≡ k ∷ keys
    → (m : KeyEntry) × (fetch_newest_key kr ≡ some m) × IsNewest kr.keys m
fetch_newest_key-IsNewest kr k keys u e =
    let (m, eq, n) = newest_loop-some k keys in
    (m, fetch_newest_key_unset kr k keys u e ∙ eq, subst (λ l. IsNewest l m) (sym e) n)
