-- ===== src/Ski/Key/Order.antt =====
-- The order of CompareKeyEntry.
use amp_host_go.Base.{
  suc, ◌+◌, ◌-◌, ◌^◌, ◌<◌, ◌≤◌, ◌≡◌, ◌↔◌, true, false, [], ◌∷◌, ◌++◌, map, arith, ◌==◌,
  if◌then◌else◌,
}
use amp_host_go.Base.Sort.{IsWeakOrder}
use amp_host_go.Base.Bytes.{
  Bytes, compare_bytes, equal_bytes_refl, equal_bytes-eq, compare_bytes_cases, compare_bytes_refl,
  compare_bytes-eq, below_bytes, below_bytes_asym, below_bytes_weak_trans, below_bytes_antisym,
  below_bytes_trans,
}
use amp_host_go.Ski.Key.{
  KeyEntry, compare_key_info, compare_key_entry, less_by_newest_key, less_by_newest_pub_key,
  equal_to, IsInRange, IsDated,
}

KeyInfo-eq :
    (a b : KeyEntry)
    → IsInRange a
    → IsInRange b
    → compare_key_info a.key_info b.key_info ≡ 0
    → a.key_info ≡ b.key_info
unfolding compare_key_info
KeyInfo-eq a b r s h = ground (arith, compare_bytes-eq a.pub_key b.pub_key)

compare_key_entry_refl : (a : KeyEntry) → compare_key_entry a a ≡ 0
unfolding compare_key_entry
compare_key_entry_refl a =
    ground (arith, compare_bytes_refl a.pub_key, compare_bytes_refl a.priv_key)

-- CompareKeyEntry returns 0 on two entries exactly when they are identical.
pub compare_key_entry-eq_iff :
    (a b : KeyEntry) → IsInRange a → IsInRange b → (compare_key_entry a b ≡ 0) ↔ (a ≡ b)
unfolding compare_key_entry
compare_key_entry-eq_iff a b r s = (identical, same)
  where
    identical : compare_key_entry a b ≡ 0 → a ≡ b
    identical h = ground (arith, KeyInfo-eq a b r s, compare_bytes-eq a.priv_key b.priv_key)

    same : a ≡ b → compare_key_entry a b ≡ 0
    same e = rw e (compare_key_entry_refl b)

-- A list whose lexicographic order is that of the dated entries.
code : KeyEntry → Bytes
code e =
    map suc e.pub_key ++ 0 ∷ (2 ^ 63 - e.time_created) ∷ e.key_type ∷ e.crypto_kit_id ∷ e.priv_key

compare_bytes-terminated :
    (p q r s : Bytes)
    → compare_bytes (map suc p ++ 0 ∷ r) (map suc q ++ 0 ∷ s)
      ≡ (if compare_bytes p q == 0 then compare_bytes r s else compare_bytes p q)
unfolding compare_bytes
compare_bytes-terminated [] [] r s = ground arith
compare_bytes-terminated [] (y ∷ q) r s = ground arith
compare_bytes-terminated (x ∷ p) [] r s = ground arith
compare_bytes-terminated (x ∷ p) (y ∷ q) r s = ground (arith, compare_bytes-terminated p q r s)

less_by_newest_pub_key-code :
    (a b : KeyEntry)
    → IsDated a
    → IsDated b
    → less_by_newest_pub_key a b ≡ below_bytes (code a) (code b)
unfolding less_by_newest_pub_key compare_key_entry compare_bytes code
less_by_newest_pub_key-code a b d e = ground (
  arith,
  compare_bytes-terminated a.pub_key b.pub_key
      ((2 ^ 63 - a.time_created) ∷ a.key_type ∷ a.crypto_kit_id ∷ a.priv_key)
      ((2 ^ 63 - b.time_created) ∷ b.key_type ∷ b.crypto_kit_id ∷ b.priv_key),
  compare_bytes_cases a.pub_key b.pub_key,
)

-- Dated entries neither of which is less than the other are identical.
pub less_by_newest_pub_key_antisym :
    (a b : KeyEntry)
    → IsDated a
    → IsDated b
    → less_by_newest_pub_key a b ≡ false
    → less_by_newest_pub_key b a ≡ false
    → compare_key_entry a b ≡ 0
unfolding compare_key_entry compare_bytes code
less_by_newest_pub_key_antisym a b d e h k =
    let same =
      below_bytes_antisym (code a) (code b) (rw (less_by_newest_pub_key-code a b d e) at h)
        (rw (less_by_newest_pub_key-code b a e d) at k) in
    ground (
      arith,
      same,
      compare_bytes-terminated a.pub_key b.pub_key
          ((2 ^ 63 - a.time_created) ∷ a.key_type ∷ a.crypto_kit_id ∷ a.priv_key)
          ((2 ^ 63 - b.time_created) ∷ b.key_type ∷ b.crypto_kit_id ∷ b.priv_key),
      compare_bytes_cases a.pub_key b.pub_key,
    )

pub less_by_newest_pub_key_trans :
    (a b c : KeyEntry)
    → IsDated a
    → IsDated b
    → IsDated c
    → less_by_newest_pub_key a b ≡ true
    → less_by_newest_pub_key b c ≡ true
    → less_by_newest_pub_key a c ≡ true
less_by_newest_pub_key_trans a b c p q r h k = rw (less_by_newest_pub_key-code a c p r) (
    below_bytes_trans (code a) (code b) (code c) (rw (less_by_newest_pub_key-code a b p q) at h)
      (rw (less_by_newest_pub_key-code b c q r) at k))

pub IsDated-IsInRange : (e : KeyEntry) → IsDated e → IsInRange e
IsDated-IsInRange e d = omega arith

-- On dated entries Less of ByNewestPubKey is a strict weak order.
pub less_by_newest_pub_key-IsWeakOrder : IsWeakOrder less_by_newest_pub_key IsDated
less_by_newest_pub_key-IsWeakOrder = record {
  asym = λ a b p q h.
      rw (less_by_newest_pub_key-code b a q p)
        (below_bytes_asym (code a) (code b) (rw (less_by_newest_pub_key-code a b p q) at h));
  trans = λ a b c p q r h k. rw (less_by_newest_pub_key-code c a r p) (
      below_bytes_weak_trans (code a) (code b) (code c)
        (rw (less_by_newest_pub_key-code b a q p) at h)
        (rw (less_by_newest_pub_key-code c b r q) at k));
}

-- EqualTo answers whether the private keys differ, and reads no other field.
pub equal_to_iff : (a b : KeyEntry) → (equal_to a b ≡ true) ↔ ¬ (a.priv_key ≡ b.priv_key)
unfolding equal_to
equal_to_iff a b = ground (
  arith,
  equal_bytes_refl a.pub_key,
  equal_bytes-eq a.priv_key b.priv_key,
  equal_bytes_refl b.priv_key,
)

-- Of two entries of one pub key, the first dated before 1970 and the second at least 2^63 after
-- it, the second is the newer by ByNewestKey, and still ByNewestPubKey puts the first before it.
pub less_by_newest_pub_key_wraps :
    (a b : KeyEntry)
    → a.pub_key ≡ b.pub_key
    → 2 ^ 63 ≤ a.time_created
    → a.time_created < 2 ^ 64
    → b.time_created < 2 ^ 63
    → a.time_created ≤ b.time_created + 2 ^ 63
    → (less_by_newest_key b a ≡ true) × (less_by_newest_pub_key a b ≡ true)
unfolding less_by_newest_key less_by_newest_pub_key compare_key_entry
less_by_newest_pub_key_wraps a b e h k l m = rw e (ground (arith, compare_bytes_refl b.pub_key))
