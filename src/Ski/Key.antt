-- ===== src/Ski/Key.antt =====
-- ski/ski.support.go: key entries and their order. Enumeration fields are int32 patterns and
-- TimeCreated is an int64 pattern; a pointer to a KeyInfo is taken to be set.
pub mod Order
use amp_host_go.Base.{
  ℕ, ◌^◌, ◌<◌, ◌≡◌, Bool, List, true, false, ◌&&◌, ◌||◌, not, replicate, length, ◌==◌,
  if◌then◌else◌,
}
use amp_host_go.Base.Words.{sub_int64, sub_int32, int_of_int32, is_negative, gt_int64}
use amp_host_go.Base.Bytes.{Bytes, compare_bytes, equal_bytes}

pub record KeyInfo : Type 0 where
  pub key_type : ℕ
  pub crypto_kit_id : ℕ
  pub time_created : ℕ
  pub pub_key : Bytes

pub record KeyEntry : Type 0 where
  pub key_info : KeyInfo
  pub open key_info use *
  pub priv_key : Bytes

-- Each difference is an int, and the first that is not 0 is returned.
unfoldable pub compare_key_info : KeyInfo → KeyInfo → ℕ
compare_key_info a b =
    let diff = compare_bytes a.pub_key b.pub_key in
    let newer = sub_int64 b.time_created a.time_created in
    let types = int_of_int32 (sub_int32 a.key_type b.key_type) in
    let kits = int_of_int32 (sub_int32 a.crypto_kit_id b.crypto_kit_id) in
    if diff == 0 then (if newer == 0 then (if types == 0 then kits else types) else newer) else diff

unfoldable pub compare_key_entry : KeyEntry → KeyEntry → ℕ
unfolding compare_key_info
compare_key_entry a b =
    let diff = compare_key_info a.key_info b.key_info in
    if diff == 0 then compare_bytes a.priv_key b.priv_key else diff

-- ByNewestPubKey.Less.
unfoldable pub less_by_newest_pub_key : KeyEntry → KeyEntry → Bool
less_by_newest_pub_key a b = is_negative (compare_key_entry a b)

-- ByNewestKey.Less.
unfoldable pub less_by_newest_key : KeyEntry → KeyEntry → Bool
less_by_newest_key a b = gt_int64 a.time_created b.time_created

-- KeyEntry.EqualTo. Both `a` and `b` are the receiver's KeyInfo in the source.
unfoldable pub equal_to : KeyEntry → KeyEntry → Bool
equal_to entry other =
    let a = entry.key_info in
    let b = entry.key_info in
    not (a.key_type == b.key_type)
    || not (a.crypto_kit_id == b.crypto_kit_id)
    || not (a.time_created == b.time_created)
    || not (equal_bytes a.pub_key b.pub_key)
    || not (equal_bytes entry.priv_key other.priv_key)

-- KeyEntry.ZeroOut and Zero: a loop that writes 0 at each index.
unfoldable pub zero_buf : Bytes → Bytes
zero_buf buf = replicate (length buf) 0

unfoldable pub zero_out : KeyEntry → KeyEntry
unfolding zero_buf
zero_out entry = record entry { priv_key = zero_buf entry.priv_key }

-- The fields hold patterns of their Go types.
pub record IsInRange (e : KeyEntry) : Type 0 where
  pub time : e.time_created < 2 ^ 64
  pub type : e.key_type < 2 ^ 32
  pub kit : e.crypto_kit_id < 2 ^ 32

-- The times and enumeration values are not negative.
pub record IsDated (e : KeyEntry) : Type 0 where
  pub time : e.time_created < 2 ^ 63
  pub type : e.key_type < 2 ^ 31
  pub kit : e.crypto_kit_id < 2 ^ 31
