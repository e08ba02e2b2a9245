-- ===== src/Ski/Keyring.antt =====
-- ski/ski.support.go: the operations of a Keyring. A method returns the new Keyring, and the new
-- source Keyring where it takes one; the two are not the same object. A slice is its elements, so
-- what Go leaves behind the end of a shortened slice is not kept.
pub mod Lookup
pub mod Newest
pub mod Dupes
pub mod Merge
use mathlib.Core.Option
use amp_host_go.Base.{
  ℕ, zero, suc, ◌+◌, ◌-◌, Bool, true, false, Option, none, some, List, [], ◌∷◌, ◌++◌, map, ltb,
  ◌==◌, ◌||◌, not, if◌then◌else◌, length, get_elem?, set, take,
}
use amp_host_go.Base.Words.{gt_int64, ge_int64}
use amp_host_go.Base.Bytes.{Bytes, below_bytes, equal_bytes, has_prefix}
use amp_host_go.Base.Sort.{sort}
use amp_host_go.Base.Search.{locate}
use amp_host_go.Ski.Key.{KeyEntry, compare_key_entry, less_by_newest_pub_key}
use amp_host_go.Ski.Key

pub record Keyring : Type 0 where
  pub name : Bytes
  pub keys : List KeyEntry
  pub sorted_by_pub_key : Bool
  pub newest_pub_key : Bytes

abbrev pub min_pub_key_prefix_sz : ℕ
min_pub_key_prefix_sz = 16

-- The emptied Keyring, and the entries as whoever shares them finds them afterwards.
unfoldable pub zero_out : Keyring → Keyring × List KeyEntry
zero_out kr = (record kr { keys = []; newest_pub_key = [] }, map Key.zero_out kr.keys)

unfoldable pub resort : Keyring → Keyring
resort kr = record kr { keys = sort less_by_newest_pub_key kr.keys; sorted_by_pub_key = true }

abbrev pub has_pub_key : Bytes → KeyEntry → Bool
has_pub_key pub_key e = equal_bytes e.pub_key pub_key

abbrev pub has_pub_key_prefix : Bytes → KeyEntry → Bool
has_pub_key_prefix prefix e = has_prefix e.pub_key prefix

abbrev pub pub_key_below : Bytes → KeyEntry → Bool
pub_key_below pub_key e = below_bytes e.pub_key pub_key

unfoldable pub fetch_key_with_prefix : Keyring → Bytes → Option KeyEntry
fetch_key_with_prefix kr prefix =
    Option.map (λ r. r.1)
      (locate kr.sorted_by_pub_key (pub_key_below prefix) (has_pub_key_prefix prefix) kr.keys)

unfoldable pub fetch_key : Keyring → Bytes → Option KeyEntry
fetch_key kr pub_key =
    Option.map (λ r. r.1)
      (locate kr.sorted_by_pub_key (pub_key_below pub_key) (has_pub_key pub_key) kr.keys)

unfoldable pub newest_loop : Option KeyEntry → List KeyEntry → Option KeyEntry
newest_loop newest [] = newest
newest_loop none (key ∷ keys) = newest_loop (some key) keys
newest_loop (some newest) (key ∷ keys) =
    newest_loop (some (if gt_int64 key.time_created newest.time_created then key else newest)) keys

unfoldable pub fetch_newest_key : Keyring → Option KeyEntry
unfolding newest_loop
fetch_newest_key kr =
    if ltb 0 (length kr.keys)
    then (if ltb 0 (length kr.newest_pub_key)
        then fetch_key kr kr.newest_pub_key
        else newest_loop none kr.keys)
    else none

abbrev pub pub_key_of : Option KeyEntry → Bytes
pub_key_of none = []
pub_key_of (some e) = e.pub_key

unfoldable pub optimize : Keyring → Keyring
optimize kr =
    let sorted = record (resort kr) { newest_pub_key = [] } in
    record sorted { newest_pub_key = pub_key_of (fetch_newest_key sorted) }

-- `keys[i]`. Go panics out of range; every index below is in range.
abbrev pub entry_at : List KeyEntry → ℕ → KeyEntry
entry_at [] i = record {
  key_info = record { key_type = 0; crypto_kit_id = 0; time_created = 0; pub_key = [] };
  priv_key = [];
}
entry_at (e ∷ keys) zero = e
entry_at (e ∷ keys) (suc i) = entry_at keys i

-- The loop of DropDupes over the rounds left, with `i`, `dupes` and the slice.
unfoldable pub dupes_loop : ℕ → ℕ → ℕ → List KeyEntry → ℕ × List KeyEntry
dupes_loop zero i dupes keys = (dupes, keys)
dupes_loop (suc k) i dupes keys =
    let same = compare_key_entry (entry_at keys (i - 1)) (entry_at keys i) == 0 in
    let moved = if ltb 0 dupes then set keys (i - dupes) (entry_at keys i) else keys in
    dupes_loop k (i + 1) (if same then dupes + 1 else dupes) (if same then keys else moved)

unfoldable pub drop_dupes : Keyring → Keyring × ℕ
unfolding dupes_loop
drop_dupes kr =
    let kr' = if kr.sorted_by_pub_key then kr else resort kr in
    let n = length kr'.keys in
    let (dupes, keys) = dupes_loop (n - 1) 1 0 kr'.keys in
    (
      (if ltb 0 dupes
          then record kr' { keys = take (n - dupes) keys }
          else record kr' { keys = keys }),
      dupes,
    )

-- The variables of the loop of MergeKeys but `i`.
pub record MergeState : Type 0 where
  pub keys_to_add : ℕ
  pub src_keys : List KeyEntry
  pub problems : List KeyEntry
  pub newest : Option KeyEntry

-- The entry is not a duplicate of its match, or its pub key is too short.
unfoldable pub is_problem : KeyEntry → KeyEntry → Bool
is_problem found entry =
    not (compare_key_entry found entry == 0) || ltb (length entry.pub_key) min_pub_key_prefix_sz

abbrev pub newer : Option KeyEntry → KeyEntry → Option KeyEntry
newer none entry = some entry
newer (some newest) entry =
    if ge_int64 entry.time_created newest.time_created then some entry else some newest

-- A matched entry is taken out: the last one to add is moved over it.
unfoldable pub take_out : ℕ → KeyEntry → MergeState → MergeState
unfolding is_problem
take_out i found s =
    let entry = entry_at s.src_keys i in
    record s {
      problems = if is_problem found entry then s.problems ++ entry ∷ [] else s.problems;
      keys_to_add = s.keys_to_add - 1;
      src_keys = set s.src_keys i (entry_at s.src_keys (s.keys_to_add - 1));
    }

-- Fuel: each round lowers `keys_to_add - i`, so the length of the source slice is enough.
unfoldable pub merge_loop : Keyring → ℕ → ℕ → MergeState → MergeState
merge_loop kr zero i s = s
merge_loop kr (suc k) i s =
    let entry = entry_at s.src_keys i in
    let matched = fetch_key kr entry.pub_key in
    let next =
      merge_loop kr k (elim matched [ none ↦ i + 1 | some _ ↦ i ])
        (elim matched [
          | none ↦ record s { newest = newer s.newest entry }
          | some found ↦ take_out i found s
        ]) in
    if ltb i s.keys_to_add then next else s

-- The merged Keyring and the source Keyring with what could not be merged.
unfoldable pub merge_keys : Keyring → Keyring → Keyring × Keyring
unfolding merge_loop
merge_keys kr src =
    let src' = (drop_dupes src).0 in
    let s = merge_loop kr (length src'.keys) 0 (record {
      keys_to_add = length src'.keys;
      src_keys = src'.keys;
      problems = [];
      newest = fetch_newest_key kr;
    }) in
    let kr' = record kr { newest_pub_key = pub_key_of s.newest } in
    let grown = record kr' { keys = kr.keys ++ take s.keys_to_add s.src_keys } in
    (
      (if ltb 0 s.keys_to_add then resort grown else kr'),
      optimize (record src' { keys = s.problems }),
    )
