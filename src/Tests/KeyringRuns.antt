-- ===== src/Tests/KeyringRuns.antt =====
-- Keyrings of small entries: runs of the operations, and the theorems of Ski at them.
use mathlib.Core.Option
use amp_host_go.Base.{
  ℕ, ◌≡◌, ◌↔◌, ◌⊎◌, refl, true, false, none, some, List, [], ◌∷◌, Perm, arith, In,
}
use amp_host_go.Base.Bytes.{Bytes, compare_bytes, equal_bytes}
use amp_host_go.Base.Sort.{sort}
use amp_host_go.Base.Search.{find_first, locate, binary_search}
use amp_host_go.Ski.Key.{KeyEntry, compare_key_entry, less_by_newest_pub_key}
use amp_host_go.Ski.Keyring.{
  Keyring, has_pub_key, fetch_key, fetch_newest_key, drop_dupes, optimize, resort, merge_keys,
  take_out,
}
use amp_host_go.Ski.Keyring.Lookup.{IsNewest, fetch_key-find_first}
use amp_host_go.Ski.Keyring.Newest.{
  HasNewest, IsOptimized, fetch_newest_key_correct, optimize-IsOptimized,
}
use amp_host_go.Ski.Keyring.Dupes.Distinct.{IsDistinct, sorted_first, drop_dupes_correct}
use amp_host_go.Ski.Keyring.Merge.Outcome.{IsMerged, merge_keys_correct}

abbrev entry : Bytes → ℕ → Bytes → KeyEntry
entry pub_key time priv_key = record {
  key_info = record { key_type = 3; crypto_kit_id = 1; time_created = time; pub_key = pub_key };
  priv_key = priv_key;
}

abbrev keyring : List KeyEntry → Keyring
keyring keys = record { name = 7 ∷ []; keys = keys; sorted_by_pub_key = false; newest_pub_key = [] }

abbrev old_key : KeyEntry
old_key = entry (2 ∷ 5 ∷ []) 10 (1 ∷ [])

abbrev new_key : KeyEntry
new_key = entry (1 ∷ 9 ∷ []) 20 (2 ∷ [])

abbrev twin_key : KeyEntry
twin_key = entry (3 ∷ []) 4 (8 ∷ [])

abbrev other_twin_key : KeyEntry
other_twin_key = entry (3 ∷ []) 3 (9 ∷ [])

abbrev two_keys : Keyring
two_keys = keyring (old_key ∷ new_key ∷ [])

abbrev two_keys_optimized : IsOptimized (optimize two_keys)
two_keys_optimized = (optimize-IsOptimized two_keys (omega arith)).0

optimize_run : optimize two_keys ≡ record two_keys {
  keys = new_key ∷ old_key ∷ [];
  sorted_by_pub_key = true;
  newest_pub_key = 1 ∷ 9 ∷ [];
}
unfolding optimize resort sort less_by_newest_pub_key compare_key_entry compare_bytes
    fetch_newest_key
optimize_run = refl

drop_dupes_run :
    drop_dupes (keyring (old_key ∷ new_key ∷ old_key ∷ []))
    ≡ (record two_keys { keys = new_key ∷ old_key ∷ []; sorted_by_pub_key = true }, 1)
unfolding drop_dupes resort sort less_by_newest_pub_key compare_key_entry compare_bytes
drop_dupes_run = refl

-- The second entry of the source is known already, and its short pub key keeps it in the source.
merge_keys_run :
    (merge_keys (optimize two_keys) (keyring (twin_key ∷ new_key ∷ []))).1.keys ≡ new_key ∷ []
unfolding merge_keys take_out drop_dupes optimize resort sort less_by_newest_pub_key
    compare_key_entry compare_bytes fetch_newest_key fetch_key locate binary_search equal_bytes
merge_keys_run = refl

fetch_key-find_first_example :
    fetch_key (optimize two_keys) (2 ∷ 5 ∷ [])
    ≡ Option.map (λ r. r.1) (find_first (has_pub_key (2 ∷ 5 ∷ [])) 0 (optimize two_keys).keys)
fetch_key-find_first_example =
    fetch_key-find_first (optimize two_keys) (2 ∷ 5 ∷ []) (λ _. two_keys_optimized.sorted)

fetch_newest_key_correct_example :
    (((optimize two_keys).keys ≡ []) × (fetch_newest_key (optimize two_keys) ≡ none))
    ⊎ ((m : KeyEntry) × (fetch_newest_key (optimize two_keys) ≡ some m)
        × IsNewest (optimize two_keys).keys m)
fetch_newest_key_correct_example = fetch_newest_key_correct (optimize two_keys) two_keys_optimized

optimize-IsOptimized_example :
    IsOptimized (optimize two_keys)
    × Perm (optimize two_keys).keys two_keys.keys
    × HasNewest (optimize two_keys).keys (optimize two_keys).newest_pub_key
optimize-IsOptimized_example = optimize-IsOptimized two_keys (omega arith)

drop_dupes_correct_example :
    IsDistinct (drop_dupes two_keys).0.keys
    × ((e : KeyEntry) → In e (drop_dupes two_keys).0.keys ↔ In e (sorted_first two_keys).keys)
    × Perm (sorted_first two_keys).keys two_keys.keys
drop_dupes_correct_example = drop_dupes_correct two_keys (omega arith) (λ h. cc)

abbrev twins : Keyring
twins = keyring (other_twin_key ∷ twin_key ∷ [])

merge_keys_correct_example :
    IsMerged (optimize two_keys) (drop_dupes twins).0.keys (merge_keys (optimize two_keys) twins)
merge_keys_correct_example =
    merge_keys_correct (optimize two_keys) twins two_keys_optimized (omega arith) (λ h. cc)
