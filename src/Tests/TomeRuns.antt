-- ===== src/Tests/TomeRuns.antt =====
-- Tomes of small Keyrings and a registry of kits: runs of the operations, and the theorems of
-- Ski.Tome and Ski.Kits at them.
use amp_host_go.Base.{
  ℕ, ◌≡◌, refl, true, false, Option, none, some, List, [], ◌∷◌, length, if◌then◌else◌, ◌&&◌, any,
  map,
}
use amp_host_go.Base.Bytes.{Bytes, compare_bytes}
use amp_host_go.Base.Sort.{sort}
use amp_host_go.Base.Search.{binary_search, locate}
use amp_host_go.Ski.Key.{KeyEntry}
use amp_host_go.Ski.Keyring.{Keyring, fetch_key, drop_dupes, fetch_newest_key}
use amp_host_go.Ski.Keyring
use mathlib.Core.Bool.{true≢false}
use amp_host_go.Base.{sym}
use amp_host_go.Ski.Tome.Merging.Outcome.{IsTomeMerged, merge_tome-IsTomeMerged}
use amp_host_go.Ski.Tome.{KeyTome, find_keyring, export_using_guide, merge_tome}
use amp_host_go.Ski.Tome.Export.{is_missing, exported_tome, export_using_guide-answers}

abbrev entry : ℕ → ℕ → KeyEntry
entry time pub_key = record {
  key_info = record {
    key_type = 3;
    crypto_kit_id = 1;
    time_created = time;
    pub_key = pub_key ∷ [];
  };
  priv_key = 9 ∷ [];
}

abbrev ring : ℕ → List KeyEntry → Keyring
ring name keys = record {
  name = name ∷ [];
  keys = keys;
  sorted_by_pub_key = false;
  newest_pub_key = [];
}

abbrev two_rings : KeyTome
two_rings = record {
  rev = 1;
  keyrings = ring 2 (entry 5 1 ∷ []) ∷ ring 1 (entry 6 1 ∷ entry 7 2 ∷ []) ∷ [];
  sorted_by_name = false;
}

abbrev guide : KeyTome
guide = record {
  rev = 0;
  keyrings = ring 1 (entry 0 2 ∷ []) ∷ ring 2 [] ∷ [];
  sorted_by_name = false;
}

-- The revision stands for what Marshal writes.
abbrev marshal : KeyTome → Option Bytes
marshal tome = some (tome.rev ∷ length tome.keyrings ∷ [])

abbrev twice : KeyTome
twice = record {
  rev = 0;
  keyrings = ring 3 (entry 1 1 ∷ []) ∷ ring 3 (entry 2 2 ∷ []) ∷ [];
  sorted_by_name = false;
}

-- A source with two Keyrings of one new name: both are added.
merge_tome-twice :
    map (λ kr. kr.name) (merge_tome two_rings twice).0.keyrings
    ≡ (1 ∷ []) ∷ (2 ∷ []) ∷ (3 ∷ []) ∷ (3 ∷ []) ∷ []
unfolding merge_tome find_keyring locate binary_search sort compare_bytes Keyring.optimize
    Keyring.resort
merge_tome-twice = refl

export_using_guide-answers_example : export_using_guide marshal two_rings guide true ≡ (
    if true && any (is_missing two_rings) guide.keyrings
    then none
    else marshal (exported_tome two_rings guide))
export_using_guide-answers_example = export_using_guide-answers marshal two_rings guide true

merge_tome-IsTomeMerged_example : IsTomeMerged two_rings twice (merge_tome two_rings twice)
merge_tome-IsTomeMerged_example =
    merge_tome-IsTomeMerged two_rings twice (λ h. absurd (true≢false (sym h)))
