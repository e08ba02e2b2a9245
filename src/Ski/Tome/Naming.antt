-- ===== src/Ski/Tome/Naming.antt =====
-- Finding a Keyring by its name, and the order that this relies on.
use mathlib.Core.Option
use amp_host_go.Base.{◌≡◌, ap, true, false, List, [], ◌∷◌, All, Ordered, Ordered-map, Perm}
use amp_host_go.Base.Bytes.{
  Bytes, below_bytes_asym, below_bytes_weak_trans, equal_bytes_below, equal_bytes_above,
}
use amp_host_go.Base.Sort.{sort-perm, sort-Ordered, IsWeakOrder}
use amp_host_go.Base.Search.{find_first, locate-find_first, IsSearchable}
use amp_host_go.Ski.Keyring.{Keyring}
use amp_host_go.Ski.Tome.{KeyTome, less_by_name, has_name, name_below, fetch_keyring, optimize}

-- A later Keyring has no smaller name.
abbrev pub IsNamed : List Keyring → Type 0
IsNamed = Ordered (λ a b. less_by_name b a ≡ false)

pub IsSearchable-has_name :
    (t : Bytes) (krs : List Keyring) → IsNamed krs → IsSearchable (name_below t) (has_name t) krs
IsSearchable-has_name t krs o = record {
  misses = λ x b. equal_bytes_below x.name t b;
  rises = Ordered-map _ _ krs (λ x y h b. below_bytes_weak_trans t x.name y.name b h) o;
  ends = Ordered-map _ _ krs (λ x y h b f. equal_bytes_above x.name y.name t b f h) o;
}

-- FetchKeyring returns the first Keyring of the name, by binary search where the flag is set and by
-- a scan where it is not, provided that a flagged tome is sorted by name.
pub fetch_keyring-find_first :
    (tome : KeyTome) (name : Bytes)
    → (tome.sorted_by_name ≡ true → IsNamed tome.keyrings)
    → fetch_keyring tome name ≡ Option.map (λ r. r.1) (find_first (has_name name) 0 tome.keyrings)
unfolding fetch_keyring
fetch_keyring-find_first tome name f = ap (Option.map (λ r. r.1)) (
    locate-find_first (name_below name) (has_name name) tome.sorted_by_name tome.keyrings
      (λ s. IsSearchable-has_name name tome.keyrings (f s)))

less_by_name-IsWeakOrder : IsWeakOrder less_by_name (λ kr. Unit {0})
less_by_name-IsWeakOrder = record {
  asym = λ a b p q h. below_bytes_asym a.name b.name h;
  trans = λ a b c p q r h k. below_bytes_weak_trans a.name b.name c.name h k;
}

All-unit : (krs : List Keyring) → All (λ kr. Unit {0}) krs
All-unit [] = tt
All-unit (kr ∷ krs) = (tt, All-unit krs)

-- Optimize of any tome sorts its Keyrings by name and keeps them all, so that FetchKeyring finds by
-- binary search the first Keyring of a name in that order.
pub optimize-IsNamed :
    (tome : KeyTome)
    → IsNamed (optimize tome).keyrings × Perm (optimize tome).keyrings tome.keyrings
unfolding optimize
optimize-IsNamed tome = (
  sort-Ordered less_by_name (λ kr. Unit {0}) less_by_name-IsWeakOrder tome.keyrings
      (All-unit tome.keyrings),
  sort-perm less_by_name tome.keyrings,
)
