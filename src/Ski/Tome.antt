-- ===== src/Ski/Tome.antt =====
-- ski/ski.support.go: a KeyTome, the Keyrings of one owner by name, and KeyTomeMgr, which holds one.
-- A Keyring that FetchKeyring returns is the tome's own, so what is done to it is written back at
-- its place; the Keyrings of a source tome are not those of the target. KeyTomeMgr's mutex is left
-- out: its methods are the tome's.
pub mod Names
pub mod Merging
pub mod Naming
pub mod Export
use mathlib.Core.Option
use amp_host_go.Base.{
  ℕ, zero, suc, ◌+◌, ◌-◌, ◌%◌, ◌^◌, Bool, true, false, Option, none, some, List, [], ◌∷◌, ◌++◌, map,
  ltb, ◌==◌, if◌then◌else◌, length, get_elem?, set, take,
}
use amp_host_go.Base.Bytes.{Bytes, below_bytes, equal_bytes}
use amp_host_go.Base.Sort.{sort}
use amp_host_go.Base.Search.{locate}
use amp_host_go.Ski.Key.{KeyEntry}
use amp_host_go.Ski.Keyring.{
  Keyring, fetch_key, fetch_key_with_prefix, fetch_newest_key, merge_keys,
}
use amp_host_go.Ski.Keyring

pub record KeyTome : Type 0 where
  pub rev : ℕ
  pub keyrings : List Keyring
  pub sorted_by_name : Bool

-- ByKeyringName.Less.
abbrev pub less_by_name : Keyring → Keyring → Bool
less_by_name a b = below_bytes a.name b.name

abbrev pub has_name : Bytes → Keyring → Bool
has_name name kr = equal_bytes kr.name name

abbrev pub name_below : Bytes → Keyring → Bool
name_below name kr = below_bytes kr.name name

unfoldable pub find_keyring : KeyTome → Bytes → Option (ℕ × Keyring)
find_keyring tome name = locate tome.sorted_by_name (name_below name) (has_name name) tome.keyrings

unfoldable pub fetch_keyring : KeyTome → Bytes → Option Keyring
unfolding find_keyring
fetch_keyring tome name = Option.map (λ r. r.1) (find_keyring tome name)

unfoldable pub optimize : KeyTome → KeyTome
optimize tome = record tome { keyrings = sort less_by_name tome.keyrings; sorted_by_name = true }

unfoldable pub zero_out : KeyTome → KeyTome
zero_out tome = record tome { keyrings = map (λ kr. (Keyring.zero_out kr).0) tome.keyrings }

-- KeyTomeMgr.Clear.
unfoldable pub clear : KeyTome → KeyTome
clear tome = record tome { keyrings = map (λ kr. (Keyring.zero_out kr).0) tome.keyrings }

-- KeyTomeMgr.Unmarshal: the generated Unmarshal, a parameter, reads into the tome that it is given,
-- and says whether there was no error.
unfoldable pub unmarshal : (Bytes → KeyTome → KeyTome × Bool) → Bytes → KeyTome → KeyTome × Bool
unfolding clear
unmarshal decode buf tome = decode buf (clear tome)

-- KeyTomeMgr.FetchKey; `none` is the error that nothing was found.
unfoldable pub fetch_key_of : KeyTome → Bytes → Bytes → Option KeyEntry
unfolding fetch_keyring
fetch_key_of tome keyring_name pub_key_prefix = elim (fetch_keyring tome keyring_name) [
  | none ↦ none
  | some kr ↦
      if length kr.keys == 0
      then none
      else (if length pub_key_prefix == 0
          then fetch_newest_key kr
          else fetch_key_with_prefix kr pub_key_prefix)
]

-- The keys of a guide's Keyring; `strict` is ErrorOnKeyNotFound, and `none` that error.
unfoldable pub export_keys : Bool → Keyring → List KeyEntry → Option (List KeyEntry)
export_keys strict src [] = some []
export_keys strict src (entry ∷ rest) =
    let exported = export_keys strict src rest in
    elim (fetch_key src entry.pub_key) [
      | none ↦ if strict then none else exported
      | some found ↦ Option.map (λ keys. found ∷ keys) exported
    ]

-- An empty guide exports the whole Keyring.
unfoldable pub export_keyring : Bool → Keyring → Keyring → Option Keyring
unfolding export_keys
export_keyring strict src guide =
    if length guide.keys == 0
    then some src
    else Option.map
        (λ keys. record {
          name = src.name;
          keys = keys;
          sorted_by_pub_key = false;
          newest_pub_key = [];
        })
        (export_keys strict src guide.keys)

abbrev pub cons_both : Option Keyring → Option (List Keyring) → Option (List Keyring)
cons_both none krs = none
cons_both (some kr) none = none
cons_both (some kr) (some krs) = some (kr ∷ krs)

unfoldable pub export_keyrings : Bool → KeyTome → List Keyring → Option (List Keyring)
unfolding export_keyring
export_keyrings strict tome [] = some []
export_keyrings strict tome (guide ∷ rest) =
    let exported = export_keyrings strict tome rest in
    elim (fetch_keyring tome guide.name) [
      | none ↦ if strict then none else exported
      | some src ↦ cons_both (export_keyring strict src guide) exported
    ]

-- The generated Marshal is a parameter.
unfoldable pub export_using_guide :
    (KeyTome → Option Bytes) → KeyTome → KeyTome → Bool → Option Bytes
unfolding export_keyrings
export_using_guide marshal tome guide strict = elim (export_keyrings strict tome guide.keyrings) [
  | none ↦ none
  | some krs ↦ marshal (record { rev = tome.rev; keyrings = krs; sorted_by_name = false })
]

-- The variables of the loop of MergeTome but `i`.
pub record TomeState : Type 0 where
  pub kr_to_add : ℕ
  pub src_keyrings : List Keyring
  pub problems : List Keyring
  pub target : KeyTome

abbrev pub keyring_at : List Keyring → ℕ → Keyring
keyring_at [] i = record { name = []; keys = []; sorted_by_pub_key = false; newest_pub_key = [] }
keyring_at (kr ∷ krs) zero = kr
keyring_at (kr ∷ krs) (suc i) = keyring_at krs i

-- A source Keyring whose name the target has: the last one to add is moved over it.
unfoldable pub absorb : ℕ → ℕ × Keyring → TomeState → TomeState
absorb i (pos, dst) s =
    let (merged, left) = merge_keys dst (keyring_at s.src_keyrings i) in
    record s {
      kr_to_add = s.kr_to_add - 1;
      src_keyrings = set s.src_keyrings i (keyring_at s.src_keyrings (s.kr_to_add - 1));
      problems = if ltb 0 (length left.keys) then s.problems ++ left ∷ [] else s.problems;
      target = record s.target { keyrings = set s.target.keyrings pos merged };
    }

-- Fuel: each round lowers `kr_to_add - i`, so the number of source Keyrings is enough.
unfoldable pub merge_tome_loop : ℕ → ℕ → TomeState → TomeState
unfolding absorb
merge_tome_loop zero i s = s
merge_tome_loop (suc k) i s =
    let src = keyring_at s.src_keyrings i in
    let found = find_keyring s.target src.name in
    let next =
      merge_tome_loop k (elim found [ none ↦ i + 1 | some _ ↦ i ])
        (elim found [
          | none ↦ record s { src_keyrings = set s.src_keyrings i (Keyring.optimize src) }
          | some dst ↦ absorb i dst s
        ]) in
    if ltb i s.kr_to_add then next else s

-- The target and the source tome.
unfoldable pub merge_tome : KeyTome → KeyTome → KeyTome × KeyTome
unfolding merge_tome_loop optimize
merge_tome tome src =
    let bumped = record tome { rev = (tome.rev + 1) % 2 ^ 64 } in
    let s = merge_tome_loop (length src.keyrings) 0 (record {
      kr_to_add = length src.keyrings;
      src_keyrings = src.keyrings;
      problems = [];
      target = if bumped.sorted_by_name then bumped else optimize bumped;
    }) in
    (
      (if ltb 0 s.kr_to_add
          then optimize
              (record s.target { keyrings = s.target.keyrings ++ take s.kr_to_add s.src_keyrings })
          else s.target),
      optimize (record src { keyrings = s.problems }),
    )
