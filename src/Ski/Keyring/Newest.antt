-- ===== src/Ski/Keyring/Newest.antt =====
-- Optimize, and the pub key of the newest entry that a Keyring keeps.
use mathlib.Core.Option
use mathlib.Core.List.Perm
use native.Mathlib.Bridge.{le_prop}
use amp_host_go.Base.{
  ◌≡◌, ◌≢◌, refl, sym, ap, ◌∙◌, true, false, none, some, List, [], ◌∷◌, ◌⊎◌, inl, inr, Perm, arith,
  All, In, All-In, All-map,
}
use amp_host_go.Base.Words.{gt_int64}
use amp_host_go.Base.Bytes.{Bytes, compare_bytes_refl, equal_bytes-eq, equal_bytes_refl}
use amp_host_go.Base.Perms.{All-perm}
use amp_host_go.Base.Sort.{sort, sort-perm, sort-Ordered}
use amp_host_go.Base.Search.{find_first_before}
use amp_host_go.Ski.Key.{KeyEntry, IsDated, compare_key_entry, less_by_newest_pub_key}
use amp_host_go.Ski.Key.Order.{less_by_newest_pub_key-IsWeakOrder}
use amp_host_go.Ski.Keyring.{
  Keyring, has_pub_key, fetch_key, fetch_newest_key, optimize, resort, pub_key_of,
}
use amp_host_go.Ski.Keyring.Lookup.{
  IsSorted, IsNewest, fetch_key-find_first, fetch_newest_key-IsNewest,
}

-- The pub key that is kept is that of a newest entry, or is empty.
abbrev pub KeepsNewest : List KeyEntry → Bytes → Type 0
KeepsNewest keys pub_key =
    (pub_key ≡ []) ⊎ ((m : KeyEntry) × IsNewest keys m × (m.pub_key ≡ pub_key))

-- A Keyring with a key keeps the pub key of a newest entry, and one with none keeps none.
abbrev pub HasNewest : List KeyEntry → Bytes → Type 0
HasNewest keys pub_key =
    ((keys ≡ []) × (pub_key ≡ [])) ⊎ ((m : KeyEntry) × IsNewest keys m × (m.pub_key ≡ pub_key))

pub HasNewest-KeepsNewest :
    (keys : List KeyEntry) (pub_key : Bytes) → HasNewest keys pub_key → KeepsNewest keys pub_key
HasNewest-KeepsNewest keys pub_key (inl (e, u)) = inl u
HasNewest-KeepsNewest keys pub_key (inr n) = inr n

-- A Keyring in order, whose flag is true to it. NewestPubKey may have been reset.
pub record IsOptimized (kr : Keyring) : Type 0 where
  pub dated : All IsDated kr.keys
  pub flag : kr.sorted_by_pub_key ≡ true
  pub sorted : IsSorted kr.keys
  pub newest : KeepsNewest kr.keys kr.newest_pub_key

-- Of two entries of one pub key, the earlier in the order is not the older.
order_newer :
    (a b : KeyEntry)
    → IsDated a
    → IsDated b
    → a.pub_key ≡ b.pub_key
    → less_by_newest_pub_key b a ≡ false
    → gt_int64 b.time_created a.time_created ≡ false
unfolding less_by_newest_pub_key compare_key_entry
order_newer a b d e p h = ground (arith, compare_bytes_refl b.pub_key, compare_bytes_refl a.pub_key)

gt_int64_trans :
    (a b c : KeyEntry)
    → gt_int64 c.time_created b.time_created ≡ false
    → gt_int64 b.time_created a.time_created ≡ false
    → gt_int64 c.time_created a.time_created ≡ false
gt_int64_trans a b c h k = ground arith

-- An entry that is not older than a newest one is a newest one.
IsNewest-later :
    (keys : List KeyEntry) (m r : KeyEntry)
    → IsNewest keys m
    → In r keys
    → gt_int64 m.time_created r.time_created ≡ false
    → IsNewest keys r
IsNewest-later keys m r n i g = record {
  member = i;
  latest = All-map _ _ keys (λ e h. gt_int64_trans r m e h g) n.latest;
}

keeps_IsNewest_found :
    (kr : Keyring) (m : KeyEntry)
    → All IsDated kr.keys
    → IsSorted kr.keys
    → IsNewest kr.keys m
    → (r : KeyEntry) × (fetch_key kr m.pub_key ≡ some r) × IsNewest kr.keys r
keeps_IsNewest_found kr m d o n =
    let (p, r, eq, hit, i, w) =
      find_first_before (λ a b. less_by_newest_pub_key b a ≡ false) (has_pub_key m.pub_key) 0
        kr.keys m o n.member (equal_bytes_refl m.pub_key) in
    let later : gt_int64 m.time_created r.time_created ≡ false = elim w [
      | inl e ↦ rw e (ground arith)
      | inr b ↦
          order_newer r m (All-In IsDated r kr.keys d i) (All-In IsDated m kr.keys d n.member)
            (equal_bytes-eq _ _ hit) b
    ] in
    (
      r,
      fetch_key-find_first kr m.pub_key (λ _. o) ∙ ap (Option.map (λ q. q.1)) eq,
      IsNewest-later kr.keys m r n i later,
    )

fetch_newest_key_empty : (kr : Keyring) → kr.keys ≡ [] → fetch_newest_key kr ≡ none
unfolding fetch_newest_key
fetch_newest_key_empty kr e = ground arith

fetch_newest_key_set :
    (kr : Keyring) (k : KeyEntry) (keys : List KeyEntry)
    → kr.newest_pub_key ≢ []
    → kr.keys ≡ k ∷ keys
    → fetch_newest_key kr ≡ fetch_key kr kr.newest_pub_key
unfolding fetch_newest_key
fetch_newest_key_set kr k keys u e = ground arith

-- FetchNewestKey returns nothing on an empty Keyring, and on any other that is optimized an entry
-- that no other is newer than.
pub fetch_newest_key_correct :
    (kr : Keyring)
    → IsOptimized kr
    → ((kr.keys ≡ []) × (fetch_newest_key kr ≡ none))
      ⊎ ((m : KeyEntry) × (fetch_newest_key kr ≡ some m) × IsNewest kr.keys m)
fetch_newest_key_correct kr v = split kr.keys refl
  where
    set_case :
        (k : KeyEntry) (keys : List KeyEntry)
        → kr.keys ≡ k ∷ keys
        → (p : Bytes) → kr.newest_pub_key ≡ p
        → (m : KeyEntry) × (fetch_newest_key kr ≡ some m) × IsNewest kr.keys m
    set_case k keys e [] u = fetch_newest_key-IsNewest kr k keys u e
    set_case k keys e (x ∷ p) u = elim v.newest [
      | inl none_kept ↦ absurd (cc none_kept)
      | inr (m, n, q) ↦
          let (r, eq, nr) = keeps_IsNewest_found kr m v.dated v.sorted n in
          (r, fetch_newest_key_set kr k keys (λ z. cc) e ∙ ap (fetch_key kr) (sym q) ∙ eq, nr)
    ]

    split :
        (keys : List KeyEntry)
        → kr.keys ≡ keys
        → ((kr.keys ≡ []) × (fetch_newest_key kr ≡ none))
          ⊎ ((m : KeyEntry) × (fetch_newest_key kr ≡ some m) × IsNewest kr.keys m)
    split [] e = inl (e, fetch_newest_key_empty kr e)
    split (k ∷ keys) e = inr (set_case k keys e kr.newest_pub_key refl)

IsDated-prop : (e : KeyEntry) → IsProp (IsDated e)
IsDated-prop e = hlevel le_prop

pub IsDated-perm : (xs ys : List KeyEntry) → Perm xs ys → All IsDated xs → All IsDated ys
IsDated-perm = All-perm IsDated IsDated-prop

pub sort-IsSorted :
    (xs : List KeyEntry) → All IsDated xs → IsSorted (sort less_by_newest_pub_key xs)
sort-IsSorted = sort-Ordered less_by_newest_pub_key IsDated less_by_newest_pub_key-IsWeakOrder

has_found :
    (kr : Keyring) → kr.newest_pub_key ≡ [] → HasNewest kr.keys (pub_key_of (fetch_newest_key kr))
has_found kr u = split kr.keys refl
  where
    split :
        (keys : List KeyEntry)
        → kr.keys ≡ keys
        → HasNewest kr.keys (pub_key_of (fetch_newest_key kr))
    split [] e = inl (e, ap pub_key_of (fetch_newest_key_empty kr e))
    split (k ∷ keys) e =
        let (m, eq, n) = fetch_newest_key-IsNewest kr k keys u e in
        inr (m, n, sym (ap pub_key_of eq))

-- Optimize sorts the entries, loses none, and sets NewestPubKey to the pub key of a
-- newest one, or to none if there is no entry.
pub optimize-IsOptimized :
    (kr : Keyring)
    → All IsDated kr.keys
    → IsOptimized (optimize kr)
      × Perm (optimize kr).keys kr.keys
      × HasNewest (optimize kr).keys (optimize kr).newest_pub_key
unfolding optimize resort
optimize-IsOptimized kr d =
    let p = sort-perm less_by_newest_pub_key kr.keys in
    let sorted = record (resort kr) { newest_pub_key = [] } in
    (
      record {
        dated = IsDated-perm _ _ (Perm.symm p) d;
        flag = refl;
        sorted = sort-IsSorted kr.keys d;
        newest = HasNewest-KeepsNewest _ _ (has_found sorted refl);
      },
      p,
      has_found sorted refl,
    )
