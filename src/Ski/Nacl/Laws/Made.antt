-- ===== src/Ski/Nacl/Laws/Made.antt =====
-- The keys that a call of GenerateNewKey puts into an entry.
use mathlib.Core.Path.{subst}
use mathlib.Core.Option.{none-ne-some}
use amp_host_go.Base.{ℕ, ◌≡◌, refl, sym, ap, ◌∙◌, Option, none, some, [], ◌∷◌, ◌++◌, length, take}
use amp_host_go.Base.Slices.{take_exact}
use amp_host_go.Base.Bytes.{Bytes}
use amp_host_go.Ski.Key.{KeyEntry}
use amp_host_go.Ski.CryptoKit.{CryptoError, key_generation_failed}

pub take_all : (n : ℕ) (xs : Bytes) → length xs ≡ n → take n xs ≡ xs
take_all n xs h = ap (take n) (sym (append_nil xs)) ∙ take_exact n xs [] h
  where
    append_nil : (ys : Bytes) → ys ++ [] ≡ ys
    append_nil [] = refl
    append_nil (y ∷ ys) = ap (λ zs. y ∷ zs) (append_nil ys)

module _ {R : Type 0} where
  -- A pair of keys that is put into an entry, where `lost` is what an error leaves.
  abbrev pub entered :
      KeyEntry → KeyEntry → R → Option (Bytes × Bytes) → KeyEntry × Option CryptoError × R
  entered lost entry after o = elim o [
    | none ↦ (lost, some key_generation_failed, after)
    | some (p, s) ↦ (
      record entry { key_info = record entry.key_info { pub_key = p }; priv_key = s },
      none,
      after,
    )
  ]

  pub made_pair :
      (P : Bytes → Bytes → Type 0) (lost entry made : KeyEntry) (after rand' : R)
      (o : Option (Bytes × Bytes))
      → ((p s : Bytes) → o ≡ some (p, s) → P p s)
      → entered lost entry after o ≡ (made, none, rand')
      → P made.pub_key made.priv_key
  made_pair P lost entry made after rand' none h e = absurd (
      none-ne-some key_generation_failed
        (ap (λ (p : KeyEntry × Option CryptoError × R). p.1) (sym e)))
  made_pair P lost entry made after rand' (some (p, s)) h e =
      subst (λ (k : KeyEntry). P k.pub_key k.priv_key)
        (ap (λ (q : KeyEntry × Option CryptoError × R). q.0) e) (h p s refl)
