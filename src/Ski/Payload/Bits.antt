-- ===== src/Ski/Payload/Bits.antt =====
-- The length of the SigHeader, in the two bytes before it.
use Prim.Native.Nat.{bit_or}
use amp_host_go.Base.{
  ℕ, zero, suc, ◌+◌, ◌*◌, ◌/◌, ◌%◌, ◌<◌, ◌≡◌, refl, sym, ◌∙◌, Bool, true, false, arith, ◌==◌,
  ==_iff, if◌then◌else◌, if_true, if_false, Bool-cases, inl, inr, ltb,
}
use mathlib.Core.Path.{subst}
use mathlib.Core.Bool.{true≢false}

abbrev two_bytes : ℕ → ℕ
two_bytes n = bit_or (2 + n % 256) (n / 256 % 256 * 256)

-- No length below the bound is misread.
none_misread : ℕ → Bool
none_misread zero = true
none_misread (suc bound) =
    let shorter = none_misread bound in if two_bytes bound == bound + 2 then shorter else false

misread_below : (bound n : ℕ) → n < bound → none_misread bound ≡ true → two_bytes n ≡ n + 2
unfolding none_misread
misread_below zero n lt h = absurd (omega arith)
misread_below (suc bound) n lt h = elim (Bool-cases (two_bytes bound == bound + 2)) [
  | inr wrong ↦ absurd (true≢false (sym h ∙ if_false _ _ wrong))
  | inl right ↦ elim (Bool-cases (ltb n bound)) [
    | inl less ↦ misread_below bound n (ground (arith, less)) (sym (if_true _ _ right) ∙ h)
    | inr last ↦
        let same : bound ≡ n = ground (arith, last, lt) in
        subst (λ k. two_bytes k ≡ k + 2) same ((==_iff (two_bytes bound) (bound + 2)).0 right)
  ]
]

-- The length is read back right if it is below 510.
pub read_back : (n : ℕ) → n < 510 → bit_or (2 + n % 256) (n / 256 % 256 * 256) ≡ n + 2
unfolding none_misread
read_back n lt = misread_below 510 n lt refl
