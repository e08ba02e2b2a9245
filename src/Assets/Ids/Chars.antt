-- ===== src/Assets/Ids/Chars.antt =====
-- The characters of an asset's ID, from the random bits.
use native.Mathlib.Nat.{div-div-eq-div-mul}
use amp_host_go.Base.{
  ℕ, zero, suc, ◌+◌, ◌-◌, ◌*◌, ◌/◌, ◌%◌, ◌^◌, ◌≤◌, ◌<◌, ◌≡◌, refl, ap, ◌∙◌, Bool-cases, some, [],
  ◌∷◌, ◌++◌, ltb, if◌then◌else◌, length, length-append, get_elem?, inl, inr, arith,
}
use amp_host_go.Base.Bytes.{Bytes}
use amp_host_go.Assets.Ids.{asset_char, chars_of, generate_chars, generate_asset_id}

get_elem?_left : (xs ys : Bytes) (i : ℕ) → i < length xs → get_elem? (xs ++ ys) i ≡ get_elem? xs i
get_elem?_left [] ys i h = absurd (omega (arith, h))
get_elem?_left (x ∷ xs) ys zero h = refl
get_elem?_left (x ∷ xs) ys (suc i) h = get_elem?_left xs ys i (omega (arith, h))

get_elem?_right :
    (xs ys : Bytes) (j i : ℕ) → j ≡ length xs + i → get_elem? (xs ++ ys) j ≡ get_elem? ys i
get_elem?_right [] ys j i e = ap (get_elem? ys) (omega (arith, e))
get_elem?_right (x ∷ xs) ys zero i e = absurd (omega (arith, e))
get_elem?_right (x ∷ xs) ys (suc j) i e = get_elem?_right xs ys j i (omega (arith, e))

length-chars_of :
    (rounds left bits : ℕ)
    → length (chars_of rounds left bits) ≡ (if ltb rounds left then rounds else left)
unfolding chars_of
length-chars_of zero left bits = ground arith
length-chars_of (suc rounds) zero bits = ground arith
length-chars_of (suc rounds) (suc left) bits =
    ground (arith, length-chars_of rounds left (bits / 64))

chars_of_lem :
    (rounds left bits i : ℕ)
    → i < rounds
    → i < left
    → get_elem? (chars_of rounds left bits) i ≡ some (asset_char (bits / 64 ^ i))
unfolding chars_of
chars_of_lem zero left bits i h k = absurd (omega (arith, h))
chars_of_lem (suc rounds) zero bits i h k = absurd (omega (arith, k))
chars_of_lem (suc rounds) (suc left) bits zero h k =
    let whole : bits ≡ bits / 64 ^ 0 = omega arith in ap (λ b. some (asset_char b)) whole
chars_of_lem (suc rounds) (suc left) bits (suc i) h k =
    chars_of_lem rounds left (bits / 64) i (omega (arith, h)) (omega (arith, k))
    ∙ ap (λ b. some (asset_char b))
        (div-div-eq-div-mul bits 64 (64 ^ i) ∙ ap (λ d. bits / d) shifted)
  where
    shifted : 64 * 64 ^ i ≡ 64 ^ suc i
    shifted = omega arith

length-generate_chars :
    (fuel : ℕ) (int63 : ℕ → ℕ) (call left : ℕ)
    → left ≤ fuel
    → length (generate_chars fuel int63 call left) ≡ left
unfolding generate_chars
length-generate_chars zero int63 call left h = omega (arith, h)
length-generate_chars (suc fuel) int63 call zero h = omega arith
length-generate_chars (suc fuel) int63 call (suc left) h =
    let chars = chars_of 10 (suc left) (int63 call) in
    let n = length-chars_of 10 (suc left) (int63 call) in
    let written : (0 < length chars) × (length chars ≤ suc left) =
      (ground (arith, n), ground (arith, n)) in
    let rest =
      length-generate_chars fuel int63 (suc call) (suc left - length chars)
        (omega (arith, h, written)) in
    omega (
      arith,
      rest,
      written,
      length-append chars (generate_chars fuel int63 (suc call) (suc left - length chars)),
    )

generate_chars_lem :
    (fuel : ℕ) (int63 : ℕ → ℕ) (call left i : ℕ)
    → left ≤ fuel
    → i < left
    → get_elem? (generate_chars fuel int63 call left) i
      ≡ some (asset_char (int63 (call + i / 10) / 64 ^ (i % 10)))
unfolding generate_chars
generate_chars_lem zero int63 call left i h k = absurd (omega (arith, h, k))
generate_chars_lem (suc fuel) int63 call zero i h k = absurd (omega (arith, k))
generate_chars_lem (suc fuel) int63 call (suc left) i h k =
    let chars = chars_of 10 (suc left) (int63 call) in
    let rest = generate_chars fuel int63 (suc call) (suc left - length chars) in
    let n = length-chars_of 10 (suc left) (int63 call) in
    elim (Bool-cases (ltb i 10)) [
      | inl t ↦
          let early : i < 10 = ground (arith, t) in
          let first : call ≡ call + i / 10 = omega (arith, early) in
          let same : i ≡ i % 10 = omega (arith, early) in
          get_elem?_left chars rest i (ground (arith, n, early, k))
          ∙ chars_of_lem 10 (suc left) (int63 call) i early k
          ∙ ap (λ c. some (asset_char (int63 c / 64 ^ i))) first
          ∙ ap (λ j. some (asset_char (int63 (call + i / 10) / 64 ^ j))) same
      | inr f ↦
          let late : 10 ≤ i = ground (arith, f) in
          let ten : length chars ≡ 10 = ground (arith, n, late, k) in
          let next : suc call + (i - 10) / 10 ≡ call + i / 10 = omega (arith, late) in
          let same : (i - 10) % 10 ≡ i % 10 = omega (arith, late) in
          get_elem?_right chars rest i (i - 10) (omega (arith, ten, late))
          ∙ generate_chars_lem fuel int63 (suc call) (suc left - length chars) (i - 10)
              (omega (arith, h, ten)) (omega (arith, ten, late, k))
          ∙ ap (λ c. some (asset_char (int63 c / 64 ^ ((i - 10) % 10)))) next
          ∙ ap (λ j. some (asset_char (int63 (call + i / 10) / 64 ^ j))) same
    ]

-- The ID has as many characters as asked for, and its i-th is the one for six bits of its own: those
-- from bit 6 (i % 10) on of the number that call i / 10 of Int63 gave.
pub generate_asset_id-chars :
    (int63 : ℕ → ℕ) (num_chars : ℕ)
    → (length (generate_asset_id int63 num_chars) ≡ num_chars)
      × ((i : ℕ)
          → i < num_chars
          → get_elem? (generate_asset_id int63 num_chars) i
            ≡ some (asset_char (int63 (i / 10) / 64 ^ (i % 10))))
unfolding generate_asset_id
generate_asset_id-chars int63 num_chars = (
  length-generate_chars num_chars int63 0 num_chars (omega arith),
  λ i h.
      let none_before : 0 + i / 10 ≡ i / 10 = omega arith in
      generate_chars_lem num_chars int63 0 num_chars i (omega arith) h
      ∙ ap (λ c. some (asset_char (int63 c / 64 ^ (i % 10)))) none_before,
)
