-- ===== src/Assets/Ids.antt =====
-- amp/assets/assetServer.go: GenerateAssetID and the name that PublishAsset makes of it. The outer
-- loop recurs on fuel: as many rounds as characters are enough, since each round writes one. What
-- rng.Int63 gives is an argument, a function from the number of the call.
pub mod Chars
use amp_host_go.Base.{
  ℕ, zero, suc, ◌+◌, ◌-◌, ◌/◌, ◌%◌, Option, none, some, List, [], ◌∷◌, ◌++◌, ◌==◌, ltb,
  if◌then◌else◌, length, drop, get_elem?,
}
use amp_host_go.Base.Bytes.{Bytes}

-- "abcdefghijklmnopqrstuvwxyzABCDEFGHIJKLMNOPQRSTUVWXYZ0123456789az"
abbrev pub asset_chars : Bytes
asset_chars =
    97 ∷ 98 ∷ 99 ∷ 100 ∷ 101 ∷ 102 ∷ 103 ∷ 104 ∷ 105 ∷ 106 ∷ 107 ∷ 108 ∷ 109 ∷ 110 ∷ 111 ∷ 112 ∷ 113
    ∷ 114 ∷ 115 ∷ 116 ∷ 117 ∷ 118 ∷ 119 ∷ 120 ∷ 121 ∷ 122 ∷ 65 ∷ 66 ∷ 67 ∷ 68 ∷ 69 ∷ 70 ∷ 71 ∷ 72
    ∷ 73 ∷ 74 ∷ 75 ∷ 76 ∷ 77 ∷ 78 ∷ 79 ∷ 80 ∷ 81 ∷ 82 ∷ 83 ∷ 84 ∷ 85 ∷ 86 ∷ 87 ∷ 88 ∷ 89 ∷ 90 ∷ 48
    ∷ 49 ∷ 50 ∷ 51 ∷ 52 ∷ 53 ∷ 54 ∷ 55 ∷ 56 ∷ 57 ∷ 97 ∷ 122 ∷ []

-- kAssetChars[bits&63], of an int64 that is not negative; the index is in range.
unfoldable pub asset_char : ℕ → ℕ
asset_char bits = elim (get_elem? asset_chars (bits % 64)) [ none ↦ 0 | some c ↦ c ]

-- The inner loop: `rounds` of its rounds are left, and `left` characters.
unfoldable pub chars_of : ℕ → ℕ → ℕ → Bytes
unfolding asset_char
chars_of zero left bits = []
chars_of (suc rounds) zero bits = []
chars_of (suc rounds) (suc left) bits = asset_char bits ∷ chars_of rounds left (bits / 64)

-- The outer loop, from the given call of Int63 on.
unfoldable pub generate_chars : ℕ → (ℕ → ℕ) → ℕ → ℕ → Bytes
unfolding chars_of
generate_chars zero int63 call left = []
generate_chars (suc fuel) int63 call zero = []
generate_chars (suc fuel) int63 call (suc left) =
    let chars = chars_of 10 (suc left) (int63 call) in
    chars ++ generate_chars fuel int63 (suc call) (suc left - length chars)

unfoldable pub generate_asset_id : (ℕ → ℕ) → ℕ → Bytes
unfolding generate_chars
generate_asset_id int63 num_chars = generate_chars num_chars int63 0 num_chars

-- strings.LastIndexByte.
unfoldable pub last_index_byte : Bytes → ℕ → Option ℕ
last_index_byte [] b = none
last_index_byte (x ∷ xs) b =
    let later = last_index_byte xs b in
    elim later [ some i ↦ some (suc i) | none ↦ if x == b then some 0 else none ]

-- `/` is 47 and `.` is 46.
unfoldable pub with_extension : Bytes → Bytes → Bytes
unfolding last_index_byte
with_extension asset_id content_type = elim (last_index_byte content_type 47) [
  | none ↦ asset_id
  | some ext_pos ↦
      if ltb 0 ext_pos then asset_id ++ 46 ∷ drop (ext_pos + 1) content_type else asset_id
]
