-- ===== src/Shoutcast/Stream/Demux.antt =====
-- The audio of a stream byte by byte, and Read against it.
use amp_host_go.Base.{
  ℕ, zero, suc, ◌+◌, ◌-◌, ◌*◌, ◌≤◌, ◌<◌, ◌≡◌, refl, ap, ◌∙◌, [], ◌∷◌, ◌++◌, arith, length, take,
  drop,
}
use amp_host_go.Base.Bytes.{Bytes}
use amp_host_go.Shoutcast.Stream.{first_byte}

-- The audio of what is left of a stream, with `left` bytes of audio before the next block, after
-- `skip` bytes of a block.
unfoldable pub demux : ℕ → ℕ → ℕ → Bytes → Bytes
demux metaint left skip [] = []
demux metaint left (suc skip) (x ∷ xs) = demux metaint left skip xs
demux metaint (suc left) zero (x ∷ xs) = x ∷ demux metaint left 0 xs
demux metaint zero zero (x ∷ xs) = demux metaint metaint (x * 16) xs

pub demux-take :
    (m left n : ℕ) (xs : Bytes)
    → n ≤ left
    → demux m left 0 xs ≡ take n xs ++ demux m (left - n) 0 (drop n xs)
unfolding demux
demux-take m left zero xs h = let e : left ≡ left - 0 = omega arith in ap (λ k. demux m k 0 xs) e
demux-take m zero (suc n) xs h = absurd (omega arith)
demux-take m (suc left) (suc n) [] h = refl
demux-take m (suc left) (suc n) (x ∷ xs) h =
    let e : left - n ≡ suc left - suc n = omega arith in
    ap (◌∷◌ x) (demux-take m left n xs (omega arith))
    ∙ ap (λ k. x ∷ take n xs ++ demux m k 0 (drop n xs)) e

demux-skip : (m left skip : ℕ) (xs : Bytes) → demux m left skip xs ≡ demux m left 0 (drop skip xs)
unfolding demux
demux-skip m left zero xs = refl
demux-skip m left (suc skip) [] = refl
demux-skip m left (suc skip) (x ∷ xs) = demux-skip m left skip xs

-- Up to the next block and past it.
pub demux-block :
    (m left : ℕ) (xs : Bytes)
    → left < length xs
    → demux m left 0 xs
      ≡ take left xs ++ demux m m 0 (drop (left + (first_byte (drop left xs) * 16 + 1)) xs)
unfolding demux
demux-block m zero [] h = absurd (omega arith)
demux-block m zero (x ∷ xs) h =
    let e : suc (x * 16) ≡ 0 + (x * 16 + 1) = omega arith in
    demux-skip m m (x * 16) xs ∙ ap (λ k. demux m m 0 (drop k (x ∷ xs))) e
demux-block m (suc left) [] h = absurd (omega arith)
demux-block m (suc left) (x ∷ xs) h =
    let skip = first_byte (drop left xs) * 16 + 1 in
    let e : suc (left + skip) ≡ suc left + skip = omega arith in
    ap (◌∷◌ x) (demux-block m left xs (omega arith))
    ∙ ap (λ k. x ∷ take left xs ++ demux m m 0 (drop k (x ∷ xs))) e

pub first_byte-append : (xs ys : Bytes) → 0 < length xs → first_byte (xs ++ ys) ≡ first_byte xs
first_byte-append [] ys h = absurd (omega arith)
first_byte-append (x ∷ xs) ys h = refl
