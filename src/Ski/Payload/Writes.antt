-- ===== src/Ski/Payload/Writes.antt =====
-- What a copy into a buffer leaves there.
use amp_host_go.Base.{
  ℕ, ◌+◌, ◌-◌, ◌≤◌, ◌≡◌, refl, sym, ap, ◌∙◌, ◌++◌, arith, length, take, drop, length-append,
  length-take, length-drop, take_all,
}
use mathlib.Core.List.{append_assoc}
use amp_host_go.Base.Bytes.{Bytes}
use amp_host_go.Base.Slices.{take-append_le, take-take, drop-drop, take_exact, drop_exact}
use amp_host_go.Ski.Payload.{write}

module _ (pos : ℕ) (xs buf : Bytes) (fits : pos + length xs ≤ length buf) where
  abbrev joined : Bytes
  joined = take pos buf ++ xs ++ drop (pos + length xs) buf

  length_head : length (take pos buf) ≡ pos
  length_head = omega (arith, length-take pos buf, fits)

  length-joined : length joined ≡ length buf
  length-joined = omega (
    arith,
    length-append (take pos buf ++ xs) (drop (pos + length xs) buf),
    length-append (take pos buf) xs,
    length_head,
    length-drop (pos + length xs) buf,
    fits,
  )

  write_eq : write pos xs buf ≡ joined
  write_eq = take_all (length buf) joined (omega (arith, length-joined))

  pub length-write : length (write pos xs buf) ≡ length buf
  length-write = ap length write_eq ∙ length-joined

  length_before : length (take pos buf ++ xs) ≡ pos + length xs
  length_before = omega (arith, length-append (take pos buf) xs, length_head)

  -- Up to the end of what is copied.
  pub take-write : take (pos + length xs) (write pos xs buf) ≡ take pos buf ++ xs
  take-write =
      ap (take (pos + length xs)) write_eq
      ∙ take_exact (pos + length xs) (take pos buf ++ xs) (drop (pos + length xs) buf) length_before

  pub take-write_before : (k : ℕ) → k ≤ pos → take k (write pos xs buf) ≡ take k buf
  take-write_before k h =
      ap (take k) (write_eq ∙ append_assoc (take pos buf) xs (drop (pos + length xs) buf))
      ∙ take-append_le k (take pos buf) (xs ++ drop (pos + length xs) buf)
          (omega (arith, length_head))
      ∙ take-take k pos buf h

  pub drop-write : drop (pos + length xs) (write pos xs buf) ≡ drop (pos + length xs) buf
  drop-write =
      ap (drop (pos + length xs)) write_eq
      ∙ drop_exact (pos + length xs) (take pos buf ++ xs) (drop (pos + length xs) buf) length_before

  pub slice-write : take (length xs) (drop pos (write pos xs buf)) ≡ xs
  slice-write =
      ap (λ b. take (length xs) (drop pos b))
        (write_eq ∙ append_assoc (take pos buf) xs (drop (pos + length xs) buf))
      ∙ ap (take (length xs))
          (drop_exact pos (take pos buf) (xs ++ drop (pos + length xs) buf) length_head)
      ∙ take_exact (length xs) xs (drop (pos + length xs) buf) refl

  pub drop-write_after : (k : ℕ) → pos + length xs ≤ k → drop k (write pos xs buf) ≡ drop k buf
  drop-write_after k h =
      let e : pos + length xs + (k - (pos + length xs)) ≡ k = omega arith in
      ap (λ j. drop j (write pos xs buf)) (sym e)
      ∙ sym (drop-drop (k - (pos + length xs)) (pos + length xs) (write pos xs buf))
      ∙ ap (drop (k - (pos + length xs))) drop-write
      ∙ drop-drop (k - (pos + length xs)) (pos + length xs) buf
      ∙ ap (λ j. drop j buf) e
