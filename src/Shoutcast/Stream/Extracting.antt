-- ===== src/Shoutcast/Stream/Extracting.antt =====
-- extractMetadata over a body that fills the buffer: what it takes from the body.
use mathlib.Core.Path.{subst}
use amp_host_go.Base.{
  ℕ, ◌+◌, ◌-◌, ◌*◌, ◌<◌, ◌≡◌, refl, sym, ap, ◌∙◌, Option, none, arith, length, drop, ltb, ◌==◌,
  if_true, if_false, Bool-cases, inl, inr, length-drop,
}
use amp_host_go.Base.Bytes.{Bytes}
use amp_host_go.Shoutcast.Stream.{
  Body, IsFilling, Stream, ReadError, read_rest, first_byte, extract_metadata,
}
use amp_host_go.Shoutcast.Stream.Reading.{Rest, read_rest-content}

module _ (b : Body) (f : IsFilling b) where
  -- What extractMetadata returns, and what it takes from the body.
  abbrev pub Extracts : Bytes → Stream b → Stream b × ℕ × Option ReadError → Type 0
  Extracts buf_in s r =
      (r.1 ≡ first_byte buf_in * 16 + 1)
      × (r.0.metaint ≡ s.metaint)
      × (f.content r.0.reader
          ≡ drop (first_byte buf_in * 16 - (length buf_in - 1)) (f.content s.reader))

  pub extract_metadata-Extracts :
      (buf_in : Bytes) (s : Stream b)
      → 0 < length buf_in
      → Extracts buf_in s (extract_metadata b buf_in s)
  unfolding extract_metadata
  extract_metadata-Extracts buf_in s h = elim (Bool-cases (meta_len == 0)) [
    | inl z ↦ subst Done (sym (if_true _ _ z)) (refl, refl, none_missing (ground arith))
    | inr nz ↦ subst Done (sym (if_false _ _ nz)) (elim (Bool-cases (ltb (length buf_in) end)) [
      | inl short ↦
          subst Done (sym (if_true _ _ short)) (elim (Bool-cases (length r.1 == meta_len)) [
            | inl full ↦ subst Done (sym (if_true _ _ full)) (refl, refl, taken)
            | inr cut ↦ subst Done (sym (if_false _ _ cut)) (refl, refl, taken)
          ])
      | inr long ↦ subst Done (sym (if_false _ _ long)) (refl, refl, none_missing (ground arith))
    ])
  ]
    where
      Done : Stream b × ℕ × Option ReadError → Type 0
      Done = Extracts buf_in s

      meta_len : ℕ
      meta_len = first_byte buf_in * 16

      end : ℕ
      end = meta_len + 1

      missing : ℕ
      missing = meta_len - (length buf_in - 1)

      r : Rest b f
      r = read_rest b missing meta_len s.reader (drop 1 buf_in) none

      none_missing : missing ≡ 0 → f.content s.reader ≡ drop missing (f.content s.reader)
      none_missing e = ap (λ k. drop k (f.content s.reader)) (sym e)

      taken : f.content r.0 ≡ drop missing (f.content s.reader)
      taken =
          let e : missing ≡ meta_len - length (drop 1 buf_in) =
            omega (arith, length-drop 1 buf_in) in
          ap (λ k. f.content (read_rest b k meta_len s.reader (drop 1 buf_in) none).0) e
          ∙ read_rest-content b f meta_len s.reader (drop 1 buf_in)
          ∙ ap (λ k. drop k (f.content s.reader)) (sym e)
