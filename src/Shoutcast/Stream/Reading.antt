-- ===== src/Shoutcast/Stream/Reading.antt =====
-- Read over a body that fills the buffer: one call, and a run of calls.
use amp_host_go.Base.{
  ℕ, zero, suc, ◌-◌, ◌≤◌, ◌≡◌, refl, sym, ap, ◌∙◌, true, false, Option, none, some, [], ◌++◌, arith,
  length, drop, ltb, if_true, if_false, Bool-cases, inl, inr, length-append, length-take,
}
use amp_host_go.Base.Bytes.{Bytes}
use amp_host_go.Base.Slices.{drop_nil, drop_all}
use amp_host_go.Shoutcast.Stream.{Body, IsFilling, ReadError, read_rest}

module _ (b : Body) (f : IsFilling b) where
  abbrev pub Rest : Type 0
  Rest = b.State × Bytes × Option ReadError

  -- A body at its end stays there.
  read_rest_empty :
      (fuel n : ℕ) (s : b.State) (m : Bytes) (e : Option ReadError)
      → f.content s ≡ []
      → f.content (read_rest b fuel n s m e).0 ≡ []
  unfolding read_rest
  read_rest_empty zero n s m e h = h
  read_rest_empty (suc fuel) n s m (some e) h = h
  read_rest_empty (suc fuel) n s m none h = elim (Bool-cases (ltb (length m) n)) [
    | inr k ↦ ap (λ (p : Rest). f.content p.0) (if_false _ _ k) ∙ h
    | inl k ↦
        ap (λ (p : Rest). f.content p.0) (if_true _ _ k)
        ∙ read_rest_empty fuel n _ _ _
            (f.read_leaves s (n - length m) ∙ ap (drop (n - length m)) h ∙ drop_nil (n - length m))
  ]

  -- Nothing is missing.
  read_rest_done :
      (fuel n : ℕ) (s : b.State) (m : Bytes) (e : Option ReadError)
      → n ≤ length m
      → (read_rest b fuel n s m e).0 ≡ s
  unfolding read_rest
  read_rest_done zero n s m e h = refl
  read_rest_done (suc fuel) n s m (some e) h = refl
  read_rest_done (suc fuel) n s m none h =
      let full : ltb (length m) n ≡ false = ground arith in
      ap (λ (p : Rest). p.0) (if_false _ _ full)

  -- What is missing of a block is taken from the body, as far as it has it.
  pub read_rest-content :
      (n : ℕ) (s : b.State) (m : Bytes)
      → f.content (read_rest b (n - length m) n s m none).0 ≡ drop (n - length m) (f.content s)
  unfolding read_rest
  read_rest-content n s m = go (n - length m) refl
    where
      c : Bytes
      c = f.content s

      got : Bytes
      got = (b.read s (n - length m)).1

      next :
          (k : ℕ)
          → suc k ≡ n - length m
          → f.content (b.read s (n - length m)).0 ≡ drop (suc k) c
          → f.content
              (read_rest b k n (b.read s (n - length m)).0 (m ++ got) (b.read s (n - length m)).2).0
            ≡ drop (suc k) c
      next k e left = elim (Bool-cases (ltb (length c) (suc k))) [
        | inl short ↦
            let nothing : drop (suc k) c ≡ [] = drop_all (suc k) c (ground arith) in
            read_rest_empty k n _ _ _ (left ∙ nothing) ∙ sym nothing
        | inr long ↦
            let many : length got ≡ suc k =
              ap length (f.read_gives s (n - length m))
              ∙ length-take (n - length m) c
              ∙ ground arith in
            let enough : n ≤ length (m ++ got) = omega (arith, length-append m got) in
            ap f.content (read_rest_done k n _ (m ++ got) _ enough) ∙ left
      ]

      go : (k : ℕ) → k ≡ n - length m → f.content (read_rest b k n s m none).0 ≡ drop k c
      go zero e = refl
      go (suc k) e =
          let missing : ltb (length m) n ≡ true = ground arith in
          let left : f.content (b.read s (n - length m)).0 ≡ drop (suc k) c =
            f.read_leaves s (n - length m) ∙ ap (λ i. drop i c) (sym e) in
          ap (λ (p : Rest). f.content p.0) (if_true _ _ missing) ∙ next k e left
