-- ===== src/Shoutcast/Stream/Rounds.antt =====
-- Read over a body that fills the buffer, where the buffer holds one block at most.
use mathlib.Core.Path.{subst}
use mathlib.Core.List.{append_assoc}
use amp_host_go.Base.{
  ℕ, zero, suc, ◌+◌, ◌-◌, ◌*◌, ◌≤◌, ◌<◌, ◌≡◌, ◌⊎◌, refl, sym, ap, ◌∙◌, false, Option, ◌++◌, arith,
  take-append, length, take, drop, ltb, if_true, if_false, Bool-cases, inl, inr, length-drop,
  length-append, length-take,
}
use amp_host_go.Base.Bytes.{Bytes}
use amp_host_go.Base.Slices.{
  split_at, slice-append, take-append_ge, drop-drop, drop_all, take-append_le, drop-append_le,
  take-length, drop-length,
}
use amp_host_go.Shoutcast.Stream.{
  Body, IsFilling, Stream, ReadError, first_byte, keep_error, extract_metadata, copy_down, Scan,
  scan_block, scan_blocks,
}
use amp_host_go.Shoutcast.Stream.Demux.{demux, demux-take, demux-block, first_byte-append}
use amp_host_go.Shoutcast.Stream.Extracting.{Extracts, extract_metadata-Extracts}

module _ (b : Body) (f : IsFilling b) where
  -- A scan whose first `n` bytes are audio, and whose stream goes on with the rest.
  pub record IsDemuxed (m : ℕ) (audio : Bytes) (c : Scan b) : Type 0 where
    pub reads :
        audio
        ≡ take c.n c.buf ++ demux m (m - (c.stream.pos + c.unchecked)) 0 (f.content c.stream.reader)
    pub ends : c.stream.pos + c.unchecked ≤ m
    pub same : c.stream.metaint ≡ m

  pub scan_stop :
      (fuel m : ℕ) (audio : Bytes) (c : Scan b) → IsDemuxed m audio c → scan_blocks b fuel c ≡ c
  unfolding scan_blocks
  scan_stop zero m audio c d = refl
  scan_stop (suc fuel) m audio c d =
      let over : ltb c.stream.metaint (c.stream.pos + c.unchecked) ≡ false =
        ground (arith, d.ends, d.same) in
      if_false _ _ over

  -- The scan that Read starts with, over a body that gave all that it had for the buffer.
  abbrev pub start : Bytes → Stream b → Scan b
  start buf s = record {
    stream = record s { reader = (b.read s.reader (length buf)).0 };
    buf = (b.read s.reader (length buf)).1 ++ drop (length (b.read s.reader (length buf)).1) buf;
    n = length (b.read s.reader (length buf)).1;
    checked = 0;
    unchecked = length (b.read s.reader (length buf)).1;
    error = (b.read s.reader (length buf)).2;
  }

  module _ (s : Stream b) (buf : Bytes) (inside : s.pos ≤ s.metaint)
      (fits : length buf ≤ s.metaint + 1) where
    abbrev pub got : Bytes
    got = (b.read s.reader (length buf)).1

    abbrev pub all : Bytes
    all = f.content s.reader

    abbrev pub audio : Bytes
    audio = demux s.metaint (s.metaint - s.pos) 0 all

    got_eq : got ≡ take (length buf) all
    got_eq = f.read_gives s.reader (length buf)

    left_eq : f.content (b.read s.reader (length buf)).0 ≡ drop (length got) all
    left_eq =
        f.read_leaves s.reader (length buf)
        ∙ sym (drop-length (length buf) all)
        ∙ ap (λ g. drop (length g) all) (sym got_eq)

    taken_eq : take (length got) all ≡ got
    taken_eq = ap (λ g. take (length g) all) got_eq ∙ take-length (length buf) all ∙ sym got_eq

    short_or_full : (length got ≡ length buf) ⊎ (length all ≤ length got)
    short_or_full =
        let n : length got ≡ length (take (length buf) all) = ap length got_eq in
        let m = length-take (length buf) all in grind arith

    got_le : length got ≤ length buf
    got_le = omega (arith, ap length got_eq, length-take (length buf) all)

    all_eq : all ≡ got ++ drop (length got) all
    all_eq = split_at (length got) all ∙ ap (λ g. g ++ drop (length got) all) taken_eq

    glue :
        {xs ys c d : Bytes} {k j : ℕ}
        → xs ≡ ys
        → k ≡ j
        → c ≡ d
        → xs ++ demux s.metaint k 0 c ≡ ys ++ demux s.metaint j 0 d
    glue p q r = rw (p, q, r) refl

    -- All of what was read is audio.
    pub start-IsDemuxed : s.pos + length got ≤ s.metaint → IsDemuxed s.metaint audio (start buf s)
    start-IsDemuxed h = record {
      reads =
          demux-take s.metaint (s.metaint - s.pos) (length got) all (omega arith)
          ∙ glue (taken_eq ∙ sym (take-append got _)) (omega arith) (sym left_eq);
      ends = h;
      same = refl;
    }

    -- A block begins in what was read.
    pub block-IsDemuxed :
        s.metaint < s.pos + length got → IsDemuxed s.metaint audio (scan_block b (start buf s))
    unfolding scan_block
    block-IsDemuxed h = elim (Bool-cases (ltb (length got) (offset + skip))) [
      | inl over ↦
          subst (IsDemuxed s.metaint audio) (sym (if_true _ _ over)) (straddles (ground arith))
      | inr ends ↦
          subst (IsDemuxed s.metaint audio) (sym (if_false _ _ ends)) (within (ground arith))
    ]
      where
        offset : ℕ
        offset = s.metaint - s.pos

        buf_in : Bytes
        buf_in = drop (0 + offset) (start buf s).buf

        r : Stream b × ℕ × Option ReadError
        r = extract_metadata b buf_in (start buf s).stream

        skip : ℕ
        skip = r.1

        m : ℕ
        m = s.metaint

        buf1 : Bytes
        buf1 = (start buf s).buf

        length_buf1 : length buf1 ≡ length buf
        length_buf1 =
            omega (
              arith,
              length-append got (drop (length got) buf),
              length-drop (length got) buf,
              got_le,
            )

        length_buf_in : length buf_in ≡ length buf - offset
        length_buf_in = omega (arith, length-drop (0 + offset) buf1, length_buf1)

        inside_got : offset < length got
        inside_got = omega arith

        e : Extracts b f buf_in (start buf s).stream r
        e =
            extract_metadata-Extracts b f buf_in (start buf s).stream
              (omega (arith, length_buf_in, got_le))

        first : ℕ
        first = first_byte (drop offset all)

        beyond : Bytes
        beyond = drop (length got) all

        after : (ys : Bytes) → first_byte (drop offset (got ++ ys)) ≡ first_byte (drop offset got)
        after ys =
            ap first_byte (drop-append_le offset got ys (omega (arith, inside_got)))
            ∙ first_byte-append (drop offset got) ys
                (omega (arith, inside_got, length-drop offset got))

        at_eq : 0 + offset ≡ offset
        at_eq = omega arith

        same_first : first_byte buf_in ≡ first
        same_first =
            ap (λ k. first_byte (drop k buf1)) at_eq
            ∙ after (drop (length got) buf)
            ∙ sym (ap (λ a. first_byte (drop offset a)) all_eq ∙ after beyond)

        skip_eq : skip ≡ first * 16 + 1
        skip_eq = e.0 ∙ ap (λ x. x * 16 + 1) same_first

        rest_eq :
            f.content r.0.reader ≡ drop (length got + (first * 16 - (length buf - offset - 1))) all
        rest_eq =
            e.2
            ∙ ap (drop (first_byte buf_in * 16 - (length buf_in - 1))) left_eq
            ∙ drop-drop (first_byte buf_in * 16 - (length buf_in - 1)) (length got) all
            ∙ ap (λ x. drop (length got + (x * 16 - (length buf_in - 1))) all) same_first
            ∙ ap (λ y. drop (length got + (first * 16 - (y - 1))) all) length_buf_in

        got_le_all : length got ≤ length all
        got_le_all = omega (arith, ap length all_eq, length-append got beyond)

        split : audio ≡ take offset all ++ demux m m 0 (drop (offset + skip) all)
        split =
            demux-block m offset all (omega (arith, inside_got, got_le_all))
            ∙ ap (λ k. take offset all ++ demux m m 0 (drop (offset + k) all)) (sym skip_eq)

        take_eq : take offset all ≡ take (0 + offset) buf1
        take_eq =
            ap (take offset) all_eq
            ∙ take-append_le offset got beyond (omega (arith, inside_got))
            ∙ sym (take-append_le offset got (drop (length got) buf) (omega (arith, inside_got)))
            ∙ ap (λ k. take k buf1) (sym at_eq)

        content_eq : length got < offset + skip → drop (offset + skip) all ≡ f.content r.0.reader
        content_eq over = elim short_or_full [
          | inl full ↦
              let i : offset + skip ≡ length got + (first * 16 - (length buf - offset - 1)) =
                omega (arith, skip_eq, full, over, inside_got) in
              ap (λ k. drop k all) i ∙ sym rest_eq
          | inr short ↦
              drop_all (offset + skip) all (omega arith)
              ∙ sym (rest_eq ∙ drop_all _ all (omega arith))
        ]

        straddles :
            length got < offset + skip
            → IsDemuxed m audio (record (start buf s) {
              stream = record r.0 { pos = 0 };
              error = keep_error (start buf s).error r.2;
              n = 0 + offset;
              unchecked = 0;
            })
        straddles over = record {
          reads = split ∙ glue take_eq (omega arith) (content_eq over);
          ends = omega arith;
          same = e.1;
        }

        u : ℕ
        u = length got - skip - (0 + offset)

        from : ℕ
        from = 0 + offset + skip

        moved :
            offset + skip ≤ length got
            → take offset all ++ take u (drop (offset + skip) all)
              ≡ take (length got - skip) (copy_down buf1 (0 + offset) from)
        moved h = rest_moved h ∙ sym buf_moved
          where
            tail : Bytes
            tail = drop (0 + offset + length (drop from buf1)) buf1

            length_head : length (take (0 + offset) buf1) ≡ offset
            length_head =
                omega (arith, length-take (0 + offset) buf1, length_buf1, got_le, inside_got)

            n_eq : length got - skip ≡ length (take (0 + offset) buf1) + u
            n_eq = omega (arith, length_head, skip_eq, inside_got)

            fits_rest : u ≤ length (drop from buf1)
            fits_rest = omega (arith, length-drop from buf1, length_buf1, got_le)

            buf_moved :
                take (length got - skip) (copy_down buf1 (0 + offset) from)
                ≡ take (0 + offset) buf1 ++ take u (drop from buf1)
            buf_moved =
                ap (λ k. take k (copy_down buf1 (0 + offset) from)) n_eq
                ∙ ap (take (length (take (0 + offset) buf1) + u))
                    (append_assoc (take (0 + offset) buf1) (drop from buf1) tail)
                ∙ take-append_ge u (take (0 + offset) buf1) (drop from buf1 ++ tail)
                ∙ ap (take (0 + offset) buf1 ++◌) (take-append_le u (drop from buf1) tail fits_rest)

            from_eq : from ≡ offset + skip
            from_eq = omega arith

            rest_moved :
                offset + skip ≤ length got
                → take offset all ++ take u (drop (offset + skip) all)
                  ≡ take (0 + offset) buf1 ++ take u (drop from buf1)
            rest_moved h =
                let fits_got : offset + skip + u ≤ length got = omega arith in
                ap (λ a. take offset all ++ take u (drop (offset + skip) a)) all_eq
                ∙ ap (take offset all ++◌) (slice-append (offset + skip) u got beyond fits_got)
                ∙ ap (take offset all ++◌)
                    (sym (slice-append (offset + skip) u got (drop (length got) buf) fits_got))
                ∙ ap (λ k. take offset all ++ take u (drop k buf1)) (sym from_eq)
                ∙ ap (λ a. a ++ take u (drop from buf1)) take_eq

        within_content :
            offset + skip ≤ length got → drop u (drop (offset + skip) all) ≡ f.content r.0.reader
        within_content h =
            let i : offset + skip + u ≡ length got + (first * 16 - (length buf - offset - 1)) =
              omega (arith, skip_eq, got_le, h) in
            drop-drop u (offset + skip) all ∙ ap (λ k. drop k all) i ∙ sym rest_eq

        within :
            offset + skip ≤ length got
            → IsDemuxed m audio (record (start buf s) {
              stream = record r.0 { pos = 0 };
              error = keep_error (start buf s).error r.2;
              checked = 0 + offset;
              n = length got - skip;
              unchecked = u;
              buf = copy_down buf1 (0 + offset) from;
            })
        within h = record {
          reads =
              split
              ∙ ap (λ c. take offset all ++ c)
                  (demux-take m m u (drop (offset + skip) all)
                    (omega (arith, skip_eq, got_le, fits)))
              ∙ sym (append_assoc (take offset all) _ _)
              ∙ glue (moved h) (omega arith) (within_content h);
          ends = omega (arith, skip_eq, got_le, fits);
          same = e.1;
        }
