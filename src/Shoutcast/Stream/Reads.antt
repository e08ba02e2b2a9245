-- ===== src/Shoutcast/Stream/Reads.antt =====
-- Read over a body that fills the buffer, one call and a run of calls.
use mathlib.Core.Path.{subst}
use amp_host_go.Base.{
  ℕ, zero, suc, ◌+◌, ◌-◌, ◌≤◌, ◌≡◌, sym, ap, ◌∙◌, List, [], ◌∷◌, ◌++◌, arith, length, take, ltb,
  if_true, if_false, Bool-cases, inl, inr,
}
use amp_host_go.Base.Bytes.{Bytes}
use amp_host_go.Shoutcast.Stream.{Body, IsFilling, Stream, Scan, scan_blocks, read}
use amp_host_go.Shoutcast.Stream.Demux.{demux}
use amp_host_go.Shoutcast.Stream.Rounds.{
  IsDemuxed, scan_stop, start-IsDemuxed, block-IsDemuxed, start,
}

-- The loop leaves a demultiplexed scan.
scan_blocks-IsDemuxed :
    (b : Body) (f : IsFilling b) (s : Stream b) (buf : Bytes)
    → s.pos ≤ s.metaint
    → length buf ≤ s.metaint + 1
    → (fuel : ℕ) → length (b.read s.reader (length buf)).1 ≤ fuel
    → IsDemuxed b f s.metaint
        (demux s.metaint (s.metaint - s.pos) 0 (f.content s.reader))
        (scan_blocks b fuel (start b f buf s))
unfolding scan_blocks
scan_blocks-IsDemuxed b f s buf inside fits zero h =
    start-IsDemuxed b f s buf inside fits (omega (arith))
scan_blocks-IsDemuxed b f s buf inside fits (suc fuel) h =
    elim (Bool-cases (ltb s.metaint (s.pos + length (b.read s.reader (length buf)).1))) [
      | inl over ↦
          let d = block-IsDemuxed b f s buf inside fits (ground arith) in
          subst P (sym (if_true _ _ over)) (subst P (sym (scan_stop b f fuel s.metaint _ _ d)) d)
      | inr under ↦
          subst P (sym (if_false _ _ under)) (start-IsDemuxed b f s buf inside fits (ground arith))
    ]
  where
    P : Scan b → Type 0
    P = IsDemuxed b f s.metaint (demux s.metaint (s.metaint - s.pos) 0 (f.content s.reader))

-- What the stream has still to give: the audio of the rest of the body.
abbrev pub remaining : (b : Body) → IsFilling b → Stream b → Bytes
remaining b f s = demux s.metaint (s.metaint - s.pos) 0 (f.content s.reader)

-- Read on a stream that lies in a section of audio, with a buffer of `metaint + 1` bytes at most,
-- over a body that fills the buffer as long as it has bytes: the bytes that it returns are the
-- first that are left when the blocks of metadata are taken out of the body one byte at a time,
-- and those that it does not return are left. It keeps `metaint`, and the stream again lies in a
-- section of audio.
pub read-demux :
    (b : Body) (f : IsFilling b) (s : Stream b) (buf : Bytes)
    → s.pos ≤ s.metaint
    → length buf ≤ s.metaint + 1
    → let r = read b buf s in
      (remaining b f s ≡ take r.2 r.1 ++ remaining b f r.0)
      × (r.0.pos ≤ r.0.metaint)
      × (r.0.metaint ≡ s.metaint)
unfolding read
read-demux b f s buf inside fits =
    let c = scan_blocks b (length (b.read s.reader (length buf)).1) (start b f buf s) in
    let d = scan_blocks-IsDemuxed b f s buf inside fits _ (omega arith) in
    (
      d.reads
          ∙ ap
              (λ m.
                take c.n c.buf
                ++ demux m (m - (c.stream.pos + c.unchecked)) 0 (f.content c.stream.reader))
              (sym d.same),
      omega (arith, d.ends, d.same),
      d.same,
    )

-- A run of calls, one for each buffer: the stream, and the bytes returned one after the other.
unfoldable pub read_run : (b : Body) → List Bytes → Stream b → Stream b × Bytes
read_run b [] s = (s, [])
read_run b (buf ∷ bufs) s =
    let r = read b buf s in let rest = read_run b bufs r.0 in (rest.0, take r.2 r.1 ++ rest.1)

unfoldable pub AllWithin : ℕ → List Bytes → Type 0
AllWithin m [] = Unit {0}
AllWithin m (buf ∷ bufs) = (length buf ≤ m + 1) × AllWithin m bufs
