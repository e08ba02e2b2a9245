-- ===== src/Shoutcast/Stream.antt =====
-- amp/apps/amp.app.shoutcast/stream.go: Read of a stream that has a block of metadata after each
-- `metaint` bytes of audio. The body of the response is a parameter, an io.Reader with its state.
-- `blocks` logs what NewMetadata is given, as it is when it is given: the slice shares the caller's
-- buffer. `metaint` is not negative.
pub mod Demux
pub mod Extracting
pub mod Reading
pub mod Reads
pub mod Rounds
use amp_host_go.Base.{
  ℕ, zero, suc, ◌+◌, ◌-◌, ◌*◌, ◌≤◌, ◌<◌, ◌≡◌, Bool, true, false, not, ◌&&◌, ◌||◌, Option, none,
  some, List, [], ◌∷◌, ◌++◌, ◌==◌, ltb, if◌then◌else◌, length, take, drop,
}
use amp_host_go.Base.Bytes.{Bytes}

pub data ReadError : Type 0 where
  eof unexpected_eof : ReadError
  other : ℕ → ReadError

-- io.Reader: the bytes that a Read of a buffer of some length returns, and its error.
pub record Body : Type 1 where
  pub State : Type 0
  pub read : State → ℕ → State × Bytes × Option ReadError

-- A reader fills the buffer as long as it has bytes.
pub record IsFilling (b : Body) : Type 0 where
  pub content : b.State → Bytes
  pub read_gives : (s : b.State) (n : ℕ) → (b.read s n).1 ≡ take n (content s)
  pub read_leaves : (s : b.State) (n : ℕ) → content (b.read s n).0 ≡ drop n (content s)
  pub read_ok : (s : b.State) (n : ℕ) → n ≤ length (content s) → (b.read s n).2 ≡ none

pub record Stream (b : Body) : Type 0 where
  pub metaint : ℕ
  pub pos : ℕ
  pub blocks : List Bytes
  pub reader : b.State

-- The loop of extractMetadata that reads the rest of a block. Fuel: a Read returns a byte or an
-- error, so the number of missing bytes is enough.
unfoldable pub read_rest :
    (b : Body) → ℕ → ℕ → b.State → Bytes → Option ReadError → b.State × Bytes × Option ReadError
read_rest b zero meta_len s metabuf err = (s, metabuf, err)
read_rest b (suc fuel) meta_len s metabuf (some e) = (s, metabuf, some e)
read_rest b (suc fuel) meta_len s metabuf none =
    let (s', got, err) = b.read s (meta_len - length metabuf) in
    let rest = read_rest b fuel meta_len s' (metabuf ++ got) err in
    if ltb (length metabuf) meta_len then rest else (s, metabuf, none)

abbrev pub first_byte : Bytes → ℕ
first_byte [] = 0
first_byte (x ∷ xs) = x

-- What the block's read ended with, where it is too short.
abbrev pub short_error : Option ReadError → ReadError
short_error none = unexpected_eof
short_error (some eof) = unexpected_eof
short_error (some unexpected_eof) = unexpected_eof
short_error (some (other c)) = other c

-- The length of the block with its length byte, and the error.
unfoldable pub extract_metadata : (b : Body) → Bytes → Stream b → Stream b × ℕ × Option ReadError
unfolding read_rest
extract_metadata b buf_in s =
    let meta_len = first_byte buf_in * 16 in
    let end = meta_len + 1 in
    let missing = meta_len - (length buf_in - 1) in
    let (reader, metabuf, err) = read_rest b missing meta_len s.reader (drop 1 buf_in) none in
    if meta_len == 0
    then (s, end, none)
    else (if ltb (length buf_in) end
        then (if length metabuf == meta_len
            then (record s { reader = reader; blocks = s.blocks ++ metabuf ∷ [] }, end, err)
            else (record s { reader = reader }, end, some (short_error err)))
        else (record s { blocks = s.blocks ++ take meta_len (drop 1 buf_in) ∷ [] }, end, none))

-- `copy(buf[at:], buf[from:])`, for `at ≤ from`.
abbrev pub copy_down : Bytes → ℕ → ℕ → Bytes
copy_down buf at from = take at buf ++ drop from buf ++ drop (at + length (drop from buf)) buf

-- The variables of the loop of Read.
pub record Scan (b : Body) : Type 0 where
  pub stream : Stream b
  pub buf : Bytes
  pub n : ℕ
  pub checked : ℕ
  pub unchecked : ℕ
  pub error : Option ReadError

abbrev pub keep_error : Option ReadError → Option ReadError → Option ReadError
keep_error err none = err
keep_error err (some e) = some e

-- One round: a block starts at `checked + offset`.
unfoldable pub scan_block : (b : Body) → Scan b → Scan b
unfolding extract_metadata
scan_block b c =
    let offset = c.stream.metaint - c.stream.pos in
    let (stream, skip, meta_err) = extract_metadata b (drop (c.checked + offset) c.buf) c.stream in
    let at = c.checked + offset in
    let next = record c {
      stream = record stream { pos = 0 };
      error = keep_error c.error meta_err;
    } in
    if ltb c.unchecked (offset + skip) then record next { n = at; unchecked = 0 } else record next {
      checked = at;
      n = c.n - skip;
      unchecked = c.n - skip - at;
      buf = copy_down c.buf at (at + skip);
    }

-- Fuel: a round lowers `unchecked`.
unfoldable pub scan_blocks : (b : Body) → ℕ → Scan b → Scan b
unfolding scan_block
scan_blocks b zero c = c
scan_blocks b (suc fuel) c =
    let next = scan_blocks b fuel (scan_block b c) in
    if ltb c.stream.metaint (c.stream.pos + c.unchecked) then next else c

-- Read: the stream, the caller's buffer, the count, and the error.
unfoldable pub read : (b : Body) → Bytes → Stream b → Stream b × Bytes × ℕ × Option ReadError
unfolding scan_blocks
read b buf s =
    let (reader, got, err) = b.read s.reader (length buf) in
    let c = scan_blocks b (length got) (record {
      stream = record s { reader = reader };
      buf = got ++ drop (length got) buf;
      n = length got;
      checked = 0;
      unchecked = length got;
      error = err;
    }) in
    (record c.stream { pos = c.stream.pos + c.unchecked }, c.buf, c.n, c.error)
