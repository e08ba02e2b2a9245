-- ===== src/Tests/ShoutcastRuns.antt =====
-- Runs of a shoutcast stream whose body is a list of bytes, and the theorems about it at them.
use amp_host_go.Base.{
  ℕ, ◌≤◌, ◌≡◌, refl, none, some, [], ◌∷◌, ◌++◌, arith, length, take, drop, ltb, if◌then◌else◌,
  if_false,
}
use amp_host_go.Base.Bytes.{Bytes}
use amp_host_go.Shoutcast.Stream.{Body, IsFilling, Stream, ReadError, read}
use amp_host_go.Shoutcast.Stream.Reads.{read_run}

abbrev file_body : Body
file_body = record {
  State = Bytes;
  read = λ s n. (drop n s, take n s, if ltb (length s) n then some ReadError.eof else none);
}

file_body-ok : (s : Bytes) (n : ℕ) → n ≤ length s → (file_body.read s n).2 ≡ none
file_body-ok s n h = if_false {b = ltb (length s) n} _ _ (ground arith)

abbrev file_body-IsFilling : IsFilling file_body
file_body-IsFilling = record {
  content = λ s. s;
  read_gives = λ s n. refl;
  read_leaves = λ s n. refl;
  read_ok = file_body-ok;
}

-- Three bytes of audio before each block; the first block has sixteen bytes, the second none.
abbrev song : Bytes
song =
    1 ∷ 2 ∷ 3 ∷ 1 ∷ 83 ∷ 61 ∷ 0 ∷ 0 ∷ 0 ∷ 0 ∷ 0 ∷ 0 ∷ 0 ∷ 0 ∷ 0 ∷ 0 ∷ 0 ∷ 0 ∷ 0 ∷ 0 ∷ 4 ∷ 5 ∷ 6 ∷ 0
    ∷ 7 ∷ 8 ∷ []

abbrev stream : Stream file_body
stream = record { metaint = 3; pos = 0; blocks = []; reader = song }

abbrev four : Bytes
four = 0 ∷ 0 ∷ 0 ∷ 0 ∷ []

read_run-song :
    (read_run file_body (four ∷ four ∷ four ∷ []) stream).1 ≡ 1 ∷ 2 ∷ 3 ∷ 4 ∷ 5 ∷ 6 ∷ 7 ∷ 8 ∷ []
unfolding read_run read
read_run-song = refl

-- A body that gives four bytes at a time.
abbrev slow_body : Body
slow_body = record { State = Bytes; read = λ s n. (drop 4 s, take 4 s, none) }

abbrev slow : Stream slow_body
slow = record { metaint = 3; pos = 0; blocks = []; reader = song }

abbrev twenty : Bytes
twenty = (four ++ four) ++ (four ++ four) ++ four

-- The buffer is longer than what was read, and a block begins there: old bytes of the buffer are
-- taken for the block, and the second call returns the block's bytes as audio.
read_run-slow : (read_run slow_body (twenty ∷ four ∷ []) slow).1 ≡ 1 ∷ 2 ∷ 3 ∷ 83 ∷ 61 ∷ 0 ∷ []
unfolding read_run read
read_run-slow = refl
