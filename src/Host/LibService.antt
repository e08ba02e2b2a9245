-- ===== src/Host/LibService.antt =====
-- amp/host/lib_service/lib.service.go: Realloc of a session's buffers, and Close. A buffer is the
-- address of its array with its length and capacity, and an address is a number that is not used
-- twice. `newLen` is an int64 pattern.
pub mod Replacing
pub mod Tracked
use amp_host_go.Base.{
  ℕ, ◌+◌, ◌-◌, ◌*◌, ◌/◌, ◌%◌, ◌^◌, Bool, true, false, not, ◌&&◌, ◌||◌, Option, none, some, List, [],
  ◌∷◌, ◌==◌, ltb, leb, if◌then◌else◌, get_elem?, set,
}
use amp_host_go.Base.Words.{is_negative}
use amp_host_go.Base.Assoc.{lookup, insert, delete}

pub record Buffer : Type 0 where
  pub ptr : ℕ
  pub len : ℕ
  pub cap : ℕ

-- `next_ptr` is the next address that the runtime gives.
pub record LibSession : Type 0 where
  pub mallocs : List (ℕ × Unit {0})
  pub next_ptr : ℕ
  pub closed : ℕ
  -- how often the channel `closing` was closed; a second time panics
  pub closing : ℕ

abbrev pub no_buffer : Buffer
no_buffer = record { ptr = 0; len = 0; cap = 0 }

-- (newLen + 0x3FF) &^ 0x3FF.
unfoldable pub dim_sz : ℕ → ℕ
dim_sz new_len = let sum = (new_len + 1023) % 2 ^ 64 in sum - sum % 1024

-- The part of Realloc under mallocsMu. The address of the first byte of an empty buffer and a
-- length of a new one that is negative or above what the runtime allocates, `max_alloc`, panic.
unfoldable pub reallocate : ℕ → Buffer → ℕ → LibSession → Option (Buffer × LibSession)
unfolding dim_sz
reallocate max_alloc buf new_len s =
    let freed = if ltb 0 buf.cap then delete buf.ptr s.mallocs else s.mallocs in
    if ltb 0 buf.cap && (buf.len == 0)
    then none
    else (if not (ltb 0 new_len)
        then some (no_buffer, record s { mallocs = freed })
        else (if is_negative (dim_sz new_len) || ltb max_alloc (dim_sz new_len)
            then none
            else some (
              record { ptr = s.next_ptr; len = new_len; cap = dim_sz new_len },
              record s { mallocs = insert s.next_ptr tt freed; next_ptr = s.next_ptr + 1 },
            )))

unfoldable pub realloc : ℕ → Buffer → ℕ → LibSession → Option (Buffer × LibSession)
unfolding reallocate
realloc max_alloc buf requested s =
    let new_len = if is_negative requested then 0 else requested in
    if ltb 0 new_len && leb new_len buf.cap
    then some (record buf { len = new_len }, s)
    else reallocate max_alloc buf new_len s

-- Close.
unfoldable pub close_lib : LibSession → LibSession
close_lib s = if s.closed == 0 then record s { closed = 1; closing = s.closing + 1 } else s

-- The buffers that a client holds, and its calls.
pub record Client : Type 0 where
  pub buffers : List Buffer
  pub session : LibSession

pub data LibEvent : Type 0 where
  reallocs : ℕ → ℕ → LibEvent
  closes : LibEvent

unfoldable pub lib_step : ℕ → LibEvent → Client → Option Client
unfolding realloc close_lib
lib_step max_alloc closes c = some (record c { session = close_lib c.session })
lib_step max_alloc (reallocs i new_len) c = elim (get_elem? c.buffers i) [
  | none ↦ none
  | some buf ↦ elim (realloc max_alloc buf new_len c.session) [
    | none ↦ none
    | some (buf', s) ↦ some (record { buffers = set c.buffers i buf'; session = s })
  ]
]

unfoldable pub lib_run : ℕ → List LibEvent → Client → Option Client
unfolding lib_step
lib_run max_alloc [] c = some c
lib_run max_alloc (e ∷ es) c = elim (lib_step max_alloc e c) [
  | none ↦ none
  | some c' ↦ lib_run max_alloc es c'
]

-- A new session, and buffers that are empty.
abbrev pub new_client : List Buffer → Client
new_client buffers = record {
  buffers = buffers;
  session = record { mallocs = []; next_ptr = 1; closed = 0; closing = 0 };
}
