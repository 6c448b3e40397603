-- ===== src/Cbuffer.antt =====
-- lib/cbuffer.c: a circular buffer of bytes over storage that the caller gives.
pub mod Indices
pub mod Count
pub mod Fifo
pub mod Taken
use plo.Common.{
  ℕ, ◌+◌, ◌-◌, ◌%◌, Bool, true, false, not, ◌&&◌, ◌||◌, List, [], ◌∷◌, ◌++◌, Option, none, some,
  min, ltb, leb, ◌==◌, if◌then◌else◌, take, drop, length, set, get_elem?,
}
use plo.Common.Bits.{u32}
use plo.Common.CString.{Bytes}

-- `cbuffer_t`; `full` is 0 or 1 in the source, and a `size_t` has 32 bits.
pub record Cbuffer : Type 0 where
  pub capacity : ℕ
  pub tail : ℕ
  pub head : ℕ
  pub full : Bool
  pub storage : Bytes

-- `hal_memcpy(storage + at, src, length src)`
abbrev pub put : Bytes → ℕ → Bytes → Bytes
put storage at src = take at storage ++ (src ++ drop (at + length src) storage)

-- The `n` bytes from `at` on.
abbrev pub slice : Bytes → ℕ → ℕ → Bytes
slice storage at n = take n (drop at storage)

-- `lib_cbufInit`
unfoldable pub init : Bytes → ℕ → Cbuffer
init storage capacity = record {
  capacity = capacity;
  tail = 0;
  head = 0;
  full = false;
  storage = storage;
}

-- `lib_cbufSize`, with the wrap of `tail - head + capacity`.
unfoldable pub size : Cbuffer → ℕ
size b =
    if b.tail == b.head
    then (if b.full then b.capacity else 0)
    else u32 (b.tail + 0x1_0000_0000 - b.head + b.capacity) % b.capacity

-- `lib_cbufEmpty`
unfoldable pub empty : Cbuffer → Bool
empty b = b.head == b.tail && not b.full

-- How many bytes the two copies of `lib_cbufWrite` take.
abbrev pub write_first : Cbuffer → ℕ → ℕ
write_first b sz =
    if ltb b.tail b.head then min sz (b.head - b.tail) else min sz (b.capacity - b.tail)

abbrev pub write_second : Cbuffer → ℕ → ℕ
write_second b sz =
    if ltb b.tail b.head
    then 0
    else if ltb (write_first b sz) sz && not (b.head == 0)
    then min (sz - write_first b sz) b.head
    else 0

-- `buf->tail` and `buf->full` after a write of `n` bytes.
abbrev pub advance_tail : Cbuffer → ℕ → Cbuffer
advance_tail b n =
    let tail = (b.tail + n) % b.capacity in record b { tail = tail; full = tail == b.head }

-- `lib_cbufWrite`: the number of bytes taken, and the buffer.
unfoldable pub write : Cbuffer → Bytes → ℕ × Cbuffer
write b src =
    let sz = length src in
    if sz == 0 || b.full
    then (0, b)
    else let n = write_first b sz in
      let m = write_second b sz in
      let storage = put (put b.storage b.tail (take n src)) 0 (take m (drop n src)) in
      (n + m, advance_tail (record b { storage = storage }) (n + m))

-- `lib_cbufWriteByte`
unfoldable pub write_byte : Cbuffer → ℕ → Bool × Cbuffer
write_byte b c =
    if b.full
    then (false, b)
    else (true, advance_tail (record b { storage = set b.storage b.tail c }) 1)

-- How many bytes the two copies of `lib_cbufRead` give.
abbrev pub read_first : Cbuffer → ℕ → ℕ
read_first b sz =
    if ltb b.head b.tail then min sz (b.tail - b.head) else min sz (b.capacity - b.head)

abbrev pub read_second : Cbuffer → ℕ → ℕ
read_second b sz =
    if ltb b.head b.tail
    then 0
    else if ltb (read_first b sz) sz
    then min (sz - read_first b sz) b.tail
    else 0

abbrev pub advance_head : Cbuffer → ℕ → Cbuffer
advance_head b n = record b { head = (b.head + n) % b.capacity; full = false }

-- `lib_cbufRead`: the bytes that it copies out, whose number it returns, and the buffer.
unfoldable pub read : Cbuffer → ℕ → Bytes × Cbuffer
read b sz =
    if sz == 0 || (b.head == b.tail && not b.full)
    then ([], b)
    else let n = read_first b sz in
      let m = read_second b sz in
      (slice b.storage b.head n ++ slice b.storage 0 m, advance_head b (n + m))

-- `lib_cbufReadByte`; `none` is the result 0.
unfoldable pub read_byte : Cbuffer → Option ℕ × Cbuffer
read_byte b =
    if b.head == b.tail && not b.full
    then (none, b)
    else (get_elem? b.storage b.head, advance_head b 1)
