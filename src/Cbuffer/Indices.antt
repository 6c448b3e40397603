-- ===== src/Cbuffer/Indices.antt =====
-- The indices of the circular buffer: they stay in range as the tail and the head move.
use plo.Common.{ℕ, ◌+◌, ◌-◌, ◌%◌, ◌^◌, ◌≤◌, ◌<◌, ◌≡◌, true, arith, length, ◌==◌, ltb, if◌then◌else◌}
use native.Mathlib.Nat.{mod-eq_of_lt, mod-lt}
use plo.Cbuffer.{Cbuffer, size, advance_tail, advance_head}

-- The storage is as long as `capacity`, both indices lie in it, and only equal ones are full.
pub record IsValid (b : Cbuffer) : Type 0 where
  pub storage_len : length b.storage ≡ b.capacity
  pub small : b.capacity < 2 ^ 31
  pub head_lt : b.head < b.capacity
  pub tail_lt : b.tail < b.capacity
  pub full_eq : b.full ≡ true → b.head ≡ b.tail

-- One turn round the buffer at most.
pub wrap : (x cap : ℕ) → x < cap + cap → cap ≤ x → x % cap ≡ x - cap
wrap x cap h le = grind arith

-- The number of bytes held, with no wrap in it.
pub size_lem :
    {b : Cbuffer}
    → IsValid b
    → size b ≡ (
        if b.tail == b.head
        then (if b.full then b.capacity else 0)
        else if ltb b.head b.tail
        then b.tail - b.head
        else b.capacity + b.tail - b.head)
unfolding size
size_lem {b} v = ground (
  arith,
  wrap (b.tail + b.capacity - b.head) b.capacity,
  mod-eq_of_lt {n = b.tail + b.capacity - b.head} {m = b.capacity},
)

-- Moving the tail by `n` bytes that are free.
pub advance_tail_lem :
    (b : Cbuffer) (n : ℕ)
    → IsValid b
    → 0 < n
    → size b + n ≤ b.capacity
    → IsValid (advance_tail b n) × (size (advance_tail b n) ≡ size b + n)
advance_tail_lem b n v pos room = (
  valid,
  ground (
    arith,
    size_lem v,
    size_lem valid,
    wrap (b.tail + n) b.capacity,
    mod-eq_of_lt {n = b.tail + n} {m = b.capacity},
  ),
)
  where
    turn : (b.tail + n) % b.capacity < b.capacity
    turn = mod-lt (b.tail + n) (omega (arith, v.tail_lt))

    valid : IsValid (advance_tail b n)
    valid = record {
      storage_len = v.storage_len;
      small = v.small;
      head_lt = v.head_lt;
      tail_lt = turn;
      full_eq = λ e. ground arith;
    }

-- Moving the head over `n` bytes that are held.
pub advance_head_lem :
    (b : Cbuffer) (n : ℕ)
    → IsValid b
    → 0 < n
    → n ≤ size b
    → IsValid (advance_head b n) × (size (advance_head b n) + n ≡ size b)
advance_head_lem b n v pos room = (
  valid,
  ground (
    arith,
    size_lem v,
    size_lem valid,
    wrap (b.head + n) b.capacity,
    mod-eq_of_lt {n = b.head + n} {m = b.capacity},
  ),
)
  where
    valid : IsValid (advance_head b n)
    valid = record {
      storage_len = v.storage_len;
      small = v.small;
      head_lt = mod-lt (b.head + n) (omega (arith, v.tail_lt));
      tail_lt = v.tail_lt;
      full_eq = λ e. cc;
    }
