-- ===== src/Cbuffer/Count.antt =====
-- The transfers of the circular buffer: they count the bytes held.
use plo.Common.{
  ℕ, ◌+◌, ◌-◌, ◌≤◌, ◌<◌, ◌≡◌, refl, ap, ◌∙◌, true, false, [], not, ◌&&◌, ◌||◌, ◌++◌, min, arith,
  length, length-append, length-take, length-drop, length-set, get_elem?-eq-some, none, ◌↔◌, set,
  take, drop, ◌==◌, if◌then◌else◌, Bool-cases, inl, inr,
}
use plo.Common.CString.{Bytes}
use plo.Cbuffer.Indices.{IsValid, size_lem, advance_tail_lem, advance_head_lem}
use plo.Cbuffer.{
  Cbuffer, put, slice, size, empty, write_first, write_second, advance_tail, write, write_byte,
  read_first, read_second, read, read_byte,
}

length-put :
    (storage src : Bytes) (at : ℕ)
    → at + length src ≤ length storage
    → length (put storage at src) ≡ length storage
length-put storage src at h = omega (
  arith,
  length-append (take at storage) (src ++ drop (at + length src) storage),
  length-append src (drop (at + length src) storage),
  length-take at storage,
  length-drop (at + length src) storage,
)

-- The two copies of a write together take what is free, and stay inside the storage.
write_counts :
    (b : Cbuffer) (sz : ℕ)
    → IsValid b
    → b.full ≡ false
    → (write_first b sz + write_second b sz ≡ min sz (b.capacity - size b))
      × (b.tail + write_first b sz ≤ b.capacity)
      × (write_second b sz ≤ b.capacity)
write_counts b sz v f = ground (arith, size_lem v)

pub read_counts :
    (b : Cbuffer) (sz : ℕ)
    → IsValid b
    → 0 < size b
    → (read_first b sz + read_second b sz ≡ min sz (size b))
      × (b.head + read_first b sz ≤ b.capacity)
      × (read_second b sz ≤ b.capacity)
read_counts b sz v f = ground (arith, size_lem v)

-- What the four transfers promise of the result `n` and the buffer left.
pub record Wrote (b : Cbuffer) (sz n : ℕ) (b' : Cbuffer) : Type 0 where
  pub valid : IsValid b'
  pub count : n ≡ min sz (b.capacity - size b)
  pub held : size b' ≡ size b + n
  pub same_capacity : b'.capacity ≡ b.capacity

size-le : {b : Cbuffer} → IsValid b → size b ≤ b.capacity
size-le v = ground (arith, size_lem v)

size-lt : {b : Cbuffer} → IsValid b → b.full ≡ false → size b < b.capacity
size-lt v f = ground (arith, size_lem v)

IsValid-storage :
    (b : Cbuffer) (storage : Bytes)
    → IsValid b
    → length storage ≡ length b.storage
    → IsValid (record b { storage = storage })
IsValid-storage b storage v e = record {
  storage_len = e ∙ v.storage_len;
  small = v.small;
  head_lt = v.head_lt;
  tail_lt = v.tail_lt;
  full_eq = v.full_eq;
}

-- A write into a buffer that is not full.
write_room :
    (b : Cbuffer) (src : Bytes)
    → IsValid b
    → b.full ≡ false
    → 0 < length src
    → let n = write_first b (length src) in
      let m = write_second b (length src) in
      let storage = put (put b.storage b.tail (take n src)) 0 (take m (drop n src)) in
      Wrote b (length src) (n + m) (advance_tail (record b { storage = storage }) (n + m))
write_room b src v f pos =
    let sz = length src in
    let n = write_first b sz in
    let m = write_second b sz in
    let c = write_counts b sz v f in
    let once = put b.storage b.tail (take n src) in
    let twice = put once 0 (take m (drop n src)) in
    let len₁ : length once ≡ length b.storage =
      length-put b.storage (take n src) b.tail
        (omega (arith, c.1, v.storage_len, length-take n src)) in
    let len₂ : length twice ≡ length once =
      length-put once (take m (drop n src)) 0
        (omega (arith, c.2, len₁, v.storage_len, length-take m (drop n src))) in
    let b' : Cbuffer = record b { storage = twice } in
    let v' : IsValid b' = IsValid-storage b twice v (len₂ ∙ len₁) in
    let same : size b' ≡ size b = unfold size in refl in
    let a =
      advance_tail_lem b' (n + m) v' (omega (arith, size-lt v f, c.0))
        (omega (arith, size-lt v f, c.0, same)) in
    record {
      valid = a.0;
      count = c.0;
      held = a.1 ∙ ap (λ k. k + (n + m)) same;
      same_capacity = refl;
    }

full_room : {b : Cbuffer} → IsValid b → b.full ≡ true → size b ≡ b.capacity
full_room v f = ground (arith, size_lem v, v.full_eq)

-- On a valid buffer `lib_cbufWrite` takes as many bytes as there is room for, returns their number, adds it to the
-- bytes held, and keeps the indices and the storage in order.
pub write-Wrote :
    {b : Cbuffer} (src : Bytes) → IsValid b → let (n, b') = write b src in Wrote b (length src) n b'
unfolding write
write-Wrote {b} src v = elim (Bool-cases (length src == 0 || b.full)) [
  | inl stop ↦
      rw (stop, write)
        (record { valid = v; count = nothing stop; held = omega arith; same_capacity = refl })
  | inr go ↦ rw (go, write) (write_room b src v (ground arith) (ground arith))
]
  where
    nothing : length src == 0 || b.full ≡ true → 0 ≡ min (length src) (b.capacity - size b)
    nothing stop = ground (arith, full_room v)

write_byte_full : (b : Cbuffer) (c : ℕ) → b.full ≡ true → write_byte b c ≡ (false, b)
unfolding write_byte
write_byte_full b c f = ground arith

write_byte_room :
    (b : Cbuffer) (c : ℕ)
    → b.full ≡ false
    → write_byte b c ≡ (true, advance_tail (record b { storage = set b.storage b.tail c }) 1)
unfolding write_byte
write_byte_room b c f = ground arith

-- On a valid buffer `lib_cbufWriteByte` fails exactly when the buffer is full, and else adds one byte.
pub write_byte_lem :
    {b : Cbuffer} (c : ℕ)
    → IsValid b
    → let (done, b') = write_byte b c in
      IsValid b'
      × (size b' ≡ (if done then size b + 1 else size b))
      × ((done ≡ false) ↔ (size b ≡ b.capacity))
write_byte_lem {b} c v = elim (Bool-cases b.full) [
  | inl f ↦ rw (write_byte_full b c f) (v, refl, ((λ _. full_room v f), λ _. refl))
  | inr f ↦
      let v' = IsValid-storage b (set b.storage b.tail c) v (length-set b.storage b.tail c) in
      let same : size (record b { storage = set b.storage b.tail c }) ≡ size b =
        unfold size in refl in
      let a = advance_tail_lem _ 1 v' (omega arith) (omega (arith, size-lt v f, same)) in
      rw (write_byte_room b c f)
        (a.0, omega (arith, a.1, same), ((λ e. cc), λ e. absurd (omega (arith, size-lt v f))))
]

-- The two parts that a read copies out.
pub length-read_parts :
    (b : Cbuffer) (sz : ℕ)
    → IsValid b
    → 0 < size b
    → length (slice b.storage b.head (read_first b sz) ++ slice b.storage 0 (read_second b sz))
      ≡ read_first b sz + read_second b sz
length-read_parts b sz v held =
    let c = read_counts b sz v held in
    let n = read_first b sz in
    let m = read_second b sz in
    omega (
      arith,
      v.storage_len,
      c.1,
      c.2,
      length-append (slice b.storage b.head n) (slice b.storage 0 m),
      length-take n (drop b.head b.storage),
      length-take m b.storage,
      length-drop b.head b.storage,
    )

-- On a valid buffer `lib_cbufRead` gives as many of the bytes held as are asked for, and takes them out.
pub read_lem :
    {b : Cbuffer} (sz : ℕ)
    → IsValid b
    → let (out, b') = read b sz in
      IsValid b' × (length out ≡ min sz (size b)) × (size b' + length out ≡ size b)
unfolding read
read_lem {b} sz v = elim (Bool-cases (sz == 0 || (b.head == b.tail && not b.full))) [
  | inl stop ↦ rw (stop, read) (v, nothing stop, omega arith)
  | inr go ↦
      let held : 0 < size b = ground (arith, size_lem v) in
      let c = read_counts b sz v held in
      let n = read_first b sz in
      let m = read_second b sz in
      let out = length-read_parts b sz v held in
      let a = advance_head_lem b (n + m) v (ground (arith, c.0)) (omega (arith, c.0)) in
      rw (go, read) (a.0, out ∙ c.0, omega (arith, out, a.1))
]
  where
    nothing :
        sz == 0 || (b.head == b.tail && not b.full) ≡ true → length {A = ℕ} [] ≡ min sz (size b)
    nothing stop = ground (arith, size_lem v)

-- On a valid buffer `lib_cbufReadByte` fails exactly when the buffer is empty, as `lib_cbufEmpty` says, and else
-- takes one byte out.
pub read_byte_lem :
    {b : Cbuffer}
    → IsValid b
    → let (out, b') = read_byte b in
      IsValid b'
      × ((out ≡ none) ↔ (empty b ≡ true))
      × (size b ≡ (if empty b then size b' else size b' + 1))
unfolding read_byte empty
read_byte_lem {b} v = elim (Bool-cases (b.head == b.tail && not b.full)) [
  | inl stop ↦ rw (stop, read_byte, empty) (v, ((λ _. refl), λ _. refl), refl)
  | inr go ↦
      let held : 0 < size b = ground (arith, size_lem v) in
      let a = advance_head_lem b 1 v (omega arith) (omega (arith, held)) in
      let got = get_elem?-eq-some b.storage b.head (omega (arith, v.storage_len, v.head_lt)) in
      rw (go, read_byte, empty) (a.0, ((λ e. cc (got.1)), λ e. cc), omega (arith, a.1))
]
