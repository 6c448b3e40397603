-- ===== src/Cbuffer/Taken.antt =====
-- lib/cbuffer.c: a read gives the bytes held, in their order from the head on.
use plo.Common.{
  get_or-take, get_or-drop, ℕ, zero, suc, ◌+◌, ◌-◌, ◌%◌, ◌≤◌, ◌<◌, ◌≡◌, refl, ap, sym, ◌∙◌, arith,
  Bool-cases, not, ◌&&◌, ◌||◌, inl, inr, [], ◌∷◌, ◌++◌, length, length-take, length-drop, drop, min,
  get_or, ◌==◌, ltb,
}
use native.Mathlib.Nat.{mod-eq_of_lt, mod-add-mod}
use plo.Common.CString.{Bytes}
use plo.Cbuffer.{Cbuffer, slice, size, read, read_first, read_second, advance_head}
use plo.Cbuffer.Indices.{IsValid, size_lem, wrap}
use plo.Cbuffer.Count.{read_counts, length-read_parts, read_lem}
use plo.Cbuffer.Fifo.{held}

get_or-append_first :
    (xs ys : Bytes) (i : ℕ) → i < length xs → get_or (xs ++ ys) i 0 ≡ get_or xs i 0
get_or-append_first [] ys i h = absurd (omega arith)
get_or-append_first (x ∷ xs) ys zero h = refl
get_or-append_first (x ∷ xs) ys (suc i) h = get_or-append_first xs ys i (omega arith)

get_or-append_second :
    (xs ys : Bytes) (i j : ℕ) → i ≡ length xs + j → get_or (xs ++ ys) i 0 ≡ get_or ys j 0
get_or-append_second [] ys i j h = ap (λ k. get_or ys k 0) {x = i} {y = j} (omega arith)
get_or-append_second (x ∷ xs) ys zero j h = absurd (omega arith)
get_or-append_second (x ∷ xs) ys (suc i) j h = get_or-append_second xs ys i j (omega arith)

-- The second part begins where the first one has come to the end of the storage.
second_part :
    (b : Cbuffer) (sz i : ℕ)
    → IsValid b
    → 0 < size b
    → read_first b sz ≤ i
    → i < read_first b sz + read_second b sz
    → (b.head + read_first b sz ≡ b.capacity) × (i < b.capacity)
second_part b sz i v some_held h lt = ground (arith, size_lem v)

parts-held :
    (b : Cbuffer) (sz i : ℕ)
    → IsValid b
    → 0 < size b
    → i < read_first b sz + read_second b sz
    → get_or (slice b.storage b.head (read_first b sz) ++ slice b.storage 0 (read_second b sz)) i 0
      ≡ held b i
unfolding held
parts-held b sz i v some_held lt =
    let n = read_first b sz in
    let m = read_second b sz in
    let c = read_counts b sz v some_held in
    let first : length (slice b.storage b.head n) ≡ n = omega (
      arith,
      v.storage_len,
      c.1,
      length-take n (drop b.head b.storage),
      length-drop b.head b.storage,
    ) in
    elim (Bool-cases (ltb i n)) [
      | inl here ↦
          let inside : i < n = ground arith in
          get_or-append_first (slice b.storage b.head n) (slice b.storage 0 m) i
            (omega (arith, first))
          ∙ get_or-take n i (drop b.head b.storage) inside
          ∙ get_or-drop b.head i b.storage
          ∙ ap (λ k. get_or b.storage k 0)
              (sym (mod-eq_of_lt {n = b.head + i} {m = b.capacity} (omega (arith, c.1))))
      | inr there ↦
          let behind : n ≤ i = ground arith in
          let (at_end, few) = second_part b sz i v some_held behind lt in
          let turn : (b.head + i) % b.capacity ≡ i - n =
            wrap (b.head + i) b.capacity (omega (arith, v.head_lt)) (omega arith) ∙ omega arith in
          get_or-append_second (slice b.storage b.head n) (slice b.storage 0 m) i (i - n)
            (omega (arith, first))
          ∙ get_or-take m (i - n) b.storage (omega arith)
          ∙ ap (λ k. get_or b.storage k 0) (sym turn)
    ]

-- Behind a read of `n` bytes the others have moved up by `n` places.
held-advance_head : (b : Cbuffer) (n i : ℕ) → held (advance_head b n) i ≡ held b (i + n)
unfolding held
held-advance_head b n i =
    ap (λ k. get_or b.storage k 0)
      (mod-add-mod (b.head + n) b.capacity i ∙ ap (λ k. k % b.capacity) (omega arith))

-- What a read gives and what it leaves, byte by byte.
read_bytes :
    (b : Cbuffer) (sz : ℕ)
    → IsValid b
    → let (out, b') = read b sz in
      ((i : ℕ) → i < length out → get_or out i 0 ≡ held b i)
      × ((i : ℕ) → held b' i ≡ held b (i + length out))
unfolding read
read_bytes b sz v = elim (Bool-cases (sz == 0 || (b.head == b.tail && not b.full))) [
  | inl stop ↦
      rw (stop, read)
        ((λ i h. absurd (omega arith)), λ i. ap (λ k. held b k) {x = i} {y = i + 0} (omega arith))
  | inr go ↦
      let some_held : 0 < size b = ground (arith, size_lem v) in
      let out = length-read_parts b sz v some_held in
      rw (go, read)
        (
          (λ i h. parts-held b sz i v some_held (omega (arith, out))),
          λ i.
              held-advance_head b (read_first b sz + read_second b sz) i
              ∙ ap (λ k. held b (i + k)) (sym out),
        )
]

-- On a valid buffer `lib_cbufRead` gives as many of the bytes held as are asked for: the first ones, in
-- their order. The others move up to the head, and the buffer stays valid.
pub read-held :
    {b : Cbuffer} (sz : ℕ)
    → IsValid b
    → let (out, b') = read b sz in
      IsValid b'
      × (length out ≡ min sz (size b))
      × (size b' + length out ≡ size b)
      × ((i : ℕ) → i < length out → get_or out i 0 ≡ held b i)
      × ((i : ℕ) → held b' i ≡ held b (i + length out))
read-held {b} sz v =
    let (valid, count, left) = read_lem sz v in
    let (first_ones, others) = read_bytes b sz v in (valid, count, left, first_ones, others)
