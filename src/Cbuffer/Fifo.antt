-- ===== src/Cbuffer/Fifo.antt =====
-- lib/cbuffer.c: single bytes come out in the order in which they went in.
use plo.Common.{
  ℕ, zero, suc, ◌+◌, ◌%◌, ◌<◌, ◌≡◌, ◌≢◌, refl, ap, ◌∙◌, sym, subst, Bool, true, false, not, ◌&&◌,
  some, get_or, get_elem?, set, length, arith, ◌==◌, if◌then◌else◌, get_or-set_self, get_or-set_ne,
  List, [], ◌∷◌,
}
use native.Mathlib.Nat.{mod-eq_of_lt, mod-add-mod}
use plo.Cbuffer.{Cbuffer, size, write_byte, read_byte, advance_tail}
use plo.Cbuffer.Indices.{IsValid, size_lem, wrap}

-- The byte that stands at place `i` of those held, from the head on.
unfoldable pub held : Cbuffer → ℕ → ℕ
held b i = get_or b.storage ((b.head + i) % b.capacity) 0

-- The place behind the bytes held is the tail, and no byte held stands there.
place_size : (b : Cbuffer) → IsValid b → b.full ≡ false → (b.head + size b) % b.capacity ≡ b.tail
place_size b v f = ground (
  arith,
  size_lem v,
  wrap (b.head + size b) b.capacity,
  mod-eq_of_lt {n = b.head + size b} {m = b.capacity},
)

place-ne :
    (b : Cbuffer) (i : ℕ)
    → IsValid b
    → b.full ≡ false
    → i < size b
    → (b.head + i) % b.capacity ≢ b.tail
place-ne b i v f h = ground (
  arith,
  size_lem v,
  wrap (b.head + i) b.capacity,
  mod-eq_of_lt {n = b.head + i} {m = b.capacity},
)

write_byte_room :
    (b : Cbuffer) (c : ℕ)
    → b.full ≡ false
    → write_byte b c ≡ (true, advance_tail (record b { storage = set b.storage b.tail c }) 1)
unfolding write_byte
write_byte_room b c f =
    ap
      (λ (full : Bool).
        if full
        then (false, b)
        else (true, advance_tail (record b { storage = set b.storage b.tail c }) 1))
      f

-- What `lib_cbufWriteByte` does where a valid buffer is not full: the bytes held stay in their places,
-- and the new one follows them.
pub write_byte-held :
    (b : Cbuffer) (c : ℕ)
    → IsValid b
    → b.full ≡ false
    → ((i : ℕ) → i < size b → held (write_byte b c).1 i ≡ held b i)
      × (held (write_byte b c).1 (size b) ≡ c)
unfolding held
write_byte-held b c v f =
    let goal : Bool × Cbuffer → Type 0 =
      λ r. ((i : ℕ) → i < size b → held r.1 i ≡ held b i) × (held r.1 (size b) ≡ c) in
    subst goal (sym (write_byte_room b c f)) (
      λ i h. get_or-set_ne b.storage b.tail ((b.head + i) % b.capacity) c 0 (place-ne b i v f h),
      ap (λ k. get_or (set b.storage b.tail c) k 0) (place_size b v f)
          ∙ get_or-set_self b.storage b.tail c 0 (omega (arith, v.tail_lt)),
    )

get_elem?-get_or :
    {A : Type 0} (xs : List A) (i : ℕ) (d : A)
    → i < length xs
    → get_elem? xs i ≡ some (get_or xs i d)
get_elem?-get_or [] i d h = elim h [ ]
get_elem?-get_or (x ∷ xs) zero d h = refl
get_elem?-get_or (x ∷ xs) (suc i) d h = get_elem?-get_or xs i d (omega arith)

-- What `lib_cbufReadByte` does where a valid buffer holds bytes: it gives the first of them, and the others
-- move up by one place.
pub read_byte-held :
    (b : Cbuffer)
    → IsValid b
    → 0 < size b
    → ((read_byte b).0 ≡ some (held b 0)) × ((i : ℕ) → held (read_byte b).1 i ≡ held b (i + 1))
unfolding held read_byte
read_byte-held b v h =
    let some_held : (b.head == b.tail && not b.full) ≡ false = ground (arith, size_lem v) in
    let first : (b.head + 0) % b.capacity ≡ b.head =
      ap (λ k. k % b.capacity) (omega arith) ∙ mod-eq_of_lt v.head_lt in
    rw (read_byte, some_held)
      (
        get_elem?-get_or b.storage b.head 0 (omega (arith, v.head_lt))
            ∙ ap (λ k. some (get_or b.storage k 0)) (sym first),
        λ i.
            ap (λ k. get_or b.storage k 0)
              (mod-add-mod (b.head + 1) b.capacity i ∙ ap (λ k. k % b.capacity) (omega arith)),
      )
