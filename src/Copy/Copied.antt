-- ===== src/Copy/Copied.antt =====
-- cmds/copy.c: what is read is written, from the first byte to the last.
use plo.Common.{
  ℕ, zero, suc, ◌+◌, ◌-◌, ◌%◌, ◌^◌, ◌≤◌, ◌<◌, ◌≡◌, refl, ap, ap₂, subst, ◌∙◌, arith, Bool,
  Bool-cases, true, false, ◌&&◌, some, [], ◌∷◌, length, length-take, length-drop, take, drop, min,
  ltb, ◌==◌, if◌then◌else◌, inl, inr,
}
use native.Mathlib.Nat.{add-mod_right, mod-eq_of_lt}
use plo.Common.CString.{Bytes}
use plo.Common.Result.{Result, ok}
use plo.Copy.{buffer_size, copy_size, sub, add, write_chunk, copy_loop, cpphfs2phfs}

copy_size_fits : (w src dst : ℕ) → src < 2 ^ w → dst < 2 ^ w → copy_size w src dst < 2 ^ w
unfolding copy_size
copy_size_fits w src dst u v = ground arith

take-length : (xs : Bytes) → take (length xs) xs ≡ xs
take-length [] = refl
take-length (x ∷ xs) = ap (λ r. x ∷ r) (take-length xs)

sub_lem : (w a b : ℕ) → b ≤ a → a < 2 ^ w → sub w a b ≡ a - b
sub_lem w a b h u =
    ap (λ t. t % 2 ^ w) (the_sum h) ∙ add-mod_right (a - b) (2 ^ w) ∙ mod-eq_of_lt (omega arith)
  where
    the_sum : b ≤ a → a + 2 ^ w - b ≡ a - b + 2 ^ w
    the_sum h = omega arith

add_lem : (w a b : ℕ) → a + b < 2 ^ w → add w a b ≡ a + b
add_lem w a b h = mod-eq_of_lt h

bool-if :
    {A : Type 0} (x y : A) (b : Bool)
    → Path A (elim b [ true ↦ x | false ↦ y ]) (if b then x else y)
bool-if x y true = refl
bool-if x y false = refl

module _ {S : Type 0} (w : ℕ) (read : ℕ → ℕ → S → Result Bytes × S)
    (write : ℕ → Bytes → S → Result ℕ × S) (src_addr dst_addr : ℕ) where
  -- A buffer that is written at once.
  write_chunk-once :
      (x : ℕ) (xs : Bytes) (k : ℕ) (s s' : S)
      → write (add w dst_addr k) (x ∷ xs) s ≡ (ok (length (x ∷ xs)), s')
      → k + length (x ∷ xs) < 2 ^ w
      → write_chunk w read write src_addr dst_addr
          (suc (length (x ∷ xs)))
          (x ∷ xs)
          (length (x ∷ xs))
          k
          (length (x ∷ xs))
          s
        ≡ some (ok (k + length (x ∷ xs), length (x ∷ xs)), s')
  unfolding write_chunk
  write_chunk-once x xs k s s' e u =
      let n = length (x ∷ xs) in
      let some_left : (suc (length xs) == 0) ≡ false = ground arith in
      let all : x ∷ take (length xs) xs ≡ x ∷ xs = ap (λ r. x ∷ r) (take-length xs) in
      let none_left : sub w n n ≡ 0 = sub_lem w n n (omega arith) (omega arith) ∙ omega arith in
      let sum : add w k n ≡ k + n = add_lem w k n u in
      rw (some_left, all, e, write_chunk)
        (ap₂ (λ c z. write_chunk w read write src_addr dst_addr n (x ∷ xs) c z n s') none_left sum)

  -- A turn of the outer loop, when it has read and written.
  copy_loop-turn :
      (fuel size k : ℕ) (buff : Bytes) (s s1 s2 : S)
      → sub w size k ≡ size - k
      → read (add w src_addr k) (if ltb buffer_size (size - k) then buffer_size else size - k) s
        ≡ (ok buff, s1)
      → write_chunk w read write src_addr dst_addr
          (suc (length buff))
          buff
          (length buff)
          k
          (length buff)
          s1
        ≡ some (ok (k + length buff, length buff), s2)
      → copy_loop w read write src_addr dst_addr (suc fuel) size k k s ≡ (
          if ltb 0 (sub w size (add w k (length buff))) && ltb 0 (length buff)
          then copy_loop w read write src_addr dst_addr fuel size
              (add w k (length buff))
              (k + length buff)
              s2
          else some (ok (k + length buff), s2))
  unfolding copy_loop
  copy_loop-turn fuel size k buff s s1 s2 left r p =
      rw (left, r, copy_loop)
        (rw p (bool-if _ _ (ltb 0 (sub w size (add w k (length buff))) && ltb 0 (length buff))))

-- The bytes that are read from the place `k` on, `n` of them at most.
abbrev pub slice : Bytes → ℕ → ℕ → Bytes
slice content k n = take n (drop k content)

module _ {S : Type 0} (w : ℕ) (read : ℕ → ℕ → S → Result Bytes × S)
    (write : ℕ → Bytes → S → Result ℕ × S) (src_addr dst_addr : ℕ) (content : Bytes)
    (Held : ℕ → S → Type 0)
    (reads : (k n : ℕ) (s : S)
      → Held k s
      → (s' : S) × (read (add w src_addr k) n s ≡ (ok (slice content k n), s')) × Held k s')
    (writes : (k n : ℕ) (s : S)
      → Held k s
      → (s' : S) × (write (add w dst_addr k) (slice content k n) s
          ≡ (ok (length (slice content k n)), s'))
        × Held (k + length (slice content k n)) s') where
  write_chunk-whole :
      (k n : ℕ) (s : S)
      → Held k s
      → k + length (slice content k n) < 2 ^ w
      → (s' : S) × (write_chunk w read write src_addr dst_addr
            (suc (length (slice content k n)))
            (slice content k n)
            (length (slice content k n))
            k
            (length (slice content k n))
            s
          ≡ some (ok (k + length (slice content k n), length (slice content k n)), s'))
        × Held (k + length (slice content k n)) s'
  unfolding write_chunk
  write_chunk-whole k n s h u =
      let done = writes k n s h in go (slice content k n) u done.0 done.1 done.2
    where
      go :
          (buff : Bytes)
          → k + length buff < 2 ^ w
          → (s' : S) → write (add w dst_addr k) buff s ≡ (ok (length buff), s')
          → Held (k + length buff) s'
          → (s'' : S) × (write_chunk w read write src_addr dst_addr
                (suc (length buff))
                buff
                (length buff)
                k
                (length buff)
                s
              ≡ some (ok (k + length buff, length buff), s''))
            × Held (k + length buff) s''
      go [] u s' e h' =
          (s, ap (λ z. some (ok (z, 0), s)) (omega arith), subst (λ z. Held z s) (omega arith) h)
      go (x ∷ xs) u s' e h' =
          (s', write_chunk-once w read write src_addr dst_addr x xs k s s' e u, h')

  -- A turn of the outer loop, and the turns behind it.
  copy_loop-held :
      (fuel size k : ℕ) (s : S)
      → Held k s
      → size < 2 ^ w
      → k ≤ min size (length content)
      → min size (length content) - k < fuel
      → (s' : S) × (copy_loop w read write src_addr dst_addr fuel size k k s
          ≡ some (ok (min size (length content)), s'))
        × Held (min size (length content)) s'
  unfolding copy_loop
  copy_loop-held zero size k s h u le f = absurd (omega arith)
  copy_loop-held (suc fuel) size k s h u le f =
      let left-eq = sub_lem w size k (omega arith) u in
      let chunk = if ltb buffer_size (size - k) then buffer_size else size - k in
      let got = reads k chunk s h in
      let n = length (slice content k chunk) in
      let n-eq : n ≡ min chunk (length content - k) =
        length-take chunk (drop k content) ∙ ap (min chunk) (length-drop k content) in
      let put = write_chunk-whole k chunk got.0 got.2 (ground arith) in
      let sum : add w k n ≡ k + n = add_lem w k n (ground arith) in
      let within : k + n ≤ min size (length content) = ground arith in
      let left'-eq = sub_lem w size (k + n) (omega arith) u in
      let turn =
        copy_loop-turn w read write src_addr dst_addr fuel size k (slice content k chunk) s got.0
          put.0 left-eq got.1 put.1 in
      let again = copy_loop w read write src_addr dst_addr fuel size in
      let test-eq = λ (b : Bool) (e : (ltb 0 (size - (k + n)) && ltb 0 n) ≡ b).
        turn
        ∙ ap (λ t. if t then again (add w k n) (k + n) put.0 else some (ok (k + n), put.0))
            (ap (λ z. ltb 0 z && ltb 0 n) (ap (sub w size) sum ∙ left'-eq) ∙ e) in
      elim (Bool-cases (ltb 0 (size - (k + n)) && ltb 0 n)) [
        | inl more ↦
            let rest = copy_loop-held fuel size (k + n) put.0 put.2 u within (ground arith) in
            (rest.0, test-eq true more ∙ ap (λ z. again z (k + n) put.0) sum ∙ rest.1, rest.2)
        | inr end ↦
            let total : k + n ≡ min size (length content) = ground arith in
            (
              put.0,
              test-eq false end ∙ ap (λ m. some (ok m, put.0)) total,
              subst (λ m. Held m put.0) total put.2,
            )
      ]

  -- `cmd_cpphfs2phfs` returns, and has copied what it should: the bytes of the source up to the size
  -- that is asked for, or all of them where there are fewer. For each place of the source that is
  -- reached a read gives the next bytes that are left, as many as are asked for, and a write of them
  -- to the same place of the destination takes all of them. The sizes fit a `size_t`.
  pub cpphfs2phfs-Held :
      (src_sz dst_sz : ℕ) (s : S)
      → Held 0 s
      → src_sz < 2 ^ w
      → dst_sz < 2 ^ w
      → (s' : S) × (cpphfs2phfs w read write src_addr dst_addr src_sz dst_sz s
          ≡ some (ok (min (copy_size w src_sz dst_sz) (length content)), s'))
        × Held (min (copy_size w src_sz dst_sz) (length content)) s'
  unfolding cpphfs2phfs
  cpphfs2phfs-Held src_sz dst_sz s h u v =
      let size = copy_size w src_sz dst_sz in
      copy_loop-held (suc size) size 0 s h (copy_size_fits w src_sz dst_sz u v) (omega arith)
        (omega arith)
