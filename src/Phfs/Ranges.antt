-- ===== src/Phfs/Ranges.antt =====
-- phfs/phfs.c: the range of a raw device that a read through a file alias touches.
use plo.Common.{
  zero, suc, sym, refl, [], ◌∷◌, take, length, length-take, ℕ, ◌+◌, ◌-◌, ◌%◌, ◌^◌, ◌≤◌, ◌<◌, ◌≡◌,
  min, arith, leb, ◌==◌, false, ap, ◌∙◌,
}
use native.Mathlib.Nat.{mod-eq_of_lt, add-mod_right}
use plo.Common.CString.{Bytes}
use plo.Common.Result.{Result}
use plo.Devs.{Devs, dev_read, dev_write}
use plo.Msg.Header.{Msg}
use plo.Phfs.{raw, Phfs, Handler, no_id, handlers, aliases, timeout_ms}
use plo.Phfs.Access.{device_of, file_of, read, write}

-- No more bytes are taken than there are.
pub take-min : (n : ℕ) (xs : Bytes) → take (min (length xs) n) xs ≡ take n xs
take-min n [] = take-nil (min 0 n) ∙ sym (take-nil n)
  where
    take-nil : (m : ℕ) → take {A = ℕ} m [] ≡ []
    take-nil zero = refl
    take-nil (suc m) = refl
take-min zero (x ∷ xs) =
    ap (λ n. take n (x ∷ xs)) {x = min (length (x ∷ xs)) 0} {y = 0} (omega arith)
take-min (suc n) (x ∷ xs) =
    ap (λ n. take n (x ∷ xs)) {x = min (length (x ∷ xs)) (suc n)} {y = suc (min (length xs) n)}
      (omega arith)
    ∙ ap (λ r. x ∷ r) (take-min n xs)

module _ {S : Type 0} (w : ℕ) (devs : Devs S)
    (send : ℕ → ℕ → Msg → Msg → S → Result (Unit {0}) × Msg × S) (stack : Msg × Msg) where
  read_raw :
      (p : Phfs) (h : Handler) (offs len : ℕ) (s : S)
      → (device_of p h).prot ≡ raw
      → h.pd < handlers
      → h.id < aliases
      → read w devs send stack p h offs len s
        ≡ dev_read devs
            (device_of p h).major
            (device_of p h).minor
            (((file_of p h).addr + offs) % 2 ^ w)
            (min len (((file_of p h).size + 2 ^ w - offs) % 2 ^ w))
            timeout_ms
            s
  unfolding read
  read_raw p h offs len s q l u =
      let here : leb handlers h.pd ≡ false = ground arith in
      let small : leb aliases h.id ≡ false = ground arith in
      let named : (h.id == no_id) ≡ false = ground arith in rw (here, q, named, small) refl

  write_raw :
      (p : Phfs) (h : Handler) (offs : ℕ) (bytes : Bytes) (s : S)
      → (device_of p h).prot ≡ raw
      → h.pd < handlers
      → h.id < aliases
      → write w devs send stack p h offs bytes s
        ≡ dev_write devs
            (device_of p h).major
            (device_of p h).minor
            (((file_of p h).addr + offs) % 2 ^ w)
            (take (min (length bytes) (((file_of p h).size + 2 ^ w - offs) % 2 ^ w)) bytes)
            s
  unfolding write
  write_raw p h offs bytes s q l u =
      let here : leb handlers h.pd ≡ false = ground arith in
      let small : leb aliases h.id ≡ false = ground arith in
      let named : (h.id == no_id) ≡ false = ground arith in rw (here, q, named, small) refl

  -- A read and a write of a file of a raw device through a handler within the tables, at an offset
  -- within the file, where the file ends below `2 ^ w`, are a read and a write of the device at that
  -- offset from the file's address. They are cut to what the file has there, and end within it.
  pub read_write-InFile :
      (p : Phfs) (h : Handler) (offs len : ℕ) (bytes : Bytes) (s : S)
      → (device_of p h).prot ≡ raw
      → h.pd < handlers
      → h.id < aliases
      → (file_of p h).addr + (file_of p h).size < 2 ^ w
      → offs ≤ (file_of p h).size
      → (read w devs send stack p h offs len s
          ≡ dev_read devs
              (device_of p h).major
              (device_of p h).minor
              ((file_of p h).addr + offs)
              (min len ((file_of p h).size - offs))
              timeout_ms
              s)
        × (write w devs send stack p h offs bytes s
            ≡ dev_write devs
                (device_of p h).major
                (device_of p h).minor
                ((file_of p h).addr + offs)
                (take ((file_of p h).size - offs) bytes)
                s)
        × ((file_of p h).addr + offs + min len ((file_of p h).size - offs)
            ≤ (file_of p h).addr + (file_of p h).size)
        × ((file_of p h).addr + offs + length (take ((file_of p h).size - offs) bytes)
            ≤ (file_of p h).addr + (file_of p h).size)
  read_write-InFile p h offs len bytes s q l u e k =
      let f = file_of p h in
      let start : (f.addr + offs) % 2 ^ w ≡ f.addr + offs = mod-eq_of_lt (omega arith) in
      let swap : f.size + 2 ^ w - offs ≡ f.size - offs + 2 ^ w = omega arith in
      let left : (f.size + 2 ^ w - offs) % 2 ^ w ≡ f.size - offs =
        ap (λ n. n % 2 ^ w) swap
        ∙ add-mod_right (f.size - offs) (2 ^ w)
        ∙ mod-eq_of_lt (omega arith) in
      (
        read_raw p h offs len s q l u ∙ rw (start, left) refl,
        write_raw p h offs bytes s q l u ∙ rw (start, left, take-min (f.size - offs) bytes) refl,
        omega arith,
        omega (arith, length-take (f.size - offs) bytes),
      )

  -- A read of a file of a raw device through a handler within the tables, from an offset behind
  -- the end of the file, where no sum reaches `2 ^ w`, is not cut: the subtraction wraps around,
  -- and the device reads the whole length there.
  pub read-past_end :
      (p : Phfs) (h : Handler) (offs len : ℕ) (s : S)
      → (device_of p h).prot ≡ raw
      → h.pd < handlers
      → h.id < aliases
      → (file_of p h).size < offs
      → (file_of p h).addr + offs < 2 ^ w
      → len + offs ≤ 2 ^ w
      → read w devs send stack p h offs len s
        ≡ dev_read devs
            (device_of p h).major
            (device_of p h).minor
            ((file_of p h).addr + offs)
            len
            timeout_ms
            s
  read-past_end p h offs len s q l u e k n =
      let f = file_of p h in
      let start : (f.addr + offs) % 2 ^ w ≡ f.addr + offs = mod-eq_of_lt (omega arith) in
      let left : (f.size + 2 ^ w - offs) % 2 ^ w ≡ f.size + 2 ^ w - offs =
        mod-eq_of_lt (omega arith) in
      let all : min len (f.size + 2 ^ w - offs) ≡ len = omega arith in
      read_raw p h offs len s q l u ∙ rw (start, left, all) refl
