-- ===== src/Copy.antt =====
-- cmds/copy.c: the copying of data from one file or device to another. `S` is the state of the
-- loader, and `size_t` and `addr_t` have `w` bits.
pub mod Copied
pub mod Command
use plo.Common.{
  ℕ, zero, suc, ◌+◌, ◌-◌, ◌%◌, ◌^◌, Bool, true, false, not, ◌&&◌, Option, none, some, List, [], ◌∷◌,
  length, take, ltb, ◌==◌, if◌then◌else◌,
}
use plo.Common.CString.{Bytes}
use plo.Common.Result.{Result, ok, err, next, next?}

-- `SIZE_MSG_BUFF`
abbrev pub buffer_size : ℕ
buffer_size = 0x100

-- How much is copied: the smaller size, the one that is given, or as much as there is.
unfoldable pub copy_size : ℕ → ℕ → ℕ → ℕ
copy_size w src dst =
    if src == 0 && dst == 0
    then 2 ^ w - 1
    else if not (src == 0) && not (dst == 0)
    then (if ltb src dst then src else dst)
    else if ltb dst src
    then src
    else dst

-- `a - b` and `a + b` of a `size_t`
abbrev pub sub : ℕ → ℕ → ℕ → ℕ
sub w a b = (a + 2 ^ w - b) % 2 ^ w

abbrev pub add : ℕ → ℕ → ℕ → ℕ
add w a b = (a + b) % 2 ^ w

-- `phfs_read` and `phfs_write` with the two handlers are parameters.
module _ {S : Type 0} (w : ℕ) (read : ℕ → ℕ → S → Result Bytes × S)
    (write : ℕ → Bytes → S → Result ℕ × S) (src_addr dst_addr : ℕ) where
  -- The inner loop, with `wsz` and `res` as they are after it. Each write takes the buffer from its
  -- front.
  unfoldable pub write_chunk : ℕ → Bytes → ℕ → ℕ → ℕ → S → Option (Result (ℕ × ℕ) × S)
  write_chunk zero buff chunk wsz res s = none
  write_chunk (suc fuel) buff chunk wsz res s = elim (chunk == 0) [
    | true ↦ some (ok (wsz, res), s)
    | false ↦
        next (λ r. write_chunk fuel buff (sub w chunk r) (add w wsz r) r)
          (write (add w dst_addr wsz) (take chunk buff) s)
  ]

  -- The outer loop.
  unfoldable pub copy_loop : ℕ → ℕ → ℕ → ℕ → S → Option (Result ℕ × S)
  copy_loop zero size rsz wsz s = none
  copy_loop (suc fuel) size rsz wsz s =
      let left = sub w size rsz in
      let chunk = if ltb buffer_size left then buffer_size else left in
      next
        (λ buff. λ s'.
          let rsz' = add w rsz (length buff) in
          next?
            (λ (out : ℕ × ℕ). λ s''. elim (ltb 0 (sub w size rsz') && ltb 0 out.1) [
              | true ↦ copy_loop fuel size rsz' out.0 s''
              | false ↦ some (ok out.0, s'')
            ])
            (write_chunk (suc (length buff)) buff (length buff) wsz (length buff) s'))
        (read (add w src_addr rsz) chunk s)

  -- `cmd_cpphfs2phfs`: each turn but the last reads a byte at least.
  unfoldable pub cpphfs2phfs : ℕ → ℕ → S → Option (Result ℕ × S)
  unfolding copy_size
  cpphfs2phfs src_sz dst_sz s =
      copy_loop (suc (copy_size w src_sz dst_sz)) (copy_size w src_sz dst_sz) 0 0 s
