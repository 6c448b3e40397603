-- ===== src/LoadKernel/Segments.antt =====
-- cmds/kernel.c: the memory after a segment has been loaded.
use plo.Common.{
  ℕ, zero, suc, ◌+◌, ◌-◌, ◌^◌, min, ◌≤◌, ◌<◌, ◌≡◌, ◌≢◌, refl, ap, subst, ◌∙◌, arith, true, false,
  Bool-cases, not, Option, none, some, inl, inr, length, ltb, ◌==◌, bit_and,
}
use plo.Common.Bits.{u32}
use plo.Common.CString.{Bytes}
use plo.Common.Result.{Result, ok, err, next?, enomem}
use plo.Copy.{buffer_size}
use plo.Phfs.{Handler}
use plo.Phfs.Files.{Files}
use plo.Ptable.Bytes.{Memory, write_bytes}
use plo.Syspage.State.{MapEnt, Syspage, Target}
use plo.Syspage.Maps.{entry_add}
use plo.LoadApp.{Loader}
use plo.LoadApp.Copied.{
  part, length-part, Reads, filled, behind, part-behind, write_bytes-filled, Filled, all_copied,
}
use plo.LoadApp.Load.{entry_added}
use plo.LoadKernel.{
  pht_load, p_type, p_offset, p_vaddr, p_filesz, p_memsz, p_flags, p_align, kernel_paddr, seg_loop,
  load_segment,
}

module _ {S : Type 0} (P : S → Type 0) (files : Files S) (t : Target) (kernel_address : ℕ → ℕ)
    (h : Handler) (content : ℕ → ℕ) (base start sz : ℕ) where
  -- The state behind a read of `m` bytes.
  abbrev copied : ℕ → ℕ → S → Loader S → Loader S
  copied offs m fs s = record s {
    mem = write_bytes s.mem (u32 (start + offs)) (part (behind content base) offs m);
    files = fs;
  }

  -- A turn of the loop.
  seg_loop-turn :
      (fuel offs n : ℕ) (s : Loader S)
      → (G : Option (Result ℕ × Loader S) → Type 0) → n ≡ min buffer_size (sz - offs)
      → offs < sz
      → base + sz < 2 ^ 32
      → (m : ℕ) × (fs : S) × (0 < m)
        × (m ≤ n)
        × (files.read_file h (base + offs) n s.files ≡ (ok (part content (base + offs) m), fs))
        × P fs
      → ((m : ℕ) (fs : S)
          → 0 < m
          → m ≤ sz - offs
          → P fs
          → G (
              seg_loop files t kernel_address fuel h start sz
                (base + (offs + m))
                (offs + m)
                (copied offs m fs s)))
      → G (seg_loop files t kernel_address (suc fuel) h start sz (base + offs) offs s)
  unfolding seg_loop
  seg_loop-turn fuel offs n s G e lt small (m, fs, some', most, call, held) rest =
      let more : ltb offs sz ≡ true = ground arith in
      let same = part-behind m content base offs (base + offs) refl in
      let here : u32 (offs + length (part (behind content base) offs m)) ≡ offs + m =
        omega (arith, length-part (behind content base) offs m) in
      let there : u32 (base + offs + length (part (behind content base) offs m))
          ≡ base + (offs + m) =
        omega (arith, length-part (behind content base) offs m) in
      rw (more, ← e, call, same, here, there, seg_loop) (rest m fs some' (omega arith) held)

  -- The loop, with more turns than bytes are left.
  seg_loop-Filled :
      (len fuel offs : ℕ) (s : Loader S) (mem : Memory)
      → Reads P files h content len
      → P s.files
      → sz - offs < fuel
      → offs ≤ sz
      → base + sz ≤ len
      → base + sz < 2 ^ 32
      → start + sz < 2 ^ 32
      → ((a : ℕ) → s.mem a ≡ filled (behind content base) start offs mem a)
      → Filled P
          (behind content base)
          start
          sz
          s.sys
          mem
          (seg_loop files t kernel_address fuel h start sz (base + offs) offs s)
  unfolding seg_loop
  seg_loop-Filled len zero offs s mem reads here lt le inside small fits inv = absurd (omega arith)
  seg_loop-Filled len (suc fuel) offs s mem reads here lt le inside small fits inv =
      elim (Bool-cases (ltb offs sz)) [
        | inr done ↦
            let all : offs ≡ sz = ground arith in
            rw (done, seg_loop)
              (all_copied s refl
                (λ a. inv a ∙ ap (λ k. filled (behind content base) start k mem a) all) here)
        | inl more ↦
            let left : offs < sz = ground arith in
            seg_loop-turn fuel offs _ s (Filled P (behind content base) start sz s.sys mem) refl
              left small
              (reads (base + offs) (min buffer_size (sz - offs)) s.files here (omega arith)
                (omega arith))
              (λ m fs some' most held.
                seg_loop-Filled len fuel (offs + m) (copied offs m fs s) mem reads held
                  (omega arith) (omega arith) inside small fits
                  (write_bytes-filled m (behind content base) start offs (u32 (start + offs)) s.mem
                    mem (omega arith) inv))
      ]

-- What loading a segment leaves behind: there is no entry for it and nothing is loaded, or its entry
-- holds the bytes of the file, and the rest of the memory is as before. The address of the kernel
-- is that of the entry if the segment is executable.
pub data Segment {S : Type 0} (P : S → Type 0) (content : ℕ → ℕ) (phdr : Bytes) (kaddr : ℕ)
    (entry : Option MapEnt × Syspage) (s : Loader S) : Option (Result ℕ × Loader S) → Type 0 where
  no_entry :
      entry.0 ≡ none
      → Segment P content phdr kaddr entry s (some (err enomem, record s { sys = entry.1 }))
  in_entry :
      (e : MapEnt) (kaddr' : ℕ) (s' : Loader S)
      → entry.0 ≡ some e
      → (bit_and (p_flags phdr) 1 ≡ 0 → kaddr' ≡ kaddr)
      → (bit_and (p_flags phdr) 1 ≢ 0 → kaddr' ≡ e.start)
      → s'.sys ≡ entry.1
      → ((a : ℕ)
          → s'.mem a ≡ filled (behind content (p_offset phdr)) e.start (p_filesz phdr) s.mem a)
      → P s'.files
      → Segment P content phdr kaddr entry s (some (ok kaddr', s'))

module _ {S : Type 0} (P : S → Type 0) (files : Files S) (t : Target) (kernel_address : ℕ → ℕ)
    (h : Handler) (content : ℕ → ℕ) (len : ℕ) (phdr : Bytes) (kaddr : ℕ) (s : Loader S) where
  -- The entry that `syspage_entryAdd` gives for the segment.
  abbrev pub segment_entry : Option MapEnt × Syspage
  segment_entry =
      entry_add t none (kernel_address (p_vaddr phdr)) (p_memsz phdr) (p_align phdr) s.sys

  Filled-Segment :
      (e : MapEnt) (sys : Syspage) (out : Option (Result ℕ × Loader S))
      → Filled P (behind content (p_offset phdr)) e.start (p_filesz phdr) sys s.mem out
      → Segment P content phdr kaddr
          (some e, sys)
          s
          (next? (λ (_ : ℕ) s''. some (ok (kernel_paddr phdr e kaddr), s'')) out)
  unfolding kernel_paddr
  Filled-Segment e sys out (all_copied s' same mem held) =
      in_entry e (kernel_paddr phdr e kaddr) s' refl (λ data_only. ground arith)
        (λ executable. ground arith) same mem held

  -- `cmd_kernel` with a program header of the type `PHT_LOAD`: there is no entry for the segment and it
  -- fails with nothing loaded, or its entry holds the bytes of the file, the rest of the memory is as
  -- before, and the address of the kernel becomes that of the entry if the segment is executable and
  -- else stays. The bytes lie in a file that is read without an error and some bytes at a time, in the
  -- states that the files can be in from the present one on, below the offset 2^32, and the part of the entry that they fill ends below the end of the addresses.
  pub load_segment-Segment :
      Reads P files h content len
      → P s.files
      → p_type phdr ≡ pht_load
      → p_offset phdr + p_filesz phdr ≤ len
      → p_offset phdr + p_filesz phdr < 2 ^ 32
      → ((e : MapEnt) → segment_entry.0 ≡ some e → e.start + p_filesz phdr < 2 ^ 32)
      → Segment P content phdr kaddr segment_entry s
          (load_segment files t kernel_address h phdr kaddr s)
  unfolding load_segment
  load_segment-Segment reads here type inside small fits =
      let loads : not (p_type phdr == pht_load) ≡ false = ground arith in
      rw (loads, load_segment) (added segment_entry refl)
    where
      added :
          (out : Option MapEnt × Syspage)
          → segment_entry ≡ out
          → Segment P content phdr kaddr out s (
              entry_added
                (λ e s'.
                  next?
                    (λ (_ : ℕ) s''. some (ok (kernel_paddr phdr e kaddr), s''))
                    (seg_loop files t kernel_address
                      (suc (p_filesz phdr))
                      h
                      e.start
                      (p_filesz phdr)
                      (p_offset phdr)
                      0
                      s'))
                out
                s)
      added (none, sys) call = no_entry refl
      added (some e, sys) call = Filled-Segment e sys _ (
          subst
            (λ a. Filled P (behind content (p_offset phdr)) e.start (p_filesz phdr) sys s.mem (
              seg_loop files t kernel_address (suc (p_filesz phdr)) h e.start (p_filesz phdr) a 0
                (record s { sys = sys })))
            {x = p_offset phdr + 0} {y = p_offset phdr} (omega arith)
            (seg_loop-Filled P files t kernel_address h content (p_offset phdr) e.start
              (p_filesz phdr) len (suc (p_filesz phdr)) 0 (record s { sys = sys }) s.mem reads here
              (omega arith) (omega arith) inside small
              (fits e (ap (λ (r : Option MapEnt × Syspage). r.0) call)) (λ a. ground arith)))
