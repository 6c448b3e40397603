-- ===== src/LoadKernel.antt =====
-- cmds/kernel.c: the command `kernel`, which loads the segments of an ELF file, on a target with 32-bit
-- addresses. `none` is a loop that does not end, as in LoadApp.antt.
pub mod Segments
use plo.Common.{
  ℕ, zero, suc, ◌+◌, ◌-◌, ◌*◌, Bool, true, false, not, ◌&&◌, ◌||◌, Option, none, some, List, [],
  ◌∷◌, length, get_or, min, ltb, ◌==◌, if◌then◌else◌, bit_and,
}
use plo.Common.Bits.{u32}
use plo.Common.CString.{Bytes}
use plo.Common.Result.{Result, ok, err, next?}
use plo.Copy.{buffer_size}
use plo.Phfs.{Handler}
use plo.Phfs.Files.{Files}
use plo.Ptable.Bytes.{write_bytes}
use plo.Ramdrv.{copy_to}
use plo.Syspage.State.{MapEnt, Target}
use plo.Syspage.Maps.{entry_add}
use plo.Syspage.Resolve.{kernel_paddr_add}
use plo.LoadApp.{Loader, after_call}
use plo.LoadApp.Load.{entry_added, header_size, is_elf}
use plo.LoadApp.Command.{arg}

-- `PHT_LOAD` and `PHF_X`
abbrev pub pht_load : ℕ
pht_load = 1

abbrev pub phf_x : ℕ
phf_x = 1

-- `sizeof(Elf32_Phdr)`
abbrev pub phdr_size : ℕ
phdr_size = 32

-- An `Elf32_Half` and an `Elf32_Word`, with the least byte first.
abbrev pub half_at : Bytes → ℕ → ℕ
half_at b i = get_or b i 0 + get_or b (i + 1) 0 * 0x100

abbrev pub word_at : Bytes → ℕ → ℕ
word_at b i = half_at b i + half_at b (i + 2) * 0x1_0000

-- The fields of `Elf32_Ehdr` and `Elf32_Phdr` that the command reads.
abbrev pub e_entry : Bytes → ℕ
e_entry hdr = word_at hdr 24

abbrev pub e_phoff : Bytes → ℕ
e_phoff hdr = word_at hdr 28

abbrev pub e_phnum : Bytes → ℕ
e_phnum hdr = half_at hdr 44

unfoldable pub p_type : Bytes → ℕ
p_type phdr = word_at phdr 0

unfoldable pub p_offset : Bytes → ℕ
p_offset phdr = word_at phdr 4

unfoldable pub p_vaddr : Bytes → ℕ
p_vaddr phdr = word_at phdr 8

unfoldable pub p_filesz : Bytes → ℕ
p_filesz phdr = word_at phdr 16

unfoldable pub p_memsz : Bytes → ℕ
p_memsz phdr = word_at phdr 20

unfoldable pub p_flags : Bytes → ℕ
p_flags phdr = word_at phdr 24

unfoldable pub p_align : Bytes → ℕ
p_align phdr = word_at phdr 28

-- `kernelPAddr` behind the segment of an entry.
unfoldable pub kernel_paddr : Bytes → MapEnt → ℕ → ℕ
unfolding p_flags
kernel_paddr phdr e kaddr = if not (bit_and (p_flags phdr) phf_x == 0) then e.start else kaddr

-- `kernel_address` is `hal_kernelGetAddress`, and `path` is `PATH_KERNEL`. `hdr` and `phdr` are what
-- the headers on the stack hold before the file is read.
module _ {S : Type 0} (files : Files S) (t : Target) (kernel_address : ℕ → ℕ) where
  -- The loop over the bytes of a segment.
  unfoldable pub seg_loop : ℕ → Handler → ℕ → ℕ → ℕ → ℕ → Loader S → Option (Result ℕ × Loader S)
  seg_loop zero h start sz elf_offs seg_offs s = none
  seg_loop (suc fuel) h start sz elf_offs seg_offs s = elim (ltb seg_offs sz) [
    | false ↦ some (ok 0, s)
    | true ↦
        after_call
          (λ bytes s'.
            seg_loop fuel h start sz (u32 (elf_offs + length bytes)) (u32 (seg_offs + length bytes))
              (record s' { mem = write_bytes s'.mem (u32 (start + seg_offs)) bytes }))
          s (files.read_file h elf_offs (min buffer_size (sz - seg_offs)) s.files)
  ]

  -- One program header, with `kernelPAddr` as its result.
  unfoldable pub load_segment : Handler → Bytes → ℕ → Loader S → Option (Result ℕ × Loader S)
  unfolding seg_loop kernel_paddr entry_add p_type p_offset p_vaddr p_filesz p_memsz p_align
  load_segment h phdr kaddr s =
      if not (p_type phdr == pht_load)
      then some (ok kaddr, s)
      else entry_added
          (λ e s'.
            next? (λ _ s''. some (ok (kernel_paddr phdr e kaddr), s''))
              (seg_loop (suc (p_filesz phdr)) h e.start (p_filesz phdr) (p_offset phdr) 0 s'))
          (entry_add t none (kernel_address (p_vaddr phdr)) (p_memsz phdr) (p_align phdr) s.sys) s

  -- The loop over the program headers from number `i` on.
  unfoldable pub phdr_loop :
      Handler → ℕ → ℕ → ℕ → Bytes → ℕ → Loader S → Option (Result ℕ × Loader S)
  unfolding load_segment
  phdr_loop h phoff zero i phdr kaddr s = some (ok kaddr, s)
  phdr_loop h phoff (suc n) i phdr kaddr s =
      after_call
        (λ bytes s'.
          next? (λ kaddr' s''. phdr_loop h phoff n (i + 1) (copy_to phdr bytes) kaddr' s'')
            (load_segment h (copy_to phdr bytes) kaddr s'))
        s (files.read_file h (u32 (phoff + i * phdr_size)) phdr_size s.files)

  -- The exit code, the address that `hal_kernelEntryPoint` is given, and the state.
  abbrev pub Exit : Type 0
  Exit = Option (ℕ × Option ℕ × Loader S)

  abbrev pub close_file : ℕ → Option ℕ → Handler → Loader S → Exit
  close_file code entry h s =
      some (code, entry, record s { files = (files.close_file h s.files).1 })

  abbrev pub segments_loaded : Handler → Bytes → Option (Result ℕ × Loader S) → Exit
  segments_loaded h hdr none = none
  segments_loaded h hdr (some (err e, s)) = close_file 1 none h s
  segments_loaded h hdr (some (ok kaddr, s)) =
      close_file 0 (some (kernel_address (e_entry hdr))) h
        (record s { sys = kernel_paddr_add s.sys kaddr })

  -- Behind the read of the header.
  unfoldable pub with_header : Handler → Bytes → Bytes → Result Bytes × S → Loader S → Exit
  unfolding phdr_loop is_elf kernel_paddr_add
  with_header h hdr phdr (err e, fs) s = close_file 1 none h (record s { files = fs })
  with_header h hdr phdr (ok bytes, fs) s =
      let hdr' = copy_to hdr bytes in
      if not (is_elf hdr')
      then close_file 1 none h (record s { files = fs })
      else segments_loaded h hdr'
          (phdr_loop h (e_phoff hdr') (e_phnum hdr') 0 phdr 0xffff_ffff (record s { files = fs }))

  -- Behind `phfs_open`
  unfoldable pub with_kernel : Bytes → Bytes → Result Handler × S → Loader S → Exit
  unfolding with_header
  with_kernel hdr phdr (err e, fs) s = some (1, none, record s { files = fs })
  with_kernel hdr phdr (ok h, fs) s =
      with_header h hdr phdr (files.read_file h 0 header_size fs) (record s { files = fs })

  -- `cmd_kernel`
  unfoldable pub cmd_kernel : Bytes → Bytes → Bytes → List Bytes → Loader S → Exit
  unfolding with_kernel
  cmd_kernel path hdr phdr argv s =
      if length argv == 1 || ltb 3 (length argv)
      then some (1, none, s)
      else with_kernel hdr phdr
          (files.open_file (arg argv 1) (some (if length argv == 3 then arg argv 2 else path)) 0
            s.files)
          s
