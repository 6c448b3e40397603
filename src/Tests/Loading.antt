-- ===== src/Tests/Loading.antt =====
-- Runs of cmds/app.c and cmds/kernel.c with a loader of two maps, and of cmds/alias.c.
use plo.Common.{Option, ap, ℕ, ◌+◌, ◌*◌, ◌≡◌, refl, arith, min, none, some, [], ◌∷◌}
use plo.Common.CString.{Bytes, str_eq}
use plo.Common.Result.{Result, ok, err, einval}
use plo.Phfs.{Phfs}
use plo.Phfs.Files.{Files, phfs_files}
use plo.Phfs.Contents.{IsRawFile}
use plo.Devs.{dev_read, get_ops, get, slot}
use plo.Tests.Disk.{disk, store, no_host, blank, only}
use plo.LoadApp.Device.{phfs_files-Reads}
use plo.Syspage.State.{MapEnt, temp, SysMap, Syspage, Target}
use plo.Syspage.Maps.{
  map_get, find_map, entry_map, any_overlap, fixed_place, entry_place, place_entry, entry_add,
}
use plo.Syspage.Align.{align_addr}
use plo.Syspage.Alloc.{alloc}
use plo.Syspage.Resolve.{resolve, map_name_resolve}
use plo.LoadApp.{Loader, maps_parse, maps_add2prog, cp2ent}
use plo.LoadApp.Names.{pieces, resolve_all, maps_add2prog-maps_parse}
use plo.LoadApp.Load.{load_prog}
use plo.LoadApp.Command.{read_options}
use plo.LoadApp.Copied.{part, behind, Reads, Filled, cp2ent-Filled}
use plo.Getopt.{initial}
use plo.Strtoul.{strtoul, digits, digit}
use plo.Ctype.{isdigit, isalpha}
use plo.AliasCommand.{Aliases, cmd_alias}
use plo.AliasCommand.Relative.{arguments, cmd_alias_relative}
use plo.LoadKernel.{p_type, p_offset, p_vaddr, p_filesz, p_memsz, p_align, load_segment}
use plo.LoadKernel.Segments.{Segment, load_segment-Segment}
use plo.LoadApp.Registered.{Registered, load_prog-Registered}

abbrev target : Target
target = record {
  heap_base = 0x1000;
  heap_limit = 0x2000;
  console_default = 0;
  sizeof_syspage = 64;
  sizeof_map = 48;
  sizeof_entry = 24;
  sizeof_prog = 40;
  attrs = record { read = 1; write = 2; exec = 4; shareable = 8; cacheable = 16; bufferable = 32 };
  memory_get_next_entry = λ _ _. none;
  memory_add_map = λ _ _ _ _. none;
}

abbrev named : Bytes → ℕ → SysMap
named name id = record {
  name = name;
  start = 0x1000 * id;
  end = 0x1000 * id + 0x1000;
  attr = 7;
  id = id;
  entries = [];
}

abbrev page : Syspage
page = record {
  base = 0x1000;
  heap_top = 0x1100;
  heap_end = 0x2000;
  size = 0x100;
  pkernel = 0;
  console = 0;
  maps = named (b'a' ∷ []) 4 ∷ named (b'b' ∷ []) 5 ∷ [];
  progs = [];
}

abbrev content : ℕ → ℕ
content i = i + 1

-- A file that gives three bytes at most for a read.
abbrev short_reads : Files ℕ
short_reads = record {
  open_file = λ alias file flags s. (ok (record { pd = 0; id = 0 }), s);
  read_file = λ h offs len s. (ok (part content offs (min 3 len)), s + 1);
  write_file = λ h offs bytes s. (err einval, s);
  close_file = λ h s. (ok 0, s);
  reg_alias = λ alias addr size s. (ok 0, s);
}

-- A device that gives three bytes at most for a read, and counts the reads; the file has 20 bytes.
abbrev three_at_most : ℕ → ℕ → ℕ → Result Bytes × ℕ
three_at_most offs len s = (ok (part content offs (min 3 len)), s + 1)

abbrev drive : Files (Phfs × ℕ)
drive = phfs_files 32 (disk three_at_most) no_host (blank, blank)

-- The states with the tables of this device and this file.
abbrev Mounted : Phfs × ℕ → Type 0
Mounted s = (s.0 ≡ store 4 20) × Unit {0}

drive_raw : IsRawFile 32 (store 4 20) only
drive_raw = record {
  prot_raw = refl;
  device_in = omega arith;
  file_in = omega arith;
  fits = omega arith;
}

drive-Reads : Reads Mounted drive only (behind content 4) 20
unfolding dev_read get_ops get slot
drive-Reads =
    phfs_files-Reads 32 (disk three_at_most) no_host (blank, blank) (store 4 20) only
      (λ _. Unit {0}) content drive_raw
      (λ offs n t here from asked to. (min 3 n, t + 1, omega arith, omega arith, refl, tt))

abbrev loader : Loader (Phfs × ℕ)
loader = record { sys = page; mem = λ _. 0; files = (store 4 20, 0) }

abbrev place : MapEnt
place = record { start = 0x4000; end = 0x4008; type = temp }

cp2ent-Filled_example :
    Filled Mounted (behind content 4) 0x4000 8 page (λ _. 0) (cp2ent drive only place loader)
cp2ent-Filled_example =
    cp2ent-Filled Mounted drive only (behind content 4) 0x4000 8 20 place loader drive-Reads
      (refl, tt) refl (omega arith) (omega arith) (omega arith)

maps_add2prog-maps_parse_example :
    maps_add2prog page
      (maps_parse (b'b' ∷ b';' ∷ b'a' ∷ []) b';').0
      (maps_parse (b'b' ∷ b';' ∷ b'a' ∷ []) b';').1
    ≡ resolve_all page
        ((pieces b';' (b'b' ∷ b';' ∷ b'a' ∷ [])).0 ∷ (pieces b';' (b'b' ∷ b';' ∷ b'a' ∷ [])).1)
maps_add2prog-maps_parse_example =
    maps_add2prog-maps_parse page b';' (b'b' ∷ b';' ∷ b'a' ∷ [])
      (omega arith, (omega arith, (omega arith, tt)))

-- Both names, in their order.
both_names : resolve_all page ((b'b' ∷ []) ∷ (b'a' ∷ []) ∷ []) ≡ ok (5 ∷ 4 ∷ [])
unfolding resolve_all map_name_resolve resolve map_get find_map str_eq
both_names = refl

load_prog-Registered_example :
    Registered target (b'b' ∷ b';' ∷ b'a' ∷ []) (b'a' ∷ []) (b'p' ∷ []) 1 place loader (
      load_prog target
        (maps_parse (b'b' ∷ b';' ∷ b'a' ∷ []) b';')
        (maps_parse (b'a' ∷ []) b';')
        (b'p' ∷ [])
        1
        place
        loader)
load_prog-Registered_example =
    load_prog-Registered target (b'b' ∷ b';' ∷ b'a' ∷ []) (b'a' ∷ []) (b'p' ∷ []) 1 place loader
      (omega arith, (omega arith, (omega arith, tt))) (omega arith, tt)

-- `-xn`, `-X` and `-n`
options : read_options (b'-' ∷ b'x' ∷ b'n' ∷ []) ≡ some (3, 3)
unfolding read_options
options = refl

upper_case : read_options (b'-' ∷ b'X' ∷ []) ≡ some (1, 3)
unfolding read_options
upper_case = refl

wrong_option : read_options (b'-' ∷ b'n' ∷ []) ≡ none
unfolding read_options
wrong_option = refl

-- A header of type 1, for the bytes from 4 on, of which there are 8, at the address 0x4000.
abbrev phdr : Bytes
phdr =
    1 ∷ 0 ∷ 0 ∷ 0 ∷ 4 ∷ 0 ∷ 0 ∷ 0 ∷ 0 ∷ 0x40 ∷ 0 ∷ 0 ∷ 0 ∷ 0x40 ∷ 0 ∷ 0 ∷ 8 ∷ 0 ∷ 0 ∷ 0 ∷ 16 ∷ 0 ∷ 0
    ∷ 0 ∷ 5 ∷ 0 ∷ 0 ∷ 0 ∷ 4 ∷ 0 ∷ 0 ∷ 0 ∷ []

-- Where the entry starts.
abbrev start_or : Option MapEnt → ℕ
start_or none = 0
start_or (some e) = e.start

entry_start :
    start_or (entry_add target none (p_vaddr phdr) (p_memsz phdr) (p_align phdr) page).0 ≡ 0x4000
unfolding entry_add entry_map find_map entry_place fixed_place any_overlap align_addr place_entry
    alloc p_vaddr p_memsz p_align
entry_start = refl

load_segment-Segment_example :
    Segment Mounted
      (behind content 4)
      phdr
      0xffff_ffff
      (entry_add target none (p_vaddr phdr) (p_memsz phdr) (p_align phdr) page)
      loader
      (load_segment drive target (λ a. a) only phdr 0xffff_ffff loader)
unfolding p_type p_offset p_filesz
load_segment-Segment_example =
    load_segment-Segment Mounted drive target (λ a. a) only (behind content 4) 20 phdr 0xffff_ffff
      loader drive-Reads (refl, tt) refl (omega arith) (omega arith)
      (λ e h. omega (arith, ap start_or h, entry_start))

abbrev bases : Aliases ℕ
bases = record { base = 0x1000; opt = initial; files = 0 }

cmd_alias_relative_example :
    cmd_alias short_reads 2
      (arguments short_reads (b'a' ∷ []) (b'f' ∷ []) (b'1' ∷ b'6' ∷ []) (b'8' ∷ []) bases)
      bases
    ≡ some (0, record bases { opt = record initial { optind = 2 } })
unfolding strtoul digits digit isdigit isalpha
cmd_alias_relative_example =
    cmd_alias_relative short_reads (b'a' ∷ []) (b'f' ∷ []) (b'1' ∷ b'6' ∷ []) (b'8' ∷ []) bases 0
      refl (omega arith) refl refl (omega arith) (omega arith)
