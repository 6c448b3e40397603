-- ===== src/LoadApp/Load.antt =====
-- cmds/app.c: cmd_appLoad and cmd_app.
use plo.Common.{
  ℕ, ◌+◌, ◌-◌, Bool, true, false, not, ◌&&◌, ◌||◌, Option, none, some, List, [], length, get_or,
  ◌==◌, if◌then◌else◌, bit_and, bit_or,
}
use plo.Common.Bits.{u32}
use plo.Common.CString.{Bytes}
use plo.Common.Result.{Result, ok, err, next?, eio, enomem, einval}
use plo.Cmd.Prompt.{c_string}
use plo.Phfs.{Handler}
use plo.Phfs.Files.{Files}
use plo.Ramdrv.{copy_to, is_mappable, is_not_mappable}
use plo.Syspage.State.{MapEnt, Prog, Syspage, Target}
use plo.Syspage.Alloc.{alloc}
use plo.Syspage.Maps.{entry_add}
use plo.Syspage.Progs.{prog_add, set_last}
use plo.Syspage.Resolve.{map_attr_resolve, map_range_resolve}
use plo.LoadApp.{Loader, Places, after_call, maps_parse, maps_add2prog, maps_written, cp2ent}

-- `flagSyspageNoCopy`
abbrev pub flag_no_copy : ℕ
flag_no_copy = 2

-- `sizeof(Elf32_Ehdr)`
abbrev pub header_size : ℕ
header_size = 52

unfoldable pub is_elf : Bytes → Bool
is_elf hdr =
    get_or hdr 0 0 == 0x7f
    && get_or hdr 1 0 == b'E'
    && get_or hdr 2 0 == b'L'
    && get_or hdr 3 0 == b'F'

-- What the caller of `syspage_progAdd` assigns at the end.
abbrev pub set_maps : MapEnt → List ℕ → List ℕ → Prog → Prog
set_maps e imaps dmaps p = record p {
  start = some e.start;
  end = some e.end;
  imaps = some imaps;
  dmaps = some dmaps;
  imap_sz = some (length imaps);
  dmap_sz = some (length dmaps);
}

-- `prog->imaps` and `prog->dmaps` of the last program.
abbrev pub put_maps : Option (List ℕ) → Option (List ℕ) → Prog → Prog
put_maps imaps dmaps p = record p { imaps = imaps; dmaps = dmaps }

abbrev pub with_maps : Option (List ℕ) → Option (List ℕ) → Syspage → Syspage
with_maps imaps dmaps s = record s { progs = set_last (put_maps imaps dmaps) s.progs }

-- The two calls of `syspage_alloc`, for the identifiers of the maps. Each result is assigned to the
-- program at once.
unfoldable pub alloc_ids : ℕ → ℕ → Syspage → Bool × Syspage
unfolding alloc set_last
alloc_ids imap_sz dmap_sz s = elim (alloc s imap_sz) [
  | none ↦ (false, with_maps none none s)
  | some (_, s₁) ↦ elim (alloc s₁ dmap_sz) [
    | none ↦ (false, with_maps (some []) none s₁)
    | some (_, s₂) ↦ (true, with_maps (some []) (some []) s₂)
  ]
]

module _ {S : Type 0} where
  -- For the results of the two calls of `cmd_mapsAdd2Prog`, with the identifiers `iw` and `dw` that
  -- they write up to a wrong name. The program stays in the list where a map does not exist.
  unfoldable pub assign_maps :
      Result (List ℕ)
      → List ℕ
      → Result (List ℕ)
      → List ℕ
      → MapEnt
      → Syspage
      → Loader S
      → Option (Result ℕ × Loader S)
  unfolding set_last
  assign_maps (err c) iw dids dw e sys s =
      some (err c, record s { sys = with_maps (some iw) (some []) sys })
  assign_maps (ok iids) iw (err c) dw e sys s =
      some (err c, record s { sys = with_maps (some iids) (some dw) sys })
  assign_maps (ok iids) iw (ok dids) dw e sys s =
      some
        (ok 0, record s { sys = record sys { progs = set_last (set_maps e iids dids) sys.progs } })

module _ {S : Type 0} (t : Target) where
  -- The end of `cmd_appLoad`.
  unfoldable pub load_prog :
      ℕ × Bytes → ℕ × Bytes → Bytes → ℕ → MapEnt → Loader S → Option (Result ℕ × Loader S)
  unfolding prog_add alloc_ids maps_add2prog maps_written assign_maps
  load_prog imaps dmaps argv flags e s =
      let (p, s₁) = prog_add t argv flags s.sys in
      let (room, s₂) = alloc_ids imaps.0 dmaps.0 s₁ in
      elim p [
        | none ↦ some (err enomem, record s { sys = s₁ })
        | some _ ↦
            if not room
            then some (err enomem, record s { sys = s₂ })
            else assign_maps (maps_add2prog s₂ imaps.0 imaps.1) (maps_written s₂ imaps.0 imaps.1)
                (maps_add2prog s₂ dmaps.0 dmaps.1) (maps_written s₂ dmaps.0 dmaps.1) e s₂ s
      ]

module _ {S : Type 0} where
  -- The result of `syspage_entryAdd`.
  abbrev pub entry_added :
      (MapEnt → Loader S → Option (Result ℕ × Loader S))
      → Option MapEnt × Syspage
      → Loader S
      → Option (Result ℕ × Loader S)
  entry_added f (none, sys) s = some (err enomem, record s { sys = sys })
  entry_added f (some e, sys) s = f e (record s { sys = sys })

-- `t` is the target and `page` its `SIZE_PAGE`. `hdr` is what the header on the stack holds before
-- the file is read, and `stale` what the address holds that `phfs_map` stores, if it stores one.
module _ {S : Type 0} (files : Files S) (places : Places S) (t : Target) (page : ℕ) (hdr : Bytes)
    (stale : ℕ) where
  -- The entry, for the result of `phfs_map`.
  unfoldable pub load_entry :
      Handler
      → ℕ
      → ℕ
      → ℕ × Bytes
      → ℕ × Bytes
      → Bytes
      → ℕ
      → ℕ
      → ℕ
      → Loader S
      → Option (Result ℕ × Loader S)
  unfolding entry_add cp2ent load_prog c_string
  load_entry h size offs imaps dmaps argv flags res addr s =
      if res == is_mappable || (res == is_not_mappable && not (bit_and flags flag_no_copy == 0))
      then entry_added (load_prog t imaps dmaps argv flags)
          (entry_add t none (u32 (addr + offs)) size page s.sys) s
      else if res == is_not_mappable
      then entry_added
          (λ e s'. next? (λ _. load_prog t imaps dmaps argv flags e) (cp2ent files h e s'))
          (entry_add t (some (c_string imaps.1)) 0xffff_ffff size page s.sys) s
      else some (err enomem, s)

  -- The address that `phfs_map` stores.
  abbrev pub stored_addr : Option ℕ → ℕ
  stored_addr none = stale
  stored_addr (some a) = a

  abbrev pub file_offset : Result ℕ → ℕ
  file_offset (err _) = 0
  file_offset (ok offs) = offs

  -- Behind the test of the header.
  unfoldable pub load_mapped :
      Handler → ℕ → ℕ × Bytes → ℕ × Bytes → Bytes → ℕ → Loader S → Option (Result ℕ × Loader S)
  unfolding load_entry map_attr_resolve map_range_resolve c_string
  load_mapped h size imaps dmaps argv flags s =
      let name = c_string imaps.1 in
      let offs = file_offset (places.addr_resolve h s.files) in
      elim (map_attr_resolve s.sys name) [
        | err _ ↦ some (err einval, s)
        | ok attr ↦ elim (map_range_resolve s.sys name) [
          | err _ ↦ some (err einval, s)
          | ok (start, end) ↦
              let ((res, a), fs) =
                places.map_file h offs size (bit_or t.attrs.read t.attrs.exec) start
                  (u32 (end + 0x1_0000_0000 - start)) attr s.files in
              after_call (λ r. load_entry h size offs imaps dmaps argv flags r (stored_addr a)) s
                (res, fs)
        ]
      ]

  -- `cmd_appLoad`
  unfoldable pub app_load :
      Handler → ℕ → Bytes → Bytes → Bytes → ℕ → Loader S → Option (Result ℕ × Loader S)
  unfolding is_elf load_mapped maps_parse
  app_load h size imaps dmaps argv flags s =
      after_call
        (λ bytes s'.
          if not (is_elf (copy_to hdr bytes))
          then some (err eio, s')
          else load_mapped h size (maps_parse imaps b';') (maps_parse dmaps b';') argv flags s')
        s (files.read_file h 0 header_size s.files)
