-- ===== src/Syspage/State.antt =====
-- The data of syspage.c on a target with 32-bit addresses. A circular list is the list of its
-- nodes from the head on in the order of `next`; a pointer to a map is its position there, which
-- stays valid since maps are only ever appended.
use plo.Common.{ℕ, Option, List}
use plo.Common.CString.{Bytes}

pub data EntryType : Type 0 where
  reserved allocated temp invalid : EntryType

-- `mapent_t`
pub record MapEnt : Type 0 where
  pub start : ℕ
  pub end : ℕ
  pub type : EntryType

-- `syspage_map_t`
pub record SysMap : Type 0 where
  pub name : Bytes
  pub start : ℕ
  pub end : ℕ
  pub attr : ℕ
  pub id : ℕ
  pub entries : List MapEnt

-- `syspage_prog_t`. The range is `none` until it is assigned: `syspage_alloc` does not clear the
-- memory; so are the numbers of maps. The identifiers of maps are `none` for NULL, and else those that
-- have been written at the start of the block.
pub record Prog : Type 0 where
  pub argv : Bytes
  pub start : Option ℕ
  pub end : Option ℕ
  pub imaps : Option (List ℕ)
  pub dmaps : Option (List ℕ)
  pub imap_sz : Option ℕ
  pub dmap_sz : Option ℕ

-- `syspage_common` and the `syspage_t` that it points to, which lies at `base`.
pub record Syspage : Type 0 where
  pub base : ℕ
  pub heap_top : ℕ
  pub heap_end : ℕ
  pub size : ℕ
  pub pkernel : ℕ
  pub console : ℕ
  pub maps : List SysMap
  pub progs : List Prog

-- The bits of `mAttrRead` and so on, from the kernel's headers.
pub record Attrs : Type 0 where
  pub read : ℕ
  pub write : ℕ
  pub exec : ℕ
  pub shareable : ℕ
  pub cacheable : ℕ
  pub bufferable : ℕ

-- What the target gives: the sizes of the kernel's structures, its linker symbols, its constants,
-- and the two routines of the HAL that syspage.c calls.
pub record Target : Type 0 where
  pub heap_base : ℕ
  pub heap_limit : ℕ
  pub console_default : ℕ
  pub sizeof_syspage : ℕ
  pub sizeof_map : ℕ
  pub sizeof_entry : ℕ
  pub sizeof_prog : ℕ
  pub attrs : Attrs
  pub memory_get_next_entry : ℕ → ℕ → Option MapEnt
  pub memory_add_map : ℕ → ℕ → ℕ → ℕ → Option ℕ
