-- ===== src/Syspage/Alloc.antt =====
-- `syspage_init` and `syspage_alloc`: a heap that only grows, right behind `syspage_t`.
pub mod Heap
use plo.Common.{ℕ, ◌+◌, ◌-◌, [], Option, none, some, leb, if◌then◌else◌}
use plo.Common.Bits.{u32}
use plo.Syspage.State.{Syspage, Target}
use plo.Syspage.Align.{align_addr}

abbrev pub sizeof_long_long : ℕ
sizeof_long_long = 8

unfoldable pub init : Target → Syspage
init t =
    let top = align_addr 32 32 (u32 (t.heap_base + t.sizeof_syspage)) sizeof_long_long in
    record {
      base = t.heap_base;
      heap_top = top;
      heap_end = t.heap_limit;
      size = u32 (top + 0x1_0000_0000 - t.heap_base);
      pkernel = 0;
      console = t.console_default;
      maps = [];
      progs = [];
    }

-- `newTop`
abbrev pub new_top : Syspage → ℕ → ℕ
new_top s size = align_addr 32 32 (u32 (s.heap_top + size)) sizeof_long_long

-- The address of the block and the state behind it, or `none` for NULL, which changes nothing.
unfoldable pub alloc : Syspage → ℕ → Option (ℕ × Syspage)
alloc s size =
    let top = new_top s size in
    if leb s.heap_end top
    then none
    else some (s.heap_top, record s { heap_top = top; size = u32 (top + 0x1_0000_0000 - s.base) })
