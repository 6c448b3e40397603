-- ===== src/Tests/Maps.antt =====
-- syspage.c on a small target with one map.
use plo.Common.{ℕ, ◌+◌, ◌^◌, ◌≤◌, ◌<◌, ◌≡◌, ◌≢◌, refl, ◌⊎◌, none, some, [], ◌∷◌, arith}
use plo.Common.CString.{Bytes, str_eq}
use plo.Common.Result.{Result, ok}
use plo.Syspage.State.{MapEnt, allocated, SysMap, Syspage, Target}
use plo.Syspage.Align.{align_addr}
use plo.Syspage.Align.Word.{up}
use plo.Syspage.Alloc.{alloc}
use plo.Syspage.Alloc.Heap.{IsHeap, Allocated, alloc-Allocated, alloc-eq-none}
use plo.Syspage.Entries.{sorted_insert, best_fit}
use plo.Syspage.Entries.Chain.{Chain, sorted_insert-Chain}
use plo.Syspage.Entries.Gaps.{gaps, All, Outcome}
use plo.Syspage.Entries.BestFit.{best_fit-Outcome}
use plo.Syspage.Maps.{map_get, entry_add, map_add}
use plo.Syspage.Maps.Filling.{NextInRange, HasRoom}
use plo.Syspage.Maps.Creation.{Outcome as MapOutcome, map_add-Outcome}
use plo.Syspage.Maps.Distinct.{Distinct, map_add-Distinct}
use plo.Strtoul.{strtoul}
use plo.MapCommand.{cmd_map}
use plo.MapCommand.Distinct.{Exits, cmd_map-Distinct}
use plo.Syspage.Maps.Placement.{IsOrdered, Placed, entry_add-Placed}

abbrev board : Target
board = record {
  heap_base = 0x1000;
  heap_limit = 0x2000;
  console_default = 0;
  sizeof_syspage = 64;
  sizeof_map = 48;
  sizeof_entry = 24;
  sizeof_prog = 40;
  attrs = record { read = 1; write = 2; exec = 4; shareable = 8; cacheable = 16; bufferable = 32 };
  memory_get_next_entry = λ _ _. none;
  memory_add_map = λ _ _ _ _. none;
}

abbrev ram_name : Bytes
ram_name = b'r' ∷ b'a' ∷ b'm' ∷ []

abbrev entry : ℕ → ℕ → MapEnt
entry a b = record { start = a; end = b; type = allocated }

abbrev ram : SysMap
ram = record {
  name = ram_name;
  start = 0x10000;
  end = 0x20000;
  attr = 7;
  id = 0;
  entries = entry 0x12000 0x12800 ∷ entry 0x14000 0x18000 ∷ [];
}

abbrev page : Syspage
page = record {
  base = 0x1000;
  heap_top = 0x1040;
  heap_end = 0x2000;
  size = 0x40;
  pkernel = 0;
  console = 0;
  maps = ram ∷ [];
  progs = [];
}

page-IsHeap : IsHeap page
page-IsHeap = omega arith

ram-IsOrdered : IsOrdered 12 ram
ram-IsOrdered = omega arith

map_get-ram : map_get page ram_name ≡ some (0, ram)
unfolding map_get str_eq
map_get-ram = refl

entries_some : ram.entries ≢ []
entries_some = λ e. ground (arith, e)

entry_add-Placed_example :
    ((e : MapEnt) × (s' : Syspage) × (entry_add board
          (some ram_name)
          0xffff_ffff
          0x1000
          (2 ^ 12)
          page
        ≡ (some e, s'))
      × Placed 12 0x1000 0 ram page e s')
    ⊎ (entry_add board (some ram_name) 0xffff_ffff 0x1000 (2 ^ 12) page ≡ (none, page))
      × ((alloc page board.sizeof_entry ≡ none)
          ⊎ All (λ g. g.1 < 0x1000) (gaps (2 ^ 12) (up (2 ^ 12) ram.start) ram.end ram.entries))
entry_add-Placed_example =
    entry_add-Placed board ram_name 12 0x1000 0 ram page (omega arith) (omega arith) (omega arith)
      (omega arith) page-IsHeap (omega arith) map_get-ram ram-IsOrdered entries_some

best_fit-Outcome_example :
    Outcome 0x1000
      (gaps (2 ^ 12) (up (2 ^ 12) 0x10000) 0x20000 ram.entries)
      (best_fit ram 0x1000 (2 ^ 12))
best_fit-Outcome_example =
    best_fit-Outcome 12 0x1000 ram (omega arith) (omega arith) (omega arith) (omega arith)
      (omega arith) entries_some (omega arith) ram-IsOrdered.ordered ram-IsOrdered.starts

-- The smallest gap, between the two entries.
best_fit_run : best_fit ram 0x1000 (2 ^ 12) ≡ ok 0x13000
unfolding best_fit align_addr
best_fit_run = refl

board-NextInRange : NextInRange board
board-NextInRange = λ a b e q. ground (arith, q)

page-HasRoom : HasRoom board page 3
page-HasRoom = omega (arith, page-IsHeap)

map_add-Outcome_example :
    (out : Syspage × Result (Unit {0})) × (map_add board
        (b'o' ∷ b'c' ∷ b'm' ∷ [])
        0x20000
        0x30000
        (b'r' ∷ b'w' ∷ [])
        page
      ≡ some out)
    × MapOutcome board (b'o' ∷ b'c' ∷ b'm' ∷ []) 0x20000 0x30000 (b'r' ∷ b'w' ∷ []) page out
map_add-Outcome_example =
    map_add-Outcome board (b'o' ∷ b'c' ∷ b'm' ∷ []) 0x20000 0x30000 (b'r' ∷ b'w' ∷ []) page
      board-NextInRange page-HasRoom (omega arith)

sorted_insert-Chain_example :
    Chain 0x10000 0x20000 (sorted_insert ram.entries (entry 0x12800 0x13000))
sorted_insert-Chain_example =
    sorted_insert-Chain ram.entries (entry 0x12800 0x13000) ram-IsOrdered.ordered (omega arith)
      (omega arith) (omega arith) (refl, (refl, tt))

alloc-page : alloc page 20 ≡ some (0x1040, record page { heap_top = 0x1058; size = 0x58 })
unfolding alloc align_addr
alloc-page = refl

alloc-Allocated_example : Allocated page 20 0x1040 (record page { heap_top = 0x1058; size = 0x58 })
alloc-Allocated_example = alloc-Allocated 20 page-IsHeap (omega arith) alloc-page

alloc_big : alloc page 0x1000 ≡ none
unfolding alloc align_addr
alloc_big = refl

alloc-eq-none_example : page.heap_end < page.heap_top + 0x1000 + 8
alloc-eq-none_example = alloc-eq-none 0x1000 page-IsHeap (omega arith) alloc_big

ram-Distinct : Distinct page.maps
ram-Distinct = (tt, tt)

map_add-Distinct_example :
    (out : Syspage × Result (Unit {0})) × (map_add board
        (b'o' ∷ b'c' ∷ b'm' ∷ [])
        0x20000
        0x30000
        (b'r' ∷ b'w' ∷ [])
        page
      ≡ some out)
    × Distinct out.0.maps
map_add-Distinct_example =
    map_add-Distinct board (b'o' ∷ b'c' ∷ b'm' ∷ []) 0x20000 0x30000 (b'r' ∷ b'w' ∷ []) page
      board-NextInRange page-HasRoom (omega arith) ram-Distinct

-- The command "map ocm 0x20000 0x30000 rw".
abbrev from_text : Bytes
from_text = b'0' ∷ b'x' ∷ b'2' ∷ b'0' ∷ b'0' ∷ b'0' ∷ b'0' ∷ []

abbrev to_text : Bytes
to_text = b'0' ∷ b'x' ∷ b'3' ∷ b'0' ∷ b'0' ∷ b'0' ∷ b'0' ∷ []

texts_in_order : (strtoul from_text 0).0 ≤ (strtoul to_text 0).0
unfolding strtoul
texts_in_order = omega arith

cmd_map-Distinct_example :
    (out : Syspage × ℕ) × (cmd_map board
        ((b'm' ∷ []) ∷ (b'o' ∷ b'c' ∷ b'm' ∷ []) ∷ from_text ∷ to_text ∷ (b'r' ∷ b'w' ∷ []) ∷ [])
        page
      ≡ some out)
    × Distinct out.0.maps
    × Exits board (b'o' ∷ b'c' ∷ b'm' ∷ []) from_text to_text (b'r' ∷ b'w' ∷ []) page out
cmd_map-Distinct_example =
    cmd_map-Distinct board (b'm' ∷ []) (b'o' ∷ b'c' ∷ b'm' ∷ []) from_text to_text
      (b'r' ∷ b'w' ∷ []) page board-NextInRange page-HasRoom texts_in_order ram-Distinct
