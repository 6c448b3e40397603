-- ===== src/Syspage/Alloc/Heap.antt =====
-- The heap of syspage.c: each block lies behind the one before it and below the limit.
use plo.Common.{ℕ, ◌+◌, ◌%◌, ◌^◌, ◌≤◌, ◌<◌, ◌≡◌, none, some, arith}
use plo.Syspage.State.{Syspage}
use plo.Syspage.Align.Word.{align_word}
use plo.Syspage.Alloc.{alloc, new_top}

-- The heap's top is a multiple of 8 below its limit, `size` reaches from the page's base to the
-- top, and there is room for one more rounding up below 4 GiB.
pub record IsHeap (s : Syspage) : Type 0 where
  pub base_le : s.base ≤ s.heap_top
  pub top_lt : s.heap_top < s.heap_end
  pub end_le : s.heap_end + 8 ≤ 2 ^ 32
  pub top_mod : s.heap_top % 8 ≡ 0
  pub size_is : s.base + s.size ≡ s.heap_top

new_top_bounds :
    (s : Syspage) (size : ℕ)
    → s.heap_top + size + 8 ≤ 2 ^ 32
    → (s.heap_top + size ≤ new_top s size)
      × (new_top s size < s.heap_top + size + 8)
      × (new_top s size % 8 ≡ 0)
new_top_bounds s size h =
    let r = align_word 3 ((s.heap_top + size) % 2 ^ 32) (omega arith) (omega arith) in omega arith

-- What a caller may rely on where `syspage_alloc` returns the block at `a`.
pub record Allocated (s : Syspage) (size a : ℕ) (s' : Syspage) : Type 0 where
  pub heap : IsHeap s'
  pub starts : a ≡ s.heap_top
  pub fits : a + size ≤ s'.heap_top
  pub tight : s'.heap_top < a + size + 8
  pub same_base : s'.base ≡ s.base
  pub same_end : s'.heap_end ≡ s.heap_end
  pub same_maps : s'.maps ≡ s.maps
  pub same_progs : s'.progs ≡ s.progs

-- A block that `syspage_alloc` gives, from a heap in order whose end lies low enough for its size:
-- it starts at the old top and lies below the new one, and the heap stays in order.
pub alloc-Allocated :
    {s : Syspage} (size : ℕ) {a : ℕ} {s' : Syspage}
    → IsHeap s
    → s.heap_end + size + 8 ≤ 2 ^ 32
    → alloc s size ≡ some (a, s')
    → Allocated s size a s'
unfolding alloc
alloc-Allocated {s} size v h e = ground (arith, new_top_bounds s size)

-- A heap in order, whose end lies low enough for the size, refuses a block only if there are less
-- than 8 bytes more than its size between the top and the limit.
pub alloc-eq-none :
    {s : Syspage} (size : ℕ)
    → IsHeap s
    → s.heap_end + size + 8 ≤ 2 ^ 32
    → alloc s size ≡ none
    → s.heap_end < s.heap_top + size + 8
unfolding alloc
alloc-eq-none {s} size v h e = ground (arith, new_top_bounds s size)
