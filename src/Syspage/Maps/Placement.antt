-- ===== src/Syspage/Maps/Placement.antt =====
-- `syspage_entryAdd` where it looks for the best fit in a named map.
use plo.Common.{
  Bool, ◌++◌, sym, ◌∙◌, length, Bool-cases, ℕ, ◌+◌, ◌≤◌, ◌<◌, ◌^◌, ◌%◌, ◌≡◌, ◌≢◌, refl, ap, subst,
  List, [], ◌∷◌, Option, none, some, arith, ◌⊎◌, inl, inr, Option-cases,
}
use mathlib.Core.Option.{some-injective}
use native.Mathlib.Nat.{one-le-pow}
use plo.Common.CString.{Bytes}
use plo.Syspage.State.{MapEnt, allocated, SysMap, Syspage, Target}
use plo.Syspage.Alloc.{alloc}
use plo.Syspage.Alloc.Heap.{IsHeap, alloc-Allocated}
use plo.Syspage.Align.Word.{up}
use plo.Syspage.Entries.{sorted_insert}
use plo.Syspage.Entries.Chain.{Chain, Apart, sorted_insert-Chain, Inserted, sorted_insert-Inserted}
use plo.Syspage.Entries.Gaps.{gaps, All, StartsAt, IsBestGap, gap-Apart}
use plo.Syspage.Entries.BestFit.{best_fit-Outcome}
use plo.Syspage.Maps.Filling.{with_entries}
use plo.Syspage.Maps.{
  find_map, map_get, entry_map, put_entry, modify_map, add_entry_at, place_entry, entry_place,
  entry_add,
}

-- A map whose entries stand in order and start, like the map ends, at multiples of `1 << k`.
pub record IsOrdered (k : ℕ) (m : SysMap) : Type 0 where
  pub ordered : Chain m.start m.end m.entries
  pub starts : StartsAt (2 ^ k) m.entries
  pub end_mod : m.end % 2 ^ k ≡ 0
  pub end_le : m.end + 2 ^ k ≤ 2 ^ 32

sorted_insert-StartsAt :
    (d : ℕ) (es : List MapEnt) (new : MapEnt)
    → StartsAt d es
    → new.start % d ≡ 0
    → StartsAt d (sorted_insert es new)
unfolding sorted_insert
sorted_insert-StartsAt d [] new a h = (h, tt)
sorted_insert-StartsAt d (e ∷ es) new a h = ground (arith, sorted_insert-StartsAt d es new a.1 h)

Apart-shorter : (es : List MapEnt) (p q q' : ℕ) → q' ≤ q → Apart es p q → Apart es p q'
Apart-shorter [] p q q' h a = tt
Apart-shorter (e ∷ es) p q q' h a = (ground (arith, a.0), Apart-shorter es p q q' h a.1)

-- An entry put where the best gap starts keeps the map in order.
put_entry-IsOrdered :
    (k size p : ℕ) (m : SysMap) (e : MapEnt)
    → IsOrdered k m
    → 0 < size
    → IsBestGap size (gaps (2 ^ k) (up (2 ^ k) m.start) m.end m.entries) p
    → e.start ≡ p
    → e.end ≡ p + size
    → IsOrdered k (put_entry e m)
put_entry-IsOrdered k size p m e o pos (sz, here, enough, _) hs he =
    let g =
      gap-Apart (2 ^ k) m.start m.end m.entries p sz (omega (arith, one-le-pow k 2)) o.end_mod
        o.ordered o.starts here in
    record {
      ordered =
          sorted_insert-Chain m.entries e o.ordered (omega arith) (omega arith) (omega arith)
            (rw (hs, he) (Apart-shorter m.entries p (p + sz) (p + size) (omega arith) g.3));
      starts = sorted_insert-StartsAt (2 ^ k) m.entries e o.starts (rw hs g.2);
      end_mod = o.end_mod;
      end_le = o.end_le;
    }

-- The map that stands at the place `i` of the list, and the list with `m'` in its place.
pub record Replaced (i : ℕ) (m m' : SysMap) (ms ms' : List SysMap) : Type 0 where
  pub before : List SysMap
  pub after : List SysMap
  pub place : length before ≡ i
  pub old : ms ≡ before ++ m ∷ after
  pub new : ms' ≡ before ++ m' ∷ after

modify_map-Replaced :
    (f : SysMap → SysMap) (i : ℕ) (m : SysMap) (ms before after : List SysMap)
    → ms ≡ before ++ m ∷ after
    → length before ≡ i
    → Replaced i m (f m) ms (modify_map f i ms)
unfolding modify_map
modify_map-Replaced f i m ms before after e l = record {
  before = before;
  after = after;
  place = l;
  old = e;
  new =
      ap (modify_map f i) e
      ∙ ap (λ j. modify_map f j (before ++ m ∷ after)) (sym l)
      ∙ at_place before;
}
  where
    at_place : (xs : List SysMap) → modify_map f (length xs) (xs ++ m ∷ after) ≡ xs ++ f m ∷ after
    at_place [] = refl
    at_place (x ∷ xs) = ap (λ r. x ∷ r) (at_place xs)

-- What `syspage_mapGet` finds stands in the list.
find_map-place :
    (test : SysMap → Bool) (i j : ℕ) (m : SysMap) (ms : List SysMap)
    → find_map test i ms ≡ some (j, m)
    → (before : List SysMap) × (after : List SysMap) × (ms ≡ before ++ m ∷ after)
      × (i + length before ≡ j)
unfolding find_map
find_map-place test i j m [] h = absurd (ground (arith, h))
find_map-place test i j m (x ∷ ms) h = elim (Bool-cases (test x)) [
  | inl here ↦
      let found = some-injective _ _ (rw (here, find_map) at h) in
      (
        [],
        ms,
        ap (λ (r : ℕ × SysMap). r.1 ∷ ms) found,
        omega (arith, ap (λ (r : ℕ × SysMap). r.0) found),
      )
  | inr other ↦
      let (before, after, e, l) = find_map-place test (i + 1) j m ms (rw (other, find_map) at h) in
      (x ∷ before, after, ap (λ r. x ∷ r) e, omega arith)
]

-- What a successful call returns and leaves: an entry of `size` bytes at the best gap, in the list
-- of the map with the entries that were there, in order; the heap stays valid, and the other maps
-- are as before.
pub record Placed (k size i : ℕ) (m : SysMap) (s : Syspage) (e : MapEnt) (s' : Syspage)
    : Type 0 where
  pub at_gap : IsBestGap size (gaps (2 ^ k) (up (2 ^ k) m.start) m.end m.entries) e.start
  pub sized : e.end ≡ e.start + size
  pub kind : e.type ≡ allocated
  pub entries : List MapEnt
  pub inserted : Inserted e m.entries entries
  pub replaced : Replaced i m (with_entries m entries) s.maps s'.maps
  pub in_order : IsOrdered k (with_entries m entries)
  pub heap : IsHeap s'

-- The end of the entry does not wrap.
gap_fits :
    (k size p : ℕ) (m : SysMap)
    → IsOrdered k m
    → IsBestGap size (gaps (2 ^ k) (up (2 ^ k) m.start) m.end m.entries) p
    → (p + size) % 0x1_0000_0000 ≡ p + size
gap_fits k size p m o (sz, here, enough, _) =
    let g =
      gap-Apart (2 ^ k) m.start m.end m.entries p sz (omega (arith, one-le-pow k 2)) o.end_mod
        o.ordered o.starts here in
    omega (arith, one-le-pow k 2)

abbrev new_entry : ℕ → ℕ → MapEnt
new_entry p size = record { start = p; end = p + size; type = allocated }

place_entry-Placed :
    (t : Target) (k size i p : ℕ) (m : SysMap) (s : Syspage)
    → IsHeap s
    → s.heap_end + t.sizeof_entry + 8 ≤ 2 ^ 32
    → 0 < size
    → IsOrdered k m
    → IsBestGap size (gaps (2 ^ k) (up (2 ^ k) m.start) m.end m.entries) p
    → (before : List SysMap) (after : List SysMap) → s.maps ≡ before ++ m ∷ after
    → length before ≡ i
    → ((s' : Syspage) × (place_entry t i p size s ≡ (some (new_entry p size), s'))
        × Placed k size i m s (new_entry p size) s')
      ⊎ (place_entry t i p size s ≡ (none, s)) × (alloc s t.sizeof_entry ≡ none)
unfolding place_entry
place_entry-Placed t k size i p m s v fits pos o best before after here l =
    elim (Option-cases (alloc s t.sizeof_entry)) [
      | inl full ↦ inr (rw (full, place_entry) refl, full)
      | inr (q, got) ↦
          let a = alloc-Allocated t.sizeof_entry v fits got in
          let e = new_entry p size in
          inl (
            add_entry_at i e q.1,
            rw (got, place_entry) (ap (with_end q.1) (gap_fits k size p m o best)),
            record {
              at_gap = best;
              sized = refl;
              kind = refl;
              entries = sorted_insert m.entries e;
              inserted = sorted_insert-Inserted m.entries e;
              replaced =
                  subst (Replaced i m (put_entry e m) s.maps)
                    (ap (modify_map (put_entry e) i) (sym a.same_maps))
                    (modify_map-Replaced (put_entry e) i m s.maps before after here l);
              in_order = put_entry-IsOrdered k size p m e o pos best refl refl;
              heap = omega (arith, a.heap);
            },
          )
    ]
  where
    with_end : Syspage → ℕ → Option MapEnt × Syspage
    with_end s' end =
        let e : MapEnt = record { start = p; end = end; type = allocated } in
        (some e, add_entry_at i e s')

-- `syspage_entryAdd` with the address of all ones, in a named map that is in order and has
-- entries: it puts an entry of `size` bytes at the best gap, aligned to `1 << k`, among the entries
-- of that map, which are kept and stay in order, and changes no other map; or every gap is too small or the
-- heap is full, and it returns NULL and changes nothing. The size is not 0, the heap is in order
-- and low enough for an entry, `k` is from 1 to 32, and the entries and the map's end stand at multiples of `1 << k`.
pub entry_add-Placed :
    (t : Target) (name : Bytes) (k size i : ℕ) (m : SysMap) (s : Syspage)
    → 0 < k
    → k ≤ 32
    → 0 < size
    → size < 2 ^ 32
    → IsHeap s
    → s.heap_end + t.sizeof_entry + 8 ≤ 2 ^ 32
    → map_get s name ≡ some (i, m)
    → IsOrdered k m
    → m.entries ≢ []
    → ((e : MapEnt) × (s' : Syspage) × (entry_add t (some name) 0xffff_ffff size (2 ^ k) s
          ≡ (some e, s'))
        × Placed k size i m s e s')
      ⊎ (entry_add t (some name) 0xffff_ffff size (2 ^ k) s ≡ (none, s))
        × ((alloc s t.sizeof_entry ≡ none)
            ⊎ All (λ g. g.1 < size) (gaps (2 ^ k) (up (2 ^ k) m.start) m.end m.entries))
unfolding entry_add entry_map entry_place map_get
entry_add-Placed t name k size i m s h₀ hk pos fits v room found o ne =
    let (before, after, here, l) = find_map-place _ 0 i m s.maps (unfold map_get in found) in
    elim (best_fit-Outcome k size m h₀ hk pos fits o.end_le ne o.end_mod o.ordered o.starts) [
      | inl (p, best, gap) ↦
          elim (place_entry-Placed t k size i p m s v room pos o gap before after here
            (omega (arith, l))) [
              | inl (s', runs, placed) ↦
                  inl (new_entry p size, s', rw (entry_add, found, entry_place, best) runs, placed)
              | inr (full, no_room) ↦
                  inr (rw (entry_add, found, entry_place, best) full, inl no_room)
            ]
      | inr (none_left, small) ↦ inr (rw (entry_add, found, entry_place, none_left) refl, inr small)
    ]
