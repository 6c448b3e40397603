-- ===== src/Syspage/Maps.antt =====
-- The maps of syspage.c: their attributes, their creation and their entries.
pub mod Filling
pub mod Creation
pub mod Distinct
pub mod Placement
use plo.Common.{
  ℕ, zero, suc, ◌+◌, ◌^◌, Bool, false, ◌&&◌, ◌||◌, List, [], ◌∷◌, ◌++◌, Option, none, some, ltb,
  leb, ◌==◌, if◌then◌else◌, length, bit_and, bit_or,
}
use mathlib.Core.Option
use plo.Common.Bits.{u8, u32}
use plo.Common.CString.{Bytes, str_eq}
use plo.Common.Result.{Result, ok, err, einval, enomem}
use plo.Syspage.State.{MapEnt, allocated, SysMap, Syspage, Attrs, Target}
use plo.Syspage.Align.{align_addr}
use plo.Syspage.Alloc.{alloc}
use plo.Syspage.Entries.{sorted_insert, overlaps, best_fit}

-- The bit of one letter of an attribute string.
unfoldable pub attr_bit : Attrs → ℕ → Option ℕ
attr_bit t c =
    if c == b'r'
    then some t.read
    else if c == b'w'
    then some t.write
    else if c == b'x'
    then some t.exec
    else if c == b's'
    then some t.shareable
    else if c == b'c'
    then some t.cacheable
    else if c == b'b'
    then some t.bufferable
    else none

-- `syspage_strAttr2ui`, from the value `attr` collected so far.
unfoldable pub str_attr_from : Attrs → ℕ → Bytes → Result ℕ
unfolding attr_bit
str_attr_from t attr [] = ok attr
str_attr_from t attr (c ∷ cs) = elim (attr_bit t c) [
  | none ↦ err einval
  | some b ↦ str_attr_from t (bit_or attr b) cs
]

unfoldable pub str_attr2ui : Attrs → Bytes → Result ℕ
unfolding str_attr_from
str_attr2ui t str = str_attr_from t 0 str

-- The letter that `syspage_uiAttr2str` writes for `attr & (1 << i)`.
unfoldable pub attr_letter : Attrs → ℕ → Bytes
attr_letter t bit =
    if bit == t.read
    then b'r' ∷ []
    else if bit == t.write
    then b'w' ∷ []
    else if bit == t.exec
    then b'x' ∷ []
    else if bit == t.shareable
    then b's' ∷ []
    else if bit == t.cacheable
    then b'c' ∷ []
    else if bit == t.bufferable
    then b'b' ∷ []
    else []

-- The letters of the bits from `i` on; `n` of them are left.
unfoldable pub attr_letters : Attrs → ℕ → ℕ → ℕ → Bytes
unfolding attr_letter
attr_letters t attr i zero = []
attr_letters t attr i (suc n) =
    attr_letter t (bit_and attr (2 ^ i)) ++ attr_letters t attr (i + 1) n

unfoldable pub ui_attr2str : Attrs → ℕ → Bytes
unfolding attr_letters
ui_attr2str t attr = attr_letters t attr 0 32

-- The first map that passes the test, and its position, from position `i` on.
unfoldable pub find_map : (SysMap → Bool) → ℕ → List SysMap → Option (ℕ × SysMap)
find_map test i [] = none
find_map test i (m ∷ ms) =
    let rest = find_map test (i + 1) ms in if test m then some (i, m) else rest

-- `syspage_mapGet`
unfoldable pub map_get : Syspage → Bytes → Option (ℕ × SysMap)
unfolding find_map
map_get s name = find_map (λ m. str_eq name m.name) 0 s.maps

-- The test of `syspage_mapAdd` against one map, and against all of them.
abbrev pub conflicts : Bytes → ℕ → ℕ → SysMap → Bool
conflicts name start end m = (ltb m.start end && ltb start m.end) || str_eq name m.name

unfoldable pub any_conflict : Bytes → ℕ → ℕ → List SysMap → Bool
any_conflict name start end [] = false
any_conflict name start end (m ∷ ms) = conflicts name start end m || any_conflict name start end ms

-- `map->prev->id + 1` for a map that is appended, 0 for the first.
unfoldable pub next_id : List SysMap → ℕ
next_id [] = 0
next_id (m ∷ []) = u8 (m.id + 1)
next_id (m ∷ m' ∷ ms) = next_id (m' ∷ ms)

abbrev pub put_entry : MapEnt → SysMap → SysMap
put_entry e m = record m { entries = sorted_insert m.entries e }

unfoldable pub modify_map : (SysMap → SysMap) → ℕ → List SysMap → List SysMap
modify_map f i [] = []
modify_map f zero (m ∷ ms) = f m ∷ ms
modify_map f (suc i) (m ∷ ms) = m ∷ modify_map f i ms

abbrev pub add_entry_at : ℕ → MapEnt → Syspage → Syspage
add_entry_at i e s = record s { maps = modify_map (put_entry e) i s.maps }

-- The loop of `syspage_mapAdd` over the entries that the HAL knows. `none` means that the fuel
-- ran out. Each round takes a block of the heap.
unfoldable pub hal_entries : Target → ℕ → ℕ → ℕ → ℕ → Syspage → Option (Syspage × Result (Unit {0}))
unfolding alloc modify_map sorted_insert
hal_entries t zero i start end s = none
hal_entries t (suc fuel) i start end s = elim (t.memory_get_next_entry start end) [
  | none ↦ some (s, ok tt)
  | some e ↦ elim (alloc s t.sizeof_entry) [
    | none ↦ some (s, err enomem)
    | some (_, s') ↦ hal_entries t fuel i e.end end (add_entry_at i e s')
  ]
]

-- `hal_memoryAddMap`, and what `syspage_mapAdd` returns.
abbrev pub finish_map : Target → SysMap → Syspage × Result (Unit {0}) → Syspage × Result (Unit {0})
finish_map t m (s, err e) = (s, err e)
finish_map t m (s, ok _) = elim (t.memory_add_map m.start m.end m.attr m.id) [
  | none ↦ (s, ok tt)
  | some e ↦ (s, err e)
]

abbrev pub new_map : List SysMap → Bytes → ℕ → ℕ → ℕ → SysMap
new_map ms name start end attr = record {
  name = name;
  start = start;
  end = end;
  attr = attr;
  id = next_id ms;
  entries = [];
}

-- The part of `syspage_mapAdd` behind the allocations and the attributes: the map is linked in
-- before its entries are read. The heap's end is fuel enough for these.
unfoldable pub link_map :
    Target → Bytes → ℕ → ℕ → ℕ → Syspage → Option (Syspage × Result (Unit {0}))
unfolding hal_entries next_id
link_map t name start end attr s =
    let m = new_map s.maps name start end attr in
    let linked = record s { maps = s.maps ++ m ∷ [] } in
    Option.map (finish_map t m) (hal_entries t s.heap_end (length s.maps) start end linked)

-- `syspage_mapAdd` from the conversion of the attributes on.
abbrev pub with_attr :
    Target → Bytes → ℕ → ℕ → Syspage → Result ℕ → Option (Syspage × Result (Unit {0}))
with_attr t name start end s (err e) = some (s, err e)
with_attr t name start end s (ok iattr) = link_map t name start end iattr s

-- `syspage_mapAdd`
unfoldable pub map_add :
    Target → Bytes → ℕ → ℕ → Bytes → Syspage → Option (Syspage × Result (Unit {0}))
unfolding any_conflict alloc str_attr2ui
map_add t name start end attr s =
    if any_conflict name start end s.maps
    then some (s, err einval)
    else elim (alloc s t.sizeof_map) [
      | none ↦ some (s, err enomem)
      | some (_, s₁) ↦ elim (alloc s₁ (length name + 1)) [
        | none ↦ some (s₁, err enomem)
        | some (_, s₂) ↦ with_attr t name start end s₂ (str_attr2ui t.attrs attr)
      ]
    ]

-- The argument `mapName` of `syspage_entryAdd`, with the map that it stands for: by its name, or
-- for NULL the first one that holds the whole range.
unfoldable pub entry_map : Option Bytes → ℕ → ℕ → Syspage → Option (ℕ × SysMap)
entry_map none start size s =
    find_map (λ m. leb m.start start && leb (u32 (start + size)) m.end) 0 s.maps
entry_map (some name) start size s = map_get s name

unfoldable pub any_overlap : List MapEnt → ℕ → ℕ → Bool
any_overlap [] start end = false
any_overlap (e ∷ es) start end = overlaps e start end || any_overlap es start end

-- A place at the address asked for, if no entry of the map is in the way.
unfoldable pub fixed_place : ℕ → ℕ → ℕ → SysMap → Option ℕ
fixed_place from size align m =
    let start = align_addr 32 32 from align in
    if any_overlap m.entries start (u32 (start + size)) then none else some start

-- Where the new entry starts; an address of all ones asks for the best fit in a named map.
unfoldable pub entry_place : Option Bytes → ℕ → ℕ → ℕ → SysMap → Option ℕ
entry_place none start size align m = fixed_place start size align m
entry_place (some _) start size align m =
    if start == 0xffff_ffff
    then elim (best_fit m size align) [ ok p ↦ some p | err _ ↦ none ]
    else fixed_place (u32 (m.start + start)) size align m

-- `syspage_entryAdd`, from the map and the start on.
unfoldable pub place_entry : Target → ℕ → ℕ → ℕ → Syspage → Option MapEnt × Syspage
place_entry t i start size s =
    let e : MapEnt = record { start = start; end = u32 (start + size); type = allocated } in
    elim (alloc s t.sizeof_entry) [
      | none ↦ (none, s)
      | some (_, s') ↦ (some e, add_entry_at i e s')
    ]

-- `syspage_entryAdd`; `none` is NULL, for its map's name and for its result.
unfoldable pub entry_add : Target → Option Bytes → ℕ → ℕ → ℕ → Syspage → Option MapEnt × Syspage
entry_add t name start size align s = elim (entry_map name start size s) [
  | none ↦ (none, s)
  | some (i, m) ↦ elim (entry_place name start size align m) [
    | none ↦ (none, s)
    | some p ↦ place_entry t i p size s
  ]
]
