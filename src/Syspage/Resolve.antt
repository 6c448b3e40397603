-- ===== src/Syspage/Resolve.antt =====
-- The functions of syspage.c that only look a map up, and its two setters.
use plo.Common.{ℕ, ◌&&◌, Option, none, some, ltb, leb, ◌==◌}
use plo.Common.CString.{Bytes}
use plo.Common.Result.{Result, ok, err, einval}
use plo.Syspage.State.{SysMap, Syspage}
use plo.Syspage.Maps.{find_map, map_get}

-- `syspage_mapAttrResolve`, `syspage_mapNameResolve` and `syspage_mapRangeResolve` return a part
-- of the map of that name.
unfoldable pub resolve {ℓ} : {A : Type ℓ} → (SysMap → A) → Syspage → Bytes → Result A
unfolding map_get
resolve part s name = elim (map_get s name) [ none ↦ err einval | some (_, m) ↦ ok (part m) ]

unfoldable pub map_attr_resolve : Syspage → Bytes → Result ℕ
unfolding resolve
map_attr_resolve = resolve (λ m. m.attr)

unfoldable pub map_name_resolve : Syspage → Bytes → Result ℕ
unfolding resolve
map_name_resolve = resolve (λ m. m.id)

unfoldable pub map_range_resolve : Syspage → Bytes → Result (ℕ × ℕ)
unfolding resolve
map_range_resolve = resolve (λ m. (m.start, m.end))

-- `syspage_mapRangeCheck`: the attributes that it writes, or `none` where it returns 0.
unfoldable pub map_range_check : Syspage → ℕ → ℕ → Option ℕ
unfolding find_map
map_range_check s start end = elim (find_map (λ m. leb m.start start && ltb end m.end) 0 s.maps) [
  | none ↦ none
  | some (_, m) ↦ some m.attr
]

-- `syspage_mapName`
unfoldable pub map_name : Syspage → ℕ → Option Bytes
unfolding find_map
map_name s id = elim (find_map (λ m. m.id == id) 0 s.maps) [
  | none ↦ none
  | some (_, m) ↦ some m.name
]

-- `syspage_kernelPAddrAdd`
unfoldable pub kernel_paddr_add : Syspage → ℕ → Syspage
kernel_paddr_add s address = record s { pkernel = address }

-- `syspage_consoleSet`
unfoldable pub console_set : Syspage → ℕ → Syspage
console_set s id = record s { console = id }
