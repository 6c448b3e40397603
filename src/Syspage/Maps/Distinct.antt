-- ===== src/Syspage/Maps/Distinct.antt =====
-- syspage.c: no two maps have an address or their name in common.
use plo.Common.{
  ℕ, ◌≤◌, ◌≡◌, ◌≢◌, sym, subst, false, List, [], ◌∷◌, ◌++◌, some, arith, ◌⊎◌, inl, inr, length,
}
use plo.Common.CString.{Bytes, str_eq_iff}
use plo.Common.Result.{Result}
use plo.Syspage.State.{SysMap, Syspage, Target}
use plo.Syspage.Maps.{any_conflict, conflicts, new_map, map_add}
use plo.Syspage.Maps.Filling.{NextInRange, HasRoom}
use plo.Syspage.Maps.Creation.{Outcome, map_add-Outcome}

-- Two maps share no address and have different names.
pub record Separate (m m' : SysMap) : Type 0 where
  pub ranges : (m'.end ≤ m.start) ⊎ (m.end ≤ m'.start)
  pub names : m'.name ≢ m.name

abbrev SeparateFrom : SysMap → List SysMap → Type 0
SeparateFrom m [] = Unit
SeparateFrom m (m' ∷ ms) = Separate m m' × SeparateFrom m ms

-- Each map is separate from the ones behind it.
abbrev pub Distinct : List SysMap → Type 0
Distinct [] = Unit
Distinct (m ∷ ms) = SeparateFrom m ms × Distinct ms

conflicts-Separate :
    (m new : SysMap) → conflicts new.name new.start new.end m ≡ false → Separate m new
conflicts-Separate m new h = record {
  ranges = ground (arith, h);
  names = λ e. ground (arith, h, str_eq_iff new.name m.name, e);
}

any_conflict-append :
    (m new : SysMap) (ms : List SysMap)
    → Separate m new
    → SeparateFrom m ms
    → SeparateFrom m (ms ++ new ∷ [])
any_conflict-append m new [] h v = (h, tt)
any_conflict-append m new (m' ∷ ms) h v = (v.0, any_conflict-append m new ms h v.1)

append-Distinct :
    (ms : List SysMap) (new : SysMap)
    → any_conflict new.name new.start new.end ms ≡ false
    → Distinct ms
    → Distinct (ms ++ new ∷ [])
unfolding any_conflict
append-Distinct [] new h v = (tt, tt)
append-Distinct (m ∷ ms) new h v = (
  any_conflict-append m new ms (conflicts-Separate m new (ground (arith, h))) v.0,
  append-Distinct ms new (ground (arith, h)) v.1,
)

-- What `syspage_mapAdd` may leave is separate where the maps were.
pub Outcome-Distinct :
    {t : Target} {name : Bytes} {start end : ℕ} {attr : Bytes} {s : Syspage}
    {out : Syspage × Result (Unit {0})}
    → Outcome t name start end attr s out
    → Distinct s.maps
    → Distinct out.0.maps
Outcome-Distinct {t} {name} {start} {end} {attr} {s} o v = elim o.maps [
  | inl (same, _, _) ↦ subst Distinct (sym same) v
  | inr (a, free) ↦
      let new : SysMap = record (new_map s.maps name start end a.bits) { entries = a.entries } in
      subst Distinct (sym a.maps_are) (append-Distinct s.maps new free v)
]

-- `syspage_mapAdd`, on maps of which no two share an address or a name, comes to an end and leaves
-- such maps, whether it succeeds or fails. The HAL's entries lie in the range asked for, the heap is
-- in order and low enough for the structures and the name, and the start is not behind the end.
pub map_add-Distinct :
    (t : Target) (name : Bytes) (start end : ℕ) (attr : Bytes) (s : Syspage)
    → NextInRange t
    → HasRoom t s (length name)
    → start ≤ end
    → Distinct s.maps
    → (out : Syspage × Result (Unit {0})) × (map_add t name start end attr s ≡ some out)
      × Distinct out.0.maps
map_add-Distinct t name start end attr s next h le v =
    let (out, runs, o) = map_add-Outcome t name start end attr s next h le in
    (out, runs, Outcome-Distinct o v)
