-- ===== src/MapCommand/Distinct.antt =====
-- cmds/map.c over syspage.c: the command keeps the maps apart.
use plo.Common.{
  true, false, ◌||◌, ℕ, ◌≤◌, ◌≡◌, refl, ap, ◌∙◌, arith, Bool-cases, some, [], ◌∷◌, length, inl, inr,
}
use plo.Common.CString.{Bytes}
use plo.Common.Result.{Result, ok, err}
use plo.Strtoul.{strtoul}
use plo.Syspage.State.{Syspage, Target}
use plo.Syspage.Maps.Filling.{NextInRange, HasRoom}
use plo.Syspage.Maps.{map_add, any_conflict}
use plo.Syspage.Maps.Creation.{Added, Outcome, map_add-Outcome}
use plo.Syspage.Maps.Distinct.{Distinct, Outcome-Distinct}
use plo.MapCommand.{cmd_map, map_exit, has_more}

-- What the command leaves: the exit code is 0 where both numbers are whole and `syspage_mapAdd` has
-- returned 0, with the map asked for added behind the others. Else it is 1: a number is not whole and
-- nothing has changed, or `syspage_mapAdd` has returned an error.
pub data Exits (t : Target) (name start end attr : Bytes) (s : Syspage) : Syspage × ℕ → Type 0 where
  not_whole :
      has_more (strtoul start 0).1 || has_more (strtoul end 0).1 ≡ true
      → Exits t name start end attr s (s, 1)
  refused :
      (s' : Syspage) (e : ℕ)
      → map_add t name (strtoul start 0).0 (strtoul end 0).0 attr s ≡ some (s', err e)
      → Exits t name start end attr s (s', 1)
  map_added :
      (s' : Syspage)
      → has_more (strtoul start 0).1 ≡ false
      → has_more (strtoul end 0).1 ≡ false
      → any_conflict name (strtoul start 0).0 (strtoul end 0).0 s.maps ≡ false
      → Added t name (strtoul start 0).0 (strtoul end 0).0 attr s.maps s'.maps (ok tt)
      → Exits t name start end attr s (s', 0)

module _ (t : Target) (name start end attr : Bytes) (s : Syspage) where
  -- The exit code for what `syspage_mapAdd` leaves.
  exits :
      (out : Syspage × Result (Unit {0}))
      → has_more (strtoul start 0).1 ≡ false
      → has_more (strtoul end 0).1 ≡ false
      → map_add t name (strtoul start 0).0 (strtoul end 0).0 attr s ≡ some out
      → Outcome t name (strtoul start 0).0 (strtoul end 0).0 attr s out
      → Distinct out.0.maps
      → (r : Syspage × ℕ) × (map_exit (some out) ≡ some r)
        × Distinct r.0.maps
        × Exits t name start end attr s r
  exits (s', ok u) h h' runs o d = (
    (s', 0),
    refl,
    d,
    elim o.maps [ inl (_, bad, _) ↦ absurd (bad refl) | inr (a, free) ↦ map_added s' h h' free a ],
  )
  exits (s', err e) h h' runs o d = ((s', 1), refl, d, refused s' e runs)

-- `cmd_map` with a name, two numbers and attributes comes to an end, and leaves maps of which no two
-- share an address or a name where there were such maps before. It exits with 0 where both numbers
-- are whole and the map asked for is added behind the others, whose addresses and names differ from its;
-- else with 1, where a number is not whole and nothing changes, or where `syspage_mapAdd` fails. The
-- HAL's entries lie in the range asked for, the heap is in order and low enough for the structures
-- and the name, and the first number is not above the second.
pub cmd_map-Distinct :
    (t : Target) (cmd name start end attr : Bytes) (s : Syspage)
    → NextInRange t
    → HasRoom t s (length name)
    → (strtoul start 0).0 ≤ (strtoul end 0).0
    → Distinct s.maps
    → (out : Syspage × ℕ) × (cmd_map t (cmd ∷ name ∷ start ∷ end ∷ attr ∷ []) s ≡ some out)
      × Distinct out.0.maps
      × Exits t name start end attr s out
unfolding cmd_map
cmd_map-Distinct t cmd name start end attr s next h le v =
    elim (Bool-cases (has_more (strtoul start 0).1)) [
      | inl wrong ↦ ((s, 1), rw (wrong, cmd_map) refl, v, not_whole (ground arith))
      | inr start_ok ↦ elim (Bool-cases (has_more (strtoul end 0).1)) [
        | inl wrong ↦ ((s, 1), rw (start_ok, wrong, cmd_map) refl, v, not_whole (ground arith))
        | inr end_ok ↦
            let (out, runs, o) =
              map_add-Outcome t name (strtoul start 0).0 (strtoul end 0).0 attr s next h le in
            let r =
              exits t name start end attr s out start_ok end_ok runs o (Outcome-Distinct o v) in
            (r.0, rw (start_ok, end_ok, cmd_map) (ap map_exit runs ∙ r.1), r.2, r.3)
      ]
    ]
