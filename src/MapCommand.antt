-- ===== src/MapCommand.antt =====
-- cmds/map.c: the command `map`. `none` is a loop of syspage_mapAdd that does not end.
pub mod Distinct
use plo.Common.{ℕ, Bool, true, false, Option, none, some, List, [], ◌∷◌, if◌then◌else◌}
use plo.Common.CString.{Bytes}
use plo.Common.Result.{Result, ok, err}
use plo.Strtoul.{strtoul}
use plo.Syspage.State.{Syspage, Target}
use plo.Syspage.Maps.{map_add}

-- `CMD_EXIT_SUCCESS` or `CMD_EXIT_FAILURE`, for the result of `syspage_mapAdd`
abbrev pub map_exit : Option (Syspage × Result (Unit {0})) → Option (Syspage × ℕ)
map_exit none = none
map_exit (some (s, ok _)) = some (s, 0)
map_exit (some (s, err _)) = some (s, 1)

-- `*endptr`
abbrev pub has_more : Bytes → Bool
has_more [] = false
has_more (c ∷ cs) = true

-- `cmd_map`; without arguments it prints the maps.
unfoldable pub cmd_map : Target → List Bytes → Syspage → Option (Syspage × ℕ)
cmd_map t (cmd ∷ []) s = some (s, 0)
cmd_map t (cmd ∷ name ∷ start ∷ end ∷ attr ∷ []) s =
    if has_more (strtoul start 0).1
    then some (s, 1)
    else if has_more (strtoul end 0).1
    then some (s, 1)
    else map_exit (map_add t name (strtoul start 0).0 (strtoul end 0).0 attr s)
cmd_map t argv s = some (s, 1)
