-- ===== src/LoadApp/Interface.antt =====
-- phfs/phfs.h as cmds/app.c uses it, besides what Phfs/Files.antt gives: filled by phfs/phfs.c.
use plo.Common.{ℕ}
use plo.Common.Result.{Result}
use plo.Devs.{Devs}
use plo.Msg.Header.{Msg}
use plo.Phfs.{Phfs, alias_addr_resolve}
use plo.Phfs.Access.{stat, map_range}
use plo.LoadApp.{Places}

-- The operations of phfs/phfs.c, where the hardware has the state `T`.
module _ {T : Type 0} (w : ℕ) (devs : Devs T)
    (send : ℕ → ℕ → Msg → Msg → T → Result (Unit {0}) × Msg × T) (stack : Msg × Msg) where
  unfoldable pub phfs_places : Places (Phfs × T)
  phfs_places = record {
    stat_file = λ h s. let r = stat w devs send stack s.0 h s.1 in (r.0, (s.0, r.1));
    addr_resolve = λ h s. alias_addr_resolve s.0 h;
    map_file = λ h addr sz mode start len attr s.
        let r = map_range w devs send stack s.0 h addr sz mode start len attr s.1 in
        (r.0, (s.0, r.1));
  }
