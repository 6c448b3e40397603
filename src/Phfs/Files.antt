-- ===== src/Phfs/Files.antt =====
-- phfs/phfs.h as the commands use it: the operations on files over the state of the loader.
use plo.Common.{ℕ, Option}
use plo.Common.CString.{Bytes}
use plo.Common.Result.{Result, ok, err}
use plo.Devs.{Devs}
use plo.Msg.Header.{Msg}
use plo.Phfs.{Phfs, Handler, no_id, alias_reg}
use plo.Phfs.Access.{phfs_open, read, write, close}

-- The handler that `phfs_open` stores is its result.
pub record Files (S : Type 0) : Type 0 where
  pub open_file : Bytes → Option Bytes → ℕ → S → Result Handler × S
  pub read_file : Handler → ℕ → ℕ → S → Result Bytes × S
  pub write_file : Handler → ℕ → Bytes → S → Result ℕ × S
  pub close_file : Handler → S → Result ℕ × S
  pub reg_alias : Option Bytes → ℕ → ℕ → S → Result ℕ × S

-- The operations of phfs/phfs.c, where the hardware has the state `T`.
module _ {T : Type 0} (w : ℕ) (devs : Devs T)
    (send : ℕ → ℕ → Msg → Msg → T → Result (Unit {0}) × Msg × T) (stack : Msg × Msg) where
  -- A handler that nobody has written yet.
  abbrev fresh : Handler
  fresh = record { pd = 0; id = no_id }

  abbrev opened : (Result ℕ × Handler) × T → Phfs → Result Handler × (Phfs × T)
  opened ((err e, h), t) p = (err e, (p, t))
  opened ((ok _, h), t) p = (ok h, (p, t))

  unfoldable pub phfs_files : Files (Phfs × T)
  phfs_files = record {
    open_file = λ alias file flags s.
        opened (phfs_open w devs send stack s.0 alias file flags fresh s.1) s.0;
    read_file =
        λ h offs len s. let r = read w devs send stack s.0 h offs len s.1 in (r.0, (s.0, r.1));
    write_file =
        λ h offs bytes s. let r = write w devs send stack s.0 h offs bytes s.1 in (r.0, (s.0, r.1));
    close_file = λ h s. let r = close w devs send stack s.0 h s.1 in (r.0, (s.0, r.1));
    reg_alias = λ alias addr size s. let r = alias_reg s.0 alias addr size in (r.0, (r.1, s.1));
  }
