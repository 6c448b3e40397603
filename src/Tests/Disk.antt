-- ===== src/Tests/Disk.antt =====
-- A loader with one raw device, for runs of the commands over phfs/phfs.c.
use plo.Common.{ℕ, none, some, [], ◌∷◌, replicate}
use plo.Common.CString.{Bytes}
use plo.Common.Result.{Result, ok, err, eio}
use plo.Devs.{Dev, Devs}
use plo.Msg.Header.{Msg}
use plo.Phfs.{raw, Phfs, Handler}

-- A device of which only the read matters.
abbrev pub reader : {T : Type 0} → (ℕ → ℕ → T → Result Bytes × T) → Dev T
reader {T} f = record {
  name = some (b'd' ∷ []);
  init = some (λ _ s. s);
  done = some (λ _ s. s);
  ops = some (record {
    sync = some (λ minor s. (ok 0, s));
    mapped = none;
    control = none;
    read = some (λ minor offs len timeout s. f offs len s);
    write = none;
    erase = none;
  });
}

abbrev pub disk : {T : Type 0} → (ℕ → ℕ → T → Result Bytes × T) → Devs T
disk f = (some (reader f) ∷ replicate 15 none) ∷ replicate 10 (replicate 16 none)

-- The device `d`, with the file `f` of `size` bytes at `addr`.
abbrev pub store : ℕ → ℕ → Phfs
store addr size = record {
  devices = record { alias = b'd' ∷ []; major = 0; minor = 0; prot = raw } ∷ [];
  files = record { alias = b'f' ∷ []; addr = addr; size = size } ∷ [];
}

abbrev pub no_host : {T : Type 0} → ℕ → ℕ → Msg → Msg → T → Result (Unit {0}) × Msg × T
no_host major minor smsg rmsg s = (err eio, rmsg, s)

abbrev pub blank : Msg
blank = record { csum = 0; type = 0; body = replicate 512 0 }

abbrev pub only : Handler
only = record { pd = 0; id = 0 }
