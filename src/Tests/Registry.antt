-- ===== src/Tests/Registry.antt =====
-- devices/devs.c and phfs/phfs.c with one device, whose state is the number of its calls.
use plo.Common.{
  take, length, ℕ, ◌+◌, ◌-◌, ◌≤◌, ◌≡◌, ◌≢◌, refl, none, some, [], ◌∷◌, replicate, get_or, min,
  arith,
}
use plo.Common.CString.{Bytes, str_eq}
use plo.Common.Result.{Result, ok, err, eio}
use plo.Msg.Header.{Msg}
use plo.Devs.{Dev, Devs, register, slot, check, get, dev_read, dev_write}
use plo.Devs.Register.{Filled, register-Filled}
use plo.Phfs.{
  raw, Device, Phfs, Handler, dev_reg, get_handler_id, find_alias, find_prot, timeout_ms,
}
use plo.Phfs.Access.{read, write}
use plo.Phfs.Names.{IsValid, Registered, dev_reg-Registered}
use plo.Phfs.Ranges.{read_write-InFile}

-- A device that counts its reads and gives `len` times the byte 1.
abbrev ones_read : ℕ → ℕ → ℕ → ℕ → ℕ → Result Bytes × ℕ
ones_read minor offs len timeout s = (ok (replicate len 1), s + 1)

abbrev flash_name : Bytes
flash_name = b'f' ∷ b'0' ∷ []

abbrev flash : Dev ℕ
flash = record {
  name = some flash_name;
  init = some (λ _ s. s);
  done = some (λ _ s. s);
  ops = some (record {
    sync = none;
    mapped = none;
    control = none;
    read = some ones_read;
    write = none;
    erase = none;
  });
}

abbrev no_devices : Devs ℕ
no_devices = replicate 11 (replicate 16 none)

abbrev table : Devs ℕ
table = (some flash ∷ replicate 15 none) ∷ replicate 10 (replicate 16 none)

register-Filled_example :
    Filled (get_or no_devices 2 []) 3 flash (get_or (register no_devices 2 3 flash) 2 [])
    × ((j : ℕ) → j ≢ 2 → get_or (register no_devices 2 3 flash) j [] ≡ get_or no_devices j [])
register-Filled_example = register-Filled no_devices 2 3 flash refl (omega arith) (omega arith)

-- One device and one file of 100 bytes.
abbrev store : Phfs
store = record {
  devices = record { alias = b'd' ∷ []; major = 0; minor = 0; prot = raw } ∷ [];
  files = record { alias = b'k' ∷ []; addr = 0x200; size = 100 } ∷ [];
}

store-IsValid : IsValid store
store-IsValid = omega arith

abbrev added : Device
added = record { alias = flash_name; major = 0; minor = 0; prot = raw }

abbrev with_added : Phfs
with_added = record store {
  devices = record { alias = b'd' ∷ []; major = 0; minor = 0; prot = raw } ∷ added ∷ [];
}

dev_reg_run : dev_reg table store (some flash_name) 0 0 none ≡ (ok 0, with_added)
unfolding dev_reg check get slot get_handler_id find_alias find_prot str_eq
dev_reg_run = refl

raw_prot : find_prot none ≡ ok raw
unfolding find_prot
raw_prot = refl

dev_reg-Registered_example : Registered store flash_name added with_added
dev_reg-Registered_example =
    dev_reg-Registered table store flash_name 0 0 none with_added raw store-IsValid (omega arith)
      raw_prot dev_reg_run

abbrev long_name : Bytes
long_name = replicate 8 b'a'

abbrev send : ℕ → ℕ → Msg → Msg → ℕ → Result (Unit {0}) × Msg × ℕ
send major minor smsg rmsg s = (err eio, rmsg, s)

abbrev blank : Msg
blank = record { csum = 0; type = 0; body = replicate 512 0 }

abbrev handler : Handler
handler = record { pd = 0; id = 0 }

read_write-InFile_example :
    (read 32 table send (blank, blank) store handler 90 50 0
      ≡ dev_read table 0 0 (0x200 + 90) (min 50 (100 - 90)) timeout_ms 0)
    × (write 32 table send (blank, blank) store handler 90 (1 ∷ 2 ∷ []) 0
        ≡ dev_write table 0 0 (0x200 + 90) (take (100 - 90) (1 ∷ 2 ∷ [])) 0)
    × (0x200 + 90 + min 50 (100 - 90) ≤ 0x200 + 100)
    × (0x200 + 90 + length {A = ℕ} (take (100 - 90) (1 ∷ 2 ∷ [])) ≤ 0x200 + 100)
read_write-InFile_example =
    read_write-InFile 32 table send (blank, blank) store handler 90 50 (1 ∷ 2 ∷ []) 0 refl
      (omega arith) (omega arith) (omega arith) (omega arith)
