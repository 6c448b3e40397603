-- ===== src/Phfs/Access.antt =====
-- phfs/phfs.c: the operations on a handler. `w` is the width of `addr_t` and `size_t`, and `send`
-- and `stack` are those of Phoenixd.antt.
use plo.Common.{
  ℕ, ◌+◌, ◌-◌, ◌%◌, ◌^◌, Bool, true, false, ◌||◌, ◌&&◌, not, Option, none, some, take, get_or, min,
  length, leb, ◌==◌, if◌then◌else◌, bit_and,
}
use plo.Common.Bits.{u32}
use plo.Common.CString.{Bytes}
use plo.Common.Result.{Result, ok, err, enxio, einval}
use plo.Devs.{Devs, dev_read, dev_write, dev_erase, dev_sync, dev_map}
use plo.Msg.Header.{Msg}
use plo.Phoenixd.{phd_open, phd_read, phd_write, phd_stat}
use plo.Phfs.{
  Prot, raw, phoenixd, Device, File, Phfs, zero_device, zero_file, Handler, no_id, handlers,
  aliases, timeout_ms, get_handler_id, get_alias_id,
}

-- `PHFS_OPEN_RAWONLY`
abbrev pub open_rawonly : ℕ
open_rawonly = 0x8000_0000

-- `DEV_STORAGE`
abbrev pub dev_storage : ℕ
dev_storage = 2

abbrev pub is_raw : Prot → Bool
is_raw q = elim q [ raw ↦ true | phoenixd ↦ false ]

abbrev pub device_of : Phfs → Handler → Device
device_of p h = get_or p.devices h.pd zero_device

abbrev pub file_of : Phfs → Handler → File
file_of p h = get_or p.files h.id zero_file

module _ {S : Type 0} (w : ℕ) (devs : Devs S)
    (send : ℕ → ℕ → Msg → Msg → S → Result (Unit {0}) × Msg × S) (stack : Msg × Msg) where
  -- The file of a raw device: `none` is the whole device.
  unfoldable pub raw_open : Phfs → Option Bytes → Handler → Result ℕ × Handler
  raw_open p none h = (ok 0, record h { id = no_id })
  raw_open p (some file) h = elim (get_alias_id p file) [
    | err e ↦ (err e, record h { id = no_id })
    | ok i ↦ (ok 0, record h { id = i })
  ]

  -- The file of a phoenixd server; the source reads the name without a test for NULL.
  unfoldable pub remote_open : Device → Option Bytes → ℕ → Handler → S → (Result ℕ × Handler) × S
  remote_open d none flags h s = ((err 0, h), s)
  remote_open d (some file) flags h s =
      let (r, s') = phd_open send stack file d.major d.minor flags s in
      elim r [ err e ↦ ((err e, h), s') | ok fd ↦ ((ok 0, record h { id = fd }), s') ]

  -- The result and the caller's handler, which is written on the way to an error too.
  unfoldable pub phfs_open :
      Phfs → Bytes → Option Bytes → ℕ → Handler → S → (Result ℕ × Handler) × S
  phfs_open p alias file flags h s = elim (get_handler_id p alias) [
    | err e ↦ ((err e, h), s)
    | ok i ↦
        let h' : Handler = record h { pd = i } in
        let d : Device = device_of p h' in
        let remote = remote_open d file flags h' s in
        if not (bit_and flags open_rawonly == 0) && not (is_raw d.prot)
        then ((err enxio, h'), s)
        else if is_raw d.prot
        then (raw_open p file h', s)
        else remote
  ]

  -- `file->addr + offs` and `min(len, file->size - offs)`
  abbrev pub raw_offs : File → ℕ → ℕ
  raw_offs f offs = (f.addr + offs) % 2 ^ w

  abbrev pub raw_len : File → ℕ → ℕ → ℕ
  raw_len f offs len = min len ((f.size + 2 ^ w - offs) % 2 ^ w)

  unfoldable pub read : Phfs → Handler → ℕ → ℕ → S → Result Bytes × S
  read p h offs len s =
      let d = device_of p h in
      let f = file_of p h in
      if leb handlers h.pd
      then (err einval, s)
      else if not (is_raw d.prot)
      then phd_read send stack w h.id d.major d.minor offs len s
      else if h.id == no_id
      then dev_read devs d.major d.minor offs len timeout_ms s
      else if leb aliases h.id
      then (err einval, s)
      else dev_read devs d.major d.minor (raw_offs f offs) (raw_len f offs len) timeout_ms s

  unfoldable pub write : Phfs → Handler → ℕ → Bytes → S → Result ℕ × S
  write p h offs bytes s =
      let d = device_of p h in
      let f = file_of p h in
      if leb handlers h.pd
      then (err einval, s)
      else if not (is_raw d.prot)
      then phd_write send stack h.id d.major d.minor offs bytes s
      else if h.id == no_id
      then dev_write devs d.major d.minor offs bytes s
      else if leb aliases h.id
      then (err einval, s)
      else dev_write devs d.major d.minor (raw_offs f offs)
          (take (raw_len f offs (length bytes)) bytes) s

  unfoldable pub erase : Phfs → Handler → ℕ → ℕ → ℕ → S → Result ℕ × S
  erase p h offs len flags s =
      let d = device_of p h in
      if leb handlers h.pd
      then (err einval, s)
      else if not (d.minor == dev_storage) && not (is_raw d.prot)
      then (err einval, s)
      else dev_erase devs d.major d.minor offs len flags s

  -- `phoenixd_close` has no error.
  unfoldable pub close : Phfs → Handler → S → Result ℕ × S
  close p h s =
      let d = device_of p h in
      let (r, s') = dev_sync devs d.major d.minor s in
      if leb handlers h.pd
      then (err einval, s)
      else elim r [ err _ ↦ (err einval, s') | ok _ ↦ (ok 0, s') ]

  unfoldable pub map_range : Phfs → Handler → ℕ → ℕ → ℕ → ℕ → ℕ → ℕ → S → (Result ℕ × Option ℕ) × S
  map_range p h addr sz mode memaddr memsz memmode s =
      let d = device_of p h in
      if leb handlers h.pd
      then ((err einval, none), s)
      else dev_map devs d.major d.minor addr sz mode memaddr memsz memmode s

  -- The size that `phfs_stat` stores, a `u32`.
  unfoldable pub stat : Phfs → Handler → S → Result ℕ × S
  stat p h s =
      let d = device_of p h in
      if leb handlers h.pd
      then (err einval, s)
      else if not (is_raw d.prot)
      then phd_stat send stack h.id d.major d.minor s
      else if h.id == no_id || leb aliases h.id
      then (err einval, s)
      else (ok (u32 (file_of p h).size), s)
