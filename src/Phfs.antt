-- ===== src/Phfs.antt =====
-- phfs/phfs.c: the registered devices and file aliases, and the file operations that go by them.
-- `addr_t` and `size_t` have the same width `w` on every target.
pub mod Access
pub mod Names
pub mod Ranges
pub mod Files
pub mod Contents
use plo.Common.{
  ℕ, zero, suc, ◌+◌, ◌-◌, ◌*◌, ◌%◌, ◌^◌, Bool, true, false, ◌||◌, map, Option, none, some, List, [],
  ◌∷◌, ◌++◌, length, take, get_or, min, ltb, leb, ◌==◌, if◌then◌else◌, bit_and,
}
use plo.Common.CString.{Bytes, str_eq}
use plo.Common.Result.{Result, ok, err, eio, enxio, enodev, einval}
use plo.Devs.{Devs, check, dev_read, dev_write, dev_erase, dev_sync, dev_map}
use plo.Msg.Header.{Msg}
use plo.Phoenixd.{phd_open, phd_read, phd_write, phd_stat, phd_close}

-- `SIZE_PHFS_HANDLERS`, `SIZE_PHFS_ALIASES`, `PHFS_TIMEOUT_MS`
abbrev pub handlers : ℕ
handlers = 8

abbrev pub aliases : ℕ
aliases = 32

abbrev pub timeout_ms : ℕ
timeout_ms = 500

-- The places of the strings in `phfs_device_t.alias` and `phfs_file_t.alias`, less the NUL.
abbrev pub device_chars : ℕ
device_chars = 7

abbrev pub file_chars : ℕ
file_chars = 33

pub data Prot : Type 0 where
  raw : Prot
  phoenixd : Prot

pub record Device : Type 0 where
  pub alias : Bytes
  pub major : ℕ
  pub minor : ℕ
  pub prot : Prot

pub record File : Type 0 where
  pub alias : Bytes
  pub addr : ℕ
  pub size : ℕ

-- `phfs_common`: the entries below `dCnt` and `fCnt`; those behind are zero.
pub record Phfs : Type 0 where
  pub devices : List Device
  pub files : List File

abbrev pub zero_device : Device
zero_device = record { alias = []; major = 0; minor = 0; prot = raw }

abbrev pub zero_file : File
zero_file = record { alias = []; addr = 0; size = 0 }

-- `handler_t`; `no_id` is the `unsigned int` -1.
pub record Handler : Type 0 where
  pub pd : ℕ
  pub id : ℕ

abbrev pub no_id : ℕ
no_id = 0xffff_ffff

-- `phfs_getProtName`
unfoldable pub prot_name : Prot → Bytes
prot_name raw = b'r' ∷ b'a' ∷ b'w' ∷ []
prot_name phoenixd = b'p' ∷ b'h' ∷ b'o' ∷ b'e' ∷ b'n' ∷ b'i' ∷ b'x' ∷ b'd' ∷ []

-- `phfs_setProt`
unfoldable pub find_prot : Option Bytes → Result Prot
unfolding prot_name
find_prot none = ok raw
find_prot (some name) =
    if str_eq name (prot_name raw)
    then ok raw
    else if str_eq name (prot_name phoenixd)
    then ok phoenixd
    else err einval

-- The loops over the entries: the index of the first with that alias, from `i` on.
unfoldable pub find_alias : ℕ → Bytes → List Bytes → Result ℕ
find_alias i alias [] = err einval
find_alias i alias (a ∷ rest) =
    let next = find_alias (suc i) alias rest in if str_eq alias a then ok i else next

abbrev pub device_aliases : Phfs → List Bytes
device_aliases p = map (λ d. d.alias) p.devices

abbrev pub file_aliases : Phfs → List Bytes
file_aliases p = map (λ f. f.alias) p.files

-- `phfs_getHandlerId` and `phfs_getAliasId`
unfoldable pub get_handler_id : Phfs → Bytes → Result ℕ
unfolding find_alias
get_handler_id p alias = find_alias 0 alias (device_aliases p)

unfoldable pub get_alias_id : Phfs → Bytes → Result ℕ
unfolding find_alias
get_alias_id p alias = find_alias 0 alias (file_aliases p)

-- `phfs_devReg`; the table of the devices answers `devs_check`.
unfoldable pub dev_reg :
    {S : Type 0} → Devs S → Phfs → Option Bytes → ℕ → ℕ → Option Bytes → Result ℕ × Phfs
dev_reg devs p none major minor prot = (err einval, p)
dev_reg devs p (some alias) major minor prot =
    if leb handlers (length p.devices) then (err einval, p) else elim (check devs major minor) [
      | err _ ↦ (err einval, p)
      | ok _ ↦ elim (get_handler_id p alias) [
        | ok _ ↦ (err einval, p)
        | err _ ↦ elim (find_prot prot) [
          | err _ ↦ (err einval, p)
          | ok q ↦ (
            ok 0,
            record p {
              devices =
                  p.devices
                  ++ record {
                    alias = take device_chars alias;
                    major = major;
                    minor = minor;
                    prot = q;
                  }
                    ∷ [];
            },
          )
        ]
      ]
    ]

-- `phfs_devGet`
unfoldable pub dev_get : Phfs → Bytes → Result Device
dev_get p alias = elim (get_handler_id p alias) [
  | err _ ↦ err enodev
  | ok i ↦ ok (get_or p.devices i zero_device)
]

-- `phfs_aliasAddrResolve`
unfoldable pub alias_addr_resolve : Phfs → Handler → Result ℕ
alias_addr_resolve p h =
    if leb aliases h.id || leb (length p.files) h.id
    then err einval
    else ok (get_or p.files h.id zero_file).addr

-- `phfs_aliasReg`
unfoldable pub alias_reg : Phfs → Option Bytes → ℕ → ℕ → Result ℕ × Phfs
alias_reg p none addr size = (err einval, p)
alias_reg p (some alias) addr size =
    if leb aliases (length p.files) then (err einval, p) else elim (get_alias_id p alias) [
      | ok _ ↦ (err einval, p)
      | err _ ↦ (
        ok 0,
        record p {
          files =
              p.files ++ record { alias = take file_chars alias; addr = addr; size = size } ∷ [];
        },
      )
    ]
