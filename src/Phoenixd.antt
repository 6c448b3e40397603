-- ===== src/Phoenixd.antt =====
-- phfs/phoenixd.c: the requests to a phoenixd server. `send` is `msg_send` to a device,
-- where its write ends, as it does for each message that fits the buffer; and
-- `stack` is what the message variables of a function hold before it writes them.

pub mod Reply
use plo.Common.{
  ℕ, zero, suc, ◌+◌, ◌-◌, ◌%◌, ◌^◌, Bool, List, [], ◌∷◌, ◌++◌, length, take, drop, set, min, ltb,
  leb, ◌==◌, not, if◌then◌else◌,
}
use plo.Common.Bits.{u32}
use plo.Common.CString.{Bytes}
use plo.Common.Result.{Result, ok, err, eio, einval}
use plo.Msg.Header.{Msg, maxlen, set_type, set_len, get_type, get_len, serialize32, deserialize32}

abbrev pub msg_open : ℕ
msg_open = 1

abbrev pub msg_rd : ℕ
msg_rd = 2

abbrev pub msg_wr : ℕ
msg_wr = 3

abbrev pub msg_fstat : ℕ
msg_fstat = 6

-- `PHOENIXD_HDRSZ`, and the room behind it in a message
abbrev pub phd_hdrsz : ℕ
phd_hdrsz = 12

abbrev pub phd_maxlen : ℕ
phd_maxlen = maxlen - phd_hdrsz

-- `sizeof(phoenixd_stat_t)` and the offset of `st_size` in it
abbrev pub sizeof_stat : ℕ
sizeof_stat = 44

abbrev pub offset_st_size : ℕ
offset_st_size = 20

-- The bytes written over those from index `i` on. Past the end of `data` the C code writes over
-- what lies behind the message, and this function nothing.
unfoldable pub overwrite : Bytes → ℕ → Bytes → Bytes
overwrite xs i [] = xs
overwrite xs i (b ∷ bs) = overwrite (set xs i b) (suc i) bs

abbrev pub with_body : Msg → Bytes → Msg
with_body m bs = record m { body = overwrite m.body 0 bs }

-- `phoenixd_serializeMsgPhd`: the bytes that it writes
abbrev pub phd_header : ℕ → ℕ → ℕ → Bytes
phd_header handle pos len = serialize32 handle ++ (serialize32 pos ++ serialize32 len)

-- `phoenixd_serializeDataMsgPhd`
abbrev pub phd_data_header : ℕ → ℕ → ℕ → Bytes → Bytes
phd_data_header handle pos len bytes = phd_header handle pos len ++ bytes

-- `phoenixd_deserializeMsgPhd`, whose `len` alone is read; it is signed
abbrev pub phd_len : Msg → ℕ
phd_len m = deserialize32 m.body 8

abbrev pub is_negative : ℕ → Bool
is_negative v = leb (2 ^ 31) v

-- The descriptor is an `unsigned int` that is returned as an `int`.
unfoldable pub open_reply : Msg → Result ℕ
open_reply rmsg =
    let fd = deserialize32 rmsg.body 0 in
    if not (get_len rmsg == 4)
    then err eio
    else if fd == 0
    then err eio
    else if is_negative fd
    then err (2 ^ 32 - fd)
    else ok fd

-- The bytes that `phoenixd_read` copies, for a `size_t` of `w` bits.
unfoldable pub read_reply : ℕ → Msg → Result Bytes
read_reply w rmsg =
    let l = min (phd_len rmsg) ((get_len rmsg + 2 ^ w - phd_hdrsz) % 2 ^ w) in
    if is_negative (phd_len rmsg) then err eio else ok (take l (drop phd_hdrsz rmsg.body))

unfoldable pub write_reply : Msg → Result ℕ
write_reply rmsg = if is_negative (phd_len rmsg) then err eio else ok (phd_len rmsg)

unfoldable pub stat_reply : Msg → Result ℕ
stat_reply rmsg =
    if phd_len rmsg == sizeof_stat
    then ok (deserialize32 rmsg.body (phd_hdrsz + offset_st_size))
    else err eio

module _ {S : Type 0} (send : ℕ → ℕ → Msg → Msg → S → Result (Unit {0}) × Msg × S)
    (stack : Msg × Msg) where
  -- The exchange of a request for a reply that has the request's type.
  unfoldable pub exchange : ℕ → ℕ → ℕ → Msg → S → Result Msg × S
  exchange major minor type smsg s =
      let (r, rmsg, s') = send major minor smsg stack.1 s in
      elim r [
        | err _ ↦ (err eio, s')
        | ok _ ↦ (if get_type rmsg == type then ok rmsg else err eio, s')
      ]

  unfoldable pub phd_open : Bytes → ℕ → ℕ → ℕ → S → Result ℕ × S
  phd_open file major minor flags s =
      let payload = serialize32 flags ++ (file ++ 0 ∷ []) in
      let smsg = set_len (set_type (with_body stack.0 payload) msg_open) (length file + 1 + 4) in
      let (r, s') = exchange major minor msg_open smsg s in
      elim r [ err e ↦ (err e, s') | ok rmsg ↦ (open_reply rmsg, s') ]

  unfoldable pub phd_read : ℕ → ℕ → ℕ → ℕ → ℕ → ℕ → S → Result Bytes × S
  phd_read w fd major minor offs len s =
      let smsg =
        set_len (set_type (with_body stack.0 (phd_header fd (u32 offs) (u32 len))) msg_rd)
          phd_hdrsz in
      let (r, s') = exchange major minor msg_rd smsg s in
      if ltb phd_maxlen len
      then (err einval, s)
      else elim r [ err e ↦ (err e, s') | ok rmsg ↦ (read_reply w rmsg, s') ]

  unfoldable pub phd_write : ℕ → ℕ → ℕ → ℕ → Bytes → S → Result ℕ × S
  phd_write fd major minor offs bytes s =
      let len = length bytes in
      let payload = phd_data_header fd (u32 offs) (u32 len) bytes in
      let smsg = set_len (set_type (with_body stack.0 payload) msg_wr) (phd_hdrsz + len) in
      let (r, s') = exchange major minor msg_wr smsg s in
      if ltb phd_maxlen len
      then (err einval, s)
      else elim r [ err e ↦ (err e, s') | ok rmsg ↦ (write_reply rmsg, s') ]

  unfoldable pub phd_stat : ℕ → ℕ → ℕ → S → Result ℕ × S
  phd_stat fd major minor s =
      let blank = record (with_body stack.0 (phd_header fd 0 0)) { type = 0 } in
      let smsg = set_len (set_type blank msg_fstat) phd_hdrsz in
      let (r, s') = exchange major minor msg_fstat smsg s in
      elim r [ err e ↦ (err e, s') | ok rmsg ↦ (stat_reply rmsg, s') ]

  -- It does nothing yet.
  abbrev pub phd_close : ℕ → ℕ → ℕ → S → Result ℕ × S
  phd_close fd major minor s = (ok 0, s)
