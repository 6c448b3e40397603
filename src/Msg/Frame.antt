-- ===== src/Msg/Frame.antt =====
-- `msg_write`: the frame of a message, and its transfer to a device.
use plo.Common.{ℕ, ◌+◌, ◌||◌, List, [], ◌∷◌, ◌==◌, if◌then◌else◌, leb, Option, none, some}
use plo.Common.CString.{Bytes}
use plo.Common.Result.{Result, ok, err}
use plo.Msg.Header.{Msg, mark, esc, esc_mark, esc_esc, hdrsz, get_len, wire}

-- One call of `devs_write` for one byte: two bytes where it has to be escaped.
unfoldable pub escape : ℕ → Bytes
escape c =
    if c == mark || c == esc then esc ∷ (if c == mark then esc_mark else esc_esc) ∷ [] else c ∷ []

unfoldable pub escapes : Bytes → List Bytes
unfolding escape
escapes [] = []
escapes (c ∷ cs) = escape c ∷ escapes cs

-- The calls of `devs_write`, in order, for a message whose bytes the counter `k`, a `u16`, can count.
unfoldable pub frame : Msg → List Bytes
unfolding escapes wire get_len
frame m = (mark ∷ []) ∷ escapes (wire m)

-- `devs_write` on the device, whose state is `S`.
module _ {S : Type 0} (write : S → Bytes → Result ℕ × S) where
  -- The writes up to the first that fails.
  unfoldable pub write_all : List Bytes → S → Result (Unit {0}) × S
  write_all [] s = (ok tt, s)
  write_all (c ∷ cs) s = elim (write s c).0 [
    | err e ↦ (err e, (write s c).1)
    | ok _ ↦ write_all cs (write s c).1
  ]

  -- From a length of 65528 on the counter wraps around before it reaches the end: the loop goes on
  -- with what stands behind the message, and does not end by itself, which is `none`.
  unfoldable pub msg_write : Msg → S → Option (Result ℕ × S)
  unfolding write_all frame get_len
  msg_write m s =
      let (r, s') = write_all (frame m) s in
      if leb 0x1_0000 (hdrsz + get_len m)
      then none
      else elim r [ err e ↦ some (err e, s') | ok _ ↦ some (ok (hdrsz + get_len m), s') ]
