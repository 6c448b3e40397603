-- ===== src/Msg/Send.antt =====
-- `msg_send`: the checksum, and up to three attempts.
use plo.Common.{ℕ, zero, suc, Bool, false, List, Option, none, some, ltb, if◌then◌else◌}
use plo.Common.CString.{Bytes}
use plo.Common.Result.{Result, ok, err, enxio}
use plo.Msg.Header.{Msg, set_csum, checksum}
use plo.Msg.Frame.{msg_write}
use plo.Msg.Reader.{msg_read}

abbrev pub max_retr : ℕ
max_retr = 3

-- The device: `write` is `devs_write`, and `read` gives the results of `devs_read` up to its error.
module _ {S : Type 0} (write : S → Bytes → Result ℕ × S) (read : S → List Bytes × S) where
  -- What follows the write of an attempt, where `again` makes the attempts left.
  abbrev pub after_write :
      (Msg → Bool → S → Option (Result (Unit {0}) × Msg × S))
      → Msg
      → Bool
      → Option (Result ℕ × S)
      → Option (Result (Unit {0}) × Msg × S)
  after_write again rmsg st none = none
  after_write again rmsg st (some (err e, s)) = again rmsg st s
  after_write again rmsg st (some (ok _, s)) =
      let (chunks, s') = read s in
      let (r, st', rmsg') = msg_read chunks rmsg st in
      let rest = again rmsg' st' s' in
      elim r [ err e ↦ rest | ok len ↦ if ltb 0 len then some (ok tt, rmsg', s') else rest ]

  -- The attempts left; `*state` and the reply go from one to the next.
  unfoldable pub attempts : ℕ → Msg → Msg → Bool → S → Option (Result (Unit {0}) × Msg × S)
  unfolding msg_write
  attempts zero smsg rmsg st s = some (err enxio, rmsg, s)
  attempts (suc n) smsg rmsg st s = after_write (attempts n smsg) rmsg st (msg_write write smsg s)

  -- The result, the reply and the state; `none` is a write that does not end.
  unfoldable pub msg_send : Msg → Msg → S → Option (Result (Unit {0}) × Msg × S)
  unfolding attempts msg_write msg_read set_csum checksum
  msg_send smsg rmsg s = attempts max_retr (set_csum smsg (checksum smsg)) rmsg false s
