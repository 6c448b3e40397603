-- ===== src/Msg/Reader.antt =====
-- `msg_read`: a machine that takes one byte at a time.
use plo.Common.{
  ℕ, ◌+◌, ◌-◌, Bool, true, false, not, ◌&&◌, List, [], ◌∷◌, ltb, leb, ◌==◌, if◌then◌else◌, set,
  replicate,
}
use plo.Common.CString.{Bytes}
use plo.Common.Result.{Result, ok, err, enxio}
use plo.Msg.Header.{
  Msg, mark, esc, esc_mark, esc_esc, hdrsz, maxlen, get_len, get_csum, deserialize32, checksum,
}

-- The local variables of one call, `*state` (`MSGREAD_FRAME` is `true`) and the message read into.
pub record Reader : Type 0 where
  pub in_frame : Bool
  pub escfl : Bool
  pub len : ℕ
  pub headers : Bytes
  pub msg : Msg

-- After a byte the call goes on, or returns with `*state` and the message as they stand.
pub data Step : Type 0 where
  more : Reader → Step
  stop : Result ℕ → Bool → Msg → Step

-- `msg_deserializeHeaders`
abbrev pub read_headers : Msg → Bytes → Msg
read_headers m h = record m { csum = deserialize32 h 0; type = deserialize32 h 4 }

-- Behind the byte stored at `len`: the headers when they are complete, then the end of the frame.
unfoldable pub after_store : Reader → Step
after_store r =
    let m = if r.len == hdrsz then read_headers r.msg r.headers else r.msg in
    if leb hdrsz r.len && r.len == get_len m + hdrsz
    then (if get_csum m == checksum m then stop (ok r.len) false m else stop (err enxio) false m)
    else more (record r { msg = m })

-- The byte `c`, with its escape resolved, is stored.
unfoldable pub store : Reader → ℕ → Step
unfolding after_store
store r c = after_store (record r {
  escfl = false;
  len = r.len + 1;
  headers = if ltb r.len hdrsz then set r.headers r.len c else r.headers;
  msg =
      if ltb r.len hdrsz then r.msg else record (r.msg) { body = set r.msg.body (r.len - hdrsz) c };
})

abbrev pub unescape : ℕ → ℕ
unescape c = if c == esc_mark then mark else if c == esc_esc then esc else c

unfoldable pub read_byte : Reader → ℕ → Step
unfolding store
read_byte r c =
    if r.in_frame
    then (if r.len == hdrsz + maxlen
        then stop (err enxio) false r.msg
        else if c == mark
        then stop (err enxio) true r.msg
        else if not r.escfl && c == esc
        then more (record r { escfl = true })
        else store r (if r.escfl then unescape c else c))
    else (if c == mark then more (record r { in_frame = true }) else more r)

-- The bytes of one `devs_read`; what stands behind the end of a frame is dropped.
unfoldable pub read_chunk : Reader → Bytes → Step
unfolding read_byte
read_chunk r [] = more r
read_chunk r (c ∷ cs) = elim (read_byte r c) [
  | stop res st m ↦ stop res st m
  | more r' ↦ read_chunk r' cs
]

-- The loop over the results of `devs_read`; the list ends where it reports an error.
unfoldable pub read_chunks : Reader → List Bytes → Result ℕ × Bool × Msg
unfolding read_chunk
read_chunks r [] = (err enxio, false, r.msg)
read_chunks r (b ∷ bs) = elim (read_chunk r b) [
  | stop res st m ↦ (res, st, m)
  | more r' ↦ read_chunks r' bs
]

-- The start of a call, with the state and the message of the caller. `headers` is not cleared in
-- the source, where it is read only once all of it is written.
abbrev pub start : Bool → Msg → Reader
start st m = record { in_frame = st; escfl = false; len = 0; headers = replicate hdrsz 0; msg = m }

unfoldable pub msg_read : List Bytes → Msg → Bool → Result ℕ × Bool × Msg
unfolding read_chunks
msg_read chunks m st = read_chunks (start st m) chunks
