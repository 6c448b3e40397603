-- ===== src/Rtt.antt =====
-- devices/pipe-rtt/rtt.c: buffers that the loader shares with a debugger. A pointer to one is its
-- contents; `rtt` is `none` before `rtt_init`. A negative channel is refused as one that is too
-- large, and stands for no number here.
pub mod Places
pub mod Queue
pub mod Blocking
use plo.Common.{
  ℕ, zero, suc, ◌+◌, ◌-◌, ◌%◌, Bool, true, false, not, ◌&&◌, ◌||◌, Option, none, some, List, [],
  ◌∷◌, ◌++◌, map, length, drop, set, get_elem?, get_or, replicate, ltb, leb, ◌==◌, if◌then◌else◌,
}
use plo.Common.Bits.{u32}
use plo.Common.CString.{Bytes}
use plo.Common.Result.{Result, ok, err, next, enodev}

-- `RTT_TXCHANNELS` and `RTT_RXCHANNELS`, with no buffers for performance events.
abbrev pub tx_channels : ℕ
tx_channels = 2

abbrev pub rx_channels : ℕ
rx_channels = 2

abbrev pub tag_size : ℕ
tag_size = 16

abbrev pub etime : ℕ
etime = 37

-- `struct rtt_pipe`
pub record Pipe : Type 0 where
  pub name : Bytes
  pub buf : Bytes
  pub sz : ℕ
  pub wr : ℕ
  pub rd : ℕ
  pub flags : ℕ

-- `struct rtt_desc`
pub record Desc : Type 0 where
  pub tag : Bytes
  pub tx_count : ℕ
  pub rx_count : ℕ
  pub tx_channel : List Pipe
  pub rx_channel : List Pipe

abbrev pub Rtt : Type 0
Rtt = Option Desc

-- An entry of `channelDefs`: the name, and what its buffer in memory holds.
pub record ChannelDef : Type 0 where
  pub name : Bytes
  pub buf : Bytes

unfoldable pub check : ℕ → Rtt → Bool
check chan none = false
check chan (some d) = not (leb tx_channels chan)

-- `(i + 1) % sz`
abbrev pub next_place : ℕ → ℕ → ℕ
next_place sz i = u32 (i + 1) % sz

-- The loop of `rtt_read`: what it takes, and `rd` after it.
unfoldable pub read_loop : Bytes → ℕ → ℕ → ℕ → ℕ → Bytes × ℕ
read_loop buf sz wr zero rd = ([], rd)
read_loop buf sz wr (suc todo) rd =
    let rest = read_loop buf sz wr todo (next_place sz rd) in
    if rd == wr then ([], rd) else (get_or buf rd 0 ∷ rest.0, rest.1)

-- The loop of `rtt_write`, where `rd` is the place before the reader's: how much it puts in, `wr`
-- after it, and the buffer.
unfoldable pub write_loop : ℕ → ℕ → Bytes → ℕ → Bytes → ℕ × ℕ × Bytes
write_loop sz rd [] wr buf = (0, wr, buf)
write_loop sz rd (c ∷ src) wr buf =
    let rest = write_loop sz rd src (next_place sz wr) (set buf wr c) in
    if rd == wr then (0, wr, buf) else (suc rest.0, rest.1, rest.2)

abbrev pub read_pipe : Pipe → ℕ → Bytes × Pipe
read_pipe p count =
    let out = read_loop p.buf p.sz p.wr count p.rd in (out.0, record p { rd = out.1 })

abbrev pub write_pipe : Pipe → Bytes → ℕ × Pipe
write_pipe p src =
    let out = write_loop p.sz (u32 (p.rd + p.sz + 0xffff_ffff) % p.sz) src p.wr p.buf in
    (out.0, record p { wr = out.1; buf = out.2 })

unfoldable pub rtt_read : ℕ → ℕ → Rtt → Result Bytes × Rtt
unfolding check
rtt_read chan count none = (err enodev, none)
rtt_read chan count (some d) = elim (get_elem? d.rx_channel chan) [
  | none ↦ (err enodev, some d)
  | some p ↦
      if check chan (some d)
      then (
        ok (read_pipe p count).0,
        some (record d { rx_channel = set d.rx_channel chan (read_pipe p count).1 }),
      )
      else (err enodev, some d)
]

unfoldable pub rtt_write : ℕ → Bytes → Rtt → Result ℕ × Rtt
unfolding check
rtt_write chan src none = (err enodev, none)
rtt_write chan src (some d) = elim (get_elem? d.tx_channel chan) [
  | none ↦ (err enodev, some d)
  | some p ↦
      if check chan (some d)
      then (
        ok (write_pipe p src).0,
        some (record d { tx_channel = set d.tx_channel chan (write_pipe p src).1 }),
      )
      else (err enodev, some d)
]

-- The loop that turns the tag around.
unfoldable pub tag_loop : Bytes → ℕ → ℕ → Bytes
tag_loop backward zero n = []
tag_loop backward (suc m) n =
    let rest = tag_loop backward m (suc n) in
    if ltb n tag_size then get_or backward m 0 ∷ rest else []

abbrev pub new_pipe : ChannelDef → Pipe
new_pipe c = record { name = c.name; buf = c.buf; sz = length c.buf; wr = 0; rd = 0; flags = 0 }

-- `rtt_init`, but for the hooks of the consoles.
unfoldable pub rtt_init : List ChannelDef → List ChannelDef → Bytes → Rtt → Rtt
unfolding tag_loop
rtt_init tx rx backward (some d) = some d
rtt_init tx rx backward none = some record {
  tag =
      tag_loop backward (length backward) 0
      ++ replicate (tag_size - length (tag_loop backward (length backward) 0)) 0;
  tx_count = tx_channels;
  rx_count = rx_channels;
  tx_channel = map new_pipe tx;
  rx_channel = map new_pipe rx;
}

-- `rtt_done`, but for the hooks of the console.
unfoldable pub rtt_done : Rtt → Rtt
rtt_done rtt = none

-- `rtt->txChannel[chan].wr = rtt->txChannel[chan].rd`
unfoldable pub discard : ℕ → Rtt → Rtt
discard chan none = none
discard chan (some d) = elim (get_elem? d.tx_channel chan) [
  | none ↦ some d
  | some p ↦ some (record d { tx_channel = set d.tx_channel chan (record p { wr = p.rd }) })
]

-- `rtt_writeBlocking`: `timer k` is the time that the loop reads in its turn `k`, and `host k` what
-- the debugger has done to the descriptor before that turn.
module _ (timer : ℕ → ℕ) (host : ℕ → Rtt → Rtt) where
  -- The loop, with what is left to write.
  unfoldable pub blocking_loop : ℕ → ℕ → ℕ → ℕ → Bytes → Rtt → Option (Result ℕ × Rtt)
  unfolding rtt_write discard
  blocking_loop zero k start chan src rtt = none
  blocking_loop (suc fuel) k start chan [] rtt = some (ok 0, rtt)
  blocking_loop (suc fuel) k start chan (c ∷ src) rtt = elim (leb (start + 100) (timer k)) [
    | true ↦ some (err etime, discard chan (host k rtt))
    | false ↦
        next (λ n rtt'. blocking_loop fuel (suc k) start chan (drop n (c ∷ src)) rtt')
          (rtt_write chan (c ∷ src) (host k rtt))
  ]

  unfoldable pub write_blocking : ℕ → ℕ → ℕ → Bytes → Rtt → Option (Result ℕ × Rtt)
  unfolding blocking_loop
  write_blocking fuel start chan src rtt = blocking_loop fuel 0 start chan src rtt
