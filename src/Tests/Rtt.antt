-- ===== src/Tests/Rtt.antt =====
-- Runs of devices/pipe-rtt/rtt.c on buffers of four bytes.
use plo.Common.{ℕ, ◌+◌, ◌*◌, ◌≡◌, refl, arith, none, some, [], ◌∷◌, ◌++◌, length, take, drop, set}
use plo.Common.Result.{ok}
use plo.Rtt.{
  Pipe, Desc, Rtt, rtt_init, rtt_read, rtt_write, write_blocking, tag_loop, check, read_loop,
}
use plo.Rtt.Queue.{IsValid, queue, accepted, rtt_write-queue, rtt_read-queue}
use plo.Rtt.Blocking.{Ends, write_blocking-Ends}

-- A buffer that holds two bytes, around its end.
abbrev pipe : Pipe
pipe = record { name = []; buf = 20 ∷ 0 ∷ 0 ∷ 10 ∷ []; sz = 4; wr = 1; rd = 3; flags = 0 }

abbrev desc : Desc
desc = record {
  tag = [];
  tx_count = 2;
  rx_count = 2;
  tx_channel = pipe ∷ pipe ∷ [];
  rx_channel = pipe ∷ pipe ∷ [];
}

pipe-IsValid : IsValid pipe
pipe-IsValid = record { sz = refl; small = omega arith; rd = omega arith; wr = omega arith }

abbrev clock : ℕ → ℕ
clock k = 30 + k * 40

abbrev idle : ℕ → Rtt → Rtt
idle k r = r

-- The tag is turned around.
init_tag :
    rtt_init [] [] (b'E' ∷ b'P' ∷ b'I' ∷ b'P' ∷ []) none
    ≡ some record {
      tag = b'P' ∷ b'I' ∷ b'P' ∷ b'E' ∷ 0 ∷ 0 ∷ 0 ∷ 0 ∷ 0 ∷ 0 ∷ 0 ∷ 0 ∷ 0 ∷ 0 ∷ 0 ∷ 0 ∷ [];
      tx_count = 2;
      rx_count = 2;
      tx_channel = [];
      rx_channel = [];
    }
unfolding rtt_init tag_loop
init_tag = refl

-- Of two bytes, one still fits.
rtt_write-queue_example :
    (p' : Pipe) × (rtt_write 1 (7 ∷ 8 ∷ []) (some desc) ≡ (
      ok (accepted 4 (length (queue pipe)) (7 ∷ 8 ∷ [])),
      some (record desc { tx_channel = set desc.tx_channel 1 p' }),
    ))
    × IsValid p'
    × (queue p' ≡ queue pipe ++ take (accepted 4 (length (queue pipe)) (7 ∷ 8 ∷ [])) (7 ∷ 8 ∷ []))
rtt_write-queue_example = rtt_write-queue desc 1 pipe (7 ∷ 8 ∷ []) (omega arith) refl pipe-IsValid

rtt_read-queue_example :
    (p' : Pipe) × (rtt_read 0 1 (some desc)
      ≡ (ok (take 1 (queue pipe)), some (record desc { rx_channel = set desc.rx_channel 0 p' })))
    × IsValid p'
    × (queue p' ≡ drop 1 (queue pipe))
rtt_read-queue_example = rtt_read-queue desc 0 pipe 1 (omega arith) refl pipe-IsValid

write_blocking-Ends_example :
    Ends clock idle 30 (write_blocking clock idle 4 30 0 (1 ∷ 2 ∷ 3 ∷ []) (some desc))
write_blocking-Ends_example =
    write_blocking-Ends clock idle 3 4 30 0 (1 ∷ 2 ∷ 3 ∷ []) (some desc) (omega arith) (omega arith)

-- What a read gives, in the order in which it was written.
read_both : (rtt_read 0 5 (some desc)).0 ≡ ok (10 ∷ 20 ∷ [])
unfolding rtt_read check read_loop
read_both = refl
