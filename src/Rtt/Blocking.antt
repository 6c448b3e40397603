-- ===== src/Rtt/Blocking.antt =====
-- devices/pipe-rtt/rtt.c: `rtt_writeBlocking` ends, and what it writes.
use plo.Common.{
  ℕ, zero, suc, ◌+◌, ◌≤◌, ◌<◌, ◌≡◌, refl, ap, ◌∙◌, arith, true, false, Bool-cases, Option-cases,
  subst, Option, none, some, [], ◌∷◌, ◌++◌, length, take, drop, take-all, drop-all, set, get_elem?,
  leb, ◌⊎◌, inl, inr,
}
use plo.Common.CString.{Bytes}
use plo.Common.Result.{Result, ok, err, enodev}
use plo.Rtt.{Pipe, Desc, Rtt, check, etime, write_pipe, rtt_write, blocking_loop, write_blocking}
use plo.Rtt.Queue.{IsValid, queue, accepted, rtt_write-queue}

-- Each call of `rtt_write` fails with the one error, or succeeds.
rtt_write-result :
    (chan : ℕ) (src : Bytes) (rtt : Rtt)
    → (rtt_write chan src rtt ≡ (err enodev, rtt))
      ⊎ ((n : ℕ) × (r : Rtt) × (rtt_write chan src rtt ≡ (ok n, r)))
unfolding rtt_write
rtt_write-result chan src none = inl refl
rtt_write-result chan src (some d) = elim (Option-cases (get_elem? d.tx_channel chan)) [
  | inl missing ↦ inl (rw (missing, rtt_write) refl)
  | inr (p, found) ↦ elim (Bool-cases (check chan (some d))) [
    | inl good ↦ inr (
      (write_pipe p src).0,
      some (record d { tx_channel = set d.tx_channel chan (write_pipe p src).1 }),
      rw (found, good, rtt_write) refl,
    )
    | inr bad ↦ inl (rw (found, bad, rtt_write) refl)
  ]
]

module _ (timer : ℕ → ℕ) (host : ℕ → Rtt → Rtt) where
  -- How a blocking write ends: with all bytes taken, with no such channel, or when the clock has
  -- advanced by 100 since the start.
  pub data Ends (start : ℕ) : Option (Result ℕ × Rtt) → Type 0 where
    sent : (rtt : Rtt) → Ends start (some (ok 0, rtt))
    no_channel : (rtt : Rtt) → Ends start (some (err enodev, rtt))
    expired : (k : ℕ) (rtt : Rtt) → start + 100 ≤ timer k → Ends start (some (err etime, rtt))

  -- A turn in which the time is not over.
  blocking_loop-turn :
      (fuel k start chan c n : ℕ) (src : Bytes) (rtt r : Rtt)
      → leb (start + 100) (timer k) ≡ false
      → rtt_write chan (c ∷ src) (host k rtt) ≡ (ok n, r)
      → blocking_loop timer host (suc fuel) k start chan (c ∷ src) rtt
        ≡ blocking_loop timer host fuel (suc k) start chan (drop n (c ∷ src)) r
  unfolding blocking_loop
  blocking_loop-turn fuel k start chan c n src rtt r more call = rw (more, call, blocking_loop) refl

  blocking_loop-Ends :
      (left fuel k start chan : ℕ) (src : Bytes) (rtt : Rtt)
      → left < fuel
      → start + 100 ≤ timer (k + left)
      → Ends start (blocking_loop timer host fuel k start chan src rtt)
  unfolding blocking_loop
  blocking_loop-Ends left zero k start chan src rtt lt late = absurd (omega arith)
  blocking_loop-Ends left (suc fuel) k start chan [] rtt lt late = sent rtt
  blocking_loop-Ends zero (suc fuel) k start chan (c ∷ src) rtt lt late =
      let now : start + 100 ≤ timer k =
        subst (λ t. start + 100 ≤ timer t) {x = k + 0} {y = k} (omega arith) late in
      let stop : leb (start + 100) (timer k) ≡ true = ground arith in
      rw (stop, blocking_loop) (expired k _ now)
  blocking_loop-Ends (suc left) (suc fuel) k start chan (c ∷ src) rtt lt late =
      elim (Bool-cases (leb (start + 100) (timer k))) [
        | inl stop ↦ rw (stop, blocking_loop) (expired k _ (ground arith))
        | inr more ↦ elim (rtt_write-result chan (c ∷ src) (host k rtt)) [
          | inl missing ↦ rw (more, missing, blocking_loop) (no_channel (host k rtt))
          | inr (n, r, call) ↦ rw (blocking_loop-turn fuel k start chan c n src rtt r more call) (
              blocking_loop-Ends left fuel (suc k) start chan (drop n (c ∷ src)) r (omega arith) (
                subst (λ t. start + 100 ≤ timer t) {x = k + suc left} {y = suc k + left}
                  (omega arith) late))
        ]
      ]

  -- `rtt_writeBlocking` ends, whatever the debugger does meanwhile: with more turns than it takes the
  -- clock to advance by 100, it returns 0, or the error that there is no such channel, or that the
  -- time is over, which it then is.
  pub write_blocking-Ends :
      (turns fuel start chan : ℕ) (src : Bytes) (rtt : Rtt)
      → turns < fuel
      → start + 100 ≤ timer turns
      → Ends start (write_blocking timer host fuel start chan src rtt)
  unfolding write_blocking
  write_blocking-Ends turns fuel start chan src rtt lt late =
      blocking_loop-Ends turns fuel 0 start chan src rtt lt
        (subst (λ t. start + 100 ≤ timer t) {x = turns} {y = 0 + turns} (omega arith) late)

  -- A blocking write of some bytes for which the buffer has room, with a debugger that does not
  -- touch it, is done in one turn.
  pub write_blocking-queue :
      (d : Desc) (start chan : ℕ) (p : Pipe) (c : ℕ) (src : Bytes)
      → chan < 2
      → get_elem? d.tx_channel chan ≡ some p
      → IsValid p
      → length (queue p) + suc (length src) < p.sz
      → host 0 (some d) ≡ some d
      → timer 0 < start + 100
      → (p' : Pipe) × (write_blocking timer host 2 start chan (c ∷ src) (some d)
          ≡ some (ok 0, some (record d { tx_channel = set d.tx_channel chan p' })))
        × IsValid p'
        × (queue p' ≡ queue p ++ c ∷ src)
  unfolding write_blocking blocking_loop
  write_blocking-queue d start chan p c src h e v room idle early =
      let step = rtt_write-queue d chan p (c ∷ src) h e v in
      let all : accepted p.sz (length (queue p)) (c ∷ src) ≡ suc (length src) = omega arith in
      let go : leb (start + 100) (timer 0) ≡ false = ground arith in
      (
        step.0,
        blocking_loop-turn 1 0 start chan c _ src (some d) _ go
              (ap (λ r. rtt_write chan (c ∷ src) r) idle ∙ step.1)
            ∙ ap
                (λ bs.
                  blocking_loop timer host 1 1 start chan bs
                    (some (record d { tx_channel = set d.tx_channel chan step.0 })))
                (drop-all _ (c ∷ src) (omega arith)),
        step.2,
        step.3
            ∙ ap (λ n. queue p ++ take n (c ∷ src)) all
            ∙ ap (λ bs. queue p ++ c ∷ bs) (take-all (length src) src (omega arith)),
      )
