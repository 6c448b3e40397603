-- ===== src/Rtt/Queue.antt =====
-- devices/pipe-rtt/rtt.c: a buffer is a queue, of which `rtt_write` lengthens the end and `rtt_read`
-- takes the front.
use plo.Common.{
  ℕ, zero, suc, ◌+◌, ◌-◌, ◌%◌, ◌^◌, min, ◌<◌, ◌≡◌, inl, inr, refl, ap, sym, ◌∙◌, arith, false,
  Bool-cases, some, [], ◌∷◌, ◌++◌, append-nil, append_assoc, length, take, drop, set, get_or,
  get_elem?, leb, ◌==◌, length-set,
}
use plo.Common.Bits.{u32}
use plo.Common.CString.{Bytes}
use plo.Common.Result.{ok}
use plo.Rtt.{
  Pipe, Desc, next_place, check, read_loop, write_loop, read_pipe, write_pipe, rtt_read, rtt_write,
}
use plo.Rtt.Places.{used, items, used-next_rd, items-set, room_test}

-- The size is that of the memory, and the two places lie in it.
pub record IsValid (p : Pipe) : Type 0 where
  pub sz : p.sz ≡ length p.buf
  pub small : p.sz < 2 ^ 31
  pub rd : p.rd < p.sz
  pub wr : p.wr < p.sz

-- What a buffer holds, the oldest byte first.
abbrev pub queue : Pipe → Bytes
queue p = items p.buf p.sz p.rd (used p.sz p.rd p.wr)

-- The loop of `rtt_read`.
read_loop-items :
    (todo : ℕ) (buf : Bytes) (sz wr rd : ℕ)
    → sz < 2 ^ 31
    → rd < sz
    → wr < sz
    → ((read_loop buf sz wr todo rd).0 ≡ take todo (items buf sz rd (used sz rd wr)))
      × ((read_loop buf sz wr todo rd).1 < sz)
      × (items buf sz (read_loop buf sz wr todo rd).1 (used sz (read_loop buf sz wr todo rd).1 wr)
          ≡ drop todo (items buf sz rd (used sz rd wr)))
unfolding read_loop items
read_loop-items zero buf sz wr rd small r w = (refl, r, refl)
read_loop-items (suc todo) buf sz wr rd small r w = elim (Bool-cases (rd == wr)) [
  | inl same ↦
      let none' : used sz rd wr ≡ 0 = ground arith in rw (same, none', read_loop) (refl, r, refl)
  | inr ne ↦
      let step = used-next_rd sz rd wr small r w (λ h. ground arith) in
      let ih = read_loop-items todo buf sz wr (next_place sz rd) small step.1 w in
      rw (ne, step.0, read_loop) (ap (λ bs. get_or buf rd 0 ∷ bs) ih.0, ih.1, ih.2)
]

length-items : (n : ℕ) (buf : Bytes) (sz at : ℕ) → length (items buf sz at n) ≡ n
unfolding items
length-items zero buf sz at = refl
length-items (suc n) buf sz at = ap suc (length-items n buf sz (next_place sz at))

-- How many bytes a write puts in.
abbrev pub accepted : ℕ → ℕ → Bytes → ℕ
accepted sz n src = min (length src) (sz - 1 - n)

take-nil : (n : ℕ) → take {A = ℕ} n [] ≡ []
take-nil zero = refl
take-nil (suc n) = refl

-- The loop of `rtt_write`.
write_loop-items :
    (src buf : Bytes) (sz rd wr : ℕ)
    → sz < 2 ^ 31
    → sz ≡ length buf
    → rd < sz
    → wr < sz
    → (out : ℕ × ℕ × Bytes) → out ≡ write_loop sz (u32 (rd + sz + 0xffff_ffff) % sz) src wr buf
    → (out.0 ≡ accepted sz (used sz rd wr) src)
      × (out.1 < sz)
      × (length out.2 ≡ length buf)
      × (items out.2 sz rd (used sz rd out.1)
          ≡ items buf sz rd (used sz rd wr) ++ take (accepted sz (used sz rd wr) src) src)
unfolding write_loop
write_loop-items [] buf sz rd wr small len r w out e =
    rw e (omega arith, w, refl, sym (rw (take-nil (accepted sz (used sz rd wr) [])) (append-nil _)))
write_loop-items (c ∷ src) buf sz rd wr small len r w out e = elim (room_test sz rd wr small r w) [
  | inl (full, n) ↦
      let stop : accepted sz (used sz rd wr) (c ∷ src) ≡ 0 = omega arith in
      rw (e, full, stop, write_loop) (refl, w, refl, sym (append-nil _))
  | inr (room, n, lt, more) ↦
      let ih =
        write_loop-items src (set buf wr c) sz rd (next_place sz wr) small
          (len ∙ sym (length-set buf wr c)) r lt _ refl in
      let one : accepted sz (used sz rd wr) (c ∷ src)
          ≡ suc (accepted sz (used sz rd (next_place sz wr)) src) =
        omega arith in
      let rest = take (accepted sz (used sz rd (next_place sz wr)) src) src in
      rw (e, room, one, write_loop)
        (
          ap suc ih.0,
          ih.1,
          ih.2 ∙ length-set buf wr c,
          ih.3
              ∙ ap (λ bs. bs ++ rest)
                  (ap (items (set buf wr c) sz rd) n
                    ∙ items-set _ buf sz rd wr c small len r w refl)
              ∙ append_assoc (items buf sz rd (used sz rd wr)) (c ∷ []) _,
        )
]

-- `rtt_write` to one of the two channels of a descriptor that has been set up takes as many bytes as
-- there is room for, of which one byte stays free, and puts them behind those that the buffer
-- holds, in order. No other channel changes. The size of the buffer is that of its memory and below
-- 2^31, and both of its places lie in it, which stays so.
pub rtt_write-queue :
    (d : Desc) (chan : ℕ) (p : Pipe) (src : Bytes)
    → chan < 2
    → get_elem? d.tx_channel chan ≡ some p
    → IsValid p
    → (p' : Pipe) × (rtt_write chan src (some d) ≡ (
      ok (accepted p.sz (length (queue p)) src),
      some (record d { tx_channel = set d.tx_channel chan p' }),
    ))
      × IsValid p'
      × (queue p' ≡ queue p ++ take (accepted p.sz (length (queue p)) src) src)
unfolding rtt_write check
rtt_write-queue d chan p src h e v =
    let count = length-items (used p.sz p.rd p.wr) p.buf p.sz p.rd in
    let inside : leb 2 chan ≡ false = ground arith in
    let loop = write_loop-items src p.buf p.sz p.rd p.wr v.small v.sz v.rd v.wr _ refl in
    (
      (write_pipe p src).1,
      rw (e, inside, count, rtt_write)
          (ap
            (λ n.
              (ok n, some (record d { tx_channel = set d.tx_channel chan (write_pipe p src).1 })))
            loop.0),
      record { sz = v.sz ∙ sym loop.2; small = v.small; rd = v.rd; wr = loop.1 },
      rw count loop.3,
    )

-- `rtt_read` from one of the two channels of a descriptor that has been set up takes the oldest bytes
-- that the buffer holds, as many as are asked for or as there are, and leaves the others. No other
-- channel changes. The size of the buffer is that of its memory and below 2^31, and both of its
-- places lie in it, which stays so.
pub rtt_read-queue :
    (d : Desc) (chan : ℕ) (p : Pipe) (count : ℕ)
    → chan < 2
    → get_elem? d.rx_channel chan ≡ some p
    → IsValid p
    → (p' : Pipe) × (rtt_read chan count (some d)
        ≡ (ok (take count (queue p)), some (record d { rx_channel = set d.rx_channel chan p' })))
      × IsValid p'
      × (queue p' ≡ drop count (queue p))
unfolding rtt_read check
rtt_read-queue d chan p count h e v =
    let inside : leb 2 chan ≡ false = ground arith in
    let loop = read_loop-items count p.buf p.sz p.wr p.rd v.small v.rd v.wr in
    (
      (read_pipe p count).1,
      rw (e, inside, rtt_read)
          (ap
            (λ bs.
              (ok bs, some (record d { rx_channel = set d.rx_channel chan (read_pipe p count).1 })))
            loop.0),
      record { sz = v.sz; small = v.small; rd = loop.1; wr = v.wr },
      loop.2,
    )
