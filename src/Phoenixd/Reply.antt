-- ===== src/Phoenixd/Reply.antt =====
-- phfs/phoenixd.c: what a client takes out of a reply.
use plo.Common.{
  ℕ, ◌+◌, ◌-◌, ◌%◌, ◌^◌, ◌==◌, ltb, ◌≤◌, ◌<◌, ◌≡◌, refl, ap, ◌∙◌, ◌++◌, length, take, drop, min,
  arith, Bool, true, false, if◌then◌else◌, length-take,
}
use native.Mathlib.Nat.{mod-eq_of_lt, add-mod_right}
use plo.Common.Bits.{u32}
use plo.Common.CString.{Bytes}
use plo.Common.Result.{Result, ok, err, eio, einval}
use plo.Msg.Header.{Msg, get_len, get_type, set_len, set_type, serialize32, deserialize32}
use plo.Msg.Words.{deserialize32-serialize32}
use plo.Phoenixd.{
  phd_hdrsz, phd_maxlen, phd_header, phd_len, is_negative, read_reply, with_body, msg_rd, exchange,
  phd_read,
}

-- `io->len` of a reply that starts with these three words.
phd_len_header :
    (m : Msg) (handle pos len : ℕ) (rest : Bytes)
    → m.body ≡ phd_header handle pos len ++ rest
    → len < 2 ^ 32
    → phd_len m ≡ len
unfolding deserialize32 serialize32
phd_len_header m handle pos len rest e h =
    ap (λ b. deserialize32 b 8) e ∙ deserialize32-serialize32 len rest h

drop_header :
    (m : Msg) (handle pos len : ℕ) (rest : Bytes)
    → m.body ≡ phd_header handle pos len ++ rest
    → drop phd_hdrsz m.body ≡ rest
unfolding serialize32
drop_header m handle pos len rest e = ap (drop phd_hdrsz) e

-- The length of a message less its header, in `w` bits.
less_header :
    (w n : ℕ) → phd_hdrsz ≤ n → n < 2 ^ w → (n + 2 ^ w - phd_hdrsz) % 2 ^ w ≡ n - phd_hdrsz
less_header w n h u =
    let swap : n + 2 ^ w - phd_hdrsz ≡ n - phd_hdrsz + 2 ^ w = omega arith in
    ap (λ k. k % 2 ^ w) swap ∙ add-mod_right (n - phd_hdrsz) (2 ^ w) ∙ mod-eq_of_lt (omega arith)

-- What is read from a reply that starts with these three words and has its own length: the bytes
-- behind them, as many as both lengths allow.
read_reply-bytes :
    (w handle pos k : ℕ) (bytes : Bytes) (m : Msg)
    → k < 2 ^ 31
    → phd_hdrsz ≤ get_len m
    → get_len m < 2 ^ w
    → m.body ≡ phd_header handle pos k ++ bytes
    → read_reply w m ≡ ok (take (min k (get_len m - phd_hdrsz)) bytes)
unfolding read_reply
read_reply-bytes w handle pos k bytes m h lo hi e =
    let named : phd_len m ≡ k = phd_len_header m handle pos k bytes e (omega arith) in
    let behind : drop phd_hdrsz m.body ≡ bytes = drop_header m handle pos k bytes e in
    let room = less_header w (get_len m) lo hi in
    let positive : is_negative k ≡ false = ground arith in rw (named, room, positive, behind) refl

module _ {S : Type 0} (send : ℕ → ℕ → Msg → Msg → S → Result (Unit {0}) × Msg × S)
    (stack : Msg × Msg) where
  -- The request of `phoenixd_read`: its three words and its type, over what the message held before.
  abbrev pub read_request : ℕ → ℕ → ℕ → Msg
  read_request fd offs len =
      set_len (set_type (with_body stack.0 (phd_header fd (u32 offs) (u32 len))) msg_rd) phd_hdrsz

  -- What the exchange makes of what `msg_send` leaves.
  exchange-ok :
      (major minor type : ℕ) (request m : Msg) (s s' : S)
      → send major minor request stack.1 s ≡ (ok tt, m, s')
      → get_type m ≡ type
      → exchange send stack major minor type request s ≡ (ok m, s')
  unfolding exchange
  exchange-ok major minor type request m s s' sent e =
      let same : (get_type m == type) ≡ true = ground arith in
      ap
        (λ (o : Result (Unit {0}) × Msg × S). elim o.0 as (λ _. Result Msg × S) [
          | err _ ↦ (err eio, o.2)
          | ok _ ↦ (if get_type o.1 == type then ok o.1 else err eio, o.2)
        ])
        sent
      ∙ ap (λ (b : Bool). (if b then ok m else err eio, s')) same

  -- `phoenixd_read` of no more than 500 bytes, where `msg_send` of its request succeeds with a reply of
  -- the request's type, as long as its three words at least, whose third word is not negative: it gives the
  -- bytes behind these words, as many as the third word and the length of the reply both allow,
  -- whatever length the caller asked for. The length is below `2 ^ w`.
  pub phd_read-bytes :
      (w fd major minor offs len handle pos k : ℕ) (bytes : Bytes) (m : Msg) (s s' : S)
      → len ≤ phd_maxlen
      → send major minor (read_request fd offs len) stack.1 s ≡ (ok tt, m, s')
      → get_type m ≡ msg_rd
      → k < 2 ^ 31
      → phd_hdrsz ≤ get_len m
      → get_len m < 2 ^ w
      → m.body ≡ phd_header handle pos k ++ bytes
      → phd_read send stack w fd major minor offs len s
        ≡ (ok (take (min k (get_len m - phd_hdrsz)) bytes), s')
  unfolding phd_read
  phd_read-bytes w fd major minor offs len handle pos k bytes m s s' short sent type h lo hi e =
      let fits : ltb phd_maxlen len ≡ false = ground arith in
      let answer = exchange-ok major minor msg_rd (read_request fd offs len) m s s' sent type in
      ap
        (λ (o : Result Msg × S).
          if ltb phd_maxlen len then (err einval, s) else elim o.0 as (λ _. Result Bytes × S) [
            | err x ↦ (err x, o.1)
            | ok rmsg ↦ (read_reply w rmsg, o.1)
          ])
        answer
      ∙ rw fits (ap (λ r. (r, s')) (read_reply-bytes w handle pos k bytes m h lo hi e))

taken :
    (m : Msg) (l : ℕ) (bytes : Bytes) (negative : Bool)
    → (if negative then err eio else ok (take l (drop phd_hdrsz m.body))) ≡ ok bytes
    → length bytes ≡ length (take l (drop phd_hdrsz m.body))
taken m l bytes true e = ground (arith, e)
taken m l bytes false e = ground (arith, e)

-- What is read from a reply that is as long as its three words at least, with a length below
-- `2 ^ w`: no more bytes than stand behind them in the message.
pub length-read_reply :
    (w : ℕ) (m : Msg) (bytes : Bytes)
    → phd_hdrsz ≤ get_len m
    → get_len m < 2 ^ w
    → read_reply w m ≡ ok bytes
    → length bytes + phd_hdrsz ≤ get_len m
unfolding read_reply
length-read_reply w m bytes h u e =
    let l = min (phd_len m) ((get_len m + 2 ^ w - phd_hdrsz) % 2 ^ w) in
    omega (
      arith,
      less_header w (get_len m) h u,
      length-take l (drop phd_hdrsz m.body),
      taken m l bytes (is_negative (phd_len m)) e,
    )
