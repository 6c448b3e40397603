-- ===== src/Msg/RoundTrip.antt =====
-- `msg_read` gets back what `msg_write` sent.
use plo.Common.{
  ℕ, zero, suc, ◌+◌, ◌^◌, ◌≤◌, ◌<◌, ◌≡◌, ◌≢◌, refl, ap, ap₂, sym, ◌∙◌, arith, false, List, [], ◌∷◌,
  ◌++◌, append_assoc, length, length-take, take, drop, replicate,
}
use plo.Common.Bits.{u16}
use plo.Common.CString.{Bytes}
use plo.Common.Result.{ok}
use plo.Msg.Header.{Msg, mark, get_len, get_csum, get_seq, serialize32, wire, sum16, checksum}
use plo.Msg.Frame.{escapes, frame}
use plo.Msg.Reader.{stop, read_byte, read_chunk, start, msg_read}
use plo.Msg.Chunks.{chunks_lem}
use plo.Msg.Store.{concat, finish, read_body}
use plo.Msg.HeaderTrip.{header, behind_header, read_wire_header}

escapes-append :
    (xs ys : Bytes) → concat (escapes (xs ++ ys)) ≡ concat (escapes xs) ++ concat (escapes ys)
unfolding escapes
escapes-append [] ys = refl
escapes-append (x ∷ xs) ys = simp (escapes-append xs ys, append_assoc)

take-append : (n : ℕ) (xs ys : Bytes) → length xs ≡ n → take n (xs ++ ys) ≡ xs
take-append zero [] ys h = refl
take-append zero (x ∷ xs) ys h = absurd (omega arith)
take-append (suc n) [] ys h = absurd (omega arith)
take-append (suc n) (x ∷ xs) ys h = ap (◌∷◌ x) (take-append n xs ys (omega arith))

-- The message that the reader leaves: the sent one, over the old contents of its buffer.
abbrev pub received : Msg → Msg → Msg
received sent old = record sent {
  body = take (get_len sent) sent.body ++ drop (get_len sent) old.body;
}

-- A message with its checksum set, whose length fits the buffer.
pub record IsSendable (m : Msg) : Type 0 where
  pub csum_lt : m.csum < 2 ^ 32
  pub type_lt : m.type < 2 ^ 32
  pub len_le : get_len m ≤ 512
  pub body_len : length m.body ≡ 512
  pub csum_set : get_csum m ≡ checksum m

finish_ok : (m : Msg) (n : ℕ) → get_csum m ≡ checksum m → finish m n ≡ stop (ok n) false m
finish_ok m n h = ground arith

finish-received :
    (m old : Msg)
    → IsSendable m
    → finish (received m old) (8 + get_len m) ≡ stop (ok (8 + get_len m)) false (received m old)
unfolding checksum get_csum get_len get_seq
finish-received m old v = finish_ok (received m old) (8 + get_len m) (
    v.csum_set
    ∙ ap (λ b. u16 (sum16 0 (serialize32 m.type ++ b) + get_seq m))
        (sym (
          take-append (get_len m) (take (get_len m) m.body) (drop (get_len m) old.body)
            (omega (arith, length-take (get_len m) m.body, v.body_len, v.len_le)))))

behind_empty : (m : Msg) (hs rest : Bytes) → get_len m ≡ 0 → behind_header m hs rest ≡ finish m 8
behind_empty m hs rest h = ground arith

behind_full :
    (m : Msg) (hs rest : Bytes)
    → get_len m ≢ 0
    → behind_header m hs rest ≡ read_chunk (header m 8 hs) rest
behind_full m hs rest h = ground arith

read_data :
    (ds : Bytes) (m old : Msg) (hs rest : Bytes)
    → IsSendable m
    → length old.body ≡ 512
    → ds ≡ take (get_len m) m.body
    → behind_header (record old { csum = m.csum; type = m.type }) hs (concat (escapes ds) ++ rest)
      ≡ stop (ok (8 + get_len m)) false (received m old)
unfolding get_len escapes
read_data [] m old hs rest v ho e =
    behind_empty (record m { body = old.body }) hs rest none
    ∙ ap₂ finish (ap (λ b. record m { body = b }) (ap₂ (λ x k. x ++ drop k old.body) e (sym none)))
        (omega (arith, none))
    ∙ finish-received m old v
  where
    none : get_len m ≡ 0
    none = omega (arith, ap length e, length-take (get_len m) m.body, v.body_len, v.len_le)
read_data (d ∷ ds) m old hs rest v ho e =
    behind_full (record m { body = old.body }) hs _ (omega (arith, all))
    ∙ read_body d ds [] old.body rest (header (record m { body = old.body }) 8 hs) refl refl
        (omega arith) refl (omega (arith, all, v.len_le)) (omega (arith, all)) v.len_le
    ∙ ap (λ b. finish (record m { body = b }) (8 + get_len m))
        (ap₂ (λ x k. x ++ drop k old.body) e all)
    ∙ finish-received m old v
  where
    all : length (d ∷ ds) ≡ get_len m
    all = omega (arith, ap length e, length-take (get_len m) m.body, v.body_len, v.len_le)

-- Bytes that the reader skips while it waits for a mark.
abbrev pub NoMark : Bytes → Type 0
NoMark [] = Unit
NoMark (c ∷ cs) = (c ≢ mark) × NoMark cs

skip_noise :
    (noise cs : Bytes) (m : Msg)
    → NoMark noise
    → read_chunk (start false m) (noise ++ cs) ≡ read_chunk (start false m) cs
unfolding read_chunk read_byte
skip_noise [] cs m h = refl
skip_noise (c ∷ noise) cs m h = ground (arith, skip_noise noise cs m h.1)

begin_frame :
    (m : Msg) (cs : Bytes)
    → read_chunk (start false m) (mark ∷ cs) ≡ read_chunk (header m 0 (replicate 8 0)) cs
unfolding read_chunk read_byte
begin_frame m cs = ground arith

read_frame :
    (m old : Msg) (noise rest : Bytes)
    → NoMark noise
    → IsSendable m
    → length old.body ≡ 512
    → read_chunk (start false old) (noise ++ (concat (frame m) ++ rest))
      ≡ stop (ok (8 + get_len m)) false (received m old)
unfolding frame wire
read_frame m old noise rest q v ho =
    skip_noise noise _ old q
    ∙ begin_frame old _
    ∙ ap (read_chunk (header old 0 (replicate 8 0))) split
    ∙ read_wire_header m.csum m.type old _ v.csum_lt v.type_lt
    ∙ read_data (take (get_len m) m.body) m old _ rest v ho refl
  where
    split :
        concat (escapes (serialize32 m.csum ++ (serialize32 m.type ++ take (get_len m) m.body)))
          ++ rest
        ≡ concat (escapes (serialize32 m.csum ++ serialize32 m.type))
          ++ (concat (escapes (take (get_len m) m.body)) ++ rest)
    split = rw (← append_assoc, escapes-append, append_assoc)

-- A message that `msg_write` sends, with its checksum set, comes back whole from `msg_read` on the
-- other side: whatever stands before its mark, however the device cuts the bytes, and whatever
-- follows. The reader returns the frame's length, and keeps the rest of its old buffer.
pub msg_read-frame :
    (m old : Msg) (noise rest : Bytes) (chunks : List Bytes)
    → concat chunks ≡ noise ++ (concat (frame m) ++ rest)
    → NoMark noise
    → IsSendable m
    → length old.body ≡ 512
    → msg_read chunks old false ≡ (ok (8 + get_len m), false, received m old)
unfolding msg_read
msg_read-frame m old noise rest chunks e q v ho =
    chunks_lem chunks (start false old) _ _ _
      (ap (read_chunk (start false old)) e ∙ read_frame m old noise rest q v ho)
