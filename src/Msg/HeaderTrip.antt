-- ===== src/Msg/HeaderTrip.antt =====
-- `msg_read` reads back the header that `msg_write` sent.
use plo.Common.{
  ℕ, ◌+◌, ◌^◌, ◌<◌, ◌≡◌, refl, subst, ap, ap₂, sym, ◌∙◌, arith, true, false, [], ◌∷◌, ◌++◌,
  append_assoc, append-nil, set, ◌==◌, if◌then◌else◌, replicate,
}
use plo.Common.CString.{Bytes}
use plo.Msg.Header.{Msg, get_len, serialize32, deserialize32}
use plo.Msg.Frame.{escape, escapes}
use plo.Msg.Reader.{Reader, Step, read_headers, after_store, store, read_chunk}
use plo.Msg.Words.{serialize32_bytes, deserialize32-serialize32}
use plo.Msg.Store.{concat, resume, read-escape, store_header, finish}

-- The reader in a frame, with `n` bytes of the header read.
abbrev pub header : Msg → ℕ → Bytes → Reader
header m n hs = record { in_frame = true; escfl = false; len = n; headers = hs; msg = m }

header_byte :
    (m : Msg) (n : ℕ) (hs : Bytes) (c : ℕ) (rest : Bytes)
    → n < 7
    → read_chunk (header m n hs) (escape c ++ rest)
      ≡ read_chunk (header m (n + 1) (set hs n c)) rest
header_byte m n hs c rest h =
    read-escape (header m n hs) c rest refl refl (omega arith)
    ∙ ap (λ s. resume s rest) (store_header (header m n hs) c h)

-- The eighth byte completes the header; without data it completes the frame.
header_end :
    (m : Msg) (hs : Bytes) (c : ℕ) (rest : Bytes)
    → let m' = read_headers m (set hs 7 c) in
      read_chunk (header m 7 hs) (escape c ++ rest)
      ≡ (if get_len m' == 0 then finish m' 8 else read_chunk (header m' 8 (set hs 7 c)) rest)
header_end m hs c rest =
    read-escape (header m 7 hs) c rest refl refl (omega arith)
    ∙ (unfold store after_store in ground arith)

read_header :
    (m : Msg) (a b c d e f g h : ℕ) (rest : Bytes)
    → let hs = a ∷ b ∷ c ∷ d ∷ e ∷ f ∷ g ∷ h ∷ [] in
      let m' = read_headers m hs in
      read_chunk (header m 0 (replicate 8 0)) (concat (escapes hs) ++ rest)
      ≡ (if get_len m' == 0 then finish m' 8 else read_chunk (header m' 8 hs) rest)
unfolding escapes
read_header m a b c d e f g h rest = simp append_assoc (
    header_byte m 0 (replicate 8 0) a _ (omega arith)
    ∙ header_byte m 1 (a ∷ replicate 7 0) b _ (omega arith)
    ∙ header_byte m 2 (a ∷ b ∷ replicate 6 0) c _ (omega arith)
    ∙ header_byte m 3 (a ∷ b ∷ c ∷ replicate 5 0) d _ (omega arith)
    ∙ header_byte m 4 (a ∷ b ∷ c ∷ d ∷ replicate 4 0) e _ (omega arith)
    ∙ header_byte m 5 (a ∷ b ∷ c ∷ d ∷ e ∷ replicate 3 0) f _ (omega arith)
    ∙ header_byte m 6 (a ∷ b ∷ c ∷ d ∷ e ∷ f ∷ replicate 2 0) g _ (omega arith)
    ∙ header_end m (a ∷ b ∷ c ∷ d ∷ e ∷ f ∷ g ∷ 0 ∷ []) h rest)

-- The header as `msg_serializeHeaders` writes it.
header_words :
    (c t : ℕ) (m : Msg)
    → c < 2 ^ 32
    → t < 2 ^ 32
    → read_headers m (serialize32 c ++ serialize32 t) ≡ record m { csum = c; type = t }
header_words c t m hc ht =
    ap₂ (λ x y. record m { csum = x; type = y }) (deserialize32-serialize32 c (serialize32 t) hc)
      (upper ∙ deserialize32-serialize32 t [] ht)
  where
    upper : deserialize32 (serialize32 c ++ serialize32 t) 4 ≡ deserialize32 (serialize32 t ++ []) 0
    upper = rw (serialize32_bytes c, append-nil) (unfold deserialize32 in refl)

-- Behind the header: the frame is complete, or its data follow.
abbrev pub behind_header : Msg → Bytes → Bytes → Step
behind_header m hs rest = if get_len m == 0 then finish m 8 else read_chunk (header m 8 hs) rest

ReadsHeader : Msg → Bytes → Bytes → Type 0
ReadsHeader m rest hs =
    read_chunk (header m 0 (replicate 8 0)) (concat (escapes hs) ++ rest)
    ≡ behind_header (read_headers m hs) hs rest

pub read_wire_header :
    (c t : ℕ) (m : Msg) (rest : Bytes)
    → c < 2 ^ 32
    → t < 2 ^ 32
    → let hs = serialize32 c ++ serialize32 t in
      read_chunk (header m 0 (replicate 8 0)) (concat (escapes hs) ++ rest)
      ≡ behind_header (record m { csum = c; type = t }) hs rest
unfolding ReadsHeader
read_wire_header c t m rest hc ht =
    subst (ReadsHeader m rest) (ap₂ ◌++◌ (sym (serialize32_bytes c)) (sym (serialize32_bytes t)))
      (read_header m _ _ _ _ _ _ _ _ rest)
    ∙ ap (λ m'. behind_header m' (serialize32 c ++ serialize32 t) rest) (header_words c t m hc ht)
