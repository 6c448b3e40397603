-- ===== src/Tests/Messages.antt =====
-- phfs/msg.c and phfs/phoenixd.c on a message whose data holds both bytes that are escaped.
use plo.Common.{
  ℕ, ◌-◌, min, take, ◌+◌, ◌≡◌, refl, sym, ◌∙◌, false, List, [], ◌∷◌, ◌++◌, replicate, arith,
}
use plo.Common.CString.{Bytes}
use plo.Common.Result.{Result, ok}
use plo.Msg.Header.{Msg, get_len, get_type, get_csum, get_seq, checksum, serialize32, sum16}
use plo.Msg.Frame.{frame, escape, escapes}
use plo.Msg.Reader.{msg_read}
use plo.Msg.Store.{concat}
use plo.Msg.RoundTrip.{received, IsSendable, NoMark, msg_read-frame}
use plo.Phoenixd.{phd_header, phd_hdrsz, phd_read}
use plo.Phoenixd.Reply.{phd_read-bytes}

-- Three bytes of data, of type 2.
abbrev sent : Msg
sent = record { csum = 0x0101; type = 0x3_0002; body = 1 ∷ 0x7e ∷ 0x7d ∷ replicate 509 0 }

abbrev buffer : Msg
buffer = record { csum = 0; type = 0; body = replicate 512 9 }

checksum_run : checksum sent ≡ 0x0101
unfolding checksum sum16 serialize32 get_len get_seq
checksum_run = refl

get_csum_run : get_csum sent ≡ 0x0101
unfolding get_csum
get_csum_run = refl

get_len_run : get_len sent ≡ 3
unfolding get_len
get_len_run = refl

sent-IsSendable : IsSendable sent
sent-IsSendable = record {
  csum_lt = omega arith;
  type_lt = omega arith;
  len_le = omega (arith, get_len_run);
  body_len = refl;
  csum_set = get_csum_run ∙ sym checksum_run;
}

-- A byte before the mark, the frame in three parts, and a byte behind it.
abbrev chunks : List Bytes
chunks =
    (9 ∷ 0x7e ∷ 1 ∷ 1 ∷ 0 ∷ 0 ∷ 2 ∷ [])
    ∷ (0 ∷ 3 ∷ 0 ∷ 1 ∷ 0x7d ∷ 0x5e ∷ 0x7d ∷ [])
    ∷ (0x5d ∷ 4 ∷ [])
    ∷ []

chunks-frame : concat chunks ≡ (9 ∷ []) ++ (concat (frame sent) ++ 4 ∷ [])
unfolding frame escapes escape serialize32 get_len
chunks-frame = refl

noise-NoMark : NoMark (9 ∷ [])
noise-NoMark = (omega arith, tt)

msg_read-frame_example :
    msg_read chunks buffer false ≡ (ok (8 + get_len sent), false, received sent buffer)
msg_read-frame_example =
    msg_read-frame sent buffer (9 ∷ []) (4 ∷ []) chunks chunks-frame noise-NoMark sent-IsSendable
      refl

-- A reply whose third word names three bytes, of which it has two.
abbrev reply : Msg
reply = record { csum = 0; type = 0xe_0002; body = phd_header 1 0 3 ++ (5 ∷ 6 ∷ 7 ∷ []) }

reply_len : get_len reply ≡ 14
unfolding get_len
reply_len = refl

reply_type : get_type reply ≡ 2
unfolding get_type
reply_type = refl

-- A host that always answers with this reply, and counts the requests.
abbrev host : ℕ → ℕ → Msg → Msg → ℕ → Result (Unit {0}) × Msg × ℕ
host major minor smsg rmsg s = (ok tt, reply, s + 1)

abbrev stack : Msg × Msg
stack = (reply, reply)

phd_read-bytes_example :
    phd_read host stack 32 1 0 0 0 100 0
    ≡ (ok (take (min 3 (get_len reply - phd_hdrsz)) (5 ∷ 6 ∷ 7 ∷ [])), 1)
phd_read-bytes_example =
    phd_read-bytes host stack 32 1 0 0 0 100 1 0 3 (5 ∷ 6 ∷ 7 ∷ []) reply 0 1 (omega arith) refl
      reply_type (omega arith) (omega (arith, reply_len)) (omega (arith, reply_len)) refl
