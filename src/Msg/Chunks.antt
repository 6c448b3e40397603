-- ===== src/Msg/Chunks.antt =====
-- `msg_read` in terms of the bytes alone, however the device cuts them into chunks.
use plo.Common.{ℕ, ◌≡◌, refl, ap, sym, ◌∙◌, arith, Bool, List, [], ◌∷◌, ◌++◌, ◌⊎◌, inl, inr}
use plo.Common.CString.{Bytes}
use plo.Common.Result.{Result}
use plo.Msg.Header.{Msg}
use plo.Msg.Reader.{Reader, Step, more, stop, read_byte, read_chunk, read_chunks}
use plo.Msg.Store.{concat, resume}

Step-cases :
    (s : Step)
    → ((res : Result ℕ) × (st : Bool) × (m : Msg) × (s ≡ stop res st m))
      ⊎ ((r : Reader) × (s ≡ more r))
Step-cases (stop res st m) = inl (res, st, m, refl)
Step-cases (more r) = inr (r, refl)

read-append : (xs ys : Bytes) (r : Reader) → read_chunk r (xs ++ ys) ≡ resume (read_chunk r xs) ys
unfolding read_chunk
read-append [] ys r = refl
read-append (x ∷ xs) ys r = elim (Step-cases (read_byte r x)) [
  | inl (res, st, m, e) ↦ rw (e, read_chunk)
  | inr (r', e) ↦ rw (e, read_chunk) (read-append xs ys r')
]

-- How the device cuts the bytes makes no difference up to the end of the call.
pub chunks_lem :
    (chunks : List Bytes) (r : Reader) (res : Result ℕ) (st : Bool) (m : Msg)
    → read_chunk r (concat chunks) ≡ stop res st m
    → read_chunks r chunks ≡ (res, st, m)
unfolding read_chunks
chunks_lem [] r res st m h = absurd (unfold read_chunk in cc)
chunks_lem (b ∷ bs) r res st m h = elim (Step-cases (read_chunk r b)) [
  | inl (res', st', m', e) ↦
      rw (e, read_chunks)
        (ground
          (arith, sym (ap (λ s. resume s (concat bs)) e) ∙ sym (read-append b (concat bs) r) ∙ h))
  | inr (r', e) ↦
      rw (e, read_chunks)
        (chunks_lem bs r' res st m
          (sym (ap (λ s. resume s (concat bs)) e) ∙ sym (read-append b (concat bs) r) ∙ h))
]
