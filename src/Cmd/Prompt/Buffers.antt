-- ===== src/Cmd/Prompt/Buffers.antt =====
-- cmds/cmd.c: the line buffers of `cmd_prompt`, and what a valid state of it is.
use plo.Common.{
  ℕ, zero, suc, ◌≤◌, ◌<◌, ◌≡◌, ◌≢◌, refl, ap, ◌∙◌, arith, Bool, List, [], ◌∷◌, ◌++◌, length,
  length-append, length-drop, length-set, get_or-set_self, set, get_or, drop, inl, inr, ◌⊎◌,
}
use plo.Common.CString.{Bytes}
use plo.Cmd.{arg_line_size}
use plo.Cmd.Prompt.{Key, Prompt, current, with_current, strlen, c_string, copy_line, hist_size}

-- A line buffer of 256 bytes with a NUL in it.
pub record IsLine (l : Bytes) : Type 0 where
  pub len : length l ≡ arg_line_size
  pub ended : strlen l < arg_line_size

abbrev pub AllLines : List Bytes → Type 0
AllLines [] = Unit
AllLines (l ∷ ls) = IsLine l × AllLines ls

-- The eight buffers are whole, the indices are in range, and the text of the line that is edited
-- ends at the cursor, unless the cursor is at the front.
pub record IsValid (p : Prompt) : Type 0 where
  pub lines_len : length p.lines ≡ hist_size
  pub whole : AllLines p.lines
  pub ll_lt : p.ll < hist_size
  pub cl_lt : p.cl < hist_size
  pub pos_lt : p.pos < arg_line_size
  pub at_end : (p.pos ≡ 0) ⊎ (strlen (current p) ≡ p.pos)

pub get_or-IsLine :
    (ls : List Bytes) (k : ℕ) → AllLines ls → k < length ls → IsLine (get_or ls k [])
get_or-IsLine [] k v h = elim h [ ]
get_or-IsLine (l ∷ ls) zero v h = v.0
get_or-IsLine (l ∷ ls) (suc k) v h = get_or-IsLine ls k v.1 (omega arith)

set-AllLines :
    (ls : List Bytes) (k : ℕ) (l : Bytes) → AllLines ls → IsLine l → AllLines (set ls k l)
set-AllLines [] k l v h = tt
set-AllLines (x ∷ ls) zero l v h = (h, v.1)
set-AllLines (x ∷ ls) (suc k) l v h = (v.0, set-AllLines ls k l v.1 h)

-- A character put behind the text, or over the front of it, with a NUL.
pub strlen-append :
    (l : Bytes) (n c : ℕ)
    → n ≤ strlen l
    → suc n < length l
    → c ≢ 0
    → strlen (set (set l n c) (suc n) 0) ≡ suc n
unfolding strlen
strlen-append [] n c h u ne = elim u [ ]
strlen-append (x ∷ []) n c h u ne = absurd (omega arith)
strlen-append (x ∷ y ∷ l) zero c h u ne = ground arith
strlen-append (x ∷ y ∷ l) (suc n) c h u ne = ground (arith, strlen-append (y ∷ l) n c)

pub strlen-cut : (l : Bytes) (n : ℕ) → n ≤ strlen l → n < length l → strlen (set l n 0) ≡ n
unfolding strlen
strlen-cut [] n h u = elim u [ ]
strlen-cut (x ∷ l) zero h u = refl
strlen-cut (x ∷ l) (suc n) h u = ground (arith, strlen-cut l n)

pub strlen-copy : (from rest : Bytes) → strlen (c_string from ++ 0 ∷ rest) ≡ strlen from
unfolding strlen c_string
strlen-copy [] rest = refl
strlen-copy (x ∷ from) rest = ground (arith, strlen-copy from rest)

length-c_string : (l : Bytes) → length (c_string l) ≡ strlen l
unfolding strlen c_string
length-c_string [] = refl
length-c_string (x ∷ l) = ground (arith, length-c_string l)

pub copy-IsLine : (from to : Bytes) → IsLine from → IsLine to → IsLine (copy_line from to)
copy-IsLine from to v w = record {
  len = omega (
    arith,
    length-append (c_string from) (0 ∷ drop (suc (strlen from)) to),
    length-drop (suc (strlen from)) to,
    length-c_string from,
    v.ended,
    w.len,
  );
  ended = omega (arith, strlen-copy from (drop (suc (strlen from)) to), v.ended);
}

-- A new text in the current line, with the cursor at its end, and an index of the history.
pub with_current-IsValid :
    (p : Prompt) (l : Bytes) (cl pos : ℕ) (newline over : Bool)
    → IsValid p
    → IsLine l
    → cl < hist_size
    → strlen l ≡ pos
    → IsValid (record (with_current p l) { cl = cl; pos = pos; newline = newline; over = over })
with_current-IsValid p l cl pos newline over v w h e = record {
  lines_len = length-set p.lines p.ll l ∙ v.lines_len;
  whole = set-AllLines p.lines p.ll l v.whole w;
  ll_lt = v.ll_lt;
  cl_lt = h;
  pos_lt = omega (arith, w.ended);
  at_end =
      inr (ap strlen (get_or-set_self p.lines p.ll l [] (omega (arith, v.lines_len, v.ll_lt))) ∙ e);
}

pub current-IsLine : (p : Prompt) → IsValid p → IsLine (current p)
current-IsLine p v = get_or-IsLine p.lines p.ll v.whole (omega (arith, v.lines_len, v.ll_lt))

-- The cursor does not stand behind the end of the text.
pub pos-le : (p : Prompt) → IsValid p → p.pos ≤ strlen (current p)
pos-le p v = elim v.at_end [ inl e ↦ omega arith | inr e ↦ omega arith ]

-- A NUL within the text ends it there.
pub cut-IsLine : (l : Bytes) (n : ℕ) → IsLine l → n ≤ strlen l → IsLine (set l n 0)
cut-IsLine l n v h = record {
  len = length-set l n 0 ∙ v.len;
  ended = omega (arith, strlen-cut l n h (omega (arith, v.len, v.ended)), v.ended);
}

pub append-IsLine :
    (l : Bytes) (n c : ℕ)
    → IsLine l
    → n ≤ strlen l
    → suc n < arg_line_size
    → c ≢ 0
    → IsLine (set (set l n c) (suc n) 0)
append-IsLine l n c v h u ne = record {
  len = length-set (set l n c) (suc n) 0 ∙ length-set l n c ∙ v.len;
  ended = omega (arith, strlen-append l n c h (omega (arith, v.len)) ne);
}

-- The fields that the invariant does not name may change.
pub flags-IsValid :
    (p : Prompt) (newline over : Bool) (key : Key)
    → IsValid p
    → IsValid (record p { newline = newline; key = key; over = over })
flags-IsValid p newline over key v = record {
  lines_len = v.lines_len;
  whole = v.whole;
  ll_lt = v.ll_lt;
  cl_lt = v.cl_lt;
  pos_lt = v.pos_lt;
  at_end = v.at_end;
}
