-- ===== src/Cmd/Prompt/Editing.antt =====
-- cmds/cmd.c: the line buffers of `cmd_prompt` keep their bounds and the end of their texts.
use plo.Common.{
  ℕ, suc, ◌+◌, ◌-◌, ◌%◌, ◌≤◌, ◌<◌, ◌≡◌, ◌≢◌, refl, ap, ◌∙◌, arith, Bool, Bool-cases, false, not,
  ◌&&◌, ◌||◌, ltb, ◌==◌, if◌then◌else◌, List, [], ◌∷◌, length, length-set, set, get_or, drop, inl,
  inr,
}
use plo.Common.CString.{Bytes}
use plo.Cmd.{arg_line_size}
use plo.Cmd.Prompt.{
  Key, plain, escaped, bracket, Prompt, current, strlen, copy_line, key_up, key_down, edit, enter,
  regular, feed, plain_key, hist_size, prompt_loop, cmd_prompt, prompt_start, clear_first,
}
use plo.Cmd.Prompt.Buffers.{
  AllLines, IsValid, append-IsLine, copy-IsLine, current-IsLine, cut-IsLine, flags-IsValid,
  get_or-IsLine, pos-le, strlen-append, strlen-copy, strlen-cut, with_current-IsValid,
}

edit-IsValid : (p : Prompt) (c : ℕ) → IsValid p → c ≢ 0 → IsValid (edit p c)
unfolding edit
edit-IsValid p c v ne = elim (Bool-cases (c == 8)) [
  | inl back ↦ elim (Bool-cases (ltb 0 p.pos)) [
    | inl some_left ↦
        let within : p.pos - 1 ≤ strlen (current p) = omega (arith, pos-le p v) in
        rw (back, some_left, edit)
          (with_current-IsValid p (set (current p) (p.pos - 1) 0) p.cl (p.pos - 1) false (c == b'#')
            v (cut-IsLine (current p) (p.pos - 1) (current-IsLine p v) within) v.cl_lt
            (strlen-cut (current p) (p.pos - 1) within
              (omega (arith, (current-IsLine p v).len, v.pos_lt))))
    | inr empty ↦ rw (back, empty, edit) (flags-IsValid p false (c == b'#') p.key v)
  ]
  | inr other ↦ elim (Bool-cases (ltb p.pos (arg_line_size - 1))) [
    | inl room ↦
        let small : suc p.pos < arg_line_size = ground arith in
        let len = (current-IsLine p v).len in
        rw (other, room, edit)
          (with_current-IsValid p (set (set (current p) p.pos c) (suc p.pos) 0) p.cl (suc p.pos)
            false (c == b'#') v
            (append-IsLine (current p) p.pos c (current-IsLine p v) (pos-le p v) small ne) v.cl_lt
            (strlen-append (current p) p.pos c (pos-le p v) (omega (arith, len, small)) ne))
    | inr full ↦ rw (other, full, edit) (flags-IsValid p false (c == b'#') p.key v)
  ]
]

key_up-IsValid : (p : Prompt) → IsValid p → IsValid (key_up p)
unfolding key_up
key_up-IsValid p v =
    let ncl = (p.cl + hist_size - 1) % hist_size in
    let from = get_or p.lines ncl [] in
    let from-ok = get_or-IsLine p.lines ncl v.whole (omega (arith, v.lines_len)) in
    elim (Bool-cases (not (ncl == p.ll) && not (get_or from 0 0 == 0))) [
      | inl go ↦
          rw (go, key_up)
            (with_current-IsValid p (copy_line from (current p)) ncl (strlen from) p.newline p.over
              v (copy-IsLine from (current p) from-ok (current-IsLine p v)) (omega arith)
              (strlen-copy from (drop (suc (strlen from)) (current p))))
      | inr stay ↦ rw (stay, key_up) v
    ]

key_down-IsValid : (p : Prompt) → IsValid p → IsValid (key_down p)
unfolding key_down
key_down-IsValid p v =
    let ncl = (p.cl + 1) % hist_size in
    let from = get_or p.lines ncl [] in
    let from-ok = get_or-IsLine p.lines ncl v.whole (omega (arith, v.lines_len)) in
    elim (Bool-cases (p.cl == p.ll)) [
      | inl stay ↦ rw (stay, key_down) v
      | inr go ↦ elim (Bool-cases (ncl == p.ll)) [
        | inl newest ↦
            rw (go, newest, key_down)
              (with_current-IsValid p (set (current p) 0 0) ncl 0 p.newline p.over v
                (cut-IsLine (current p) 0 (current-IsLine p v) (omega arith)) (omega arith)
                (strlen-cut (current p) 0 (omega arith) (omega (arith, (current-IsLine p v).len))))
        | inr older ↦
            rw (go, older, key_down)
              (with_current-IsValid p (copy_line from (current p)) ncl (strlen from) p.newline
                p.over v (copy-IsLine from (current p) from-ok (current-IsLine p v)) (omega arith)
                (strlen-copy from (drop (suc (strlen from)) (current p))))
      ]
    ]

-- Buffers of 256 bytes with anything in them.
abbrev pub AllBuffers : List Bytes → Type 0
AllBuffers [] = Unit
AllBuffers (l ∷ ls) = (length l ≡ arg_line_size) × AllBuffers ls

clear_first-AllLines : (ls : List Bytes) → AllBuffers ls → AllLines (clear_first ls)
unfolding strlen
clear_first-AllLines [] v = tt
clear_first-AllLines (l ∷ ls) v = (
  record {
    len = length-set l 0 0 ∙ v.0;
    ended = omega (arith, strlen-cut l 0 (omega arith) (omega (arith, v.0)));
  },
  clear_first-AllLines ls v.1,
)

length-clear_first : (ls : List Bytes) → length (clear_first ls) ≡ length ls
length-clear_first [] = refl
length-clear_first (l ∷ ls) = ap suc (length-clear_first ls)

prompt_start-IsValid :
    (ls : List Bytes) → length ls ≡ hist_size → AllBuffers ls → IsValid (prompt_start ls)
prompt_start-IsValid ls h v = record {
  lines_len = length-clear_first ls ∙ h;
  whole = clear_first-AllLines ls v;
  ll_lt = omega arith;
  cl_lt = omega arith;
  pos_lt = omega arith;
  at_end = inl refl;
}

-- The line of text is given up for the next one, with the cursor at its front.
advance-IsValid :
    (p : Prompt) (newline : Bool)
    → IsValid p
    → IsValid (record p {
      ll = (p.ll + 1) % hist_size;
      cl = (p.ll + 1) % hist_size;
      pos = 0;
      newline = newline;
    })
advance-IsValid p newline v = record {
  lines_len = v.lines_len;
  whole = v.whole;
  ll_lt = omega arith;
  cl_lt = omega arith;
  pos_lt = omega arith;
  at_end = inl refl;
}

module _ {S : Type 0} (exec : Bytes → S → S) where
  enter-IsValid : (p : Prompt) (c : ℕ) (s : S) → IsValid p → IsValid (enter exec p c s).0
  unfolding enter
  enter-IsValid p c s v = elim (Bool-cases (not (c == b'\r') && p.newline)) [
    | inl skip ↦ rw (skip, enter) (flags-IsValid p false p.over p.key v)
    | inr take ↦ elim (Bool-cases (p.pos == 0)) [
      | inl empty ↦
          rw (take, empty, enter) (flags-IsValid p (p.newline || c == b'\r') p.over p.key v)
      | inr text ↦ rw (take, text, enter) (advance-IsValid p (p.newline || c == b'\r') v)
    ]
  ]

  regular-IsValid : (p : Prompt) (c : ℕ) (s : S) → IsValid p → IsValid (regular exec p c s).0
  unfolding regular
  regular-IsValid p c s v = elim (Bool-cases (c == 0)) [
    | inl nul ↦ rw (nul, regular) v
    | inr some ↦ elim (Bool-cases (c == b'\r' || c == b'\n')) [
      | inl break ↦ rw (some, break, regular) (enter-IsValid p c s v)
      | inr inside ↦ elim (Bool-cases (c == b'\t')) [
        | inl tab ↦ rw (some, inside, tab, regular) v
        | inr char ↦ rw (some, inside, char, regular) (edit-IsValid p c v (ground arith))
      ]
    ]
  ]

  feed-key :
      (p : Prompt) (k : Key) (x : ℕ) (s : S) → p.key ≡ k → IsValid p → IsValid (feed exec p x s).0
  unfolding feed
  feed-key p plain x s e v = elim (Bool-cases (x == 27)) [
    | inl esc ↦ rw (e, esc, feed) (flags-IsValid p p.newline p.over escaped v)
    | inr char ↦ rw (e, char, feed) (regular-IsValid p (if x == 127 then 8 else x) s v)
  ]
  feed-key p escaped x s e v =
      rw (e, feed) (flags-IsValid p p.newline p.over (if x == 91 then bracket else plain) v)
  feed-key p bracket x s e v =
      let v' = flags-IsValid p p.newline p.over plain v in
      elim (Bool-cases (x == b'A')) [
        | inl up ↦ rw (e, up, feed) (key_up-IsValid (plain_key p) v')
        | inr other ↦ elim (Bool-cases (x == b'B')) [
          | inl down ↦ rw (e, other, down, feed) (key_down-IsValid (plain_key p) v')
          | inr none ↦ rw (e, other, none, feed) v'
        ]
      ]

  -- One byte of the console, with all that follows from it, keeps the buffers of `cmd_prompt` whole:
  -- the indices stay in range, each line has its NUL, and the cursor stands at the end of the text.
  pub feed-IsValid : (p : Prompt) (x : ℕ) (s : S) → IsValid p → IsValid (feed exec p x s).0
  feed-IsValid p x s v = feed-key p p.key x s refl v

  prompt_loop-IsValid :
      (p : Prompt) (xs : Bytes) (s : S) → IsValid p → IsValid (prompt_loop exec p xs s).0
  unfolding prompt_loop
  prompt_loop-IsValid p [] s v = v
  prompt_loop-IsValid p (x ∷ xs) s v = elim (Bool-cases p.over) [
    | inl over ↦ simp (over, prompt_loop) v
    | inr on ↦
        simp (on, prompt_loop)
          (prompt_loop-IsValid (feed exec p x s).0 xs (feed exec p x s).1 (feed-IsValid p x s v))
  ]

  -- Whatever eight buffers of 256 bytes hold before, and whatever bytes the console sends: when
  -- `cmd_prompt` has read them, the indices of the line and of the history are below eight, the cursor
  -- is below 256 and at the front or at the end of the text, and each buffer has 256 bytes and a NUL.
  pub cmd_prompt-IsValid :
      (lines : List Bytes) (input : Bytes) (s : S)
      → length lines ≡ hist_size
      → AllBuffers lines
      → IsValid (cmd_prompt exec lines input s).0
  unfolding cmd_prompt
  cmd_prompt-IsValid lines input s h v =
      prompt_loop-IsValid (prompt_start lines) input s (prompt_start-IsValid lines h v)
