-- ===== src/Cmd/Arguments.antt =====
-- cmds/cmd.c: `cmd_parseArgLine` against an independent description of a line's arguments.
use plo.Common.{
  ℕ, zero, suc, ◌+◌, ◌-◌, ◌≤◌, ◌<◌, ◌≡◌, ◌≢◌, refl, ap, sym, subst, ◌∙◌, arith, Bool-cases, true,
  false, some, List, [], ◌∷◌, length, leb, inl, inr,
}
use plo.Common.CString.{Bytes}
use plo.Common.Result.{ok}
use plo.Ctype.{isspace, isblank, isgraph}
use plo.Cmd.{take_word, with_arg, arg_loop, line, as_line, parse_arg_line, argv_size, arg_line_size}
use plo.Cmd.Words.{
  IsText, behind_line, blank-space, blank_words, break_words, buffer_len, cut, first_line,
  graph-space, graph_cut, graph_first, graph_words, push, take_word-Took, words,
}

arg_loop_blank :
    (fuel slots room c : ℕ) (cs : Bytes)
    → isblank c ≡ true
    → arg_loop (suc fuel) slots room (c ∷ cs) ≡ arg_loop fuel slots room cs
unfolding arg_loop
arg_loop_blank fuel slots room c cs b = let h = blank-space c b in rw (h, b, arg_loop) refl

arg_loop_break :
    (fuel slots room c : ℕ) (cs : Bytes)
    → isspace c ≡ true
    → isblank c ≡ false
    → arg_loop (suc fuel) slots room (c ∷ cs) ≡ some (ok ([], cs))
unfolding arg_loop
arg_loop_break fuel slots room c cs h b = rw (h, b, arg_loop) refl

arg_loop_word :
    (fuel slots room c : ℕ) (cs : Bytes)
    → isspace c ≡ false
    → 1 < slots
    → length (take_word room (c ∷ cs)).0 < room
    → arg_loop (suc fuel) slots room (c ∷ cs)
      ≡ with_arg (take_word room (c ∷ cs)).0 (
          arg_loop fuel
            (slots - 1)
            (room - (length (take_word room (c ∷ cs)).0 + 1))
            (take_word room (c ∷ cs)).1)
unfolding arg_loop
arg_loop_word fuel slots room c cs h l u =
    let two : leb slots 1 ≡ false = ground arith in
    let fits : leb room (length (take_word room (c ∷ cs)).0) ≡ false = ground arith in
    rw (h, two, fits, arg_loop) refl

word_pos : (c : ℕ) (cs : Bytes) → isgraph c ≡ true → 0 < length (cut (first_line (c ∷ cs))).0
word_pos c cs g =
    let e : cut (first_line (c ∷ cs)) ≡ (c ∷ (cut (first_line cs)).0, (cut (first_line cs)).1) =
      ap cut (graph_first c cs g) ∙ graph_cut c (first_line cs) g in
    omega (arith, ap (λ p. length p.0) e)

buffer_front :
    (w : Bytes) (ws : List Bytes) {room : ℕ} → buffer_len (w ∷ ws) ≤ room → length w < room
unfolding buffer_len
buffer_front w ws h = omega arith

buffer_behind :
    (w : Bytes) (ws : List Bytes) {room : ℕ}
    → buffer_len (w ∷ ws) ≤ room
    → buffer_len ws ≤ room - (length w + 1)
unfolding buffer_len
buffer_behind w ws h = omega arith

arg_loop-words :
    (fuel slots room : ℕ) (s : Bytes)
    → IsText s
    → length s < fuel
    → length (words (first_line s)) < slots
    → buffer_len (words (first_line s)) ≤ room
    → arg_loop fuel slots room s ≡ some (ok (words (first_line s), behind_line s))
arg_loop-words zero slots room s v h l u = absurd (omega arith)
arg_loop-words (suc fuel) slots room [] v h l u =
    unfold arg_loop words first_line behind_line cut push in refl
arg_loop-words (suc fuel) slots room (c ∷ cs) (inl g, v) h l u =
    let e = graph_words c cs g in
    let l' = subst (λ ws. length ws < slots) e l in
    let u' = subst (λ ws. buffer_len ws ≤ room) e u in
    let t =
      take_word-Took room (c ∷ cs) (inl g, v)
        (buffer_front (cut (first_line (c ∷ cs))).0 (cut (first_line (c ∷ cs))).1 u') in
    let w : Bytes = (take_word room (c ∷ cs)).0 in
    let rest : Bytes = (take_word room (c ∷ cs)).1 in
    let same_len = ap length t.word_is in
    let next : arg_loop fuel (slots - 1) (room - (length w + 1)) rest
        ≡ some (ok (words (first_line rest), behind_line rest)) =
      arg_loop-words fuel (slots - 1) (room - (length w + 1)) rest t.text
        (omega (arith, t.len, same_len, word_pos c cs g, h))
        (subst (λ ws. length ws < slots - 1) (sym t.words_are) (omega (arith, l')))
        (subst (λ ws. buffer_len ws ≤ room - (length w + 1)) (sym t.words_are)
          (subst (λ n. buffer_len (cut (first_line (c ∷ cs))).1 ≤ room - (n + 1)) (sym same_len)
            (buffer_behind (cut (first_line (c ∷ cs))).0 (cut (first_line (c ∷ cs))).1 u'))) in
    arg_loop_word fuel slots room c cs (graph-space c g) (omega (arith, l')) (
      omega (
        arith,
        same_len,
        buffer_front (cut (first_line (c ∷ cs))).0 (cut (first_line (c ∷ cs))).1 u',
      ))
    ∙ ap (with_arg w) next
    ∙ rw (t.words_are, t.behind_is, t.word_is, e) refl
arg_loop-words (suc fuel) slots room (c ∷ cs) (inr g, v) h l u = elim (Bool-cases (isblank c)) [
  | inl b ↦
      let (same, behind) = blank_words c cs b in
      arg_loop_blank fuel slots room c cs b
      ∙ arg_loop-words fuel slots room cs v (omega arith) (subst (λ ws. length ws < slots) same l)
          (subst (λ ws. buffer_len ws ≤ room) same u)
      ∙ rw (same, behind) refl
  | inr b ↦
      let (nothing, behind) = break_words c cs g b in
      arg_loop_break fuel slots room c cs g b ∙ rw (nothing, behind) refl
]

-- `cmd_parseArgLine`, on a text of graphic characters and white space alone that is not empty, whose
-- first line has at most 10 words that fit the buffer of 256 bytes with their NULs: the arguments
-- are the words of that line, and the text left is what follows the line break.
pub parse_arg_line-words :
    (s : Bytes)
    → s ≢ []
    → IsText s
    → length (words (first_line s)) < argv_size
    → buffer_len (words (first_line s)) ≤ arg_line_size
    → parse_arg_line s ≡ some (line (ok (words (first_line s), behind_line s)))
unfolding parse_arg_line
parse_arg_line-words [] ne v l u = absurd (ne refl)
parse_arg_line-words (c ∷ cs) ne v l u = ap as_line (
    arg_loop-words (length (c ∷ cs) + argv_size + 1) argv_size arg_line_size (c ∷ cs) v
      (omega arith) l u)
