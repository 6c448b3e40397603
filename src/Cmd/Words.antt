-- ===== src/Cmd/Words.antt =====
-- cmds/cmd.c: the words of a line, as `cmd_parseArgLine` meets them.
use plo.Common.{
  ℕ, zero, suc, ◌+◌, ◌<◌, ◌≡◌, refl, ap, sym, subst, ◌∙◌, arith, Bool, Bool-cases, true, false,
  ◌&&◌, not, List, [], ◌∷◌, length, if◌then◌else◌, ◌⊎◌, inl, inr,
}
use plo.Common.CString.{Bytes}
use plo.Ctype.{isspace, isblank, isgraph}
use plo.Cmd.{take_word}

-- A line break: white space that is not blank.
abbrev pub is_break : ℕ → Bool
is_break c = isspace c && not (isblank c)

-- The text in front of the first line break, and the text behind it.
unfoldable pub first_line : Bytes → Bytes
first_line [] = []
first_line (c ∷ cs) = let rest = first_line cs in if is_break c then [] else c ∷ rest

unfoldable pub behind_line : Bytes → Bytes
behind_line [] = []
behind_line (c ∷ cs) = let rest = behind_line cs in if is_break c then cs else rest

-- An empty word is no argument.
unfoldable pub push : Bytes → List Bytes → List Bytes
push [] ws = ws
push (c ∷ w) ws = (c ∷ w) ∷ ws

-- The word at the front of a line, which ends at a blank, and the words behind it.
unfoldable pub cut : Bytes → Bytes × List Bytes
unfolding push
cut [] = ([], [])
cut (c ∷ cs) = let (w, ws) = cut cs in if isblank c then ([], push w ws) else (c ∷ w, ws)

-- The words of a line, between its blanks.
unfoldable pub words : Bytes → List Bytes
unfolding cut push
words l = push (cut l).0 (cut l).1

-- A text of graphic characters and white space alone.
abbrev pub IsText : Bytes → Type 0
IsText [] = Unit
IsText (c ∷ cs) = ((isgraph c ≡ true) ⊎ (isspace c ≡ true)) × IsText cs

-- The bytes that the words take in the buffer, each with its NUL.
unfoldable pub buffer_len : List Bytes → ℕ
buffer_len [] = 0
buffer_len (w ∷ ws) = length w + 1 + buffer_len ws

pub graph-space : (c : ℕ) → isgraph c ≡ true → isspace c ≡ false
unfolding isgraph isspace isblank
graph-space c h = ground (arith, h)

pub blank-space : (c : ℕ) → isblank c ≡ true → isspace c ≡ true
unfolding isspace isblank
blank-space c h = ground (arith, h)

-- The inner loop takes the word at the front, if there is room for it and one byte more.
pub record Took (room : ℕ) (s : Bytes) : Type 0 where
  pub word_is : (take_word room s).0 ≡ (cut (first_line s)).0
  pub words_are : words (first_line (take_word room s).1) ≡ (cut (first_line s)).1
  pub behind_is : behind_line (take_word room s).1 ≡ behind_line s
  pub text : IsText (take_word room s).1
  pub len : length (take_word room s).1 + length (take_word room s).0 ≡ length s

space-graph : (c : ℕ) → isspace c ≡ true → isgraph c ≡ false
space-graph c h = elim (Bool-cases (isgraph c)) [
  | inl g ↦ let no_space = graph-space c g in cc
  | inr g ↦ g
]

graph-blank : (c : ℕ) → isgraph c ≡ true → isblank c ≡ false
graph-blank c h = elim (Bool-cases (isblank c)) [
  | inl b ↦ let space = blank-space c b in let no_space = graph-space c h in cc
  | inr b ↦ b
]

-- White space has no word in front.
space_cut : (c : ℕ) (cs : Bytes) → isspace c ≡ true → (cut (first_line (c ∷ cs))).0 ≡ []
unfolding cut first_line
space_cut c cs h = elim (Bool-cases (isblank c)) [
  | inl b ↦ ground (arith, h, b)
  | inr b ↦ ground (arith, h, b)
]

words_eq : (l : Bytes) → (cut l).0 ≡ [] → words l ≡ (cut l).1
unfolding words push
words_eq l e = rw e refl

pub graph_first : (c : ℕ) (cs : Bytes) → isgraph c ≡ true → first_line (c ∷ cs) ≡ c ∷ first_line cs
unfolding first_line
graph_first c cs g = let h = graph-space c g in ground (arith, h)

graph_behind : (c : ℕ) (cs : Bytes) → isgraph c ≡ true → behind_line (c ∷ cs) ≡ behind_line cs
unfolding behind_line
graph_behind c cs g = let h = graph-space c g in ground (arith, h)

pub graph_cut : (c : ℕ) (l : Bytes) → isgraph c ≡ true → cut (c ∷ l) ≡ (c ∷ (cut l).0, (cut l).1)
unfolding cut
graph_cut c l g = let h = graph-blank c g in ground (arith, h)

graph_take :
    (room c : ℕ) (cs : Bytes)
    → isgraph c ≡ true
    → take_word (suc room) (c ∷ cs) ≡ (c ∷ (take_word room cs).0, (take_word room cs).1)
unfolding take_word
graph_take room c cs g = ground (arith, g)

space_take :
    (room c : ℕ) (cs : Bytes) → isspace c ≡ true → take_word (suc room) (c ∷ cs) ≡ ([], c ∷ cs)
unfolding take_word
space_take room c cs g = let h = space-graph c g in ground (arith, h)

pub take_word-Took :
    (room : ℕ) (s : Bytes) → IsText s → length (cut (first_line s)).0 < room → Took room s
take_word-Took zero s v h = absurd (omega arith)
take_word-Took (suc room) [] v h =
    unfold take_word first_line cut words behind_line push in
    record { word_is = refl; words_are = refl; behind_is = refl; text = tt; len = refl }
take_word-Took (suc room) (c ∷ cs) (inl g, v) h =
    let e : cut (first_line (c ∷ cs)) ≡ (c ∷ (cut (first_line cs)).0, (cut (first_line cs)).1) =
      ap cut (graph_first c cs g) ∙ graph_cut c (first_line cs) g in
    let rest = take_word-Took room cs v (omega (arith, ap (λ p. length p.0) e)) in
    let t = graph_take room c cs g in
    record {
      word_is = ap (λ p. p.0) t ∙ ap (λ w. c ∷ w) rest.word_is ∙ sym (ap (λ p. p.0) e);
      words_are = ap (λ p. words (first_line p.1)) t ∙ rest.words_are ∙ sym (ap (λ p. p.1) e);
      behind_is = ap (λ p. behind_line p.1) t ∙ rest.behind_is ∙ sym (graph_behind c cs g);
      text = subst (λ p. IsText p.1) (sym t) rest.text;
      len = omega (arith, ap (λ p. length p.0) t, ap (λ p. length p.1) t, rest.len);
    }
take_word-Took (suc room) (c ∷ cs) (inr g, v) h =
    let t = space_take room c cs g in
    let none_here = space_cut c cs g in
    record {
      word_is = ap (λ p. p.0) t ∙ sym none_here;
      words_are = ap (λ p. words (first_line p.1)) t ∙ words_eq (first_line (c ∷ cs)) none_here;
      behind_is = ap (λ p. behind_line p.1) t;
      text = subst (λ p. IsText p.1) (sym t) (inr g, v);
      len = omega (arith, ap (λ p. length p.0) t, ap (λ p. length p.1) t);
    }

pub blank_words :
    (c : ℕ) (cs : Bytes)
    → isblank c ≡ true
    → (words (first_line (c ∷ cs)) ≡ words (first_line cs))
      × (behind_line (c ∷ cs) ≡ behind_line cs)
unfolding words first_line behind_line cut push
blank_words c cs b = let h = blank-space c b in (ground (arith, h, b), ground (arith, h, b))

pub break_words :
    (c : ℕ) (cs : Bytes)
    → isspace c ≡ true
    → isblank c ≡ false
    → (words (first_line (c ∷ cs)) ≡ []) × (behind_line (c ∷ cs) ≡ cs)
unfolding words first_line behind_line cut push
break_words c cs h b = (ground (arith, h, b), ground (arith, h, b))

pub graph_words :
    (c : ℕ) (cs : Bytes)
    → isgraph c ≡ true
    → words (first_line (c ∷ cs)) ≡ (cut (first_line (c ∷ cs))).0 ∷ (cut (first_line (c ∷ cs))).1
unfolding words push
graph_words c cs g =
    let e : cut (first_line (c ∷ cs)) ≡ (c ∷ (cut (first_line cs)).0, (cut (first_line cs)).1) =
      ap cut (graph_first c cs g) ∙ graph_cut c (first_line cs) g in
    ap (λ p. push p.0 p.1) e ∙ sym (ap (λ p. p.0 ∷ p.1) e)
