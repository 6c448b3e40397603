-- ===== src/Cmd/Run.antt =====
-- cmds/cmd.c: what `cmd_parse` makes of the words of one line.
use plo.Common.{
  ℕ, zero, suc, ◌≡◌, ◌≢◌, refl, ap, subst, arith, Bool-cases, Option, none, some, List, [], ◌∷◌,
  ◌++◌, inl, inr, ◌⊎◌,
}
use mathlib.Core.Option.{some-injective}
use plo.Common.CString.{Bytes, str_eq, str_eq_iff}
use plo.Common.Result.{Result, ok, err, einval}
use plo.Getopt.{initial}
use plo.Cmd.{Cmd, find_cmd, after_run, run_line, after_line}

-- No command has the name.
abbrev pub Unnamed : {S : Type 0} → Bytes → List (Cmd S) → Type 0
Unnamed name [] = Unit {0}
Unnamed name (c ∷ cs) = (name ≢ c.name) × Unnamed name cs

-- The first command of this name.
pub record First {S : Type 0} (cmds : List (Cmd S)) (name : Bytes) (c : Cmd S) : Type 0 where
  pub before : List (Cmd S)
  pub after : List (Cmd S)
  pub place : cmds ≡ before ++ c ∷ after
  pub others : Unnamed name before
  pub named : name ≡ c.name

-- The result of `cmd_parse` for a line of these words, where `next` is what it does behind the line. A
-- line without words is passed over. A first word that names no command is the error EINVAL. Else
-- the first command of that name runs with all the words and the options reset: the script goes on
-- where it returns 0, its error is the result, and any other number is the error EINVAL.
pub data RunsLine {S : Type 0} (cmds : List (Cmd S)) (next : S → Option (Result (Unit {0}) × S))
    : List Bytes → S → Option (Result (Unit {0}) × S) → Type 0 where
  no_words : (s : S) → RunsLine cmds next [] s (next s)
  unknown :
      (a : Bytes) (argv : List Bytes) (s : S)
      → Unnamed a cmds
      → RunsLine cmds next (a ∷ argv) s (some (err einval, s))
  goes_on :
      (a : Bytes) (argv : List Bytes) (s s' : S) (c : Cmd S)
      → First cmds a c
      → c.run (a ∷ argv) initial s ≡ some (ok 0, s')
      → RunsLine cmds next (a ∷ argv) s (next s')
  refused :
      (a : Bytes) (argv : List Bytes) (s s' : S) (c : Cmd S) (n : ℕ)
      → First cmds a c
      → c.run (a ∷ argv) initial s ≡ some (ok (suc n), s')
      → RunsLine cmds next (a ∷ argv) s (some (err einval, s'))
  failed :
      (a : Bytes) (argv : List Bytes) (s s' : S) (c : Cmd S) (e : ℕ)
      → First cmds a c
      → c.run (a ∷ argv) initial s ≡ some (err e, s')
      → RunsLine cmds next (a ∷ argv) s (some (err e, s'))
  endless :
      (a : Bytes) (argv : List Bytes) (s : S) (c : Cmd S)
      → First cmds a c
      → c.run (a ∷ argv) initial s ≡ none
      → RunsLine cmds next (a ∷ argv) s none

-- Each command returns, for all arguments and from all states.
abbrev pub AllReturn : {S : Type 0} → List (Cmd S) → Type 0
AllReturn [] = Unit {0}
AllReturn {S} (c ∷ cs) =
    ((argv : List Bytes) (s : S) → (r : Result ℕ × S) × (c.run argv initial s ≡ some r))
    × AllReturn cs

pub after_run_total :
    {S : Type 0} (r : Result ℕ × S) → (o : Result (Unit {0}) × S) × (after_run (some r) ≡ some o)
after_run_total (ok zero, s) = ((ok tt, s), refl)
after_run_total (ok (suc n), s) = ((err einval, s), refl)
after_run_total (err e, s) = ((err e, s), refl)

-- The loop over the commands finds the first of the name, if there is one.
pub find_cmd-cases :
    {S : Type 0} (cmds : List (Cmd S)) (a : Bytes)
    → ((find_cmd cmds a ≡ none) × Unnamed a cmds)
      ⊎ ((c : Cmd S) × (find_cmd cmds a ≡ some c) × First cmds a c)
unfolding find_cmd
find_cmd-cases [] a = inl (refl, tt)
find_cmd-cases (d ∷ cmds) a = elim (Bool-cases (str_eq a d.name)) [
  | inl same ↦ inr (
    d,
    rw (same, find_cmd) refl,
    record {
      before = [];
      after = cmds;
      place = refl;
      others = tt;
      named = (str_eq_iff a d.name).0 same;
    },
  )
  | inr other ↦
      let ne : a ≢ d.name = λ e. ground (arith, other, str_eq_iff a d.name, e) in
      elim (find_cmd-cases cmds a) [
        | inl (missing, un) ↦ inl (rw (other, find_cmd) missing, (ne, un))
        | inr (c, found, f) ↦ inr (
          c,
          rw (other, find_cmd) found,
          record {
            before = d ∷ f.before;
            after = f.after;
            place = ap (λ r. d ∷ r) f.place;
            others = (ne, f.others);
            named = f.named;
          },
        )
      ]
]

pub find_cmd-returns :
    {S : Type 0} (cmds : List (Cmd S)) (a : Bytes) (c : Cmd S)
    → AllReturn cmds
    → find_cmd cmds a ≡ some c
    → (argv : List Bytes) (s : S) → (r : Result ℕ × S) × (c.run argv initial s ≡ some r)
unfolding find_cmd
find_cmd-returns [] a c all found argv s = absurd (ground (arith, found))
find_cmd-returns (d ∷ cmds) a c all found argv s = elim (Bool-cases (str_eq a d.name)) [
  | inl same ↦
      let here = some-injective _ _ (rw (same, find_cmd) at found) in
      subst (λ (b : Cmd _). (r : Result ℕ × _) × (b.run argv initial s ≡ some r)) here
        (all.0 argv s)
  | inr other ↦ find_cmd-returns cmds a c all.1 (rw (other, find_cmd) at found) argv s
]

module _ {S : Type 0} (cmds : List (Cmd S)) (next : Bytes → S → Option (Result (Unit {0}) × S))
    (rest : Bytes) where
  -- What follows the run of a command that is found.
  after_run-RunsLine :
      (a : Bytes) (argv : List Bytes) (s : S) (c : Cmd S) (out : Option (Result ℕ × S))
      → First cmds a c
      → c.run (a ∷ argv) initial s ≡ out
      → RunsLine cmds (next rest) (a ∷ argv) s (after_line next rest (after_run out))
  after_run-RunsLine a argv s c none f e = endless a argv s c f e
  after_run-RunsLine a argv s c (some (err x, s')) f e = failed a argv s s' c x f e
  after_run-RunsLine a argv s c (some (ok zero, s')) f e = goes_on a argv s s' c f e
  after_run-RunsLine a argv s c (some (ok (suc n), s')) f e = refused a argv s s' c n f e

  pub run_line-RunsLine :
      (argv : List Bytes) (s : S)
      → RunsLine cmds (next rest) argv s (after_line next rest (run_line cmds argv s))
  unfolding run_line
  run_line-RunsLine [] s = no_words s
  run_line-RunsLine (a ∷ argv) s = elim (find_cmd-cases cmds a) [
    | inl (missing, un) ↦ rw (missing, run_line) (unknown a argv s un)
    | inr (c, found, f) ↦ rw (found, run_line) (after_run-RunsLine a argv s c _ f refl)
  ]
