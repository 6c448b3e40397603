-- ===== src/Syspage/Entries/BestFit.antt =====
-- `syspage_bestFit` against its specification: the smallest free gap that is large enough.
use native.Mathlib.Nat.{pow-suc, one-le-pow}
use plo.Common.{
  ℕ, zero, suc, ◌+◌, ◌-◌, ◌%◌, ◌^◌, ◌≤◌, ◌<◌, ◌≡◌, ◌≢◌, refl, subst, sym, ◌∙◌, ◌||◌, List, [], ◌∷◌,
  arith, ◌⊎◌, inl, inr, if◌then◌else◌, ◌==◌,
}
use plo.Common.Result.{ok, err, efault}
use plo.Syspage.State.{MapEnt, SysMap}
use plo.Syspage.Align.Word.{up, up_bounds, align_word-up}
use plo.Syspage.Entries.{
  Fit, take_gap, fit_round, fit_rounds, last_end, fit_finish, best_fit_in, best_fit,
}
use plo.Syspage.Entries.Chain.{Chain, Chain-le}
use plo.Syspage.Entries.Gaps.{gaps, In, All, StartsAt, Spaced, Spaced-le, Chain-Spaced, Outcome}

-- Both the start and the size differ from the initial values of the loop's variables.
abbrev IsSmall : ℕ × ℕ → Type 0
IsSmall g = (g.0 < 0xffff_ffff) × (g.1 < 0xffff_ffff)

-- `f'` is the choice `f` improved by the gaps `gs`.
record Improves (size : ℕ) (gs : List (ℕ × ℕ)) (f f' : Fit) : Type 0 where
  no_more : f'.best_sz ≤ f.best_sz
  from :
      ((f'.best_start ≡ f.best_start) × (f'.best_sz ≡ f.best_sz))
      ⊎ (In (f'.best_start, f'.best_sz) gs × (size ≤ f'.best_sz))
  least : All (λ g. size ≤ g.1 → f'.best_sz ≤ g.1) gs

-- A gap considered first, then the others.
cons-Improves :
    (size t : ℕ) (g : ℕ × ℕ) (gs : List (ℕ × ℕ)) (f f' : Fit)
    → f.temp_start ≡ g.0
    → Improves size gs (record (take_gap size f g.1) { temp_start = t }) f'
    → Improves size (g ∷ gs) f f'
cons-Improves size t g gs f f' e i = record {
  no_more = ground (arith, i.no_more);
  from = ground (arith, i.from);
  least = (ground (arith, i.no_more), i.least);
}

All-too_small :
    (size : ℕ) (gs : List (ℕ × ℕ))
    → All IsSmall gs
    → All (λ g. size ≤ g.1 → 0xffff_ffff ≤ g.1) gs
    → All (λ g. g.1 < size) gs
All-too_small size [] s l = tt
All-too_small size (g ∷ gs) s l = (ground (arith, l.0), All-too_small size gs s.1 l.1)

In-below : (g : ℕ × ℕ) (gs : List (ℕ × ℕ)) → In g gs → All IsSmall gs → IsSmall g
In-below g [] i s = absurd i
In-below g (x ∷ gs) (inl e) s = subst IsSmall e s.0
In-below g (x ∷ gs) (inr i) s = In-below g gs i s.1

chosen-Outcome :
    (size : ℕ) (gs : List (ℕ × ℕ)) (f g : Fit)
    → f.best_start ≡ 0xffff_ffff
    → f.best_sz ≡ 0xffff_ffff
    → All IsSmall gs
    → Improves size gs f g
    → Outcome size gs (
        if g.best_sz == 0xffff_ffff || g.best_start == 0xffff_ffff
        then err efault
        else ok g.best_start)
chosen-Outcome size gs f g start sz small i = elim i.from [
  | inl same ↦ inr (
    ground arith,
    All-too_small size gs small
        (subst (λ s. All (λ x. size ≤ x.1 → s ≤ x.1) gs) (same.1 ∙ sz) i.least),
  )
  | inr here ↦
      let b = In-below (g.best_start, g.best_sz) gs here.0 small in
      inl (g.best_start, ground (arith, b.0, b.1), (g.best_sz, here.0, here.1, i.least))
]

-- All rounds, and then the gap behind the last entry.
abbrev behind : ℕ → ℕ → ℕ → Fit → List MapEnt → Fit
behind size hi align f es =
    let g = fit_rounds size align f es in take_gap size g (hi - g.temp_start)

module _ (k size hi : ℕ) (hk : k ≤ 32) (pos : 0 < size) (fits : size < 2 ^ 32)
    (room : hi + 2 ^ k ≤ 2 ^ 32) (one : 1 < 2 ^ k) where
  end-le : (e : MapEnt) (es : List MapEnt) → Spaced (2 ^ k) (up (2 ^ k) e.end) hi es → e.end ≤ hi
  end-le e es c =
      omega
        (arith, up_bounds (2 ^ k) e.end, Spaced-le (2 ^ k) (up (2 ^ k) e.end) hi es (omega arith) c)

  -- One round considers exactly the gap in front of the entry.
  fit_round_lem :
      (f : Fit) (e : MapEnt)
      → f.temp_start ≤ e.start
      → e.start ≤ e.end
      → e.end ≤ hi
      → fit_round size (2 ^ k) f e
        ≡ record (take_gap size f (e.start - f.temp_start)) { temp_start = up (2 ^ k) e.end }
  unfolding fit_round
  fit_round_lem f e h₁ h₂ h₃ = ground (arith, align_word-up k e.end hk)

  abbrev next_fit : Fit → MapEnt → Fit
  next_fit f e = record (take_gap size f (e.start - f.temp_start)) { temp_start = up (2 ^ k) e.end }

  rounds_Improves :
      (f : Fit) (es : List MapEnt)
      → Spaced (2 ^ k) f.temp_start hi es
      → Improves size (gaps (2 ^ k) f.temp_start hi es) f (behind size hi (2 ^ k) f es)
  unfolding fit_rounds
  rounds_Improves f [] c = record {
    no_more = ground arith;
    from = ground arith;
    least = ground arith;
  }
  rounds_Improves f (e ∷ es) c =
      subst
        (λ (r : Fit).
          Improves size (gaps (2 ^ k) f.temp_start hi (e ∷ es)) f (behind size hi (2 ^ k) r es))
        (sym (fit_round_lem f e c.0 c.1 (end-le e es c.2)))
        (cons-Improves size (up (2 ^ k) e.end) (f.temp_start, e.start - f.temp_start) _ f _ refl
          (rounds_Improves (next_fit f e) es c.2))

  -- Where the loop leaves `tempStart`, and the end of the last entry.
  abbrev Ends : ℕ → ℕ → Type 0
  Ends t last = (t ≡ up (2 ^ k) last) × (up (2 ^ k) last ≤ hi)

  rounds_end :
      (f : Fit) (e : MapEnt) (es : List MapEnt)
      → Spaced (2 ^ k) f.temp_start hi (e ∷ es)
      → Ends (fit_rounds size (2 ^ k) f (e ∷ es)).temp_start (last_end e es)
  unfolding fit_rounds
  rounds_end f e [] c = rw (fit_round_lem f e c.0 c.1 (end-le e [] c.2)) (refl, c.2)
  rounds_end f e (e' ∷ es) c =
      subst (λ (r : Fit). Ends (fit_rounds size (2 ^ k) r (e' ∷ es)).temp_start (last_end e' es))
        (sym (fit_round_lem f e c.0 c.1 (end-le e (e' ∷ es) c.2)))
        (rounds_end (next_fit f e) e' es c.2)

  gaps-IsSmall :
      (t : ℕ) (es : List MapEnt) → Spaced (2 ^ k) t hi es → All IsSmall (gaps (2 ^ k) t hi es)
  gaps-IsSmall t [] c = ((omega arith, omega arith), tt)
  gaps-IsSmall t (e ∷ es) c =
      let h = end-le e es c.2 in
      ((omega arith, omega arith), gaps-IsSmall (up (2 ^ k) e.end) es c.2)

  -- The test behind the loop, on the choice `g` that the rounds leave.
  fit_finish_lem :
      (f : Fit) (last : ℕ)
      → Ends f.temp_start last
      → let g = take_gap size f (hi - f.temp_start) in
        fit_finish size (2 ^ k) hi f last ≡ (
          if g.best_sz == 0xffff_ffff || g.best_start == 0xffff_ffff
          then err efault
          else ok g.best_start)
  unfolding fit_finish
  fit_finish_lem f last h = ground (arith, up_bounds (2 ^ k) last, align_word-up k last hk)

  -- The whole routine on a list that is not empty.
  rounds_IsBestGap :
      (f : Fit) (e : MapEnt) (es : List MapEnt)
      → f.best_start ≡ 0xffff_ffff
      → f.best_sz ≡ 0xffff_ffff
      → Spaced (2 ^ k) f.temp_start hi (e ∷ es)
      → Outcome size
          (gaps (2 ^ k) f.temp_start hi (e ∷ es))
          (fit_finish size (2 ^ k) hi (fit_rounds size (2 ^ k) f (e ∷ es)) (last_end e es))
  rounds_IsBestGap f e es start sz c =
      let ends = rounds_end f e es c in
      let i = rounds_Improves f (e ∷ es) c in
      rw (fit_finish_lem (fit_rounds size (2 ^ k) f (e ∷ es)) (last_end e es) ends) (
        chosen-Outcome size (gaps (2 ^ k) f.temp_start hi (e ∷ es)) f
          (behind size hi (2 ^ k) f (e ∷ es)) start sz (gaps-IsSmall f.temp_start (e ∷ es) c) i)

one-lt-two-pow : (k : ℕ) → 0 < k → 1 < 2 ^ k
one-lt-two-pow zero h = absurd (omega arith)
one-lt-two-pow (suc k) h = omega (arith, pow-suc 2 k, one-le-pow k 2)

best_fit_in-Outcome :
    (k size : ℕ) (m : SysMap) (es : List MapEnt)
    → 0 < k
    → k ≤ 32
    → 0 < size
    → size < 2 ^ 32
    → m.end + 2 ^ k ≤ 2 ^ 32
    → es ≢ []
    → m.end % 2 ^ k ≡ 0
    → Chain m.start m.end es
    → StartsAt (2 ^ k) es
    → Outcome size (gaps (2 ^ k) (up (2 ^ k) m.start) m.end es) (best_fit_in size (2 ^ k) m es)
best_fit_in-Outcome k size m [] h₀ hk pos fits room ne ms c a = absurd (ne refl)
best_fit_in-Outcome k size m (e ∷ es) h₀ hk pos fits room ne ms c a =
    let one = one-lt-two-pow k h₀ in
    rw (align_word-up k m.start hk (omega (arith, Chain-le (e ∷ es) c))) (
      rounds_IsBestGap k size m.end hk pos fits room one
        (record {
          best_start = 0xffff_ffff;
          best_sz = 0xffff_ffff;
          temp_start = up (2 ^ k) m.start;
        })
        e es refl refl (Chain-Spaced (2 ^ k) m.start m.end (e ∷ es) (omega arith) ms c a))

-- `syspage_bestFit` in a map that has entries, which stand in order and start, like the map ends,
-- at multiples of the alignment `1 << k`: it takes the smallest free gap that is large enough,
-- and fails with EFAULT exactly where every gap is too small. A gap starts where the area behind
-- the entry before it does, rounded up.
pub best_fit-Outcome :
    (k size : ℕ) (m : SysMap)
    → 0 < k
    → k ≤ 32
    → 0 < size
    → size < 2 ^ 32
    → m.end + 2 ^ k ≤ 2 ^ 32
    → m.entries ≢ []
    → m.end % 2 ^ k ≡ 0
    → Chain m.start m.end m.entries
    → StartsAt (2 ^ k) m.entries
    → Outcome size (gaps (2 ^ k) (up (2 ^ k) m.start) m.end m.entries) (best_fit m size (2 ^ k))
unfolding best_fit
best_fit-Outcome k size m h₀ hk pos fits room ne ms c a =
    best_fit_in-Outcome k size m m.entries h₀ hk pos fits room ne ms c a
