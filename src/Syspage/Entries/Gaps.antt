-- ===== src/Syspage/Entries/Gaps.antt =====
-- The free areas of a map, as `syspage_bestFit` sees them: each starts at a multiple of `d`.
use plo.Common.{ℕ, ◌+◌, ◌-◌, ◌%◌, ◌≤◌, ◌<◌, ◌≡◌, List, [], ◌∷◌, arith, ◌⊎◌, inl, inr}
use plo.Common.Result.{Result, ok, err, efault}
use plo.Syspage.State.{MapEnt}
use plo.Syspage.Align.Word.{up, up_bounds, up_least}
use plo.Syspage.Entries.Chain.{Chain, Apart, Chain-le}

-- The free areas from `t` on up to `hi`: where each starts, and its size.
abbrev pub gaps : ℕ → ℕ → ℕ → List MapEnt → List (ℕ × ℕ)
gaps d t hi [] = (t, hi - t) ∷ []
gaps d t hi (e ∷ es) = (t, e.start - t) ∷ gaps d (up d e.end) hi es

abbrev pub In : ℕ × ℕ → List (ℕ × ℕ) → Type 0
In g [] = ⊥
In g (x ∷ xs) = (x ≡ g) ⊎ In g xs

abbrev pub All : (ℕ × ℕ → Type 0) → List (ℕ × ℕ) → Type 0
All P [] = Unit
All P (x ∷ xs) = P x × All P xs

-- Every entry starts at a multiple of `d`.
abbrev pub StartsAt : ℕ → List MapEnt → Type 0
StartsAt d [] = Unit
StartsAt d (e ∷ es) = (e.start % d ≡ 0) × StartsAt d es

-- The order of `Chain`, with room to round up in front of each entry.
abbrev pub Spaced : ℕ → ℕ → ℕ → List MapEnt → Type 0
Spaced d t hi [] = t ≤ hi
Spaced d t hi (e ∷ es) = (t ≤ e.start) × (e.start ≤ e.end) × Spaced d (up d e.end) hi es

-- `p` is where the smallest free area of at least `size` bytes starts.
abbrev pub IsBestGap : ℕ → List (ℕ × ℕ) → ℕ → Type 0
IsBestGap size gs p = (sz : ℕ) × In (p, sz) gs × (size ≤ sz) × All (λ g. size ≤ g.1 → sz ≤ g.1) gs

-- The best gap, or EFAULT where every gap is too small.
abbrev pub Outcome : ℕ → List (ℕ × ℕ) → Result ℕ → Type 0
Outcome size gs r =
    ((p : ℕ) × (r ≡ ok p) × IsBestGap size gs p) ⊎ ((r ≡ err efault) × All (λ g. g.1 < size) gs)

pub Spaced-le : (d t hi : ℕ) (es : List MapEnt) → 0 < d → Spaced d t hi es → t ≤ hi
Spaced-le d t hi [] hd c = c
Spaced-le d t hi (e ∷ es) hd c =
    omega (arith, Spaced-le d (up d e.end) hi es hd c.2, up_bounds d e.end hd)

pub Chain-Spaced :
    (d lo hi : ℕ) (es : List MapEnt)
    → 0 < d
    → hi % d ≡ 0
    → Chain lo hi es
    → StartsAt d es
    → Spaced d (up d lo) hi es
Chain-Spaced d lo hi [] hd h c a = up_least d lo hi hd c h
Chain-Spaced d lo hi (e ∷ es) hd h c a =
    (up_least d lo e.start hd c.0 a.0, c.1, Chain-Spaced d e.end hi es hd h c.2 a.1)

Apart-behind :
    (lo hi : ℕ) (es : List MapEnt) (start end : ℕ) → Chain lo hi es → end ≤ lo → Apart es start end
Apart-behind lo hi [] start end c h = tt
Apart-behind lo hi (e ∷ es) start end c h =
    (ground arith, Apart-behind e.end hi es start end c.2 (omega arith))

-- A gap lies inside the map at a multiple of `d`, and shares no address with any entry.
pub gap-Apart :
    (d lo hi : ℕ) (es : List MapEnt) (p sz : ℕ)
    → 0 < d
    → hi % d ≡ 0
    → Chain lo hi es
    → StartsAt d es
    → In (p, sz) (gaps d (up d lo) hi es)
    → (lo ≤ p) × (p + sz ≤ hi) × (p % d ≡ 0) × Apart es p (p + sz)
gap-Apart d lo hi [] p sz hd h c a (inl e) = (
  ground (arith, up_bounds d lo hd),
  ground (arith, up_least d lo hi hd),
  ground (arith, up_bounds d lo hd),
  tt,
)
gap-Apart d lo hi [] p sz hd h c a (inr i) = absurd i
gap-Apart d lo hi (e ∷ es) p sz hd h c a (inl i) = (
  ground (arith, up_bounds d lo hd),
  ground (arith, Chain-le es c.2, up_least d lo e.start hd),
  ground (arith, up_bounds d lo hd),
  (
    ground (arith, up_least d lo e.start hd),
    Apart-behind e.end hi es p (p + sz) c.2 (ground (arith, up_least d lo e.start hd)),
  ),
)
gap-Apart d lo hi (e ∷ es) p sz hd h c a (inr i) =
    let r = gap-Apart d e.end hi es p sz hd h c.2 a.1 i in
    (omega arith, r.1, r.2, (ground arith, r.3))
