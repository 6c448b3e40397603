-- ===== src/Syspage/Entries/Chain.antt =====
-- The order that `syspage_sortedInsert` keeps in the list of a map's entries.
use plo.Common.{
  ℕ, ◌++◌, refl, ap, ◌≤◌, ◌<◌, ◌≡◌, true, false, List, [], ◌∷◌, arith, ltb, Bool-cases, ◌⊎◌, inl,
  inr,
}
use plo.Syspage.State.{MapEnt}
use plo.Syspage.Entries.{sorted_insert, overlaps}

-- The entries lie between `lo` and `hi`, each behind the end of the one before it.
abbrev pub Chain : ℕ → ℕ → List MapEnt → Type 0
Chain lo hi [] = lo ≤ hi
Chain lo hi (e ∷ es) = (lo ≤ e.start) × (e.start ≤ e.end) × Chain e.end hi es

-- No entry shares an address with the range.
abbrev pub Apart : List MapEnt → ℕ → ℕ → Type 0
Apart [] start end = Unit {0}
Apart (e ∷ es) start end = (overlaps e start end ≡ false) × Apart es start end

pub Chain-le : {lo hi : ℕ} (es : List MapEnt) → Chain lo hi es → lo ≤ hi
Chain-le [] c = c
Chain-le (e ∷ es) c = omega (arith, Chain-le es c.2)

-- The code's test, read on the numbers.
pub overlaps-false :
    (e : MapEnt) (start end : ℕ) → overlaps e start end ≡ false → (end ≤ e.start) ⊎ (e.end ≤ start)
overlaps-false e start end h = ground arith

-- A range that shares no address with the entries, put among them, keeps them in order.
pub sorted_insert-Chain :
    {lo hi : ℕ} (es : List MapEnt) (new : MapEnt)
    → Chain lo hi es
    → lo ≤ new.start
    → new.start < new.end
    → new.end ≤ hi
    → Apart es new.start new.end
    → Chain lo hi (sorted_insert es new)
unfolding sorted_insert
sorted_insert-Chain [] new c h₁ h₂ h₃ a = omega arith
sorted_insert-Chain {lo} {hi} (e ∷ es) new c h₁ h₂ h₃ a =
    elim (Bool-cases (ltb new.start e.start)) [
      | inl before ↦ rw before (h₁, omega arith, (ends_before before, c.1, c.2))
      | inr after ↦ rw after (
        c.0,
        c.1,
        sorted_insert-Chain es new c.2 (ground (arith, overlaps-false e new.start new.end a.0)) h₂
            h₃ a.1,
      )
    ]
  where
    ends_before : ltb new.start e.start ≡ true → new.end ≤ e.start
    ends_before before = ground (arith, overlaps-false e new.start new.end a.0)

-- The list `es` with one more entry somewhere in it, and nothing else changed.
abbrev pub Inserted : MapEnt → List MapEnt → List MapEnt → Type 0
Inserted new es es' =
    (before : List MapEnt) × (after : List MapEnt) × (es ≡ before ++ after)
    × (es' ≡ before ++ new ∷ after)

-- The new entry stands in the list, with all the others.
pub sorted_insert-Inserted :
    (es : List MapEnt) (new : MapEnt) → Inserted new es (sorted_insert es new)
unfolding sorted_insert
sorted_insert-Inserted [] new = ([], [], refl, refl)
sorted_insert-Inserted (e ∷ es) new = elim (Bool-cases (ltb new.start e.start)) [
  | inl before ↦ ([], e ∷ es, refl, rw before refl)
  | inr after ↦
      let (xs, ys, old, put) = sorted_insert-Inserted es new in
      (e ∷ xs, ys, ap (λ r. e ∷ r) old, rw after (ap (λ r. e ∷ r) put))
]

pub Chain-raise : (lo hi hi' : ℕ) (es : List MapEnt) → Chain lo hi es → hi ≤ hi' → Chain lo hi' es
Chain-raise lo hi hi' [] c h = omega arith
Chain-raise lo hi hi' (e ∷ es) c h = (c.0, c.1, Chain-raise e.end hi hi' es c.2 h)

Apart-before :
    (lo hi start end : ℕ) (es : List MapEnt) → Chain lo hi es → hi ≤ start → Apart es start end
Apart-before lo hi start end [] c h = tt
Apart-before lo hi start end (e ∷ es) c h =
    (ground (arith, Chain-le es c.2), Apart-before e.end hi start end es c.2 h)

-- An entry behind all the others goes to the end.
pub sorted_insert_last :
    (lo hi : ℕ) (es : List MapEnt) (new : MapEnt)
    → Chain lo hi es
    → hi ≤ new.start
    → sorted_insert es new ≡ es ++ new ∷ []
unfolding sorted_insert
sorted_insert_last lo hi [] new c h = refl
sorted_insert_last lo hi (e ∷ es) new c h =
    let later : ltb new.start e.start ≡ false = ground (arith, Chain-le es c.2) in
    rw later (ap (λ r. e ∷ r) (sorted_insert_last e.end hi es new c.2 h))

pub sorted_insert-Chain_last :
    (lo hi : ℕ) (es : List MapEnt) (new : MapEnt)
    → Chain lo hi es
    → hi ≤ new.start
    → new.start < new.end
    → Chain lo new.end (sorted_insert es new)
sorted_insert-Chain_last lo hi es new c h₁ h₂ =
    sorted_insert-Chain es new (Chain-raise lo hi new.end es c (omega arith))
      (omega (arith, Chain-le es c)) h₂ (omega arith) (Apart-before lo hi new.start new.end es c h₁)
