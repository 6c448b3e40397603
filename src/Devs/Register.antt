-- ===== src/Devs/Register.antt =====
-- devices/devs.c: what a registration does to the slots of a major number.
use plo.Common.{
  ℕ, zero, suc, ◌+◌, ◌<◌, ◌≢◌, get_or, set, subst, sym, get_or-set_self, get_or-set_ne, ◌≡◌, refl,
  ap, ◌⊎◌, inl, inr, Option, none, some, List, [], ◌∷◌, length, get_elem?, min, arith,
}
use plo.Devs.{Devs, Dev, majors, minors, fill, register}

-- The free slots of a row.
unfoldable pub free : {A : Type 0} → List (Option A) → ℕ
free [] = 0
free (none ∷ os) = suc (free os)
free (some _ ∷ os) = free os

abbrev Kept : {A : Type 0} → List (Option A) → List (Option A) → Type 0
Kept {A} row row' =
    (i : ℕ) (d : A) → get_elem? row i ≡ some (some d) → get_elem? row' i ≡ some (some d)

abbrev Changed : {A : Type 0} → A → List (Option A) → List (Option A) → Type 0
Changed dev row row' =
    (i : ℕ) → (get_elem? row' i ≡ get_elem? row i) ⊎ (get_elem? row' i ≡ some (some dev))

keep-Kept :
    {A : Type 0} (o : Option A) (row row' : List (Option A))
    → Kept row row'
    → Kept (o ∷ row) (o ∷ row')
keep-Kept o row row' k zero d e = e
keep-Kept o row row' k (suc i) d e = k i d e

take-Kept :
    {A : Type 0} (dev : A) (row row' : List (Option A))
    → Kept row row'
    → Kept (none ∷ row) (some dev ∷ row')
take-Kept dev row row' k zero d e = ground (arith, e)
take-Kept dev row row' k (suc i) d e = k i d e

keep-Changed :
    {A : Type 0} (dev : A) (o : Option A) (row row' : List (Option A))
    → Changed dev row row'
    → Changed dev (o ∷ row) (o ∷ row')
keep-Changed dev o row row' k zero = inl refl
keep-Changed dev o row row' k (suc i) = k i

take-Changed :
    {A : Type 0} (dev : A) (row row' : List (Option A))
    → Changed dev row row'
    → Changed dev (none ∷ row) (some dev ∷ row')
take-Changed dev row row' k zero = inr refl
take-Changed dev row row' k (suc i) = k i

-- A registration of `nb` slots in a row: it keeps the row's length and each slot that was taken,
-- changes a slot only to the new device, and takes `nb` free slots, or all where there are fewer.
pub record Filled {A : Type 0} (row : List (Option A)) (nb : ℕ) (dev : A) (row' : List (Option A))
    : Type 0 where
  pub same_length : length row' ≡ length row
  pub kept : Kept row row'
  pub changed : Changed dev row row'
  pub taken : free row' + min nb (free row) ≡ free row

nothing_free : (A : Type 0) (nb : ℕ) → free {A = A} [] + min nb (free {A = A} []) ≡ free {A = A} []
unfolding free
nothing_free A nb = omega arith

-- A row with one more slot in front, where the rest of the row is filled.
cons-Filled :
    {A : Type 0} {row row' : List (Option A)} {nb : ℕ} {dev : A} (d : A)
    → Filled row nb dev row'
    → Filled (some d ∷ row) nb dev (some d ∷ row')
unfolding free
cons-Filled {row = row} {row' = row'} {dev = dev} d v = record {
  same_length = ap suc v.same_length;
  kept = keep-Kept (some d) row row' v.kept;
  changed = keep-Changed dev (some d) row row' v.changed;
  taken = v.taken;
}

take-Filled :
    {A : Type 0} {row row' : List (Option A)} {nb : ℕ} {dev : A}
    → Filled row nb dev row'
    → Filled (none ∷ row) (suc nb) dev (some dev ∷ row')
unfolding free
take-Filled {row = row} {row' = row'} {dev = dev} v = record {
  same_length = ap suc v.same_length;
  kept = take-Kept dev row row' v.kept;
  changed = take-Changed dev row row' v.changed;
  taken = omega arith;
}

-- The loop of `devs_register` on the slots of a major number keeps each device in its slot and
-- gives the new one as many free slots as asked for, or all of them where there are fewer.
pub fill-Filled :
    {A : Type 0} (row : List (Option A)) (nb : ℕ) (dev : A) → Filled row nb dev (fill row nb dev)
unfolding fill
fill-Filled {A} [] nb dev = record {
  same_length = refl;
  kept = λ _ _ e. e;
  changed = λ _. inl refl;
  taken = nothing_free A nb;
}
fill-Filled (o ∷ os) zero dev = record {
  same_length = refl;
  kept = λ _ _ e. e;
  changed = λ _. inl refl;
  taken = omega arith;
}
fill-Filled (none ∷ os) (suc nb) dev = take-Filled (fill-Filled os nb dev)
fill-Filled (some d ∷ os) (suc nb) dev = cons-Filled d (fill-Filled os (suc nb) dev)

-- `devs_register`, for a major number of the table and fewer devices than it has minor numbers,
-- registers them in the row of that major number: it keeps what is there, takes as many free slots
-- as asked for or all of them, and leaves the other rows alone.
pub register-Filled :
    {S : Type 0} (devs : Devs S) (major nb : ℕ) (dev : Dev S)
    → length devs ≡ majors
    → major < majors
    → nb < minors
    → Filled (get_or devs major []) nb dev (get_or (register devs major nb dev) major [])
      × ((j : ℕ) → j ≢ major → get_or (register devs major nb dev) j [] ≡ get_or devs j [])
unfolding register
register-Filled {S} devs major nb dev l h u =
    let row : List (Option (Dev S)) = fill (get_or devs major []) nb dev in
    let done : register devs major nb dev ≡ set devs major row = ground arith in
    let goal : Devs S → Type 0 = λ devs'.
      Filled (get_or devs major []) nb dev (get_or devs' major [])
      × ((j : ℕ) → j ≢ major → get_or devs' j [] ≡ get_or devs j []) in
    subst goal (sym done) (
      subst (Filled (get_or devs major []) nb dev)
          (sym (get_or-set_self devs major row [] (omega arith)))
          (fill-Filled (get_or devs major []) nb dev),
      λ j ne. get_or-set_ne devs major j row [] ne,
    )
