-- ===== src/LinkedList/Links.antt =====
-- lib/list.c: the sequence of elements that a circular list stands for.
use plo.Common.{ℕ, ◌≡◌, ◌≢◌, sym, ◌∙◌, List, [], ◌∷◌, ◌++◌}
use plo.LinkedList.{Store}

-- From `p` through the elements to `q`, each points to the next one, and back.
abbrev pub Linked : Store → ℕ → List ℕ → ℕ → Type 0
Linked s p [] q = (s.next p ≡ q) × (s.prev q ≡ p)
Linked s p (x ∷ xs) q = (s.next p ≡ x) × (s.prev x ≡ p) × Linked s x xs q

abbrev pub NotIn : ℕ → List ℕ → Type 0
NotIn a [] = Unit
NotIn a (x ∷ xs) = (a ≢ x) × NotIn a xs

abbrev pub Distinct : List ℕ → Type 0
Distinct [] = Unit
Distinct (x ∷ xs) = NotIn x xs × Distinct xs

-- The list starts at its first element, and its end is linked to that.
abbrev pub Circle : Store → ℕ → List ℕ → Type 0
Circle s list [] = list ≡ 0
Circle s list (x ∷ xs) = (list ≡ x) × Linked s x xs x

-- `*list` stands for the elements `xs`: none of them is NULL, and none is there twice.
pub record IsList (s : Store) (list : ℕ) (xs : List ℕ) : Type 0 where
  pub circle : Circle s list xs
  pub distinct : Distinct xs
  pub real : NotIn 0 xs

-- What stands before the end is one of the elements.
pub last-NotIn :
    (s : Store) (p : ℕ) (xs : List ℕ) (q a : ℕ) → Linked s p xs q → NotIn a (p ∷ xs) → a ≢ s.prev q
last-NotIn s p [] q a h n e = n.0 (e ∙ h.1)
last-NotIn s p (x ∷ xs) q a h n e = last-NotIn s x xs q a h.2 n.1 e

pub NotIn-append : (a : ℕ) (xs ys : List ℕ) → NotIn a xs → NotIn a ys → NotIn a (xs ++ ys)
NotIn-append a [] ys h k = k
NotIn-append a (x ∷ xs) ys h k = (h.0, NotIn-append a xs ys h.1 k)

pub Distinct-append : (xs : List ℕ) (t : ℕ) → Distinct xs → NotIn t xs → Distinct (xs ++ t ∷ [])
Distinct-append [] t d h = (tt, tt)
Distinct-append (x ∷ xs) t d h =
    (NotIn-append x xs (t ∷ []) d.0 (λ e. h.0 (sym e), tt), Distinct-append xs t d.1 h.1)

pub NotIn-parts : (a : ℕ) (xs ys : List ℕ) → NotIn a (xs ++ ys) → NotIn a xs × NotIn a ys
NotIn-parts a [] ys h = (tt, h)
NotIn-parts a (x ∷ xs) ys h = let r = NotIn-parts a xs ys h.1 in ((h.0, r.0), r.1)

-- What stands behind the front is one of the elements or the end.
pub first-NotIn :
    (s : Store) (p : ℕ) (xs : List ℕ) (q a : ℕ)
    → Linked s p xs q
    → NotIn a xs
    → a ≢ q
    → a ≢ s.next p
first-NotIn s p [] q a h n ne e = ne (e ∙ h.0)
first-NotIn s p (x ∷ xs) q a h n ne e = n.0 (e ∙ h.0)

pub Linked-parts :
    (s : Store) (p : ℕ) (front : List ℕ) (t : ℕ) (back : List ℕ) (q : ℕ)
    → Linked s p (front ++ t ∷ back) q
    → Linked s p front t × Linked s t back q
Linked-parts s p [] t back q h = ((h.0, h.1), h.2)
Linked-parts s p (x ∷ front) t back q h =
    let r = Linked-parts s x front t back q h.2 in ((h.0, h.1, r.0), r.1)

-- An element in the middle is none of the others.
pub Distinct-middle :
    (front : List ℕ) (t : ℕ) (back : List ℕ)
    → Distinct (front ++ t ∷ back)
    → NotIn t front × NotIn t back × Distinct (front ++ back)
Distinct-middle [] t back d = (tt, d.0, d.1)
Distinct-middle (x ∷ front) t back d =
    let r = Distinct-middle front t back d.1 in
    let n = NotIn-parts x front (t ∷ back) d.0 in
    ((λ e. n.1.0 (sym e), r.0), r.1, (NotIn-append x front back n.0 n.1.1, r.2))
