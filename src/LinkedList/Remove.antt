-- ===== src/LinkedList/Remove.antt =====
-- lib/list.c: `lib_listRemove` takes an element out, wherever it stands.
use plo.Common.{ℕ, ◌≡◌, ◌≢◌, refl, sym, subst, ◌∙◌, arith, true, false, List, [], ◌∷◌, ◌++◌, ◌==◌}
use plo.LinkedList.{Store, unlink, clear_node, list_remove}
use plo.LinkedList.Links.{
  Linked, NotIn, Distinct, IsList, last-NotIn, first-NotIn, NotIn-append, NotIn-parts, Linked-parts,
  Distinct-middle,
}

-- Links that are not next to the element stay.
Linked-away :
    (s : Store) (p : ℕ) (xs : List ℕ) (q t : ℕ)
    → Linked s p xs q
    → NotIn (s.prev t) (p ∷ xs)
    → NotIn t (p ∷ xs)
    → t ≢ q
    → NotIn (s.next t) xs
    → s.next t ≢ q
    → Linked (clear_node (unlink s t) t) p xs q
unfolding unlink
Linked-away s p [] q t h np nt ne nn nq = (ground (arith, np.0, nt.0), ground (arith, nt.0))
Linked-away s p (x ∷ xs) q t h np nt ne nn nq = (
  ground (arith, np.0, nt.0),
  ground (arith, nt.1.0, nn.0),
  Linked-away s x xs q t h.2 np.1 nt.1 ne nn.1 nq,
)

-- The end of the links moves on from the element to what follows that.
Linked-retarget :
    (s : Store) (p : ℕ) (xs : List ℕ) (t y : ℕ)
    → Linked s p xs t
    → Distinct (p ∷ xs)
    → NotIn t (p ∷ xs)
    → NotIn y xs
    → t ≢ y
    → s.next t ≡ y
    → Linked (clear_node (unlink s t) t) p xs y
unfolding unlink
Linked-retarget s p [] t y h d nt ny ne e = (ground (arith, nt.0), ground (arith, nt.0))
Linked-retarget s p (x ∷ xs) t y h d nt ny ne e = (
  ground (arith, nt.0, last-NotIn s x xs t p h.2 d.0),
  ground (arith, nt.1.0, ny.0),
  Linked-retarget s x xs t y h.2 d.1 nt.1 ny.1 ne e,
)

Linked-remove :
    (s : Store) (p : ℕ) (front : List ℕ) (t : ℕ) (back : List ℕ) (q : ℕ)
    → Linked s p (front ++ t ∷ back) q
    → Distinct (p ∷ (front ++ t ∷ back))
    → NotIn q (front ++ t ∷ back)
    → Linked (clear_node (unlink s t) t) p (front ++ back) q
unfolding unlink
Linked-remove s p [] t [] q h d nq = (ground (arith, d.0.0, nq.0), ground (arith, d.0.0, nq.0))
Linked-remove s p [] t (b ∷ back) q h d nq = (
  ground (arith, d.0.0, nq.0),
  ground (arith, d.0.0, d.1.0.0, nq.0),
  Linked-away s b back q t h.2.2 (subst (λ z. NotIn z (b ∷ back)) (sym h.1) d.0.1) d.1.0
      (λ e. nq.0 (sym e)) (subst (λ z. NotIn z back) (sym h.2.0) d.1.1.0)
      (λ e. nq.1.0 (sym e ∙ h.2.0)),
)
Linked-remove s p (x ∷ front) t back q h d nq =
    let parts = Linked-parts s x front t back q h.2 in
    let n = NotIn-parts p (x ∷ front) (t ∷ back) d.0 in
    let m = NotIn-parts x front (t ∷ back) d.1.0 in
    (
      ground (arith, h.0, n.1.0, last-NotIn s x front t p parts.0 n.0),
      ground (arith, h.1, m.1.0, first-NotIn s t back q x parts.1 m.1.1 (λ e. nq.0 (sym e))),
      Linked-remove s x front t back q h.2 d.1 nq.1,
    )

-- The element that is taken out points nowhere.
cleared : (s : Store) (t : ℕ) → ((clear_node s t).next t ≡ 0) × ((clear_node s t).prev t ≡ 0)
cleared s t = (ground arith, ground arith)

next-unlink : (s : Store) (t : ℕ) → t ≢ s.prev t → (unlink s t).next t ≡ s.next t
unfolding unlink
next-unlink s t ne = ground arith

-- An element of the list, wherever it stands, is taken out: the list stands for the others in their
-- order, in both directions, `*list` is the first of them or NULL, and the element points nowhere.
pub list_remove-IsList :
    (s : Store) (list : ℕ) (front : List ℕ) (t : ℕ) (back : List ℕ)
    → IsList s list (front ++ t ∷ back)
    → IsList (list_remove s list t).0 (list_remove s list t).1 (front ++ back)
      × ((list_remove s list t).0.next t ≡ 0)
      × ((list_remove s list t).0.prev t ≡ 0)
unfolding list_remove
list_remove-IsList s list [] t [] v =
    let real : (t == 0) ≡ false = ground (arith, v.real.0) in
    let alone : (s.next t == t) ≡ true = ground (arith, v.circle.1) in
    let alone' : (s.prev t == t) ≡ true = ground (arith, v.circle.1) in
    rw (real, alone, alone', list_remove)
      (record { circle = refl; distinct = tt; real = tt }, (cleared s t).0, (cleared s t).1)
list_remove-IsList s list [] t (y ∷ back) v =
    let real : (t == 0) ≡ false = ground (arith, v.real.0) in
    let more : (s.next t == t) ≡ false = ground (arith, v.circle.1.0, v.distinct.0.0) in
    let first : (t == list) ≡ true = ground (arith, v.circle.0) in
    rw (real, more, first, list_remove)
      (
        record {
          circle = (
            next-unlink s t (last-NotIn s y back t t v.circle.1.2 v.distinct.0) ∙ v.circle.1.0,
            Linked-retarget s y back t y v.circle.1.2 v.distinct.1 v.distinct.0 v.distinct.1.0
                v.distinct.0.0 v.circle.1.0,
          );
          distinct = v.distinct.1;
          real = v.real.1;
        },
        (cleared (unlink s t) t).0,
        (cleared (unlink s t) t).1,
      )
list_remove-IsList s list (x ∷ front) t back v =
    let parts = Linked-parts s x front t back x v.circle.1 in
    let mid = Distinct-middle (x ∷ front) t back v.distinct in
    let nz = NotIn-parts 0 (x ∷ front) (t ∷ back) v.real in
    let real : (t == 0) ≡ false = ground (arith, nz.1.0) in
    let more : (s.next t == t) ≡ false =
      ground (arith, first-NotIn s t back x t parts.1 mid.1 mid.0.0) in
    let later : (t == list) ≡ false = ground (arith, v.circle.0, mid.0.0) in
    rw (real, more, later, list_remove)
      (
        record {
          circle =
              (v.circle.0, Linked-remove s x front t back x v.circle.1 v.distinct v.distinct.0);
          distinct = mid.2;
          real = NotIn-append 0 (x ∷ front) back nz.0 nz.1.1;
        },
        (cleared (unlink s t) t).0,
        (cleared (unlink s t) t).1,
      )
