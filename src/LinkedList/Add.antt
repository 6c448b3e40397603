-- ===== src/LinkedList/Add.antt =====
-- lib/list.c: `lib_listAdd` puts an element at the end.
use plo.Common.{ℕ, ◌≡◌, ◌≢◌, refl, sym, arith, true, false, List, [], ◌∷◌, ◌++◌, ◌==◌}
use plo.LinkedList.{Store, append_node, list_add}
use plo.LinkedList.Links.{
  Linked, NotIn, Distinct, IsList, last-NotIn, NotIn-append, Distinct-append,
}

Linked-append :
    (s : Store) (p : ℕ) (xs : List ℕ) (q t : ℕ)
    → Linked s p xs q
    → Distinct (p ∷ xs)
    → NotIn t (p ∷ xs)
    → NotIn q xs
    → t ≢ q
    → Linked (append_node s q t) p (xs ++ t ∷ []) q
unfolding append_node
Linked-append s p [] q t h d n nq ne = (ground arith, ground arith, (ground arith, ground arith))
Linked-append s p (x ∷ xs) q t h d n nq ne = (
  ground (arith, last-NotIn s x xs q p h.2 d.0),
  ground (arith, d.0.0, nq.0),
  Linked-append s x xs q t h.2 d.1 n.1 nq.1 ne,
)

-- A new element that is not NULL goes behind all others: the list stands for the old elements and
-- then the new one, in both directions, and the one that was first is still first.
pub list_add-IsList :
    (s : Store) (list t : ℕ) (xs : List ℕ)
    → IsList s list xs
    → NotIn t (0 ∷ xs)
    → IsList (list_add s list t).0 (list_add s list t).1 (xs ++ t ∷ [])
unfolding list_add
list_add-IsList s list t [] v n =
    let real : (t == 0) ≡ false = ground (arith, n.0) in
    let empty : (list == 0) ≡ true = ground (arith, v.circle) in
    rw (real, empty, list_add)
      record {
        circle = (refl, (ground arith, ground arith));
        distinct = (tt, tt);
        real = (λ e. n.0 (sym e), tt);
      }
list_add-IsList s list t (x ∷ xs) v n =
    let real : (t == 0) ≡ false = ground (arith, n.0) in
    let some : (list == 0) ≡ false = ground (arith, v.circle.0, v.real.0) in
    rw (real, some, list_add)
      record {
        circle = (
          v.circle.0,
          rw (v.circle.0) (Linked-append s x xs x t v.circle.1 v.distinct n.1 v.distinct.0 n.1.0),
        );
        distinct = Distinct-append (x ∷ xs) t v.distinct n.1;
        real = NotIn-append 0 (x ∷ xs) (t ∷ []) v.real (λ e. n.0 (sym e), tt);
      }
