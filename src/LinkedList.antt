-- ===== src/LinkedList.antt =====
-- lib/list.c: circular doubly linked lists through two fields of the elements, at different offsets
-- `noff` and `poff`. An address is a number, and 0 is NULL.
pub mod Links
pub mod Add
pub mod Remove
use plo.Common.{ℕ, Bool, true, false, ◌&&◌, ◌||◌, ◌==◌, if◌then◌else◌}

-- What the two fields hold at each address.
pub record Store : Type 0 where
  pub next : ℕ → ℕ
  pub prev : ℕ → ℕ

abbrev pub update : (ℕ → ℕ) → ℕ → ℕ → ℕ → ℕ
update f p v q = if q == p then v else f q

abbrev pub set_next : Store → ℕ → ℕ → Store
set_next s p v = record s { next = update s.next p v }

abbrev pub set_prev : Store → ℕ → ℕ → Store
set_prev s p v = record s { prev = update s.prev p v }

-- The four assignments of `lib_listAdd` to a list that is not empty.
unfoldable pub append_node : Store → ℕ → ℕ → Store
append_node s list t =
    let s1 = set_prev s t (s.prev list) in
    let s2 = set_next s1 (s1.prev list) t in let s3 = set_next s2 t list in set_prev s3 list t

-- `lib_listAdd`: the store, and what `*list` is then.
unfoldable pub list_add : Store → ℕ → ℕ → Store × ℕ
list_add s list t =
    if t == 0
    then (s, list)
    else if list == 0
    then (set_prev (set_next s t t) t t, t)
    else (append_node s list t, list)

-- The neighbours of an element are joined.
unfoldable pub unlink : Store → ℕ → Store
unlink s t = let s1 = set_next s (s.prev t) (s.next t) in set_prev s1 (s1.next t) (s1.prev t)

abbrev pub clear_node : Store → ℕ → Store
clear_node s t = set_prev (set_next s t 0) t 0

-- `lib_listRemove`
unfoldable pub list_remove : Store → ℕ → ℕ → Store × ℕ
list_remove s list t =
    let s' = unlink s t in
    if t == 0
    then (s, list)
    else if s.next t == t && s.prev t == t
    then (clear_node s t, 0)
    else (clear_node s' t, if t == list then s'.next t else list)
