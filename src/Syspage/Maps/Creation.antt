-- ===== src/Syspage/Maps/Creation.antt =====
-- `syspage_mapAdd`: it always comes to an end, and what it leaves behind.
use plo.Common.{
  ℕ, ◌+◌, ◌≤◌, ◌<◌, ◌^◌, ◌≡◌, ◌≢◌, refl, subst, sym, none, ◌∙◌, List, [], ◌∷◌, ◌++◌, some, arith,
  ◌⊎◌, inl, inr, length, Option-cases, false, true, Bool-cases,
}
use plo.Common.CString.{Bytes}
use plo.Common.Result.{Result, ok, err, einval, enomem}
use plo.Syspage.State.{MapEnt, SysMap, Syspage, Target}
use plo.Syspage.Alloc.{alloc}
use plo.Syspage.Alloc.Heap.{IsHeap, alloc-Allocated}
use plo.Syspage.Entries.Chain.{Chain}
use plo.Syspage.Maps.{
  finish_map, new_map, link_map, with_attr, map_add, any_conflict, str_attr2ui, next_id,
}
use plo.Syspage.Maps.Filling.{NextInRange, HasRoom, with_entries, Known, Filled, hal_entries-Filled}

-- The map that a call adds behind the others: it has the attributes asked for, and entries that
-- stand in order and are those that the HAL knows in its range, one after the other. They are all of
-- these, and the HAL takes the map, where the result is 0.
pub record Added (t : Target) (name : Bytes) (start end : ℕ) (attr : Bytes) (ms ms' : List SysMap)
    (r : Result (Unit {0})) : Type 0 where
  pub bits : ℕ
  pub attr_ok : str_attr2ui t.attrs attr ≡ ok bits
  pub entries : List MapEnt
  pub maps_are : ms' ≡ ms ++ with_entries (new_map ms name start end bits) entries ∷ []
  pub ordered : Chain start end entries
  pub known : Known t (r ≡ ok tt) start end entries
  pub taken : r ≡ ok tt → t.memory_add_map start end bits (next_id ms) ≡ none

-- Why no map is added: there is another one with the name or in the range, the heap is too full for the
-- map or its name, or a letter of the attributes is unknown.
abbrev pub CannotAdd : Target → Bytes → ℕ → ℕ → Bytes → List SysMap → Syspage → Type 0
CannotAdd t name start end attr ms s =
    (any_conflict name start end ms ≡ true)
    ⊎ ((alloc s t.sizeof_map ≡ none)
        ⊎ ((alloc s (length name + 1) ≡ none) ⊎ ((e : ℕ) × (str_attr2ui t.attrs attr ≡ err e))))

-- What `syspage_mapAdd` may leave: no new map, which is an error, or one more map whose entries
-- stand in order. That map is linked also where its entries or the HAL then fail.
pub record Outcome (t : Target) (name : Bytes) (start end : ℕ) (attr : Bytes) (s : Syspage)
    (out : Syspage × Result (Unit {0})) : Type 0 where
  pub heap : IsHeap out.0
  pub same_progs : out.0.progs ≡ s.progs
  pub maps :
      ((out.0.maps ≡ s.maps) × (out.1 ≢ ok tt) × CannotAdd t name start end attr s.maps out.0)
      ⊎ (Added t name start end attr s.maps out.0.maps out.1
          × (any_conflict name start end s.maps ≡ false))

-- The end of `syspage_mapAdd` keeps the state, and returns 0 only where there was no error before
-- and the HAL takes the map.
finish_map-cases :
    (t : Target) (m : SysMap) (out : Syspage × Result (Unit {0}))
    → ((finish_map t m out).0 ≡ out.0)
      × ((finish_map t m out).1 ≡ ok tt
          → (out.1 ≡ ok tt) × (t.memory_add_map m.start m.end m.attr m.id ≡ none))
finish_map-cases t m (s, ok u) = elim (Option-cases (t.memory_add_map m.start m.end m.attr m.id)) [
  | inl e ↦ rw (e, finish_map) (refl, λ _. (refl, refl))
  | inr (c, e) ↦ rw (e, finish_map) (refl, λ d. absurd (ground (arith, d)))
]
finish_map-cases t m (s, err e) = (refl, λ d. absurd (ground (arith, d)))

Known-only :
    (t : Target) (complete complete' : Type 0) (start end : ℕ) (es : List MapEnt)
    → (complete' → complete)
    → Known t complete start end es
    → Known t complete' start end es
Known-only t c c' start end [] f k = λ d. k (f d)
Known-only t c c' start end (e ∷ es) f k = (k.0, Known-only t c c' e.end end es f k.1)

link_map-Filled :
    (t : Target) (name : Bytes) (start end attr : ℕ) (s : Syspage)
    → NextInRange t
    → IsHeap s
    → 0 < t.sizeof_entry
    → s.heap_end + t.sizeof_entry + 8 ≤ 2 ^ 32
    → start ≤ end
    → (out : Syspage × Result (Unit {0})) × (link_map t name start end attr s ≡ some out)
      × Filled t s.maps s.progs (new_map s.maps name start end attr) start [] out.0 out.1
      × (out.1 ≡ ok tt → t.memory_add_map start end attr (next_id s.maps) ≡ none)
unfolding link_map
link_map-Filled t name start end attr s next v pos fits h =
    let m = new_map s.maps name start end attr in
    let linked : Syspage = record s { maps = s.maps ++ m ∷ [] } in
    let (out, runs, f) =
      hal_entries-Filled t next s.maps s.progs m s.heap_end start [] linked (omega arith) pos fits
        (omega arith) refl (omega arith) h refl in
    let c = finish_map-cases t m out in
    (
      finish_map t m out,
      rw runs,
      record {
        heap = rw (c.0) f.heap;
        found = f.found;
        known = Known-only t (out.1 ≡ ok tt) _ start end f.found (λ d. (c.1 d).0) f.known;
        entries = f.entries;
        maps_are = rw (c.0) f.maps_are;
        ordered = f.ordered;
        entries_are = f.entries_are;
        progs_are = rw (c.0) f.progs_are;
      },
      λ d. (c.1 d).1,
    )

str_attr-cases : (r : Result ℕ) → ((b : ℕ) × (r ≡ ok b)) ⊎ ((e : ℕ) × (r ≡ err e))
str_attr-cases (ok b) = inl (b, refl)
str_attr-cases (err e) = inr (e, refl)

-- No map was added.
unchanged :
    (t : Target) (name : Bytes) (start end : ℕ) (attr : Bytes) (e : ℕ) (s s' : Syspage)
    → IsHeap s'
    → s'.maps ≡ s.maps
    → s'.progs ≡ s.progs
    → CannotAdd t name start end attr s.maps s'
    → Outcome t name start end attr s (s', err e)
unchanged t name start end attr e s s' v m p why = record {
  heap = v;
  same_progs = p;
  maps = inl (m, (λ q. cc), why);
}

-- The map was linked in.
linked :
    (t : Target) (name : Bytes) (start end bits : ℕ) (attr : Bytes) (s s' : Syspage)
    (out : Syspage × Result (Unit {0}))
    → str_attr2ui t.attrs attr ≡ ok bits
    → s'.maps ≡ s.maps
    → s'.progs ≡ s.progs
    → any_conflict name start end s.maps ≡ false
    → Filled t s'.maps s'.progs (new_map s'.maps name start end bits) start [] out.0 out.1
    → (out.1 ≡ ok tt → t.memory_add_map start end bits (next_id s'.maps) ≡ none)
    → Outcome t name start end attr s out
linked t name start end bits attr s s' out good m p free f taken = record {
  heap = f.heap;
  same_progs = f.progs_are ∙ p;
  maps = inr (
    record {
      bits = bits;
      attr_ok = good;
      entries = f.entries;
      maps_are =
          subst
            (λ ms. out.0.maps ≡ ms ++ with_entries (new_map ms name start end bits) f.entries ∷ [])
            m f.maps_are;
      ordered = f.ordered;
      known = subst (Known t (out.1 ≡ ok tt) start end) (sym f.entries_are) f.known;
      taken = λ d. subst (λ ms. t.memory_add_map start end bits (next_id ms) ≡ none) m (taken d);
    },
    free,
  );
}

-- From the two allocations on.
after_allocs :
    (t : Target) (name : Bytes) (start end : ℕ) (attr : Bytes) (s s₂ : Syspage)
    → NextInRange t
    → HasRoom t s (length name)
    → start ≤ end
    → any_conflict name start end s.maps ≡ false
    → IsHeap s₂
    → s₂.heap_end ≡ s.heap_end
    → s₂.maps ≡ s.maps
    → s₂.progs ≡ s.progs
    → (out : Syspage × Result (Unit {0})) × (with_attr t name start end s₂
          (str_attr2ui t.attrs attr)
        ≡ some out)
      × Outcome t name start end attr s out
after_allocs t name start end attr s s₂ next h le free v e m p =
    elim (str_attr-cases (str_attr2ui t.attrs attr)) [
      | inl (b, good) ↦
          let (out, runs, f, taken) =
            link_map-Filled t name start end b s₂ next v h.entry_pos (omega arith) le in
          (out, rw good runs, linked t name start end b attr s s₂ out good m p free f taken)
      | inr (c, bad) ↦ (
        (s₂, err c),
        rw bad,
        unchanged t name start end attr c s s₂ v m p (inr (inr (inr (c, bad)))),
      )
    ]

-- `syspage_mapAdd` comes to an end whatever the HAL answers, keeps the heap and the programs, and
-- either adds no map and fails, since its name or range collides with another's, the heap is too full, or
-- an attribute is unknown, or adds the map with the name, range and attributes asked for behind
-- the others, with which its name and range do not collide. Its entries stand in order and are those
-- that the HAL knows one after the other; where the result is 0 they are all of these, and the HAL has
-- taken the map. The HAL's entries lie in the range asked for, the heap is in
-- order and low enough for the structures and the name, and the start is not behind the end.
pub map_add-Outcome :
    (t : Target) (name : Bytes) (start end : ℕ) (attr : Bytes) (s : Syspage)
    → NextInRange t
    → HasRoom t s (length name)
    → start ≤ end
    → (out : Syspage × Result (Unit {0})) × (map_add t name start end attr s ≡ some out)
      × Outcome t name start end attr s out
unfolding map_add
map_add-Outcome t name start end attr s next h le =
    elim (Bool-cases (any_conflict name start end s.maps)) [
      | inl bad ↦ (
        (s, err einval),
        rw bad,
        unchanged t name start end attr einval s s h.heap refl refl (inl bad),
      )
      | inr free ↦ elim (Option-cases (alloc s t.sizeof_map)) [
        | inl full ↦ (
          (s, err enomem),
          rw (free, full),
          unchanged t name start end attr enomem s s h.heap refl refl (inr (inl full)),
        )
        | inr (p, got) ↦
            let a = alloc-Allocated t.sizeof_map h.heap h.map_fits got in
            elim (Option-cases (alloc p.1 (length name + 1))) [
              | inl none_left ↦ (
                (p.1, err enomem),
                rw (free, got, none_left),
                unchanged t name start end attr enomem s p.1 a.heap a.same_maps a.same_progs
                    (inr (inr (inl none_left))),
              )
              | inr (q, got') ↦
                  let b =
                    alloc-Allocated (length name + 1) a.heap (omega (arith, a.same_end)) got' in
                  let (out, runs, o) =
                    after_allocs t name start end attr s q.1 next h le free b.heap
                      (b.same_end ∙ a.same_end) (b.same_maps ∙ a.same_maps)
                      (b.same_progs ∙ a.same_progs) in
                  (out, rw (free, got, got') runs, o)
            ]
      ]
    ]
