-- ===== src/Syspage/Maps/Filling.antt =====
-- `syspage_mapAdd` goes through the HAL's entries: the loop ends, and leaves them in order.
use plo.Common.{
  sym, append-nil, append_assoc, none, ℕ, zero, suc, ◌+◌, ◌≤◌, ◌<◌, ◌^◌, ◌≡◌, refl, ap, ◌∙◌, List,
  [], ◌∷◌, ◌++◌, some, arith, inl, inr, length, Option-cases,
}
use plo.Common.Result.{Result, ok, err, enomem}
use plo.Syspage.State.{MapEnt, SysMap, Prog, Syspage, Target}
use plo.Syspage.Alloc.{alloc}
use plo.Syspage.Alloc.Heap.{IsHeap, alloc-Allocated}
use plo.Syspage.Entries.{sorted_insert}
use plo.Syspage.Entries.Chain.{Chain, Chain-raise, sorted_insert_last, sorted_insert-Chain_last}
use plo.Syspage.Maps.{put_entry, modify_map, add_entry_at, hal_entries}

-- What `hal_memoryGetNextEntry` promises: an entry that is not empty, inside the range asked for.
abbrev pub NextInRange : Target → Type 0
NextInRange t =
    (a b : ℕ) (e : MapEnt)
    → t.memory_get_next_entry a b ≡ some e
    → (a ≤ e.start) × (e.start < e.end) × (e.end ≤ b)

-- The heap lies low enough for the structures and for a name of `n` bytes.
pub record HasRoom (t : Target) (s : Syspage) (n : ℕ) : Type 0 where
  pub heap : IsHeap s
  pub entry_pos : 0 < t.sizeof_entry
  pub entry_fits : s.heap_end + t.sizeof_entry + 8 ≤ 2 ^ 32
  pub map_fits : s.heap_end + t.sizeof_map + 8 ≤ 2 ^ 32
  pub name_fits : s.heap_end + n + 9 ≤ 2 ^ 32

modify_map_last :
    (f : SysMap → SysMap) (ms : List SysMap) (m : SysMap)
    → modify_map f (length ms) (ms ++ m ∷ []) ≡ ms ++ f m ∷ []
unfolding modify_map
modify_map_last f [] m = refl
modify_map_last f (x ∷ ms) m = ap (◌∷◌ x) (modify_map_last f ms m)

abbrev pub with_entries : SysMap → List MapEnt → SysMap
with_entries m es = record m { entries = es }

-- What the HAL answers from `start` on, each time behind the last entry. The list is `complete`
-- where the HAL has no further entry.
abbrev pub Known : Target → Type 0 → ℕ → ℕ → List MapEnt → Type 0
Known t complete start end [] = complete → t.memory_get_next_entry start end ≡ none
Known t complete start end (e ∷ es) =
    (t.memory_get_next_entry start end ≡ some e) × Known t complete e.end end es

-- The map `m`, the last one, has got behind the entries `es` those that the HAL knows from `start`
-- on, all of them where there is no error.
pub record Filled (t : Target) (ms : List SysMap) (ps : List Prog) (m : SysMap) (start : ℕ)
    (es : List MapEnt) (s : Syspage) (r : Result (Unit {0})) : Type 0 where
  pub heap : IsHeap s
  pub found : List MapEnt
  pub known : Known t (r ≡ ok tt) start m.end found
  pub entries : List MapEnt
  pub maps_are : s.maps ≡ ms ++ with_entries m entries ∷ []
  pub ordered : Chain m.start m.end entries
  pub entries_are : entries ≡ es ++ found
  pub progs_are : s.progs ≡ ps

IsHeap-add_entry_at : {s : Syspage} (i : ℕ) (e : MapEnt) → IsHeap s → IsHeap (add_entry_at i e s)
IsHeap-add_entry_at i e v = omega arith

module _ (t : Target) (next : NextInRange t) (ms : List SysMap) (ps : List Prog) (m : SysMap) where
  -- The loop ends here: no more entries are found.
  still :
      (start : ℕ) (es : List MapEnt) (s : Syspage) (r : Result (Unit {0}))
      → IsHeap s
      → s.maps ≡ ms ++ with_entries m es ∷ []
      → Chain m.start start es
      → start ≤ m.end
      → s.progs ≡ ps
      → (r ≡ ok tt → t.memory_get_next_entry start m.end ≡ none)
      → Filled t ms ps m start es s r
  still start es s r v e c h q done = record {
    heap = v;
    found = [];
    known = done;
    entries = es;
    maps_are = e;
    ordered = Chain-raise m.start start m.end es c h;
    entries_are = sym (append-nil es);
    progs_are = q;
  }

  -- One entry more in front of those that are found behind it.
  further :
      (start : ℕ) (es : List MapEnt) (x : MapEnt) (out : Syspage × Result (Unit {0}))
      → t.memory_get_next_entry start m.end ≡ some x
      → Chain m.start start es
      → start ≤ x.start
      → Filled t ms ps m x.end (sorted_insert es x) out.0 out.1
      → Filled t ms ps m start es out.0 out.1
  further start es x out more c after f = record {
    heap = f.heap;
    found = x ∷ f.found;
    known = (more, f.known);
    entries = f.entries;
    maps_are = f.maps_are;
    ordered = f.ordered;
    entries_are =
        f.entries_are
        ∙ ap (λ xs. xs ++ f.found) (sorted_insert_last m.start start es x c after)
        ∙ append_assoc es (x ∷ []) f.found;
    progs_are = f.progs_are;
  }

  pub hal_entries-Filled :
      (fuel start : ℕ) (es : List MapEnt) (s : Syspage)
      → IsHeap s
      → 0 < t.sizeof_entry
      → s.heap_end + t.sizeof_entry + 8 ≤ 2 ^ 32
      → s.heap_end ≤ fuel + s.heap_top
      → s.maps ≡ ms ++ with_entries m es ∷ []
      → Chain m.start start es
      → start ≤ m.end
      → s.progs ≡ ps
      → (out : Syspage × Result (Unit {0})) × (hal_entries t fuel (length ms) start m.end s
          ≡ some out)
        × Filled t ms ps m start es out.0 out.1
  unfolding hal_entries
  hal_entries-Filled zero start es s v pos fits fuel_ok e c h q = absurd (omega (arith, v.top_lt))
  hal_entries-Filled (suc fuel) start es s v pos fits fuel_ok e c h q =
      elim (Option-cases (t.memory_get_next_entry start m.end)) [
        | inl stop ↦
            ((s, ok tt), rw (stop, hal_entries), still start es s (ok tt) v e c h q (λ _. stop))
        | inr (x, more) ↦ elim (Option-cases (alloc s t.sizeof_entry)) [
          | inl full ↦ (
            (s, err enomem),
            rw (more, full, hal_entries),
            still start es s (err enomem) v e c h q (λ d. absurd (ground (arith, d))),
          )
          | inr (p, got) ↦
              let a = alloc-Allocated t.sizeof_entry v fits got in
              let r = next start m.end x more in
              let s' = add_entry_at (length ms) x p.1 in
              let rest =
                hal_entries-Filled fuel x.end (sorted_insert es x) s'
                  (IsHeap-add_entry_at _ x a.heap) pos (omega (arith, a.same_end))
                  (omega (arith, a.starts, a.fits, a.same_end))
                  (ap (modify_map (put_entry x) (length ms)) (a.same_maps ∙ e)
                    ∙ modify_map_last (put_entry x) ms (with_entries m es))
                  (sorted_insert-Chain_last m.start start es x c r.0 r.1) r.2 (a.same_progs ∙ q) in
              (
                rest.0,
                rw (more, got, hal_entries) rest.1,
                further start es x rest.0 more c r.0 rest.2,
              )
        ]
      ]
