-- ===== src/LoadApp/Registered.antt =====
-- cmds/app.c: the program that cmd_appLoad adds.
use plo.Common.{
  arith, true, false, subst, ℕ, ◌+◌, ◌-◌, ◌≡◌, ◌⊎◌, inl, inr, refl, ap, ap₂, sym, ◌∙◌, Bool-cases,
  Option, none, some, List, [], ◌∷◌, ◌++◌, leb, if◌then◌else◌, length,
}
use plo.Common.Bits.{u32}
use plo.Common.CString.{Bytes}
use plo.Common.Result.{Result, ok, err, enomem}
use plo.Syspage.State.{MapEnt, Prog, Syspage, Target}
use plo.Syspage.Alloc.{alloc, new_top}
use plo.Syspage.Maps.{map_get}
use plo.Syspage.Resolve.{resolve, map_name_resolve}
use plo.Syspage.Progs.{prog_add, new_prog, set_last, is_exec}
use plo.LoadApp.{Loader, prepend, maps_parse}
use plo.LoadApp.Load.{load_prog, alloc_ids, assign_maps, set_maps, put_maps}
use plo.LoadApp.Names.{
  pieces, resolve_all, resolve_known, NoNul, maps_add2prog-maps_parse, maps_written-maps_parse,
  length-maps_parse,
}

set_last-append :
    (f : Prog → Prog) (ps : List Prog) (p : Prog) → set_last f (ps ++ p ∷ []) ≡ ps ++ f p ∷ []
unfolding set_last
set_last-append f [] p = refl
set_last-append f (q ∷ []) p = refl
set_last-append f (q ∷ q' ∷ ps) p = ap (λ r. q ∷ r) (set_last-append f (q' ∷ ps) p)

-- The same maps and programs.
abbrev pub Same : Syspage → Syspage → Type 0
Same s s' = (s'.maps ≡ s.maps) × (s'.progs ≡ s.progs)

-- The state behind a block of the heap.
abbrev allocated : Syspage → ℕ → Syspage
allocated s size = record s {
  heap_top = new_top s size;
  size = u32 (new_top s size + 0x1_0000_0000 - s.base);
}

alloc-cases :
    (s : Syspage) (size : ℕ)
    → (alloc s size ≡ none) ⊎ (alloc s size ≡ some (s.heap_top, allocated s size))
unfolding alloc
alloc-cases s size = elim (Bool-cases (leb s.heap_end (new_top s size))) [
  | inl full ↦ inl (rw (full, alloc) refl)
  | inr room ↦ inr (rw (room, alloc) refl)
]

-- The last program has got the maps, and nothing else is changed.
record LastMaps (imaps dmaps : Option (List ℕ)) (s s' : Syspage) : Type 0 where
  pub maps_are : s'.maps ≡ s.maps
  pub progs_are : s'.progs ≡ set_last (put_maps imaps dmaps) s.progs

-- The heap is full whatever the programs are.
alloc_full-progs :
    (s : Syspage) (size : ℕ) (ps : List Prog)
    → alloc s size ≡ none
    → alloc (record s { progs = ps }) size ≡ none
unfolding alloc
alloc_full-progs s size ps h = elim (Bool-cases (leb s.heap_end (new_top s size))) [
  | inl full ↦ rw full refl
  | inr room ↦ absurd (ground (arith, h))
]

-- What the two allocations leave in the program.
alloc_ids-cases :
    (n m : ℕ) (s : Syspage)
    → ((alloc_ids n m s).0 ≡ false)
        × (alloc (alloc_ids n m s).1 n ≡ none)
        × LastMaps none none s (alloc_ids n m s).1
      ⊎ (((alloc_ids n m s).0 ≡ false)
            × (alloc (alloc_ids n m s).1 m ≡ none)
            × LastMaps (some []) none s (alloc_ids n m s).1
          ⊎ ((alloc_ids n m s).0 ≡ true) × LastMaps (some []) (some []) s (alloc_ids n m s).1)
unfolding alloc_ids
alloc_ids-cases n m s = elim (alloc-cases s n) [
  | inl full ↦ inl (
      rw (full, alloc_ids)
        (refl, alloc_full-progs s n _ full, record { maps_are = refl; progs_are = refl }))
  | inr room ↦ inr (elim (alloc-cases (allocated s n) m) [
    | inl full ↦ inl (
        rw (room, full, alloc_ids)
          (
            refl,
            alloc_full-progs (allocated s n) m _ full,
            record { maps_are = refl; progs_are = refl },
          ))
    | inr more ↦
        inr (rw (room, more, alloc_ids) (refl, record { maps_are = refl; progs_are = refl }))
  ])
]

-- The bytes that `syspage_progAdd` takes for the arguments.
abbrev pub argv_len : Bytes → ℕ → ℕ
argv_len argv flags = (if is_exec flags then 1 else 0) + length argv + 1

-- What `syspage_progAdd` does: the program is the last one, or none is added.
prog_add-cases :
    (t : Target) (argv : Bytes) (flags : ℕ) (s : Syspage)
    → ((prog_add t argv flags s).0 ≡ none)
        × ((alloc (prog_add t argv flags s).1 t.sizeof_prog ≡ none)
            ⊎ (alloc (prog_add t argv flags s).1 (argv_len argv flags) ≡ none))
        × Same s (prog_add t argv flags s).1
      ⊎ ((prog_add t argv flags s).0 ≡ some (new_prog argv flags))
        × ((prog_add t argv flags s).1.maps ≡ s.maps)
        × ((prog_add t argv flags s).1.progs ≡ s.progs ++ new_prog argv flags ∷ [])
unfolding prog_add
prog_add-cases t argv flags s =
    let n = argv_len argv flags in
    elim (alloc-cases s t.sizeof_prog) [
      | inl full ↦ inl (rw (full, prog_add) (refl, inl full, (refl, refl)))
      | inr room ↦ elim (alloc-cases (allocated s t.sizeof_prog) n) [
        | inl full ↦ inl (rw (room, full, prog_add) (refl, inr full, (refl, refl)))
        | inr more ↦ inr (rw (room, more, prog_add) (refl, refl, refl))
      ]
    ]

-- The names between the semicolons.
abbrev pub names_of : Bytes → List Bytes
names_of maps = (pieces b';' maps).0 ∷ (pieces b';' maps).1

-- The program is behind the others; the maps, the memory and the files are as before.
pub record Appended {S : Type 0} (p : Prog) (s s' : Loader S) : Type 0 where
  pub maps_are : s'.sys.maps ≡ s.sys.maps
  pub mem_is : s'.mem ≡ s.mem
  pub files_are : s'.files ≡ s.files
  pub progs_are : s'.sys.progs ≡ s.sys.progs ++ p ∷ []

-- What `cmd_appLoad` leaves behind when the file is in its place: the program is the last one, with
-- the range of its entry and the maps that were named; or nothing is added, since the heap is full;
-- or the program is added without a range, since the heap is full or a name is wrong. It has then the
-- identifiers that were written before, and NULL where no block was allocated.
pub data Registered {S : Type 0} (t : Target) (imaps dmaps argv : Bytes) (flags : ℕ) (e : MapEnt)
    (s : Loader S) : Option (Result ℕ × Loader S) → Type 0 where
  registered :
      (s' : Loader S) (iids dids : List ℕ)
      → resolve_all s.sys (names_of imaps) ≡ ok iids
      → resolve_all s.sys (names_of dmaps) ≡ ok dids
      → Appended (set_maps e iids dids (new_prog argv flags)) s s'
      → Registered t imaps dmaps argv flags e s (some (ok 0, s'))
  not_added :
      (s' : Loader S)
      → (alloc s'.sys t.sizeof_prog ≡ none) ⊎ (alloc s'.sys (argv_len argv flags) ≡ none)
      → Same s.sys s'.sys
      → (s'.mem ≡ s.mem) × (s'.files ≡ s.files)
      → Registered t imaps dmaps argv flags e s (some (err enomem, s'))
  no_imaps :
      (s' : Loader S)
      → alloc s'.sys (length (names_of imaps)) ≡ none
      → Appended (new_prog argv flags) s s'
      → Registered t imaps dmaps argv flags e s (some (err enomem, s'))
  no_dmaps :
      (s' : Loader S)
      → alloc s'.sys (length (names_of dmaps)) ≡ none
      → Appended (put_maps (some []) none (new_prog argv flags)) s s'
      → Registered t imaps dmaps argv flags e s (some (err enomem, s'))
  wrong_imap :
      (c : ℕ) (s' : Loader S)
      → resolve_all s.sys (names_of imaps) ≡ err c
      → Appended
          (put_maps (some (resolve_known s.sys (names_of imaps))) (some []) (new_prog argv flags))
          s
          s'
      → Registered t imaps dmaps argv flags e s (some (err c, s'))
  wrong_dmap :
      (c : ℕ) (s' : Loader S) (iids : List ℕ)
      → resolve_all s.sys (names_of imaps) ≡ ok iids
      → resolve_all s.sys (names_of dmaps) ≡ err c
      → Appended
          (put_maps (some iids) (some (resolve_known s.sys (names_of dmaps))) (new_prog argv flags))
          s
          s'
      → Registered t imaps dmaps argv flags e s (some (err c, s'))

-- The names of the maps are looked up in the state behind the allocations, which has the same maps.
map_name_resolve-Same :
    (s s' : Syspage) (name : Bytes)
    → s'.maps ≡ s.maps
    → map_name_resolve s' name ≡ map_name_resolve s name
unfolding map_name_resolve resolve map_get
map_name_resolve-Same s s' name h = rw h refl

resolve_all-Same :
    (s s' : Syspage) (names : List Bytes)
    → s'.maps ≡ s.maps
    → resolve_all s' names ≡ resolve_all s names
unfolding resolve_all
resolve_all-Same s s' [] h = refl
resolve_all-Same s s' (n ∷ ns) h =
    ap₂ prepend (map_name_resolve-Same s s' n h) (resolve_all-Same s s' ns h)

resolve_known-Same :
    (s s' : Syspage) (names : List Bytes)
    → s'.maps ≡ s.maps
    → resolve_known s' names ≡ resolve_known s names
unfolding resolve_known
resolve_known-Same s s' [] h = refl
resolve_known-Same s s' (n ∷ ns) h =
    ap₂ (λ (a : Result ℕ) (b : List ℕ). elim a as (λ _. List ℕ) [ err _ ↦ [] | ok id ↦ id ∷ b ])
      (map_name_resolve-Same s s' n h) (resolve_known-Same s s' ns h)

module _ {S : Type 0} (t : Target) (imaps dmaps argv : Bytes) (flags : ℕ) (e : MapEnt)
    (s : Loader S) where
  -- The state with a program that has been changed behind the others.
  appended :
      (f : Prog → Prog) (p : Prog) (sys : Syspage)
      → sys.maps ≡ s.sys.maps
      → sys.progs ≡ s.sys.progs ++ p ∷ []
      → Appended (f p) s (record s { sys = record sys { progs = set_last f sys.progs } })
  appended f p sys m q = record {
    maps_are = m;
    mem_is = refl;
    files_are = refl;
    progs_are = ap (set_last f) q ∙ set_last-append f s.sys.progs p;
  }

  assign_maps-Registered :
      (iids dids : Result (List ℕ)) (iw dw : List ℕ) (sys : Syspage)
      → resolve_all s.sys (names_of imaps) ≡ iids
      → resolve_all s.sys (names_of dmaps) ≡ dids
      → resolve_known s.sys (names_of imaps) ≡ iw
      → resolve_known s.sys (names_of dmaps) ≡ dw
      → sys.maps ≡ s.sys.maps
      → sys.progs ≡ s.sys.progs ++ put_maps (some []) (some []) (new_prog argv flags) ∷ []
      → Registered t imaps dmaps argv flags e s (assign_maps iids iw dids dw e sys s)
  unfolding assign_maps
  assign_maps-Registered (err c) dids iw dw sys i d k l maps progs =
      wrong_imap c _ i (rw k (appended (put_maps (some iw) (some [])) _ sys maps progs))
  assign_maps-Registered (ok iids) (err c) iw dw sys i d k l maps progs =
      wrong_dmap c _ iids i d (rw l (appended (put_maps (some iids) (some dw)) _ sys maps progs))
  assign_maps-Registered (ok iids) (ok dids) iw dw sys i d k l maps progs =
      registered _ iids dids i d (appended (set_maps e iids dids) _ sys maps progs)

  -- The program of `syspage_progAdd` with what the two allocations assign.
  last_maps :
      (ib db : Option (List ℕ)) (s₁ s₂ : Syspage)
      → s₁.maps ≡ s.sys.maps
      → s₁.progs ≡ s.sys.progs ++ new_prog argv flags ∷ []
      → LastMaps ib db s₁ s₂
      → (s₂.maps ≡ s.sys.maps)
        × (s₂.progs ≡ s.sys.progs ++ put_maps ib db (new_prog argv flags) ∷ [])
  last_maps ib db s₁ s₂ maps progs l = (
    l.maps_are ∙ maps,
    l.progs_are
        ∙ ap (set_last (put_maps ib db)) progs
        ∙ set_last-append (put_maps ib db) s.sys.progs (new_prog argv flags),
  )

  -- What `cmd_appLoad` does with the file in its place, for names of maps without NULs: the program
  -- becomes the last one, with the range of the entry and the identifiers of the maps that are named
  -- between the semicolons, in their order; or the heap is full and nothing is added; or the heap is
  -- full or a name is wrong, the program stays in the list without a range, with the identifiers that
  -- were written before, and there is an error. The maps, the memory and the files are as before.
  pub load_prog-Registered :
      NoNul imaps
      → NoNul dmaps
      → Registered t imaps dmaps argv flags e s
          (load_prog t (maps_parse imaps b';') (maps_parse dmaps b';') argv flags e s)
  unfolding load_prog
  load_prog-Registered hi hd = elim (prog_add-cases t argv flags s.sys) [
    | inl (missing, full, same) ↦ rw (missing, load_prog) (not_added _ full same (refl, refl))
    | inr (added, maps, progs) ↦
        let s₁ = (prog_add t argv flags s.sys).1 in
        let ids = alloc_ids (maps_parse imaps b';').0 (maps_parse dmaps b';').0 s₁ in
        let number = λ (text : Bytes) (h : NoNul text). length-maps_parse text h in
        elim (alloc_ids-cases (maps_parse imaps b';').0 (maps_parse dmaps b';').0 s₁) [
          | inl (stop, full, l) ↦
              let (m, q) = last_maps none none s₁ ids.1 maps progs l in
              rw (added, stop, load_prog)
                (no_imaps _ (subst (λ n. alloc ids.1 n ≡ none) (number imaps hi) full)
                  (record { maps_are = m; mem_is = refl; files_are = refl; progs_are = q }))
          | inr (inl (stop, full, l)) ↦
              let (m, q) = last_maps (some []) none s₁ ids.1 maps progs l in
              rw (added, stop, load_prog)
                (no_dmaps _ (subst (λ n. alloc ids.1 n ≡ none) (number dmaps hd) full)
                  (record { maps_are = m; mem_is = refl; files_are = refl; progs_are = q }))
          | inr (inr (room, l)) ↦
              let (m, q) = last_maps (some []) (some []) s₁ ids.1 maps progs l in
              rw (added, room, load_prog)
                (assign_maps-Registered _ _ _ _ ids.1
                  (sym (resolve_all-Same s.sys ids.1 _ m)
                    ∙ sym (maps_add2prog-maps_parse ids.1 b';' imaps hi))
                  (sym (resolve_all-Same s.sys ids.1 _ m)
                    ∙ sym (maps_add2prog-maps_parse ids.1 b';' dmaps hd))
                  (sym (resolve_known-Same s.sys ids.1 _ m)
                    ∙ sym (maps_written-maps_parse ids.1 b';' imaps hi))
                  (sym (resolve_known-Same s.sys ids.1 _ m)
                    ∙ sym (maps_written-maps_parse ids.1 b';' dmaps hd))
                  m q)
        ]
  ]
