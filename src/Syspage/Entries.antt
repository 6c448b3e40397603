-- ===== src/Syspage/Entries.antt =====
-- The entries of one map: `syspage_sortedInsert` and `syspage_bestFit`.
pub mod Chain
pub mod Gaps
pub mod BestFit
use plo.Common.{ℕ, ◌+◌, ◌-◌, Bool, not, ◌&&◌, ◌||◌, List, [], ◌∷◌, ltb, leb, ◌==◌, if◌then◌else◌}
use plo.Common.Bits.{u32}
use plo.Common.Result.{Result, ok, err, efault}
use plo.Syspage.State.{MapEnt, SysMap}
use plo.Syspage.Align.{align_addr}

-- `syspage_sortedInsert`, whose loop stops at the first entry that starts later.
unfoldable pub sorted_insert : List MapEnt → MapEnt → List MapEnt
sorted_insert [] new = new ∷ []
sorted_insert (e ∷ es) new =
    let later = e ∷ sorted_insert es new in if ltb new.start e.start then new ∷ e ∷ es else later

-- `(e->start < end) && (e->end > start)`, the test for a common address.
abbrev pub overlaps : MapEnt → ℕ → ℕ → Bool
overlaps e start end = ltb e.start end && ltb start e.end

-- The variables of the loop of `syspage_bestFit`.
pub record Fit : Type 0 where
  pub best_start : ℕ
  pub best_sz : ℕ
  pub temp_start : ℕ

-- The gap of `sz` bytes from `temp_start` on is taken if it is the smallest so far that is enough.
abbrev pub take_gap : ℕ → Fit → ℕ → Fit
take_gap size f sz =
    if ltb sz f.best_sz && leb size sz
    then record f { best_start = f.temp_start; best_sz = sz }
    else f

-- One round, at the entry `e`.
unfoldable pub fit_round : ℕ → ℕ → Fit → MapEnt → Fit
fit_round size align f e =
    let f' =
      if not (overlaps e f.temp_start (u32 (f.temp_start + size)))
      then take_gap size f (u32 (e.start + 0x1_0000_0000 - f.temp_start))
      else f in
    record f' { temp_start = align_addr 32 32 e.end align }

unfoldable pub fit_rounds : ℕ → ℕ → Fit → List MapEnt → Fit
fit_rounds size align f [] = f
fit_rounds size align f (e ∷ es) = fit_rounds size align (fit_round size align f e) es

-- `map->entries->prev->end`
abbrev pub last_end : MapEnt → List MapEnt → ℕ
last_end e [] = e.end
last_end e (e' ∷ es) = last_end e' es

-- What follows the loop: the area behind the last entry, and the result.
unfoldable pub fit_finish : ℕ → ℕ → ℕ → Fit → ℕ → Result ℕ
fit_finish size align map_end f last =
    let start = align_addr 32 32 last align in
    let f' =
      take_gap size (record f { temp_start = start }) (u32 (map_end + 0x1_0000_0000 - start)) in
    if f'.best_sz == 0xffff_ffff || f'.best_start == 0xffff_ffff
    then err efault
    else ok f'.best_start

abbrev pub best_fit_in : ℕ → ℕ → SysMap → List MapEnt → Result ℕ
best_fit_in size align map [] = ok (align_addr 32 32 map.start align)
best_fit_in size align map (e ∷ es) =
    let f : Fit = record {
      best_start = 0xffff_ffff;
      best_sz = 0xffff_ffff;
      temp_start = align_addr 32 32 map.start align;
    } in
    fit_finish size align map.end (fit_rounds size align f (e ∷ es)) (last_end e es)

-- `syspage_bestFit`; the result is what it writes through `eStart`.
unfoldable pub best_fit : SysMap → ℕ → ℕ → Result ℕ
unfolding fit_finish fit_rounds fit_round
best_fit map size align = best_fit_in size align map map.entries
