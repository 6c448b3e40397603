-- ===== src/FlashImxrt/Pages.antt =====
-- devices/flash-imxrt/flashdrv.c: the loop of `flashdrv_sync` that programs the pages of its buffer.
use plo.Common.{
  get_or-drop, get_or-take, ℕ, zero, suc, ◌+◌, ◌-◌, ◌*◌, ◌^◌, ◌≤◌, ◌<◌, ◌≡◌, refl, subst, ap, ◌∙◌,
  arith, true, false, Bool-cases, Option, some, [], ◌∷◌, inl, inr, length, drop, get_or, ltb,
  if◌then◌else◌, length-take, length-drop,
}
use plo.Common.Bits.{u32}
use plo.Common.CString.{Bytes}
use plo.Common.Result.{Result, ok, err, next}
use plo.FlashImxrt.{NorDevice, NorOps, erased_state, all_ones, page_at, program_pages}
use plo.FlashImxrt.Chip.{IsNor, Fault, program_fails, inside}

pub all_ones-get_or :
    (bytes : Bytes) (i : ℕ)
    → all_ones bytes ≡ true
    → i < length bytes
    → get_or bytes i 0 ≡ erased_state
unfolding all_ones
all_ones-get_or [] i h b = absurd (omega arith)
all_ones-get_or (x ∷ bytes) zero h b = ground arith
all_ones-get_or (x ∷ bytes) (suc i) h b = all_ones-get_or bytes i (ground arith) (omega arith)

-- The contents `base` with `n` bytes of a buffer put over the addresses from `addr` on.
abbrev pub over : Bytes → ℕ → ℕ → (ℕ → ℕ) → ℕ → ℕ
over buf addr n base i = if inside addr n i then get_or buf (i - addr) 0 else base i

module _ {F : Type 0} (ops : NorOps F) (cell : F → ℕ → ℕ) (dev : NorDevice F)
    (laws : IsNor ops cell dev.nor.sector_sz dev.nor.page_sz) (sector : ℕ) (base : ℕ → ℕ) where
  -- The flash while its pages are programmed: those before `ofs` hold the buffer's, and the others
  -- are erased.
  abbrev partly : ℕ → ℕ → ℕ
  partly ofs i =
      over dev.sector_buf sector ofs
        (λ i. if inside sector dev.nor.sector_sz i then erased_state else base i) i

  pub data Programmed : Option (Result ℕ × F) → Type 0 where
    done :
        (n : ℕ) (f : F)
        → ((i : ℕ) → cell f i ≡ over dev.sector_buf sector dev.nor.sector_sz base i)
        → Programmed (some (ok n, f))
    failed : (e : ℕ) (f : F) → Fault ops e → Programmed (some (err e, f))

  page-length :
      (ofs : ℕ)
      → ofs + dev.nor.page_sz ≤ length dev.sector_buf
      → length (page_at dev ofs) ≡ dev.nor.page_sz
  page-length ofs h =
      omega (
        arith,
        length-take dev.nor.page_sz (drop ofs dev.sector_buf),
        length-drop ofs dev.sector_buf,
      )

  page-get_or :
      (ofs i : ℕ)
      → i < dev.nor.page_sz
      → get_or (page_at dev ofs) i 0 ≡ get_or dev.sector_buf (ofs + i) 0
  page-get_or ofs i h =
      get_or-take dev.nor.page_sz i (drop ofs dev.sector_buf) h ∙ get_or-drop ofs i dev.sector_buf

  -- One more page of the buffer.
  extend :
      (ofs : ℕ) (content : ℕ → ℕ)
      → ofs + dev.nor.page_sz ≤ dev.nor.sector_sz
      → ((i : ℕ)
          → inside (sector + ofs) dev.nor.page_sz i ≡ true
          → content i ≡ get_or dev.sector_buf (i - sector) 0)
      → ((i : ℕ) → inside (sector + ofs) dev.nor.page_sz i ≡ false → content i ≡ partly ofs i)
      → (i : ℕ) → content i ≡ partly (ofs + dev.nor.page_sz) i
  extend ofs content le new old i = elim (Bool-cases (inside (sector + ofs) dev.nor.page_sz i)) [
    | inl within ↦ ground (arith, new i within)
    | inr without ↦ ground (arith, old i without)
  ]

  -- The bytes of the page stand in the buffer.
  from_page :
      (ofs i : ℕ)
      → inside (sector + ofs) dev.nor.page_sz i ≡ true
      → get_or (page_at dev ofs) (i - (sector + ofs)) 0 ≡ get_or dev.sector_buf (i - sector) 0
  from_page ofs i h =
      page-get_or ofs (i - (sector + ofs)) (ground arith)
      ∙ ap (λ t. get_or dev.sector_buf t 0) {x = ofs + (i - (sector + ofs))} {y = i - sector}
          (ground arith)

  -- A page of ones needs no programming.
  skipped :
      (ofs : ℕ) (f : F)
      → ofs + dev.nor.page_sz ≤ dev.nor.sector_sz
      → dev.nor.sector_sz ≤ length dev.sector_buf
      → all_ones (page_at dev ofs) ≡ true
      → ((i : ℕ) → cell f i ≡ partly ofs i)
      → (i : ℕ) → cell f i ≡ partly (ofs + dev.nor.page_sz) i
  skipped ofs f le room ones inv =
      extend ofs (cell f) le
        (λ i h.
          let blank =
            all_ones-get_or (page_at dev ofs) (i - (sector + ofs)) ones
              (ground (arith, page-length ofs (omega arith))) in
          ground (arith, inv i, from_page ofs i h, blank))
        (λ i _. inv i)

  programmed :
      (ofs r n : ℕ) (f f' : F)
      → ofs + dev.nor.page_sz ≤ dev.nor.sector_sz
      → dev.nor.sector_sz ≤ length dev.sector_buf
      → r * dev.nor.page_sz ≡ sector + ofs
      → ops.page_program (sector + ofs) (page_at dev ofs) dev.timeout f ≡ (ok n, f')
      → ((i : ℕ) → cell f i ≡ partly ofs i)
      → (i : ℕ) → cell f' i ≡ partly (ofs + dev.nor.page_sz) i
  programmed ofs r n f f' le room e call inv =
      let effect : (i : ℕ)
          → cell f' i ≡ over (page_at dev ofs) (sector + ofs) dev.nor.page_sz (cell f) i =
        subst
          (λ a.
            ((i : ℕ) → inside a dev.nor.page_sz i ≡ true → cell f i ≡ erased_state)
            → ops.page_program a (page_at dev ofs) dev.timeout f ≡ (ok n, f')
            → (i : ℕ) → cell f' i ≡ over (page_at dev ofs) a dev.nor.page_sz (cell f) i)
          e (laws.program r dev.timeout n (page_at dev ofs) f f' (page-length ofs (omega arith)))
          (λ i h. ground (arith, inv i)) call in
      extend ofs (cell f') le (λ i h. ground (arith, effect i, from_page ofs i h))
        (λ i h. ground (arith, effect i, inv i))

  -- What follows the programming of a page.
  after_page :
      (ofs r : ℕ) (f : F) (rest : F → Option (Result ℕ × F))
      → ofs + dev.nor.page_sz ≤ dev.nor.sector_sz
      → dev.nor.sector_sz ≤ length dev.sector_buf
      → r * dev.nor.page_sz ≡ sector + ofs
      → ((i : ℕ) → cell f i ≡ partly ofs i)
      → ((f' : F) → ((i : ℕ) → cell f' i ≡ partly (ofs + dev.nor.page_sz) i) → Programmed (rest f'))
      → (out : Result ℕ × F) → ops.page_program (sector + ofs) (page_at dev ofs) dev.timeout f ≡ out
      → Programmed (next (λ _. rest) out)
  after_page ofs r f rest le room e inv again (err c, f') call =
      failed c f' (program_fails (sector + ofs) dev.timeout (page_at dev ofs) f f' call)
  after_page ofs r f rest le room e inv again (ok n, f') call =
      again f' (programmed ofs r n f f' le room e call inv)

  -- The pages that are left, of which there are fewer than the fuel.
  pub program_pages-Programmed :
      (left fuel ofs r : ℕ) (f : F)
      → left < fuel
      → ofs + left * dev.nor.page_sz ≡ dev.nor.sector_sz
      → 0 < dev.nor.page_sz
      → dev.nor.sector_sz ≤ length dev.sector_buf
      → sector + dev.nor.sector_sz ≤ 2 ^ 32
      → dev.nor.sector_sz < 2 ^ 32
      → r * dev.nor.page_sz ≡ sector + ofs
      → ((i : ℕ) → cell f i ≡ partly ofs i)
      → Programmed (program_pages ops dev sector fuel ofs f)
  unfolding program_pages
  program_pages-Programmed left zero ofs r f lt e pos room fits small q inv = absurd (omega arith)
  program_pages-Programmed zero (suc fuel) ofs r f lt e pos room fits small q inv =
      let end : ltb ofs dev.nor.sector_sz ≡ false = ground arith in
      rw (end, program_pages) (done 0 f (λ i. ground (arith, inv i)))
  program_pages-Programmed (suc left) (suc fuel) ofs r f lt e pos room fits small q inv =
      let more : ofs + dev.nor.page_sz + left * dev.nor.page_sz ≡ dev.nor.sector_sz = grind arith in
      let le : ofs + dev.nor.page_sz ≤ dev.nor.sector_sz = omega arith in
      let again = λ (f' : F).
        program_pages-Programmed left fuel (ofs + dev.nor.page_sz) (suc r) f' (omega arith) more pos
          room fits small (grind arith) in
      let at : u32 (sector + ofs) ≡ sector + ofs = omega arith in
      let behind : u32 (ofs + dev.nor.page_sz) ≡ ofs + dev.nor.page_sz = omega arith in
      let before : ltb ofs dev.nor.sector_sz ≡ true = ground arith in
      rw (before, program_pages)
        (elim (Bool-cases (all_ones (page_at dev ofs))) [
          | inl ones ↦ rw (ones, behind, program_pages) (again f (skipped ofs f le room ones inv))
          | inr mixed ↦
              rw (mixed, at, behind, program_pages)
                (after_page ofs r f _ le room q inv again _ refl)
        ])
