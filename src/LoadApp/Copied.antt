-- ===== src/LoadApp/Copied.antt =====
-- cmds/app.c: the memory after cmd_cp2ent.
use plo.Common.{
  ℕ, zero, suc, ◌+◌, ◌-◌, ◌%◌, ◌^◌, min, ◌≤◌, ◌<◌, ◌≡◌, refl, ap, ap₂, ◌∙◌, arith, true, Bool-cases,
  ◌&&◌, Option, none, some, [], ◌∷◌, inl, inr, length, ltb, leb, ◌==◌, if◌then◌else◌,
}
use plo.Common.Bits.{u32}
use plo.Common.CString.{Bytes}
use plo.Common.Result.{Result, ok}
use plo.Copy.{buffer_size}
use plo.Phfs.{Handler}
use plo.Phfs.Files.{Files}
use plo.Ptable.Bytes.{Memory, write8, write_bytes}
use plo.Syspage.State.{MapEnt, Syspage}
use plo.LoadApp.{Loader, cp_loop, cp2ent}

-- The bytes of a file from `offs` on.
abbrev pub part : (ℕ → ℕ) → ℕ → ℕ → Bytes
part content offs zero = []
part content offs (suc n) = content offs ∷ part content (suc offs) n

-- A file of `len` bytes: in the states `P`, a read from inside gives some of the bytes that are asked
-- for, and leaves such a state.
abbrev pub Reads : {S : Type 0} → (S → Type 0) → Files S → Handler → (ℕ → ℕ) → ℕ → Type 0
Reads {S} P files h content len =
    (offs n : ℕ) (s : S)
    → P s
    → offs < len
    → 0 < n
    → (m : ℕ) × (s' : S) × (0 < m)
      × (m ≤ n)
      × (files.read_file h offs n s ≡ (ok (part content offs m), s'))
      × P s'

pub length-part : (content : ℕ → ℕ) (offs n : ℕ) → length (part content offs n) ≡ n
length-part content offs zero = refl
length-part content offs (suc n) = ap suc (length-part content (suc offs) n)

-- The bytes of a file from `base` on, counted from there.
abbrev pub behind : (ℕ → ℕ) → ℕ → ℕ → ℕ
behind content base i = content (base + i)

pub part-behind :
    (n : ℕ) (content : ℕ → ℕ) (base offs at : ℕ)
    → at ≡ base + offs
    → part content at n ≡ part (behind content base) offs n
part-behind zero content base offs at e = refl
part-behind (suc n) content base offs at e =
    ap₂ (λ b bs. b ∷ bs) (ap content e)
      (part-behind n content base (suc offs) (suc at) (omega arith))

-- The memory with `n` bytes of the file in it.
abbrev pub filled : (ℕ → ℕ) → ℕ → ℕ → Memory → Memory
filled content start n mem a =
    if leb start a && ltb a (start + n) then content (a - start) % 2 ^ 8 else mem a

-- The next byte, and the next bytes.
write8-filled :
    (content : ℕ → ℕ) (start offs at : ℕ) (m mem : Memory)
    → at ≡ start + offs
    → ((a : ℕ) → m a ≡ filled content start offs mem a)
    → (a : ℕ) → write8 m at (content offs) a ≡ filled content start (suc offs) mem a
unfolding write8
write8-filled content start offs at m mem e inv a = elim (Bool-cases (a == at)) [
  | inl here ↦
      let inside : leb start a && ltb a (start + suc offs) ≡ true = ground arith in
      rw (here, inside) (ap (λ t. content t % 2 ^ 8) {x = offs} {y = a - start} (ground arith))
  | inr other ↦ rw other (inv a ∙ ground arith)
]

pub write_bytes-filled :
    (n : ℕ) (content : ℕ → ℕ) (start offs at : ℕ) (m mem : Memory)
    → at ≡ start + offs
    → ((a : ℕ) → m a ≡ filled content start offs mem a)
    → (a : ℕ) → write_bytes m at (part content offs n) a ≡ filled content start (offs + n) mem a
unfolding write_bytes
write_bytes-filled zero content start offs at m mem e inv a =
    inv a ∙ ap (λ t. filled content start t mem a) {x = offs} {y = offs + 0} (omega arith)
write_bytes-filled (suc n) content start offs at m mem e inv a =
    write_bytes-filled n content start (suc offs) (suc at) (write8 m at (content offs)) mem
      (omega arith) (write8-filled content start offs at m mem e inv) a
    ∙ ap (λ t. filled content start t mem a) {x = suc offs + n} {y = offs + suc n} (omega arith)

-- The copying is done: `n` bytes of the file are in the memory, which is else as `mem`, syspage.c is
-- as `sys`, and the files are in one of the states `P`.
pub data Filled {S : Type 0} (P : S → Type 0) (content : ℕ → ℕ) (start n : ℕ) (sys : Syspage)
    (mem : Memory) : Option (Result ℕ × Loader S) → Type 0 where
  all_copied :
      (s' : Loader S)
      → s'.sys ≡ sys
      → ((a : ℕ) → s'.mem a ≡ filled content start n mem a)
      → P s'.files
      → Filled P content start n sys mem (some (ok 0, s'))

module _ {S : Type 0} (P : S → Type 0) (files : Files S) (h : Handler) (content : ℕ → ℕ)
    (start sz : ℕ) where
  -- The state behind a read of `m` bytes.
  abbrev copied : ℕ → ℕ → S → Loader S → Loader S
  copied offs m fs s = record s {
    mem = write_bytes s.mem (u32 (start + offs)) (part content offs m);
    files = fs;
  }

  -- A turn of the loop.
  cp_loop-turn :
      (fuel offs n : ℕ) (s : Loader S)
      → (G : Option (Result ℕ × Loader S) → Type 0) → n ≡ min buffer_size (sz - offs)
      → offs < sz
      → sz < 2 ^ 32
      → (m : ℕ) × (fs : S) × (0 < m)
        × (m ≤ n)
        × (files.read_file h offs n s.files ≡ (ok (part content offs m), fs))
        × P fs
      → ((m : ℕ) (fs : S)
          → 0 < m
          → m ≤ sz - offs
          → P fs
          → G (cp_loop files fuel h start sz (offs + m) (copied offs m fs s)))
      → G (cp_loop files (suc fuel) h start sz offs s)
  unfolding cp_loop
  cp_loop-turn fuel offs n s G e lt small (m, fs, some', most, call, held) rest =
      let more : ltb offs sz ≡ true = ground arith in
      let next' : u32 (offs + length (part content offs m)) ≡ offs + m =
        omega (arith, length-part content offs m) in
      rw (more, ← e, call, next', cp_loop) (rest m fs some' (omega arith) held)

  -- The loop, with more turns than bytes are left.
  cp_loop-Filled :
      (len fuel offs : ℕ) (s : Loader S) (mem : Memory)
      → Reads P files h content len
      → P s.files
      → sz - offs < fuel
      → offs ≤ sz
      → sz ≤ len
      → start + sz < 2 ^ 32
      → ((a : ℕ) → s.mem a ≡ filled content start offs mem a)
      → Filled P content start sz s.sys mem (cp_loop files fuel h start sz offs s)
  unfolding cp_loop
  cp_loop-Filled len zero offs s mem reads here lt le inside fits inv = absurd (omega arith)
  cp_loop-Filled len (suc fuel) offs s mem reads here lt le inside fits inv =
      elim (Bool-cases (ltb offs sz)) [
        | inr done ↦
            let all : offs ≡ sz = ground arith in
            rw (done, cp_loop)
              (all_copied s refl (λ a. inv a ∙ ap (λ t. filled content start t mem a) all) here)
        | inl more ↦
            let left : offs < sz = ground arith in
            cp_loop-turn fuel offs _ s (Filled P content start sz s.sys mem) refl left (omega arith)
              (reads offs (min buffer_size (sz - offs)) s.files here (omega arith) (omega arith))
              (λ m fs some' most held.
                cp_loop-Filled len fuel (offs + m) (copied offs m fs s) mem reads held (omega arith)
                  (omega arith) inside fits
                  (write_bytes-filled m content start offs (u32 (start + offs)) s.mem mem
                    (omega arith) inv))
      ]

  -- `cmd_cp2ent` ends, and puts the bytes of the file into the entry, where a file that is as long as
  -- the entry at least is read without an error and some bytes at a time, in the states that the
  -- files can be in from the present one on. No other byte of the memory
  -- and nothing of syspage.c changes. The entry ends below the end of the addresses.
  pub cp2ent-Filled :
      (len : ℕ) (e : MapEnt) (s : Loader S)
      → Reads P files h content len
      → P s.files
      → e.start ≡ start
      → e.end ≡ start + sz
      → sz ≤ len
      → start + sz < 2 ^ 32
      → Filled P content start sz s.sys s.mem (cp2ent files h e s)
  unfolding cp2ent
  cp2ent-Filled len e s reads here begin finish inside fits =
      let size : u32 (start + sz + 0x1_0000_0000 - start) ≡ sz = omega arith in
      rw (finish, begin, size, cp2ent)
        (cp_loop-Filled len (suc sz) 0 s s.mem reads here (omega arith) (omega arith) inside fits
          (λ a. ground arith))

-- Where the file ends before the entry does, `cmd_cp2ent` does not end: each read behind the end of
-- the file gives no bytes, and the loop asks for the same ones again.
pub cp_loop-none :
    {S : Type 0} (files : Files S) (h : Handler) (fuel start sz offs : ℕ) (s : Loader S)
    → offs < sz
    → sz < 2 ^ 32
    → ((n : ℕ) (fs : S) → files.read_file h offs n fs ≡ (ok [], fs))
    → cp_loop files fuel h start sz offs s ≡ none
unfolding cp_loop
cp_loop-none files h zero start sz offs s lt small end = refl
cp_loop-none files h (suc fuel) start sz offs s lt small end =
    let more : ltb offs sz ≡ true = ground arith in
    let same : u32 (offs + 0) ≡ offs = omega arith in
    rw (more, end (min buffer_size (sz - offs)) s.files, same, cp_loop)
      (cp_loop-none files h fuel start sz offs _ lt small end)
