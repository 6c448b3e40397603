-- ===== src/Devs.antt =====
-- devices/devs.c: the table of the devices, and the calls of their operations. `S` is the state
-- of the hardware, which the drivers' functions read and change.
pub mod Register
pub mod Iterate
use plo.Common.{
  ℕ, zero, suc, ◌+◌, ◌-◌, ◌*◌, ◌/◌, ◌%◌, ◌^◌, Bool, true, false, ◌&&◌, ◌||◌, Option, none, some,
  List, [], ◌∷◌, ltb, leb, get_or, set, get_elem?, replicate, if◌then◌else◌, bit_and, bit_or,
}
use plo.Common.Bits.{u32}
use plo.Common.CString.{Bytes}
use plo.Common.Result.{Result, ok, err, enodev, enosys}

-- `SIZE_MAJOR` and `SIZE_MINOR`
abbrev pub majors : ℕ
majors = 11

abbrev pub minors : ℕ
minors = 16

-- `dev_ops_t`: a function that is NULL is `none`. What `read` stores in its buffer is its result,
-- whose length is the result of the C function.
pub record Ops (S : Type 0) : Type 0 where
  pub sync : Option (ℕ → S → Result ℕ × S)
  pub mapped : Option (ℕ → ℕ → ℕ → ℕ → ℕ → ℕ → ℕ → S → (Result ℕ × Option ℕ) × S)
  pub control : Option (ℕ → ℕ → ℕ → S → Result ℕ × S)
  pub read : Option (ℕ → ℕ → ℕ → ℕ → S → Result Bytes × S)
  pub write : Option (ℕ → ℕ → Bytes → S → Result ℕ × S)
  pub erase : Option (ℕ → ℕ → ℕ → ℕ → S → Result ℕ × S)

-- `dev_t`
pub record Dev (S : Type 0) : Type 0 where
  pub name : Option Bytes
  pub init : Option (ℕ → S → S)
  pub done : Option (ℕ → S → S)
  pub ops : Option (Ops S)

-- `devs_common.devs`, by major and minor number
abbrev pub Devs : Type 0 → Type 0
Devs S = List (List (Option (Dev S)))

-- The loop of `devs_register`: the first `nb` free slots of a row.
unfoldable pub fill : {A : Type 0} → List (Option A) → ℕ → A → List (Option A)
fill [] nb dev = []
fill (o ∷ os) zero dev = o ∷ os
fill (none ∷ os) (suc nb) dev = some dev ∷ fill os nb dev
fill (some d ∷ os) (suc nb) dev = some d ∷ fill os (suc nb) dev

-- A pointer that is not NULL.
abbrev is_some : {A : Type 0} → Option A → Bool
is_some o = elim o [ none ↦ false | some _ ↦ true ]

module _ {S : Type 0} where
  unfoldable pub slot : Devs S → ℕ → ℕ → Option (Dev S)
  slot devs major minor = get_or (get_or devs major []) minor none

  unfoldable pub register : Devs S → ℕ → ℕ → Dev S → Devs S
  register devs major nb dev =
      if leb majors major || leb minors nb
      then devs
      else set devs major (fill (get_or devs major []) nb dev)

  -- The call of one function of each device of a row, from the minor number `i` on.
  unfoldable pub run_row : (Dev S → Option (ℕ → S → S)) → ℕ → List (Option (Dev S)) → S → S
  run_row f i [] s = s
  run_row f i (none ∷ os) s = run_row f (suc i) os s
  run_row f i (some d ∷ os) s = elim (f d) [
    | none ↦ run_row f (suc i) os s
    | some g ↦ run_row f (suc i) os (g i s)
  ]

  unfoldable pub run_all : (Dev S → Option (ℕ → S → S)) → Devs S → S → S
  unfolding run_row
  run_all f [] s = s
  run_all f (row ∷ rows) s = run_all f rows (run_row f 0 row s)

  -- `devs_init`
  unfoldable pub init_all : Devs S → S → S
  init_all devs s = run_all (λ d. d.init) devs s

  -- `devs_done`
  unfoldable pub done_all : Devs S → S → S
  done_all devs s = run_all (λ d. d.done) devs s

  -- `devs_get`
  unfoldable pub get : Devs S → ℕ → ℕ → Option (Dev S)
  get devs major minor =
      if ltb major majors && ltb minor minors then slot devs major minor else none

  -- `devs_ops`
  unfoldable pub get_ops : Devs S → ℕ → ℕ → Option (Ops S)
  get_ops devs major minor = elim (get devs major minor) [ none ↦ none | some d ↦ d.ops ]

  unfoldable pub check : Devs S → ℕ → ℕ → Result ℕ
  check devs major minor = elim (get devs major minor) [
    | none ↦ err enodev
    | some d ↦ if is_some d.name && is_some d.init && is_some d.done then ok 0 else err enodev
  ]

  -- One function of the operations of a device, if both are there.
  abbrev pub find_op : {F : Type 0} → (Ops S → Option F) → Devs S → ℕ → ℕ → Option F
  find_op f devs major minor = elim (get_ops devs major minor) [ none ↦ none | some o ↦ f o ]

  unfoldable pub dev_read : Devs S → ℕ → ℕ → ℕ → ℕ → ℕ → S → Result Bytes × S
  dev_read devs major minor offs len timeout s = elim (find_op (λ o. o.read) devs major minor) [
    | none ↦ (err enosys, s)
    | some f ↦ f minor offs len timeout s
  ]

  unfoldable pub dev_write : Devs S → ℕ → ℕ → ℕ → Bytes → S → Result ℕ × S
  dev_write devs major minor offs bytes s = elim (find_op (λ o. o.write) devs major minor) [
    | none ↦ (err enosys, s)
    | some f ↦ f minor offs bytes s
  ]

  unfoldable pub dev_erase : Devs S → ℕ → ℕ → ℕ → ℕ → ℕ → S → Result ℕ × S
  dev_erase devs major minor offs len flags s = elim (find_op (λ o. o.erase) devs major minor) [
    | none ↦ (err enosys, s)
    | some f ↦ f minor offs len flags s
  ]

  unfoldable pub dev_sync : Devs S → ℕ → ℕ → S → Result ℕ × S
  dev_sync devs major minor s = elim (find_op (λ o. o.sync) devs major minor) [
    | none ↦ (err enosys, s)
    | some f ↦ f minor s
  ]

  -- The address that a mapping stores for its caller, if it stores one, stands beside the result.
  unfoldable pub dev_map : Devs S → ℕ → ℕ → ℕ → ℕ → ℕ → ℕ → ℕ → ℕ → S → (Result ℕ × Option ℕ) × S
  dev_map devs major minor addr sz mode memaddr memsz memmode s =
      elim (find_op (λ o. o.mapped) devs major minor) [
        | none ↦ ((err enosys, none), s)
        | some f ↦ f minor addr sz mode memaddr memsz memmode s
      ]

  unfoldable pub dev_control : Devs S → ℕ → ℕ → ℕ → ℕ → S → Result ℕ × S
  dev_control devs major minor cmd args s = elim (find_op (λ o. o.control) devs major minor) [
    | none ↦ (err enosys, s)
    | some f ↦ f minor cmd args s
  ]

-- A result of `devs_iterNext` and the new `*ctx`: the end, or a slot with its two numbers.
pub data Iter (A : Type 0) : Type 0 where
  over : ℕ → Iter A
  found : Option A → ℕ → ℕ → ℕ → Iter A

-- The outer loop, with the major number as its fuel `n = majors - major`.
unfoldable pub iter_from : {S : Type 0} → Devs S → ℕ → ℕ → ℕ → ℕ → Iter (Dev S)
iter_from devs zero major minor ctx = over ctx
iter_from devs (suc n) major minor ctx =
    let rest = iter_from devs n (suc major) 0 (bit_or (bit_and ctx 0xffff) (suc major * 2 ^ 16)) in
    if ltb minor minors
    then found (slot devs major minor) major minor (u32 (bit_and ctx 0xffff_0000 + suc minor))
    else rest

-- `devs_iterNext`, for three pointers that are not NULL
unfoldable pub iter_next : {S : Type 0} → Devs S → ℕ → Iter (Dev S)
iter_next devs ctx =
    let major = bit_and (ctx / 2 ^ 16) 0xffff in
    iter_from devs (majors - major) major (bit_and ctx 0xffff) ctx
