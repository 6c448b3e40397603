-- ===== src/Ptable/Sound.antt =====
-- lib/ptable.c: what a table that passes the checks promises.
use plo.Common.{
  ℕ, subst, zero, suc, ◌+◌, ◌%◌, ◌≤◌, ◌<◌, ◌^◌, ◌≡◌, ◌⊎◌, inl, inr, Bool, Bool-cases, true, false,
  ◌==◌, arith,
}
use plo.Ptable.Bytes.{Memory, read8, read32_lt}
use plo.Ptable.{
  all_from, part_at, offset, size, count, range_valid, parts_overlap, apart_from, part_verify,
  crc_check, verify, same_name, name_valid, name_end,
}
use plo.Ctype.{isalnum}

all_from_lem :
    (f : ℕ → Bool) (i n : ℕ) → all_from f i n ≡ true → (k : ℕ) → i ≤ k → k < i + n → f k ≡ true
unfolding all_from
all_from_lem f i zero e k l u = ground arith
all_from_lem f i (suc n) e k l u = elim (Bool-cases (k == i)) [
  | inl eq ↦ let same : i ≡ k = ground arith in subst (λ x. f x ≡ true) same (ground arith)
  | inr ne ↦ all_from_lem f (suc i) n (ground arith) k (ground arith) (omega arith)
]

-- The partition at `p` is not empty, starts and ends on a block and ends within the memory.
pub record InMemory (m : Memory) (memsz blksz p : ℕ) : Type 0 where
  pub not_empty : 0 < size m p
  pub size_mod : size m p % blksz ≡ 0
  pub offset_mod : offset m p % blksz ≡ 0
  pub ends : offset m p + size m p ≤ memsz

range_valid-InMemory :
    (m : Memory) (memsz blksz p : ℕ)
    → memsz < 2 ^ 32
    → range_valid m memsz blksz p ≡ true
    → InMemory m memsz blksz p
unfolding range_valid
range_valid-InMemory m memsz blksz p h e = ground (arith, read32_lt m (p + 8), read32_lt m (p + 12))

-- One of two partitions ends before the other starts.
abbrev pub Disjoint : Memory → ℕ → ℕ → Type 0
Disjoint m p q = (offset m p + size m p ≤ offset m q) ⊎ (offset m q + size m q ≤ offset m p)

overlap-Disjoint :
    (m : Memory) (memsz blksz p q : ℕ)
    → memsz < 2 ^ 32
    → InMemory m memsz blksz p
    → InMemory m memsz blksz q
    → parts_overlap m p q ≡ false
    → Disjoint m p q
unfolding parts_overlap
overlap-Disjoint m memsz blksz p q h v w e =
    ground (arith, read32_lt m (p + 8), read32_lt m (p + 12))

part_verify-Sound :
    (m : Memory) (a memsz blksz : ℕ) (check : Bool) (i : ℕ)
    → memsz < 2 ^ 32
    → part_verify m a memsz blksz check i ≡ true
    → InMemory m memsz blksz (part_at a i)
      × (name_valid m (part_at a i) ≡ true)
      × ((j : ℕ) → j < i → apart_from m a (part_at a i) j ≡ true)
unfolding part_verify
part_verify-Sound m a memsz blksz check i h e = ground (
  arith,
  range_valid-InMemory m memsz blksz (part_at a i),
  all_from_lem (apart_from m a (part_at a i)) 0 i,
)

-- The bytes at `p` are a name of `n` letters and digits, and the NUL that ends it.
pub record IsName (m : Memory) (p n : ℕ) : Type 0 where
  pub letters : (k : ℕ) → k < n → isalnum (read8 m (p + k)) ≡ true
  pub ended : read8 m (p + n) ≡ 0

name_end-letters : (m : Memory) (p n k : ℕ) → k < name_end m p n → isalnum (read8 m (p + k)) ≡ true
unfolding name_end
name_end-letters m p zero k u = ground arith
name_end-letters m p (suc n) zero u = ground arith
name_end-letters m p (suc n) (suc k) u =
    let next : isalnum (read8 m (suc p + k)) ≡ true =
      name_end-letters m (suc p) n k (ground arith) in
    let same : suc p + k ≡ p + suc k = omega arith in
    subst (λ q. isalnum (read8 m q) ≡ true) same next

-- What a table at `a` promises of the partition with index `i`: its place in the memory, its
-- name, and that no partition before it has a byte or its name in common with it.
pub record Sound (m : Memory) (a memsz blksz i : ℕ) : Type 0 where
  pub place : InMemory m memsz blksz (part_at a i)
  pub name_len : ℕ
  pub name_lt : 0 < name_len × name_len < 8
  pub name : IsName m (part_at a i) name_len
  pub apart : (j : ℕ) → j < i → Disjoint m (part_at a i) (part_at a j)
  pub unique : (j : ℕ) → j < i → same_name m (part_at a i) (part_at a j) 8 ≡ false

-- A table that `ptable_verify` accepts in a memory of less than 4 GiB: each of its partitions is
-- made of whole blocks within the memory, has a name, and neither overlaps nor shares its name
-- with a partition before it.
pub verify-Sound :
    (m : Memory) (a memsz blksz : ℕ)
    → memsz < 2 ^ 32
    → verify m a memsz blksz ≡ true
    → (i : ℕ) → i < count m a
    → Sound m a memsz blksz i
unfolding verify apart_from name_valid
verify-Sound m a memsz blksz h e i l =
    let check = crc_check m a in
    let each = λ (k : ℕ) (u : k < count m a). part_verify-Sound m a memsz blksz check k h (
      all_from_lem (part_verify m a memsz blksz check) 0 (count m a) (ground arith) k (omega arith)
        (omega arith)) in
    let (here, named, before) = each i l in
    record {
      place = here;
      name_len = name_end m (part_at a i) 8;
      name_lt = ground arith;
      name = record { letters = name_end-letters m (part_at a i) 8; ended = ground arith };
      apart = λ j u.
          overlap-Disjoint m memsz blksz (part_at a i) (part_at a j) h here (each j (omega arith)).0
            (ground (arith, before j u));
      unique = λ j u. ground (arith, before j u);
    }
