-- ===== src/DataStore/Compare.antt =====
-- The orders of the keys in mdhimMods/src/ds_leveldb.c, by which LevelDB keeps its records. A key is a
-- pointer, `none` for NULL, and a length. The comparators of float and double keys are left out.
pub mod Orders
pub mod Same
mod Tests
use mpi_to_openshmem.Prelude.{
  ℕ, zero, suc, ◌+◌, ◌%◌, Bool, true, false, ◌&&◌, not, Option, none, some, ltb, ◌==◌,
  if◌then◌else◌,
}
use mpi_to_openshmem.Prelude.Int.{ℤ, pos, negsuc}
use mpi_to_openshmem.Floats.{Bytes}
use mpi_to_openshmem.Partitioner.Keys.{u32_at, u64_at}

abbrev pub minus_one : ℤ
minus_one = negsuc 0

-- 2 where both keys are there and of one length
abbrev pub cmp_empty : Option Bytes → ℕ → Option Bytes → ℕ → ℤ
cmp_empty (some a) alen none blen = pos 1
cmp_empty none alen (some b) blen = minus_one
cmp_empty none alen none blen = pos 0
cmp_empty (some a) alen (some b) blen =
    if ltb blen alen then pos 1 else if ltb alen blen then minus_one else pos 2

abbrev pub cmp_numbers : ℕ → ℕ → ℤ
cmp_numbers m n = if ltb m n then minus_one else if m == n then pos 0 else pos 1

-- What the comparators of numbers do with the result of cmp_empty; a NULL key is not read.
abbrev pub undecided : ℤ → (Bytes → ℕ) → Option Bytes → Option Bytes → ℤ
undecided (pos (suc (suc zero))) number_at (some a) (some b) =
    cmp_numbers (number_at a) (number_at b)
undecided ret number_at a b = ret

abbrev pub cmp_int_compare : Option Bytes → ℕ → Option Bytes → ℕ → ℤ
cmp_int_compare a alen b blen = undecided (cmp_empty a alen b blen) (λ p. u32_at p) a b

pub cmp_lint_compare : Option Bytes → ℕ → Option Bytes → ℕ → ℤ
cmp_lint_compare a alen b blen = undecided (cmp_empty a alen b blen) (λ p. u64_at p) a b

-- How far the loop of cmp_string_compare gets from `idx` on, where `alen` and `blen` are what is left
-- of the lengths.
pub string_loop : ℕ → ℕ → Bytes → Bytes → ℕ → ℕ
string_loop zero blen a b idx = idx
string_loop (suc alen) zero a b idx = idx
string_loop (suc alen) (suc blen) a b idx =
    let rest = string_loop alen blen a b (idx + 1) in
    if (a idx == b idx) && not (a idx == 0) && not (b idx == 0) then rest else idx

-- a character is signed
char_less : ℕ → ℕ → Bool
char_less x y = ltb ((x + 128) % 256) ((y + 128) % 256)

-- The tests behind the loop, where `x` and `y` are the characters at `idx`.
decide_at : ℕ → ℕ → ℕ → ℕ → ℕ → ℤ
unfolding char_less
decide_at alen blen idx x y =
    if (x == 0) && (y == 0)
    then pos 0
    else if (alen == blen) && (idx == alen)
    then pos 0
    else if (if alen == idx then true else x == 0) && ltb alen blen
    then minus_one
    else if (if blen == idx then true else y == 0) && ltb blen alen
    then pos 1
    else if char_less y x
    then pos 1
    else minus_one

pub cmp_string_compare : Option Bytes → ℕ → Option Bytes → ℕ → ℤ
unfolding string_loop decide_at
cmp_string_compare (some a) alen none blen = pos 1
cmp_string_compare none alen (some b) blen = minus_one
cmp_string_compare none alen none blen = pos 0
cmp_string_compare (some a) alen (some b) blen =
    let idx = string_loop alen blen a b 0 in decide_at alen blen idx (a idx) (b idx)

-- The sign of memcmp's result.
abbrev pub memcmp : Bytes → Bytes → ℕ → ℤ
memcmp a b zero = pos 0
memcmp a b (suc n) =
    let rest = memcmp (λ i. a (suc i)) (λ i. b (suc i)) n in
    if ltb (a 0) (b 0) then minus_one else if ltb (b 0) (a 0) then pos 1 else rest

-- The end of cmp_byte_compare, with the result of cmp_empty.
abbrev pub by_bytes : ℤ → Option Bytes → Option Bytes → ℕ → ℤ
by_bytes (pos (suc (suc zero))) (some a) (some b) alen = memcmp a b alen
by_bytes ret a b alen = ret

abbrev pub cmp_byte_compare : Option Bytes → ℕ → Option Bytes → ℕ → ℤ
cmp_byte_compare a alen b blen = by_bytes (cmp_empty a alen b blen) a b alen
