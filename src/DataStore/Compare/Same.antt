-- ===== src/DataStore/Compare/Same.antt =====
-- The comparators find a key to be the same as itself: those of strings and bytes at any length, those of
-- numbers if it has the 4 or 8 bytes that they read.
use mpi_to_openshmem.Prelude.{
  ℕ, zero, suc, ◌+◌, ◌<◌, ◌≡◌, refl, true, false, some, ltb, ◌==◌, arith, ◌≤◌,
}
use mpi_to_openshmem.Partitioner.Keys.{u32_at, u64_at}
use mpi_to_openshmem.Prelude.Int.{ℤ, pos}
use mpi_to_openshmem.Floats.{Bytes}
use mpi_to_openshmem.Messages.Types.{Data}
use mpi_to_openshmem.Messages.Packing.Holds.{Same}
use mpi_to_openshmem.DataStore.Compare.{
  memcmp, cmp_byte_compare, string_loop, decide_at, cmp_string_compare, cmp_numbers,
  cmp_int_compare, cmp_lint_compare,
}

-- The comparator of a database of byte keys.
abbrev pub byte_compare : Data → Data → ℤ
byte_compare a b = cmp_byte_compare (some a.bytes) a.len (some b.bytes) b.len

abbrev pub string_compare : Data → Data → ℤ
unfolding cmp_string_compare
string_compare a b = cmp_string_compare (some a.bytes) a.len (some b.bytes) b.len

memcmp_same : (a b : Bytes) (n : ℕ) → ((k : ℕ) → k < n → a k ≡ b k) → memcmp a b n ≡ pos 0
memcmp_same a b zero same = refl
memcmp_same a b (suc n) same =
    let first = same 0 (omega arith) in
    let less : ltb (a 0) (b 0) ≡ false = grind arith in
    let more : ltb (b 0) (a 0) ≡ false = grind arith in
    let rest =
      memcmp_same (λ i. a (suc i)) (λ i. b (suc i)) n (λ k l. same (suc k) (omega arith)) in
    rw (less, more) rest

pub byte_compare-Same : (a b : Data) → Same a b → byte_compare a b ≡ pos 0
byte_compare-Same a b (len, bytes) =
    let less : ltb a.len b.len ≡ false = grind arith in
    let more : ltb b.len a.len ≡ false = grind arith in
    rw (more, less) (memcmp_same a.bytes b.bytes a.len (λ k l. bytes k (omega arith)))

string_same :
    (n len idx : ℕ) (a b : Bytes)
    → idx + n ≡ len
    → ((k : ℕ) → k < len → a k ≡ b k)
    → let i = string_loop n n a b idx in decide_at len len i (a i) (b i) ≡ pos 0
unfolding string_loop decide_at
string_same zero len idx a b e same =
    let end : (idx == len) ≡ true = grind arith in ground (arith, end)
string_same (suc n) len idx a b e same =
    let here = same idx (omega arith) in
    let rest = string_same n len (idx + 1) a b (omega arith) same in ground (arith, here, rest)

pub string_compare-Same : (a b : Data) → Same a b → string_compare a b ≡ pos 0
unfolding cmp_string_compare
string_compare-Same a b (len, bytes) =
    rw len (string_same b.len b.len 0 a.bytes b.bytes (omega arith) bytes)

abbrev pub int_compare : Data → Data → ℤ
int_compare a b = cmp_int_compare (some a.bytes) a.len (some b.bytes) b.len

abbrev pub long_int_compare : Data → Data → ℤ
long_int_compare a b = cmp_lint_compare (some a.bytes) a.len (some b.bytes) b.len

cmp_numbers_same : (m n : ℕ) → m ≡ n → cmp_numbers m n ≡ pos 0
cmp_numbers_same m n e = ground (arith, e)

u32_at_same : (p q : Bytes) → ((k : ℕ) → k < 4 → p k ≡ q k) → u32_at p ≡ u32_at q
u32_at_same p q same =
    let e0 = same 0 (omega arith) in
    let e1 = same 1 (omega arith) in
    let e2 = same 2 (omega arith) in let e3 = same 3 (omega arith) in omega (arith, e0, e1, e2, e3)

u64_at_same : (p q : Bytes) → ((k : ℕ) → k < 8 → p k ≡ q k) → u64_at p ≡ u64_at q
u64_at_same p q same =
    let low = u32_at_same p q (λ k l. same k (omega arith)) in
    let high = u32_at_same (λ i. p (4 + i)) (λ i. q (4 + i)) (λ k l. same (4 + k) (omega arith)) in
    omega (arith, low, high)

pub int_compare-Same : (a b : Data) → 4 ≤ b.len → Same a b → int_compare a b ≡ pos 0
int_compare-Same a b wide (len, bytes) =
    let less : ltb a.len b.len ≡ false = grind arith in
    let more : ltb b.len a.len ≡ false = grind arith in
    let e = u32_at_same a.bytes b.bytes (λ k l. bytes k (omega arith)) in
    rw (more, less) (cmp_numbers_same (u32_at a.bytes) (u32_at b.bytes) e)

pub long_int_compare-Same : (a b : Data) → 8 ≤ b.len → Same a b → long_int_compare a b ≡ pos 0
unfolding cmp_lint_compare
long_int_compare-Same a b wide (len, bytes) =
    let less : ltb a.len b.len ≡ false = grind arith in
    let more : ltb b.len a.len ≡ false = grind arith in
    let e = u64_at_same a.bytes b.bytes (λ k l. bytes k (omega arith)) in
    rw (more, less) (cmp_numbers_same (u64_at a.bytes) (u64_at b.bytes) e)
