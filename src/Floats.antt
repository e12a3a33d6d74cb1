-- ===== src/Floats.antt =====
-- The machine's floating point numbers, which the language has not: a parameter of what uses them.
pub mod Whole
use mpi_to_openshmem.Prelude.{ℕ, Bool}

-- The bytes at an address and behind it. What lies past the end of a buffer is some byte too.
abbrev pub Bytes : Type 0
Bytes = ℕ → ℕ

-- `Real` is `long double`; `float` and `double` are widened to it, which is exact.
pub record Floats : Type 1 where
  pub Real : Type 0
  pub zero : Real
  pub of_nat : ℕ → Real
  pub add : Real → Real → Real
  pub mul : Real → Real → Real
  -- pow(2, -k)
  pub pow2_neg : ℕ → Real
  pub floor : Real → Real
  pub fabs : Real → Real
  -- (uint64_t) x
  pub to_u64 : Real → ℕ
  pub lt : Real → Real → Bool
  -- *(float *) p and *(double *) p
  pub float_at : Bytes → Real
  pub double_at : Bytes → Real
  -- the first eight bytes of a long double, and a long double whose first eight bytes are these
  pub to_bits : Real → ℕ
  pub of_bits : ℕ → Real
