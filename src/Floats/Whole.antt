-- ===== src/Floats/Whole.antt =====
-- Whole numbers as a crude stand-in for the floating point numbers, on which the definitions run.
use mpi_to_openshmem.Prelude.{ℕ, ◌+◌, ◌*◌, ◌/◌, ◌^◌, ltb}
use mpi_to_openshmem.Floats.{Floats}

abbrev pub whole : Floats
whole = record {
  Real = ℕ;
  zero = 0;
  of_nat = λ n. n;
  add = λ a b. a + b;
  mul = λ a b. a * b;
  pow2_neg = λ k. 1 / 2 ^ k;
  floor = λ x. x;
  fabs = λ x. x;
  to_u64 = λ x. x;
  lt = ltb;
  float_at = λ p. p 0;
  double_at = λ p. p 0;
  to_bits = λ x. x;
  of_bits = λ x. x;
}
