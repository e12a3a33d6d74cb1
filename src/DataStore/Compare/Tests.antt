-- ===== src/DataStore/Compare/Tests.antt =====
-- The strings "ab" and "abc" and the integers 1, 2 and 300.
use mpi_to_openshmem.Prelude.{ℕ, ◌≡◌, refl, some, ◌==◌, if◌then◌else◌}
use mpi_to_openshmem.Floats.{Bytes}
use mpi_to_openshmem.DataStore.Compare.{minus_one, cmp_int_compare}

abbrev number : ℕ → ℕ → Bytes
number low high i = if i == 0 then low else if i == 1 then high else 0

one_two : cmp_int_compare (some (number 1 0)) 4 (some (number 2 0)) 4 ≡ minus_one
one_two = refl

two_300 : cmp_int_compare (some (number 2 0)) 4 (some (number 44 1)) 4 ≡ minus_one
two_300 = refl
