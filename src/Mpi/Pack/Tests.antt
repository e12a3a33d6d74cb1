-- ===== src/Mpi/Pack/Tests.antt =====
-- Packing and unpacking on a memory that delivers each put at once.
use mpi_to_openshmem.Prelude.{ℕ, ◌+◌, ◌≡◌, ◌≤◌, List, [], ◌∷◌, some, arith}
use mpi_to_openshmem.Mpi.Datatypes.{long_num_bytes, type_size, one_of, mpi_int, mpi_char}
use mpi_to_openshmem.Mpi.Shmem.{Memory}
use mpi_to_openshmem.Mpi.Pack.AtOnce.{at_once, comm_of, blank}
use mpi_to_openshmem.Mpi.Pack.Sequence.{
  Item, item_bytes, total, Agree, pack_all, unpack_all, pack_all-unpack_all,
}

abbrev two_ints : Item
two_ints = record { count = 2; datatype = mpi_int; bytes = λ k. k + 1 }

abbrev one_char : Item
one_char = record { count = 1; datatype = mpi_char; bytes = λ k. 65 }

abbrev zeros : ℕ → ℕ
zeros k = 0

fits : 0 + total (one_char ∷ two_ints ∷ []) ≤ 16
unfolding total long_num_bytes type_size one_of
fits = omega arith

pack_all-unpack_all_example :
    (m' : Memory) × (outs : List (ℕ → ℕ)) × (pack_all at_once 1
        (comm_of 1)
        3
        16
        blank
        (one_char ∷ two_ints ∷ [])
        0
      ≡ some (m', 0 + total (one_char ∷ two_ints ∷ [])))
    × (unpack_all at_once 1 (comm_of 1) 3 16 zeros m' (one_char ∷ two_ints ∷ []) 0 ≡ some outs)
    × Agree (one_char ∷ two_ints ∷ []) outs
pack_all-unpack_all_example =
    pack_all-unpack_all at_once 1 (comm_of 1) 3 16 zeros blank (one_char ∷ two_ints ∷ []) 0 fits
      (omega arith)

ints_fit_later : 8 + item_bytes two_ints ≤ 16
unfolding long_num_bytes type_size one_of
ints_fit_later = omega arith

ints_behind : item_bytes two_ints ≤ 8
unfolding long_num_bytes type_size one_of
ints_behind = omega arith
