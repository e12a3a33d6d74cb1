-- ===== src/Mpi/Gather/Tests.antt =====
-- MPI_Gather of two processes, of which the second puts first.
use mpi_to_openshmem.Prelude.{
  ℕ, zero, suc, ◌+◌, ◌*◌, ◌<◌, ◌≡◌, refl, inl, inr, [], ◌∷◌, some, arith,
}
use mpi_to_openshmem.Floats.{Bytes}
use mpi_to_openshmem.Mpi.Datatypes.{
  mpi_int, mpi_unsigned, type_size, long_num_bytes, one_of, i32_mod,
}
use mpi_to_openshmem.Mpi.Shmem.{Memory}
use mpi_to_openshmem.Mpi.Pack.AtOnce.{at_once, comm_of, blank}
use mpi_to_openshmem.Mpi.Allgather.{own, gathered}
use mpi_to_openshmem.Mpi.Gather.{mpi_gather}
use mpi_to_openshmem.Mpi.Gather.Puts.{Occurs}
use mpi_to_openshmem.Mpi.Gather.Rooted.{mpi_gather-sent_by}

abbrev numbers : ℕ → Bytes
numbers i k = 10 * i + k

abbrev nothing : ℕ → Bytes
nothing i k = 0

both : (i : ℕ) → i < 2 → Occurs i (1 ∷ 0 ∷ [])
both zero low = inr (inl refl)
both (suc zero) low = inl refl
both (suc (suc i)) low = absurd (omega arith)

same_size : type_size mpi_unsigned ≡ type_size mpi_int
unfolding type_size one_of
same_size = refl

int_bytes : long_num_bytes 3 mpi_int ≡ 12
unfolding long_num_bytes type_size one_of
int_bytes = refl

fits : 0 + long_num_bytes 3 mpi_int < i32_mod
fits = let bytes = int_bytes in omega arith

all_fit : long_num_bytes (3 * 2) mpi_unsigned < i32_mod
unfolding long_num_bytes type_size one_of
all_fit = omega arith

mpi_gather-sent_by_example :
    let n = long_num_bytes 3 mpi_int in
    (m' : Memory) × (buf : Bytes) × (mpi_gather at_once 2 0 0 blank
        (some (comm_of 0))
        0
        (1 ∷ 0 ∷ [])
        (some (own numbers))
        3
        mpi_int
        (some (own nothing))
        mpi_unsigned
      ≡ gathered m' buf)
    × ((i j : ℕ) → i < 2 → j < n → buf (n * i + j) ≡ numbers i j)
mpi_gather-sent_by_example =
    mpi_gather-sent_by at_once 2 0 blank (comm_of 0) 0 (1 ∷ 0 ∷ []) (own numbers) (own nothing) 3
      mpi_int mpi_unsigned same_size tt fits (omega arith) all_fit both
