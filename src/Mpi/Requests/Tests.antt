-- ===== src/Mpi/Requests/Tests.antt =====
-- Requests at concrete inputs.
use mpi_to_openshmem.Prelude.{ℕ, ◌+◌, ◌*◌, ◌≡◌, ◌≤◌, ◌<◌, false, some, arith}
use mpi_to_openshmem.Floats.{Bytes}
use mpi_to_openshmem.Mpi.Datatypes.{mpi_int, long_num_bytes, type_size, one_of, i32_mod}
use mpi_to_openshmem.Mpi.Shmem.{Memory}
use mpi_to_openshmem.Mpi.Pack.AtOnce.{at_once, comm_of, blank}
use mpi_to_openshmem.Mpi.Blocking.AtOnce.{at_once_polls}
use mpi_to_openshmem.Mpi.Requests.{MpiRequest, started, mpi_irecv, mpi_isend, mpi_test}
use mpi_to_openshmem.Mpi.Requests.Progress.{mpi_irecv-mpi_test, mpi_isend-mpi_test}

abbrev two_ints : Bytes
two_ints k = k + 1

abbrev zeros : Bytes
zeros k = 0

ints_wide : 4 * 2 ≤ long_num_bytes 2 mpi_int
unfolding long_num_bytes type_size one_of
ints_wide = omega arith

ints_fit : 0 + long_num_bytes 2 mpi_int < i32_mod
unfolding long_num_bytes type_size one_of
ints_fit = omega arith

mpi_irecv-mpi_test_example :
    (buf' : Bytes) × (r : MpiRequest) × (mpi_irecv at_once blank
        (some (comm_of 1))
        two_ints
        2
        mpi_int
        0
        5
      ≡ started buf' r)
    × ((j : ℕ) → j < long_num_bytes 2 mpi_int → buf' j ≡ 0)
    × (mpi_test at_once at_once_polls blank r ≡ 1)
mpi_irecv-mpi_test_example =
    mpi_irecv-mpi_test at_once at_once_polls blank (comm_of 1) two_ints 2 mpi_int 0 5
      (λ e. omega arith) (omega arith)

mpi_isend-mpi_test_example :
    (m' : Memory) × (r : MpiRequest) × (mpi_isend at_once 0 blank
        (some (comm_of 0))
        0
        false
        two_ints
        2
        mpi_int
        1
        5
      ≡ started m' r)
    × ((j : ℕ) → j < long_num_bytes 2 mpi_int → at_once.fence m' 1 9 j ≡ two_ints j)
    × (mpi_test at_once at_once_polls (at_once.fence m') r ≡ 1)
mpi_isend-mpi_test_example =
    mpi_isend-mpi_test at_once at_once_polls 0 blank (comm_of 0) 0 false two_ints 2 mpi_int 1 5
      (λ e. omega arith) (omega arith) ints_wide ints_fit
