-- ===== src/Mpi/Blocking/Tests.antt =====
-- MPI_Send and MPI_Recv at a concrete input.
use mpi_to_openshmem.Prelude.{ℕ, ◌+◌, ◌≡◌, ◌≤◌, ◌<◌, refl, none, some, inl, arith}
use mpi_to_openshmem.Floats.{Bytes}
use mpi_to_openshmem.Mpi.Datatypes.{mpi_char, long_num_bytes, type_size, one_of, i32_mod}
use mpi_to_openshmem.Mpi.Shmem.{Memory}
use mpi_to_openshmem.Mpi.Pack.AtOnce.{at_once, comm_of, blank}
use mpi_to_openshmem.Mpi.Blocking.{SendRecv, sent, mpi_send, mpi_recv, RecvResult}
use mpi_to_openshmem.Mpi.Blocking.AtOnce.{at_once_polls, unchanged, unchanged-Delivers}
use mpi_to_openshmem.Mpi.Blocking.Delivery.{mpi_send-mpi_recv}

abbrev fresh : SendRecv
fresh = record { tag = 0; datatype = none; count = 0; buf_ptr = 9 }

abbrev letters : Bytes
letters k = 65 + k

abbrev zeros : Bytes
zeros k = 0

letters_fit : 0 + long_num_bytes 3 mpi_char < i32_mod
unfolding long_num_bytes type_size one_of
letters_fit = omega arith

narrow : type_size mpi_char ≤ 4
unfolding type_size one_of
narrow = omega arith

mpi_send-mpi_recv_example :
    (m' : Memory) × (i : ℕ) × (i ≤ 0)
    × (mpi_send at_once at_once_polls unchanged 77 1 blank
          (some (comm_of 0))
          0
          fresh
          letters
          3
          mpi_char
          1
          5
        ≡ sent 77 (record { tag = 5; datatype = some mpi_char; count = 3; buf_ptr = 9 }) m')
    × (got : RecvResult) × (mpi_recv 77 1 m' (some (comm_of 1)) fresh zeros 3 mpi_char 0 5
        ≡ some got)
    × ((j : ℕ) → j < long_num_bytes 3 mpi_char → got.buf j ≡ letters j)
mpi_send-mpi_recv_example =
    mpi_send-mpi_recv at_once at_once_polls unchanged 77 0 unchanged-Delivers 1 blank (comm_of 0)
      (comm_of 1) 0 fresh fresh letters zeros 3 mpi_char 1 0 5 5 (omega arith) (omega arith)
      letters_fit refl refl (λ e. inl narrow)
