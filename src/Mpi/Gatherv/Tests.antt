-- ===== src/Mpi/Gatherv/Tests.antt =====
-- MPI_Gatherv of two ints from each of two processes.
use mpi_to_openshmem.Prelude.{ℕ, ◌+◌, ◌*◌, ◌==◌, if◌then◌else◌}
use mpi_to_openshmem.Floats.{Bytes}
use mpi_to_openshmem.Mpi.Datatypes.{mpi_int}
use mpi_to_openshmem.Mpi.Gatherv.{Gatherv}

abbrev two_each : Gatherv
two_each = record {
  sendcount = λ p. 2;
  sendtype = mpi_int;
  recvcount = λ p. 2;
  displs = λ p. if p == 0 then 0 else 2;
  recvtype = mpi_int;
}

abbrev numbers : ℕ → Bytes
numbers i k = 10 * i + k

abbrev nothing : ℕ → Bytes
nothing i k = 0
