-- ===== src/Mpi/Gatherv/Rest.antt =====
-- What MPI_Gatherv does not deliver.
use mpi_to_openshmem.Mpi.Shmem.{Shmem}
use mpi_to_openshmem.Mpi.Gatherv.{Gatherv}
