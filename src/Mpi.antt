-- ===== src/Mpi.antt =====
-- src/mpi_to_openshmem.c: MPI calls over OpenSHMEM.
pub mod Datatypes
pub mod Shmem
pub mod Groups
pub mod Pack
pub mod Blocking
pub mod Requests
pub mod Allgather
pub mod Gather
pub mod Bcast
pub mod Gatherv
