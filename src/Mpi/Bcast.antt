-- ===== src/Mpi/Bcast.antt =====
-- MPI_Bcast of src/mpi_to_openshmem.c, as all processes call it: what they do before the first barrier,
-- shmem_broadcast64 between the barriers, and what each does after the second. The locks, the logging
-- and pSync are left out.
pub mod Spread
mod Tests
use mpi_to_openshmem.Prelude.{
  ℕ, ◌+◌, ◌*◌, ◌≤◌, ◌<◌, ◌≡◌, ◌≢◌, Bool, leb, ◌==◌, if◌then◌else◌, Option, none, some,
}
use mpi_to_openshmem.Floats.{Bytes}
use mpi_to_openshmem.Mpi.Datatypes.{mpi_err_comm, get_num_bytes, i32_mod, copy_my_data}
use mpi_to_openshmem.Mpi.Groups.{Comm}
use mpi_to_openshmem.Mpi.Shmem.{Memory}
use mpi_to_openshmem.Mpi.Allgather.{
  Buffers, symmetric, own, Gathered, refused, gathered, fault, or_fault, copy_all,
}

-- shmem_broadcast64 (memory, target, offset, source, nelems, root) by `num_pes` processes: the elements
-- of 64 bits from the start of the root's source, at the target of each other process, which does not
-- overlap the source.
pub record Broadcasts (num_pes : ℕ) : Type 0 where
  pub broadcast64 : Memory → ℕ → ℕ → ℕ → ℕ → ℕ → Memory
  pub broadcast64_lem :
      (m : Memory) (target offset source nelems root pe j : ℕ)
      → (target ≡ source → 8 * nelems ≤ offset)
      → pe < num_pes
      → pe ≢ root
      → j < 8 * nelems
      → broadcast64 m target offset source nelems root pe target (offset + j) ≡ m root source j

module _ (num_pes : ℕ) (calls : Broadcasts num_pes) (my_pe : ℕ) where
  -- What is in the buffer of the process: a process other than the root copies it.
  unfoldable pub from_root : Memory → ℕ → ℕ → Bytes → ℕ → ℕ → ℕ → Gathered
  from_root m target offset buffer count datatype root =
      let copied = copy_my_data buffer (λ k. m my_pe target (offset + k)) count datatype in
      if my_pe == root then gathered m buffer else or_fault m copied

  -- `comm_offset` is the field offset of the communicator, with which GetBufferOffset reckons.
  unfoldable pub mpi_bcast : Memory → Option Comm → ℕ → Buffers → ℕ → ℕ → ℕ → Gathered
  mpi_bcast m none comm_offset source count datatype root = refused mpi_err_comm
  mpi_bcast m (some comm) comm_offset (symmetric s) count datatype root =
      let a = comm.buffer_ptr in
      let m' = calls.broadcast64 m a 0 s count root in
      from_root m' a 0 (m' my_pe s) count datatype root
  mpi_bcast m (some comm) comm_offset (own bytes) count datatype root =
      let a = comm.buffer_ptr in
      elim (get_num_bytes count datatype) [
        | none ↦ fault
        | some n ↦
            let m' =
              calls.broadcast64 (copy_all num_pes m a bytes n) a (comm_offset + n) a count root in
            let r = from_root m' a (comm_offset + n) (bytes my_pe) count datatype root in
            if leb i32_mod (comm_offset + n) then fault else r
      ]
