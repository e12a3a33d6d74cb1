-- ===== src/Mpi/Allgather.antt =====
-- MPI_Allgather of src/mpi_to_openshmem.c, as all processes call it: what they do before the first
-- barrier, shmem_fcollect64 between the barriers, and what each does after the second. The locks, the
-- logging and pSync are left out.
pub mod Blocks
mod Tests
use mpi_to_openshmem.Prelude.{
  ℕ, ◌+◌, ◌*◌, ◌≤◌, ◌<◌, ◌≡◌, Bool, true, false, ◌&&◌, leb, ltb, ◌==◌, if◌then◌else◌, Option, none,
  some,
}
use mpi_to_openshmem.Floats.{Bytes}
use mpi_to_openshmem.Mpi.Datatypes.{
  mpi_err_comm, mpi_err_buffer, get_num_bytes, i32_mod, write, copy_my_data,
}
use mpi_to_openshmem.Mpi.Groups.{Comm}
use mpi_to_openshmem.Mpi.Shmem.{Memory}

-- The argument of each process: one symmetric buffer, or its own.
pub data Buffers : Type 0 where
  symmetric : ℕ → Buffers
  own : (ℕ → Bytes) → Buffers

-- shmem_fcollect64 (memory, target, offset, source, nelems) by `num_pes` processes, whose source starts
-- at byte 0: the elements of 64 bits of all, one process behind the other, at the target of each, which
-- does not overlap the source.
pub record Collects (num_pes : ℕ) : Type 0 where
  pub fcollect64 : Memory → ℕ → ℕ → ℕ → ℕ → Memory
  pub fcollect64_lem :
      (m : Memory) (target offset source nelems pe i j : ℕ)
      → (target ≡ source → 8 * nelems ≤ offset)
      → pe < num_pes
      → i < num_pes
      → j < 8 * nelems
      → fcollect64 m target offset source nelems pe target (offset + (8 * nelems * i + j))
        ≡ m i source j

-- What the process has: its return code, or the memory and what is in its recvbuf; or an int overflows.
pub data Gathered : Type 0 where
  refused : ℕ → Gathered
  gathered : Memory → Bytes → Gathered
  fault : Gathered

-- After a copy to recvbuf.
abbrev pub or_fault : Memory → Option Bytes → Gathered
or_fault m none = fault
or_fault m (some buf) = gathered m buf

-- The processes copy their send buffers into the symmetric buffer `a`.
unfoldable pub copy_all : ℕ → Memory → ℕ → (ℕ → Bytes) → ℕ → Memory
copy_all num_pes m a bytes n p b =
    if b == a && ltb p num_pes then write (m p b) 0 (bytes p) n else m p b

module _ (num_pes : ℕ) (calls : Collects num_pes) (my_pe : ℕ) where
  -- A receive buffer that is symmetric has the data; any other gets a copy of them.
  unfoldable pub collect_blocks : Memory → ℕ → ℕ → ℕ → ℕ → Buffers → Gathered
  collect_blocks m source a index sendcount (symmetric b) =
      let m' = calls.fcollect64 m b 0 source sendcount in gathered m' (m' my_pe b)
  collect_blocks m source a index sendcount (own bytes) =
      let m' = calls.fcollect64 m a index source sendcount in
      gathered m' (λ k. m' my_pe a (index + k))

  -- The copy at the end, of sendcount * numPes items.
  unfoldable pub copied : Buffers → ℕ → ℕ → Gathered → Gathered
  copied (symmetric b) sendcount recvtype r = r
  copied (own bytes) sendcount recvtype (gathered m received) =
      let copy = or_fault m (copy_my_data (bytes my_pe) received (sendcount * num_pes) recvtype) in
      if leb i32_mod (sendcount * num_pes) then fault else copy
  copied (own bytes) sendcount recvtype r = r

  -- `comm_offset` is the field offset of the communicator.
  unfoldable pub gather_all : Memory → ℕ → ℕ → Buffers → Buffers → ℕ → ℕ → Gathered
  gather_all m a comm_offset (symmetric s) recvbuf sendcount sendtype =
      collect_blocks m s a 0 sendcount recvbuf
  gather_all m a comm_offset (own bytes) recvbuf sendcount sendtype =
      elim (get_num_bytes sendcount sendtype) [
        | none ↦ fault
        | some n ↦
            let r =
              collect_blocks (copy_all num_pes m a bytes n) a a (comm_offset + n) sendcount
                recvbuf in
            if leb i32_mod (comm_offset + n) then fault else r
      ]

  -- recvcount is not used.
  unfoldable pub mpi_allgather :
      Memory → Option Comm → ℕ → Option Buffers → ℕ → ℕ → Option Buffers → ℕ → Gathered
  mpi_allgather m none comm_offset sendbuf sendcount sendtype recvbuf recvtype =
      refused mpi_err_comm
  mpi_allgather m (some comm) comm_offset none sendcount sendtype recvbuf recvtype =
      refused mpi_err_buffer
  mpi_allgather m (some comm) comm_offset (some send) sendcount sendtype none recvtype =
      refused mpi_err_buffer
  mpi_allgather m (some comm) comm_offset (some send) sendcount sendtype (some recv) recvtype =
      copied recv sendcount recvtype
        (gather_all m comm.buffer_ptr comm_offset send recv sendcount sendtype)
