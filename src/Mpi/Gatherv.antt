-- ===== src/Mpi/Gatherv.antt =====
-- MPI_Gatherv of src/mpi_to_openshmem.c, as all processes call it with the same arrays of counts and
-- displacements, and with send counts of their own. The locks and the logging are left out. A fault is
-- an int that overflows, a number of bytes to copy that is no int, or a flag or an address that is read before it is set.
pub mod Rest
mod Tests
use mpi_to_openshmem.Prelude.{
  ℕ, zero, suc, ◌+◌, ◌*◌, Bool, true, false, ◌||◌, List, [], ◌∷◌, leb, ltb, ◌==◌, if◌then◌else◌,
  Option, none, some,
}
use mpi_to_openshmem.Floats.{Bytes}
use mpi_to_openshmem.Mpi.Datatypes.{
  mpi_err_comm, mpi_err_buffer, mpi_int, type_size, long_num_bytes, i32_mod, write, copy_my_data,
}
use mpi_to_openshmem.Mpi.Groups.{Comm}
use mpi_to_openshmem.Mpi.Shmem.{Memory, Shmem}
use mpi_to_openshmem.Mpi.Allgather.{
  Buffers, symmetric, own, Gathered, refused, gathered, fault, or_fault,
}

-- MPI_ERR_SIZE
abbrev mpi_err_size : ℕ
mpi_err_size = 5

-- The arguments that are the same at all processes, but for the send counts.
pub record Gatherv : Type 0 where
  pub sendcount : ℕ → ℕ
  pub sendtype : ℕ
  pub recvcount : ℕ → ℕ
  pub displs : ℕ → ℕ
  pub recvtype : ℕ

-- totalNumSent: the sum of the displacements.
pub total_num_sent : Gatherv → ℕ → ℕ
total_num_sent g zero = 0
total_num_sent g (suc n) = g.displs n + total_num_sent g n

-- A process asks for more than it sends.
abbrev is_short : Gatherv → ℕ → Bool
is_short g pe = ltb (g.sendcount pe) (g.recvcount pe)

pub any_short : Gatherv → ℕ → Bool
any_short g zero = false
any_short g (suc n) = is_short g n || any_short g n

module _ (shmem : Shmem) (num_pes : ℕ) (root : ℕ) (g : Gatherv) (a comm_offset : ℕ) where
  -- recvBufIndex of a process, behind its own data.
  abbrev pub index_of : ℕ → ℕ
  index_of pe = comm_offset + long_num_bytes (g.sendcount pe) g.sendtype

  -- What the processes copy into the communicator's buffer: their data, and then their receive buffers.
  unfoldable pub copy_buffers : Memory → (ℕ → Bytes) → (ℕ → Bytes) → Memory
  copy_buffers m send recv pe b =
      let sent = write (m pe a) 0 (send pe) (long_num_bytes (g.sendcount pe) g.sendtype) in
      let n = long_num_bytes (total_num_sent g num_pes) g.recvtype in
      if b == a then write sent (index_of pe) (recv pe) n else m pe b

  -- The put of one process, with its own address.
  unfoldable pub put_at : Memory → ℕ → Memory
  put_at m pe =
      let start = index_of pe + type_size g.sendtype * g.displs pe in
      shmem.fence (shmem.putmem m a start (m pe a) (type_size g.sendtype * g.recvcount pe) root)

  pub puts : Memory → List ℕ → Memory
  puts m [] = m
  puts m (pe ∷ order) = puts (put_at m pe) order

  module _ (my_pe : ℕ) where
    -- What is in recvbuf at the end: the root copies it back, as items of MPI_INT.
    unfoldable pub copied_back : Memory → (ℕ → Bytes) → Gathered
    copied_back m recv =
        let from : Bytes = λ k. m root a (index_of root + k) in
        let copy = copy_my_data (recv my_pe) from (total_num_sent g num_pes) mpi_int in
        if my_pe == root then or_fault m copy else gathered m (recv my_pe)

    -- A process that asks for too much returns, and the others wait for it at the barrier: `none`.
    unfoldable pub checked : List ℕ → Memory → (ℕ → Bytes) → Option Gathered
    checked order m recv =
        let r = copied_back (puts m order) recv in
        if is_short g my_pe
        then some (refused mpi_err_size)
        else if any_short g num_pes
        then none
        else some r

    -- The flags for symmetric buffers are set only where a buffer is not symmetric.
    unfoldable pub gather_own : List ℕ → Memory → Buffers → Buffers → Option Gathered
    gather_own order m (own send) (own recv) =
        let r = checked order (copy_buffers m send recv) recv in
        if leb i32_mod (index_of my_pe)
          || leb i32_mod (total_num_sent g num_pes)
          || leb i32_mod (long_num_bytes (total_num_sent g num_pes) g.recvtype)
        then some fault
        else r
    gather_own order m send recv = some fault

module _ (shmem : Shmem) (num_pes root my_pe : ℕ) where
  -- `order` is the order in which the puts of the processes come.
  unfoldable pub mpi_gatherv :
      Gatherv
      → Memory
      → Option Comm
      → ℕ
      → List ℕ
      → Option Buffers
      → Option Buffers
      → Option Gathered
  mpi_gatherv g m none comm_offset order sendbuf recvbuf = some (refused mpi_err_comm)
  mpi_gatherv g m (some comm) comm_offset order none recvbuf = some (refused mpi_err_buffer)
  mpi_gatherv g m (some comm) comm_offset order (some send) none = some (refused mpi_err_buffer)
  mpi_gatherv g m (some comm) comm_offset order (some send) (some recv) =
      gather_own shmem num_pes root g comm.buffer_ptr comm_offset my_pe order m send recv
