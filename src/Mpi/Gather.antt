-- ===== src/Mpi/Gather.antt =====
-- MPI_Gather of src/mpi_to_openshmem.c, as all processes call it: what they do before the first barrier,
-- their puts between the barriers, in any order, and what each does after the second. The second
-- barrier completes the puts, which is modelled as a fence behind each. The locks and the logging are
-- left out.
pub mod Puts
pub mod Rooted
mod Tests
use mpi_to_openshmem.Prelude.{
  ℕ, ◌+◌, ◌*◌, Bool, List, [], ◌∷◌, leb, ◌==◌, if◌then◌else◌, Option, none, some,
}
use mpi_to_openshmem.Floats.{Bytes}
use mpi_to_openshmem.Mpi.Datatypes.{
  mpi_err_comm, mpi_err_buffer, long_num_bytes, get_num_bytes, i32_mod, copy_my_data,
}
use mpi_to_openshmem.Mpi.Groups.{Comm}
use mpi_to_openshmem.Mpi.Shmem.{Memory, Shmem}
use mpi_to_openshmem.Mpi.Allgather.{
  Buffers, symmetric, own, Gathered, refused, gathered, fault, or_fault, copy_all,
}

-- The symmetric buffer and the byte in it from which the data of the processes go to the root.
pub record Target : Type 0 where
  pub buffer : ℕ
  pub index : ℕ

-- symRecv: the receive buffer, or the communicator's at `index`.
unfoldable pub target_of : ℕ → ℕ → Buffers → Target
target_of a index (symmetric b) = record { buffer = b; index = 0 }
target_of a index (own bytes) = record { buffer = a; index = index }

module _ (shmem : Shmem) (num_pes : ℕ) (root : ℕ) where
  -- The put of one process: `n` bytes from the start of its source to its block.
  unfoldable pub put_block : Memory → ℕ → Target → ℕ → ℕ → Memory
  put_block m source t n pe =
      shmem.fence (shmem.putmem m t.buffer (t.index + n * pe) (m pe source) n root)

  -- The puts as they come.
  pub put_blocks : Memory → ℕ → Target → ℕ → List ℕ → Memory
  put_blocks m source t n [] = m
  put_blocks m source t n (pe ∷ order) = put_blocks (put_block m source t n pe) source t n order

  module _ (my_pe : ℕ) where
    -- What is in recvbuf at the end: the root copies it, if it is not symmetric.
    unfoldable pub received : Memory → Target → Buffers → ℕ → ℕ → Gathered
    received m t (symmetric b) sendcount recvtype = gathered m (m my_pe b)
    received m t (own bytes) sendcount recvtype =
        let from : Bytes = λ k. m root t.buffer (t.index + k) in
        let copy = or_fault m (copy_my_data (bytes my_pe) from (sendcount * num_pes) recvtype) in
        let at_root = if leb i32_mod (sendcount * num_pes) then fault else copy in
        if my_pe == root then at_root else gathered m (bytes my_pe)

    -- Both barriers, the puts and the end.
    unfoldable pub gather_to : Memory → ℕ → Target → ℕ → List ℕ → Buffers → ℕ → ℕ → Gathered
    gather_to m source t n order recvbuf sendcount recvtype =
        let r = received (put_blocks m source t n order) t recvbuf sendcount recvtype in
        if leb i32_mod (sendcount * num_pes) then fault else r

    -- `comm_offset` is the field offset of the communicator, with which GetBufferOffset reckons.
    unfoldable pub gather_from : Memory → ℕ → ℕ → List ℕ → Buffers → Buffers → ℕ → ℕ → ℕ → Gathered
    gather_from m a comm_offset order (symmetric s) recvbuf sendcount sendtype recvtype =
        gather_to m s (target_of a 0 recvbuf) (long_num_bytes sendcount sendtype) order recvbuf
          sendcount recvtype
    gather_from m a comm_offset order (own bytes) recvbuf sendcount sendtype recvtype =
        elim (get_num_bytes sendcount sendtype) [
          | none ↦ fault
          | some n ↦
              let r =
                gather_to (copy_all num_pes m a bytes n) a (target_of a (comm_offset + n) recvbuf)
                  (long_num_bytes sendcount sendtype) order recvbuf sendcount recvtype in
              if leb i32_mod (comm_offset + n) then fault else r
        ]

    -- `order` is the order in which the puts of the processes come. recvcount is not used.
    unfoldable pub mpi_gather :
        Memory → Option Comm → ℕ → List ℕ → Option Buffers → ℕ → ℕ → Option Buffers → ℕ → Gathered
    mpi_gather m none comm_offset order sendbuf sendcount sendtype recvbuf recvtype =
        refused mpi_err_comm
    mpi_gather m (some comm) comm_offset order none sendcount sendtype recvbuf recvtype =
        refused mpi_err_buffer
    mpi_gather m (some comm) comm_offset order (some send) sendcount sendtype none recvtype =
        refused mpi_err_buffer
    mpi_gather m (some comm) comm_offset order (some send) sendcount sendtype (some recv) recvtype =
        gather_from m comm.buffer_ptr comm_offset order send recv sendcount sendtype recvtype
