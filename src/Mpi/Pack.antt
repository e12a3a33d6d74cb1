-- ===== src/Mpi/Pack.antt =====
-- MPI_Pack and MPI_Unpack of src/mpi_to_openshmem.c. The logging is left out, and so are the locks,
-- which each path gives back. The rank is that of MPI_Comm_rank. Where an int overflows or is a negative size the result is `none`.
pub mod Sequence
pub mod Private
pub mod Outcome
pub mod AtOnce
mod Tests
use mpi_to_openshmem.Prelude.{ℕ, ◌+◌, ltb, leb, Option, none, some, if◌then◌else◌}
use mpi_to_openshmem.Mpi.Datatypes.{
  mpi_success, mpi_err_no_space, mpi_err_comm, i32_mod, get_num_bytes, write,
}
use mpi_to_openshmem.Mpi.Groups.{Comm}
use mpi_to_openshmem.Mpi.Shmem.{Memory, Shmem, set_buffer}

-- A buffer of the user's: a symmetric one (for shmem_addr_accessible), or one of the caller's own memory.
pub data Buffer : Type 0 where
  symmetric : ℕ → Buffer
  own : (ℕ → ℕ) → Buffer

pub record Packed : Type 0 where
  pub ret : ℕ
  pub memory : Memory
  pub outbuf : Buffer
  pub position : ℕ

pub record Unpacked : Type 0 where
  pub ret : ℕ
  pub memory : Memory
  pub outbuf : ℕ → ℕ
  pub position : ℕ

module _ (shmem : Shmem) (my_pe : ℕ) where
  unfoldable pub put_packed : Memory → (ℕ → ℕ) → ℕ → Buffer → ℕ → Comm → Packed
  put_packed m inbuf num_bytes (symmetric a) position comm = record {
    ret = mpi_success;
    memory = shmem.fence (shmem.putmem m a position inbuf num_bytes comm.group.rank);
    outbuf = symmetric a;
    position = position + num_bytes;
  }
  put_packed m inbuf num_bytes (own bytes) position comm =
      let m' =
        shmem.fence (shmem.putmem m comm.buffer_ptr position inbuf num_bytes comm.group.rank) in
      record {
        ret = mpi_success;
        memory = m';
        outbuf = own (write bytes 0 (m' my_pe comm.buffer_ptr) num_bytes);
        position = position + num_bytes;
      }

  pack_bytes : Memory → (ℕ → ℕ) → ℕ → Buffer → ℕ → ℕ → Comm → Option Packed
  pack_bytes m inbuf num_bytes outbuf outsize position comm =
      if leb i32_mod (num_bytes + position)
      then none
      else if ltb outsize (num_bytes + position)
      then some
          (record { ret = mpi_err_no_space; memory = m; outbuf = outbuf; position = position })
      else some (put_packed m inbuf num_bytes outbuf position comm)

  pub mpi_pack : Memory → (ℕ → ℕ) → ℕ → ℕ → Buffer → ℕ → ℕ → Option Comm → Option Packed
  unfolding pack_bytes
  mpi_pack m inbuf incount datatype outbuf outsize position none =
      some (record { ret = mpi_err_comm; memory = m; outbuf = outbuf; position = position })
  mpi_pack m inbuf incount datatype outbuf outsize position (some comm) =
      elim (get_num_bytes incount datatype) [
        | none ↦ none
        | some num_bytes ↦ pack_bytes m inbuf num_bytes outbuf outsize position comm
      ]

  -- CopyMyData goes by the same number of bytes. The symmetric buffer to unpack from: the user's, or the scratch buffer with the user's data.
  pub sym_inbuf : Memory → Buffer → ℕ → Comm → Memory × ℕ
  unfolding set_buffer
  sym_inbuf m (symmetric a) num_bytes comm = (m, a)
  sym_inbuf m (own bytes) num_bytes comm = (
    set_buffer m my_pe comm.buffer_ptr (write (m my_pe comm.buffer_ptr) 0 bytes num_bytes),
    comm.buffer_ptr,
  )

  unpack_bytes : Memory × ℕ → ℕ → ℕ → (ℕ → ℕ) → ℕ → Comm → Option Unpacked
  unpack_bytes (m, a) insize position outbuf num_bytes comm =
      if leb i32_mod (num_bytes + position)
      then none
      else if ltb insize (num_bytes + position)
      then some
          (record { ret = mpi_err_no_space; memory = m; outbuf = outbuf; position = position })
      else some (record {
        ret = mpi_success;
        memory = m;
        outbuf = shmem.getmem m outbuf a position num_bytes comm.group.rank;
        position = position + num_bytes;
      })

  pub mpi_unpack : Memory → Buffer → ℕ → ℕ → (ℕ → ℕ) → ℕ → ℕ → Option Comm → Option Unpacked
  unfolding unpack_bytes sym_inbuf
  mpi_unpack m inbuf insize position outbuf outcount datatype none =
      some (record { ret = mpi_err_comm; memory = m; outbuf = outbuf; position = position })
  mpi_unpack m inbuf insize position outbuf outcount datatype (some comm) =
      elim (get_num_bytes outcount datatype) [
        | none ↦ none
        | some num_bytes ↦
            unpack_bytes (sym_inbuf m inbuf num_bytes comm) insize position outbuf num_bytes comm
      ]
