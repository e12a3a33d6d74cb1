-- ===== src/Mpi/Requests.antt =====
-- MPI_Irecv, MPI_Isend and MPI_Test of src/mpi_to_openshmem.c. Locks and logging are left out, and
-- shmalloc of an int finds space. A NULL symmetric buffer is 0.
pub mod Progress
mod Tests
use mpi_to_openshmem.Prelude.{
  ℕ, ◌+◌, ◌-◌, ◌*◌, ◌≡◌, Bool, true, false, leb, ◌==◌, if◌then◌else◌, Option, none, some,
}
use mpi_to_openshmem.Floats.{Bytes}
use mpi_to_openshmem.Mpi.Datatypes.{
  mpi_success, mpi_err_comm, mpi_err_buffer, long_num_bytes, i32_mod, write,
}
use mpi_to_openshmem.Mpi.Groups.{Comm}
use mpi_to_openshmem.Mpi.Shmem.{Memory, Shmem, set_buffer}
use mpi_to_openshmem.Mpi.Blocking.{word, Polls}

pub data RequestType : Type 0 where
  irecv : RequestType
  isend : RequestType

-- struct MPID_Request: last_buf_ptr is a symmetric buffer and a byte of it, and `expected` the int that
-- its field points to.
pub record MpiRequest : Type 0 where
  pub request_type : RequestType
  pub rank : ℕ
  pub data_type : ℕ
  pub last_buf : ℕ
  pub last_offset : ℕ
  pub expected : ℕ

-- The return code and, where it is MPI_SUCCESS, the buffer or the memory, and the request.
pub data Started (A : Type 0) : Type 0 where
  started : A → MpiRequest → Started A
  refused : ℕ → Started A
  fault : Started A

-- Byte of ((int *) p)[count - 1].
abbrev pub last_int : ℕ → ℕ
last_int count = 4 * (count - 1)

module _ (shmem : Shmem) where
  unfoldable pub irecv_data : Memory → ℕ → Bytes → ℕ → ℕ → ℕ → Started Bytes
  irecv_data m a buf count datatype source =
      let expected = shmem.getmem m (λ i. 0) a (last_int count) 4 source in
      let buf' = shmem.getmem m buf a 0 (long_num_bytes count datatype) source in
      if count == 0
      then fault
      else started buf' (record {
        request_type = irecv;
        rank = source;
        data_type = datatype;
        last_buf = a;
        last_offset = last_int count;
        expected = word 4 expected;
      })

  unfoldable pub mpi_irecv : Memory → Option Comm → Bytes → ℕ → ℕ → ℕ → ℕ → Started Bytes
  mpi_irecv m none buf count datatype source tag = refused mpi_err_comm
  mpi_irecv m (some comm) buf count datatype source tag =
      let received = irecv_data m comm.buffer_ptr buf count datatype source in
      if comm.buffer_ptr == 0 then refused mpi_err_buffer else received

  -- The int before the end is read from the user's buffer, whatever the type.
  unfoldable pub isend_data : Memory → ℕ → Bytes → Bytes → ℕ → ℕ → ℕ → Started Memory
  isend_data m a buf from count datatype dest =
      if count == 0
      then fault
      else started (shmem.putmem m a 0 from (long_num_bytes count datatype) dest) (record {
        request_type = isend;
        rank = dest;
        data_type = datatype;
        last_buf = a;
        last_offset = last_int count;
        expected = word 4 (λ i. buf (last_int count + i));
      })

  -- A buffer that is not symmetric is copied behind the data in the communicator's, at byte `index`.
  unfoldable pub isend_from : ℕ → Memory → Bool → ℕ → ℕ → Bytes → ℕ → ℕ → ℕ → Started Memory
  isend_from my_pe m true a index buf count datatype dest =
      isend_data m a buf buf count datatype dest
  isend_from my_pe m false a index buf count datatype dest =
      let m1 = set_buffer m my_pe a (write (m my_pe a) index buf (long_num_bytes count datatype)) in
      isend_data m1 a buf (λ i. m1 my_pe a (index + i)) count datatype dest

  -- `accessible` is shmem_addr_accessible of the buffer, and `comm_offset` the communicator's offset.
  unfoldable pub mpi_isend :
      ℕ → Memory → Option Comm → ℕ → Bool → Bytes → ℕ → ℕ → ℕ → ℕ → Started Memory
  mpi_isend my_pe m none comm_offset accessible buf count datatype dest tag = refused mpi_err_comm
  mpi_isend my_pe m (some comm) comm_offset accessible buf count datatype dest tag =
      let index = comm_offset + long_num_bytes count datatype in
      let sent = isend_from my_pe m accessible comm.buffer_ptr index buf count datatype dest in
      if leb i32_mod index
      then fault
      else if comm.buffer_ptr == 0
      then refused mpi_err_buffer
      else sent

-- The flag; the return code is MPI_SUCCESS.
unfoldable pub mpi_test : (shmem : Shmem) → Polls shmem → Memory → MpiRequest → ℕ
mpi_test shmem polls m request =
    let value =
      polls.cswap 4 m request.last_buf request.last_offset request.expected request.expected
        request.rank in
    if value == request.expected then 1 else 0
