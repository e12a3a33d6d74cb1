-- ===== src/Mpi/Requests/Progress.antt =====
-- When MPI_Test finds a request complete.
use mpi_to_openshmem.Prelude.{
  ℕ, ◌+◌, ◌*◌, ◌≤◌, ◌<◌, ◌≡◌, ◌≢◌, ◌∙◌, sym, ap, refl, Bool, true, false, leb, ◌==◌, some, arith,
}
use mpi_to_openshmem.Floats.{Bytes}
use mpi_to_openshmem.Mpi.Datatypes.{long_num_bytes, i32_mod, write}
use mpi_to_openshmem.Mpi.Groups.{Comm}
use mpi_to_openshmem.Mpi.Shmem.{Memory, Shmem, set_buffer}
use mpi_to_openshmem.Mpi.Pack.Sequence.{write-inside, write-start, set_buffer_self}
use mpi_to_openshmem.Mpi.Blocking.{word, Polls}
use mpi_to_openshmem.Mpi.Blocking.Polling.{word_ext, equal_lem}
use mpi_to_openshmem.Mpi.Requests.{
  irecv, isend, MpiRequest, started, last_int, irecv_data, mpi_irecv, isend_data, isend_from,
  mpi_isend, mpi_test,
}

module _ (shmem : Shmem) (polls : Polls shmem) where
  test_lem :
      (m : Memory) (r : MpiRequest)
      → word 4 (λ i. m r.rank r.last_buf (r.last_offset + i)) ≡ r.expected
      → mpi_test shmem polls m r ≡ 1
  unfolding mpi_test
  test_lem m r there =
      let read = polls.cswap_lem 4 m r.last_buf r.last_offset r.expected r.rank ∙ there in
      let found = equal_lem read in rw found refl

  -- MPI_Irecv of one item or more through a symmetric buffer that is not NULL takes what is in the
  -- buffer of source at that moment, and MPI_Test then finds it complete, on any memory: no
  -- message need have been sent.
  pub mpi_irecv-mpi_test :
      (m : Memory) (comm : Comm) (buf : Bytes) (count datatype source tag : ℕ)
      → comm.buffer_ptr ≢ 0
      → 1 ≤ count
      → (buf' : Bytes) × (r : MpiRequest) × (mpi_irecv shmem m
            (some comm)
            buf
            count
            datatype
            source
            tag
          ≡ started buf' r)
        × ((j : ℕ) → j < long_num_bytes count datatype → buf' j ≡ m source comm.buffer_ptr j)
        × (mpi_test shmem polls m r ≡ 1)
  unfolding mpi_irecv irecv_data
  mpi_irecv-mpi_test m comm buf count datatype source tag given some_data =
      let a = comm.buffer_ptr in
      let n = long_num_bytes count datatype in
      let expected = shmem.getmem m (λ i. 0) a (last_int count) 4 source in
      let r : MpiRequest = record {
        request_type = irecv;
        rank = source;
        data_type = datatype;
        last_buf = a;
        last_offset = last_int count;
        expected = word 4 expected;
      } in
      let start : (j : ℕ) → 0 + j ≡ j = λ j. omega arith in
      let symmetric : (comm.buffer_ptr == 0) ≡ false = grind arith in
      let counted : (count == 0) ≡ false = grind arith in
      let last = λ (i : ℕ) (b : i < 4). sym (
        shmem.getmem_lem m (λ i. 0) a (last_int count) 4 source i
        ∙ write-start (λ i. 0) (λ i. m source a (last_int count + i)) 4 i b) in
      (
        shmem.getmem m buf a 0 n source,
        r,
        rw (symmetric, counted) refl,
        λ j b.
            shmem.getmem_lem m buf a 0 n source j
            ∙ write-start buf (λ i. m source a (0 + i)) n j b
            ∙ ap (m source a) (start j),
        test_lem m r (word_ext 4 (λ i. m source a (last_int count + i)) expected last),
      )

  isend_data-mpi_test :
      (m : Memory) (a : ℕ) (buf from : Bytes) (count datatype dest : ℕ)
      → 1 ≤ count
      → 4 * count ≤ long_num_bytes count datatype
      → ((i : ℕ) → i < long_num_bytes count datatype → from i ≡ buf i)
      → (m' : Memory) × (r : MpiRequest) × (isend_data shmem m a buf from count datatype dest
          ≡ started m' r)
        × ((j : ℕ) → j < long_num_bytes count datatype → shmem.fence m' dest a j ≡ buf j)
        × (mpi_test shmem polls (shmem.fence m') r ≡ 1)
  unfolding isend_data
  isend_data-mpi_test m a buf from count datatype dest some_data wide same =
      let n = long_num_bytes count datatype in
      let m' = shmem.putmem m a 0 from n dest in
      let expected = λ (i : ℕ). buf (last_int count + i) in
      let r : MpiRequest = record {
        request_type = isend;
        rank = dest;
        data_type = datatype;
        last_buf = a;
        last_offset = last_int count;
        expected = word 4 expected;
      } in
      let counted : (count == 0) ≡ false = grind arith in
      let there = λ (j : ℕ) (b : j < n).
        shmem.fence-putmem m a 0 from n dest dest a j
        ∙ set_buffer_self m dest a (write (m dest a) 0 from n) j
        ∙ write-start (m dest a) from n j b
        ∙ same j b in
      (
        m',
        r,
        rw counted refl,
        there,
        test_lem (shmem.fence m') r (
            word_ext 4 (λ i. shmem.fence m' dest a (last_int count + i)) expected
              (λ i b. there (last_int count + i) (omega arith))),
      )

  isend_from-mpi_test :
      (my_pe : ℕ) (m : Memory) (accessible : Bool) (a index : ℕ) (buf : Bytes)
      (count datatype dest : ℕ)
      → 1 ≤ count
      → 4 * count ≤ long_num_bytes count datatype
      → (m' : Memory) × (r : MpiRequest) × (isend_from shmem my_pe m accessible a index buf count
            datatype dest
          ≡ started m' r)
        × ((j : ℕ) → j < long_num_bytes count datatype → shmem.fence m' dest a j ≡ buf j)
        × (mpi_test shmem polls (shmem.fence m') r ≡ 1)
  unfolding isend_from
  isend_from-mpi_test my_pe m true a index buf count datatype dest some_data wide =
      isend_data-mpi_test m a buf buf count datatype dest some_data wide (λ i b. refl)
  isend_from-mpi_test my_pe m false a index buf count datatype dest some_data wide =
      let n = long_num_bytes count datatype in
      let copied = write (m my_pe a) index buf n in
      let m1 = set_buffer m my_pe a copied in
      isend_data-mpi_test m1 a buf (λ i. m1 my_pe a (index + i)) count datatype dest some_data wide
        (λ i b.
          set_buffer_self m my_pe a copied (index + i) ∙ write-inside (m my_pe a) buf index n i b)

  -- MPI_Isend of one item or more, each of at least the 4 bytes of an int, through a symmetric
  -- buffer that is not NULL and with an offset behind the data that is an int, starts; once its
  -- put is complete the buffer of dest starts with the data, whether the user's buffer was
  -- symmetric or not, and MPI_Test finds it complete.
  pub mpi_isend-mpi_test :
      (my_pe : ℕ) (m : Memory) (comm : Comm) (comm_offset : ℕ) (accessible : Bool) (buf : Bytes)
      (count datatype dest tag : ℕ)
      → comm.buffer_ptr ≢ 0
      → 1 ≤ count
      → 4 * count ≤ long_num_bytes count datatype
      → comm_offset + long_num_bytes count datatype < i32_mod
      → (m' : Memory) × (r : MpiRequest) × (mpi_isend shmem my_pe m
            (some comm)
            comm_offset
            accessible
            buf
            count
            datatype
            dest
            tag
          ≡ started m' r)
        × ((j : ℕ)
            → j < long_num_bytes count datatype
            → shmem.fence m' dest comm.buffer_ptr j ≡ buf j)
        × (mpi_test shmem polls (shmem.fence m') r ≡ 1)
  unfolding mpi_isend
  mpi_isend-mpi_test my_pe m comm comm_offset accessible buf count datatype dest tag given some_data
        wide fits =
      let symmetric : (comm.buffer_ptr == 0) ≡ false = grind arith in
      let in_int : leb i32_mod (comm_offset + long_num_bytes count datatype) ≡ false =
        grind arith in
      let (m', r, e, there, complete) =
        isend_from-mpi_test my_pe m accessible comm.buffer_ptr
          (comm_offset + long_num_bytes count datatype) buf count datatype dest some_data wide in
      (m', r, rw (in_int, symmetric) e, there, complete)
