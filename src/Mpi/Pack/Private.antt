-- ===== src/Mpi/Pack/Private.antt =====
-- Packing into, and unpacking from, a buffer that is not symmetric: by way of the scratch buffer.
use mpi_to_openshmem.Prelude.{ℕ, ◌+◌, ◌≤◌, ◌<◌, ◌≡◌, ◌≢◌, ◌∙◌, sym, ap, refl, some, arith}
use mpi_to_openshmem.Mpi.Datatypes.{long_num_bytes, i32_mod, write, mpi_success, get_num_bytes_lem}
use mpi_to_openshmem.Mpi.Groups.{Comm}
use mpi_to_openshmem.Mpi.Shmem.{Memory, Shmem, set_buffer}
use mpi_to_openshmem.Mpi.Pack.{
  symmetric, own, Unpacked, put_packed, pack_bytes, mpi_pack, sym_inbuf, unpack_bytes, mpi_unpack,
}
use mpi_to_openshmem.Mpi.Pack.Sequence.{
  Item, item_bytes, mpi_pack_symmetric, write-start, set_buffer_self,
}

write-above : (to from : ℕ → ℕ) (offset n k : ℕ) → offset + n ≤ k → write to offset from n k ≡ to k
unfolding write
write-above to from offset n k b = ground arith

module _ (shmem : Shmem) (my_pe : ℕ) (comm : Comm) (size : ℕ) where
  abbrev scratch : Memory → ℕ → ℕ
  scratch m = m my_pe comm.buffer_ptr

  mpi_pack_own :
      (m : Memory) (x : Item) (bytes : ℕ → ℕ) (position : ℕ)
      → position + item_bytes x ≤ size
      → size < i32_mod
      → mpi_pack shmem my_pe m x.bytes x.count x.datatype (own bytes) size position (some comm)
        ≡ some (put_packed shmem my_pe m x.bytes (item_bytes x) (own bytes) position comm)
  unfolding mpi_pack pack_bytes
  mpi_pack_own m x bytes position fits small =
      rw (get_num_bytes_lem x.count x.datatype (omega arith), mpi_pack) (ground arith)

  -- For a buffer that is not symmetric, an item that fits in a buffer of less than 2^31 bytes at
  -- position 0, and a process whose rank in the communicator is its number, MPI_Pack puts the
  -- bytes at the start of the buffer and leaves the rest.
  pub mpi_pack_own_start :
      (m : Memory) (x : Item) (bytes : ℕ → ℕ)
      → item_bytes x ≤ size
      → size < i32_mod
      → comm.group.rank ≡ my_pe
      → (m' : Memory) × (bytes' : ℕ → ℕ) × (mpi_pack shmem my_pe m x.bytes x.count x.datatype
            (own bytes)
            size
            0
            (some comm)
          ≡ some (record {
            ret = mpi_success;
            memory = m';
            outbuf = own bytes';
            position = 0 + item_bytes x;
          }))
        × ((k : ℕ) → k < item_bytes x → bytes' k ≡ x.bytes k)
        × ((k : ℕ) → item_bytes x ≤ k → bytes' k ≡ bytes k)
  unfolding put_packed
  mpi_pack_own_start m x bytes fits small same =
      let n = item_bytes x in
      let m' = shmem.fence (shmem.putmem m comm.buffer_ptr 0 x.bytes n comm.group.rank) in
      (
        m',
        write bytes 0 (scratch m') n,
        mpi_pack_own m x bytes 0 (omega arith) small,
        λ k b.
            write-start bytes (scratch m') n k b
            ∙ ap (λ r. m' r comm.buffer_ptr k) (sym same)
            ∙ shmem.fence-putmem m comm.buffer_ptr 0 x.bytes n comm.group.rank comm.group.rank
                comm.buffer_ptr k
            ∙ set_buffer_self m comm.group.rank comm.buffer_ptr
                (write (m comm.group.rank comm.buffer_ptr) 0 x.bytes n) k
            ∙ write-start (m comm.group.rank comm.buffer_ptr) x.bytes n k b,
        λ k b. write-above bytes (scratch m') 0 n k (omega arith),
      )

  -- What is behind the first bytes is left.
  pub mpi_pack_own_kept :
      (m : Memory) (x : Item) (bytes : ℕ → ℕ) (position : ℕ)
      → position + item_bytes x ≤ size
      → size < i32_mod
      → (m' : Memory) × (bytes' : ℕ → ℕ) × (mpi_pack shmem my_pe m x.bytes x.count x.datatype
            (own bytes)
            size
            position
            (some comm)
          ≡ some (record {
            ret = mpi_success;
            memory = m';
            outbuf = own bytes';
            position = position + item_bytes x;
          }))
        × ((k : ℕ) → item_bytes x ≤ k → bytes' k ≡ bytes k)
  unfolding put_packed
  mpi_pack_own_kept m x bytes position fits small =
      let n = item_bytes x in
      let m' = shmem.fence (shmem.putmem m comm.buffer_ptr position x.bytes n comm.group.rank) in
      (
        m',
        write bytes 0 (scratch m') n,
        mpi_pack_own m x bytes position fits small,
        λ k b. write-above bytes (scratch m') 0 n k (omega arith),
      )

  -- For a buffer that is not symmetric and a position at or behind the size of the item, which
  -- fits in a buffer of less than 2^31 bytes, MPI_Pack succeeds, but from the position on the
  -- buffer is as before: what was packed is not in it.
  pub mpi_pack_own_later :
      (m : Memory) (x : Item) (bytes : ℕ → ℕ) (position : ℕ)
      → position + item_bytes x ≤ size
      → size < i32_mod
      → item_bytes x ≤ position
      → (m' : Memory) × (bytes' : ℕ → ℕ) × (mpi_pack shmem my_pe m x.bytes x.count x.datatype
            (own bytes)
            size
            position
            (some comm)
          ≡ some (record {
            ret = mpi_success;
            memory = m';
            outbuf = own bytes';
            position = position + item_bytes x;
          }))
        × ((k : ℕ) → position ≤ k → bytes' k ≡ bytes k)
  mpi_pack_own_later m x bytes position fits small behind =
      let (m', bytes', e, kept) = mpi_pack_own_kept m x bytes position fits small in
      (m', bytes', e, λ k b. kept k (omega arith))

  mpi_unpack_own :
      (m : Memory) (x : Item) (position : ℕ) (out : ℕ → ℕ)
      → position + item_bytes x ≤ size
      → size < i32_mod
      → let (m', a) = sym_inbuf shmem my_pe m (own x.bytes) (item_bytes x) comm in
        mpi_unpack shmem my_pe m (own x.bytes) size position out x.count x.datatype (some comm)
        ≡ some (record {
          ret = mpi_success;
          memory = m';
          outbuf = shmem.getmem m' out a position (item_bytes x) comm.group.rank;
          position = position + item_bytes x;
        })
  unfolding mpi_unpack unpack_bytes sym_inbuf
  mpi_unpack_own m x position out fits small =
      rw (get_num_bytes_lem x.count x.datatype (omega arith), mpi_unpack) (ground arith)

  -- For a buffer that is not symmetric, a position at or behind the size of the item, which fits
  -- in a buffer of less than 2^31 bytes, and a process whose rank is its number, MPI_Unpack
  -- succeeds with the bytes that the scratch buffer held there before: the buffer is not read
  -- there.
  pub mpi_unpack_own_later :
      (m : Memory) (x : Item) (position : ℕ) (out : ℕ → ℕ)
      → position + item_bytes x ≤ size
      → size < i32_mod
      → item_bytes x ≤ position
      → comm.group.rank ≡ my_pe
      → (u : Unpacked) × (mpi_unpack shmem my_pe m
            (own x.bytes)
            size
            position
            out
            x.count
            x.datatype
            (some comm)
          ≡ some u)
        × (u.ret ≡ mpi_success)
        × ((k : ℕ) → k < item_bytes x → u.outbuf k ≡ m my_pe comm.buffer_ptr (position + k))
  unfolding sym_inbuf long_num_bytes
  mpi_unpack_own_later m x position out fits small behind same =
      let n = item_bytes x in
      let filled = write (scratch m) 0 x.bytes n in
      let m' = set_buffer m my_pe comm.buffer_ptr filled in
      (
        _,
        mpi_unpack_own m x position out fits small,
        refl,
        λ k b.
            shmem.getmem_lem m' out comm.buffer_ptr position n comm.group.rank k
            ∙ write-start out (λ i. m' comm.group.rank comm.buffer_ptr (position + i)) n k b
            ∙ ap (λ r. m' r comm.buffer_ptr (position + k)) same
            ∙ set_buffer_self m my_pe comm.buffer_ptr filled (position + k)
            ∙ write-above (scratch m) x.bytes 0 n (position + k) (omega arith),
      )

  -- Where the rank of the process in the communicator is not its number, MPI_Pack of an item that
  -- fits into a symmetric buffer of less than 2^31 bytes succeeds and leaves its own copy of the
  -- buffer as it is.
  pub mpi_pack_elsewhere :
      (m : Memory) (x : Item) (a position : ℕ)
      → position + item_bytes x ≤ size
      → size < i32_mod
      → comm.group.rank ≢ my_pe
      → (m' : Memory) × (mpi_pack shmem my_pe m x.bytes x.count x.datatype
            (symmetric a)
            size
            position
            (some comm)
          ≡ some (record {
            ret = mpi_success;
            memory = m';
            outbuf = symmetric a;
            position = position + item_bytes x;
          }))
        × ((k : ℕ) → m' my_pe a k ≡ m my_pe a k)
  unfolding put_packed set_buffer
  mpi_pack_elsewhere m x a position fits small other =
      let n = item_bytes x in
      (
        shmem.fence (shmem.putmem m a position x.bytes n comm.group.rank),
        mpi_pack_symmetric shmem my_pe comm a size m x position fits small,
        λ k. shmem.fence-putmem m a position x.bytes n comm.group.rank my_pe a k ∙ ground arith,
      )
