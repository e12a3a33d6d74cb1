-- ===== src/Mpi/Bcast/Spread.antt =====
-- What MPI_Bcast delivers to the other processes.
use mpi_to_openshmem.Prelude.{
  ℕ, ◌+◌, ◌*◌, ◌≤◌, ◌<◌, ◌≡◌, ◌≢◌, ◌∙◌, refl, false, leb, ◌==◌, some, arith,
}
use mpi_to_openshmem.Floats.{Bytes}
use mpi_to_openshmem.Mpi.Datatypes.{
  type_size, long_num_bytes, i32_mod, write, copy_my_data_lem, get_num_bytes_lem,
}
use mpi_to_openshmem.Mpi.Groups.{Comm}
use mpi_to_openshmem.Mpi.Shmem.{Memory}
use mpi_to_openshmem.Mpi.Pack.Sequence.{write-start}
use mpi_to_openshmem.Mpi.Allgather.{Buffers, symmetric, own, gathered, copy_all}
use mpi_to_openshmem.Mpi.Allgather.Blocks.{sent_by}
use mpi_to_openshmem.Mpi.Gather.Puts.{copy_all_lem}
use mpi_to_openshmem.Mpi.Bcast.{Broadcasts, from_root, mpi_bcast}

-- The communicator's buffer is not the source, and there is room for words before the target.
abbrev pub Separate : ℕ → ℕ → Buffers → ℕ → ℕ → Type 0
Separate a comm_offset (symmetric s) count n = (a ≢ s) × (n < i32_mod)
Separate a comm_offset (own bytes) count n =
    (8 * count ≤ comm_offset + n) × (comm_offset + n < i32_mod)

within_words : (count d k : ℕ) → type_size d ≤ 8 → k < count * type_size d → k < 8 * count
within_words count d k small inside =
    let le : count * type_size d ≤ count * 8 = grind arith in omega arith

module _ (num_pes : ℕ) (calls : Broadcasts num_pes) (my_pe : ℕ) (mine : my_pe < num_pes) where
  from_root_lem :
      (m : Memory) (target offset : ℕ) (buffer : Bytes) (count datatype root : ℕ)
      → my_pe ≢ root
      → long_num_bytes count datatype < i32_mod
      → (buf : Bytes) × (from_root num_pes calls my_pe m target offset buffer count datatype root
          ≡ gathered m buf)
        × ((k : ℕ) → k < long_num_bytes count datatype → buf k ≡ m my_pe target (offset + k))
  unfolding from_root long_num_bytes
  from_root_lem m target offset buffer count datatype root ne fits =
      let copy = copy_my_data_lem buffer (λ k. m my_pe target (offset + k)) count datatype fits in
      let other : (my_pe == root) ≡ false = grind arith in
      let n = count * type_size datatype in
      (
        write buffer 0 (λ k. m my_pe target (offset + k)) n,
        rw (other, copy) refl,
        λ k inside. write-start buffer (λ i. m my_pe target (offset + i)) n k inside,
      )

  -- For items of at most 8 bytes and a process other than the root, where the source is not the
  -- communicator's buffer and the number of bytes is an int, or the source is a process's own, the
  -- target is behind as many 64-bit words as there are items, and the offset of the target is an
  -- int, the first count items in the buffer of the process after MPI_Bcast are the root's.
  pub mpi_bcast-sent_by :
      (m : Memory) (comm : Comm) (comm_offset : ℕ) (source : Buffers) (count datatype root : ℕ)
      → my_pe ≢ root
      → root < num_pes
      → type_size datatype ≤ 8
      → Separate comm.buffer_ptr comm_offset source count (long_num_bytes count datatype)
      → (m' : Memory) × (buf : Bytes) × (mpi_bcast num_pes calls my_pe m
            (some comm)
            comm_offset
            source
            count
            datatype
            root
          ≡ gathered m' buf)
        × ((k : ℕ) → k < long_num_bytes count datatype → buf k ≡ sent_by m source root k)
  unfolding mpi_bcast long_num_bytes
  mpi_bcast-sent_by m comm comm_offset (symmetric s) count datatype root ne low small
        (apart, fits) =
      let a = comm.buffer_ptr in
      let m' = calls.broadcast64 m a 0 s count root in
      let (buf, e, copied) =
        from_root_lem m' a 0 (m' my_pe s) count datatype root ne (omega arith) in
      (
        m',
        buf,
        e,
        λ k inside.
            copied k inside
            ∙ calls.broadcast64_lem m a 0 s count root my_pe k (λ same. absurd (apart same)) mine ne
                (within_words count datatype k small inside),
      )
  mpi_bcast-sent_by m comm comm_offset (own bytes) count datatype root ne low small (room, fits) =
      let a = comm.buffer_ptr in
      let n = count * type_size datatype in
      let in_int : leb i32_mod (comm_offset + n) ≡ false = grind arith in
      let whole = get_num_bytes_lem count datatype (omega arith) in
      let m1 = copy_all num_pes m a bytes n in
      let m' = calls.broadcast64 m1 a (comm_offset + n) a count root in
      let (buf, e, copied) =
        from_root_lem m' a (comm_offset + n) (bytes my_pe) count datatype root ne (omega arith) in
      (
        m',
        buf,
        rw (whole, mpi_bcast) (rw in_int e),
        λ k inside.
            copied k inside
            ∙ calls.broadcast64_lem m1 a (comm_offset + n) a count root my_pe k (λ same. room) mine
                ne (within_words count datatype k small inside)
            ∙ copy_all_lem num_pes m a bytes n root k low inside,
      )
