-- ===== src/Mpi/Gather/Rooted.antt =====
-- What MPI_Gather delivers at the root.
use mpi_to_openshmem.Prelude.{
  ℕ, ◌+◌, ◌*◌, ◌<◌, ◌≡◌, ◌∙◌, sym, ap, refl, inl, List, true, false, leb, ◌==◌, some, arith,
}
use mpi_to_openshmem.Floats.{Bytes}
use mpi_to_openshmem.Mpi.Datatypes.{
  type_size, long_num_bytes, i32_mod, write, copy_my_data_lem, get_num_bytes_lem,
}
use mpi_to_openshmem.Mpi.Groups.{Comm}
use mpi_to_openshmem.Mpi.Shmem.{Memory, Shmem}
use mpi_to_openshmem.Mpi.Pack.Sequence.{write-start}
use mpi_to_openshmem.Mpi.Allgather.{Buffers, symmetric, own, Gathered, gathered, copy_all}
use mpi_to_openshmem.Mpi.Allgather.Blocks.{Apart, sent_by, within_blocks}
use mpi_to_openshmem.Mpi.Gather.{
  target_of, put_blocks, received, gather_to, gather_from, mpi_gather,
}
use mpi_to_openshmem.Mpi.Gather.Puts.{Occurs, Clear, Holds, copy_all_lem, put_blocks-Block}

copied_bytes :
    (count num_pes d e : ℕ)
    → type_size e ≡ type_size d
    → count * num_pes * type_size e ≡ count * type_size d * num_pes
copied_bytes count num_pes d e same = rw same (grind arith)

module _ (shmem : Shmem) (num_pes : ℕ) (root : ℕ) where
  -- The root ends with the blocks of all, one behind the other.
  abbrev Rooted : Gathered → ℕ → (ℕ → Bytes) → Type 0
  Rooted r n sent =
      (m' : Memory) × (buf : Bytes) × (r ≡ gathered m' buf)
      × ((i j : ℕ) → i < num_pes → j < n → buf (n * i + j) ≡ sent i j)

  received-Rooted :
      (m : Memory) (a index : ℕ) (recv : Buffers) (sendcount sendtype recvtype : ℕ)
      (sent : ℕ → Bytes)
      → type_size recvtype ≡ type_size sendtype
      → sendcount * num_pes < i32_mod
      → long_num_bytes (sendcount * num_pes) recvtype < i32_mod
      → let t = target_of a index recv in
        let n = long_num_bytes sendcount sendtype in
        ((i j : ℕ) → i < num_pes → j < n → m root t.buffer (t.index + (n * i + j)) ≡ sent i j)
        → Rooted (received shmem num_pes root root m t recv sendcount recvtype) n sent
  unfolding received target_of long_num_bytes
  received-Rooted m a index (symmetric b) sendcount sendtype recvtype sent same few small there =
      let n = sendcount * type_size sendtype in
      let start : (k : ℕ) → 0 + k ≡ k = λ k. omega arith in
      (
        m,
        m root b,
        refl,
        λ i j low inside. ap (m root b) (sym (start (n * i + j))) ∙ there i j low inside,
      )
  received-Rooted m a index (own bytes) sendcount sendtype recvtype sent same few small there =
      let in_int : leb i32_mod (sendcount * num_pes) ≡ false = grind arith in
      let at_root : (root == root) ≡ true = grind arith in
      let n = sendcount * type_size sendtype in
      let copy =
        copy_my_data_lem (bytes root) (λ k. m root a (index + k)) (sendcount * num_pes) recvtype
          small in
      let all = copied_bytes sendcount num_pes sendtype recvtype same in
      (
        m,
        write (bytes root) 0 (λ k. m root a (index + k)) (sendcount * num_pes * type_size recvtype),
        rw at_root (rw (in_int, copy) refl),
        λ i j low inside.
            let within = within_blocks n i num_pes j low inside in
            write-start (bytes root) (λ k. m root a (index + k))
              (sendcount * num_pes * type_size recvtype) (n * i + j) (rw all within)
            ∙ there i j low inside,
      )

  gather_to-Rooted :
      (m : Memory) (source a index : ℕ) (order : List ℕ) (recv : Buffers)
      (sendcount sendtype recvtype : ℕ) (sent : ℕ → Bytes)
      → type_size recvtype ≡ type_size sendtype
      → sendcount * num_pes < i32_mod
      → long_num_bytes (sendcount * num_pes) recvtype < i32_mod
      → ((i : ℕ) → i < num_pes → Occurs i order)
      → let t = target_of a index recv in
        let n = long_num_bytes sendcount sendtype in
        Clear shmem num_pes root source t n sent
        → Holds shmem num_pes root source t n sent m
        → Rooted
            (gather_to shmem num_pes root root m source t n order recv sendcount recvtype)
            n
            sent
  unfolding gather_to
  gather_to-Rooted m source a index order recv sendcount sendtype recvtype sent same few small all
        clear holds =
      let t = target_of a index recv in
      let n = long_num_bytes sendcount sendtype in
      let in_int : leb i32_mod (sendcount * num_pes) ≡ false = grind arith in
      rw in_int (
        received-Rooted (put_blocks shmem num_pes root m source t n order) a index recv sendcount
          sendtype recvtype sent same few small
          (λ i j low inside.
            put_blocks-Block shmem num_pes root source t n sent order m i clear low holds
              (inl (all i low)) j inside))

  gather_from-Rooted :
      (m : Memory) (a comm_offset : ℕ) (order : List ℕ) (send recv : Buffers)
      (sendcount sendtype recvtype : ℕ)
      → type_size recvtype ≡ type_size sendtype
      → Apart a send recv
      → comm_offset + long_num_bytes sendcount sendtype < i32_mod
      → sendcount * num_pes < i32_mod
      → long_num_bytes (sendcount * num_pes) recvtype < i32_mod
      → ((i : ℕ) → i < num_pes → Occurs i order)
      → Rooted
          (gather_from shmem num_pes root root m a comm_offset order send recv sendcount sendtype
            recvtype)
          (long_num_bytes sendcount sendtype)
          (sent_by m send)
  unfolding gather_from target_of
  gather_from-Rooted m a comm_offset order (symmetric s) (symmetric b) sendcount sendtype recvtype
        same apart fits few small all =
      gather_to-Rooted m s a 0 order (symmetric b) sendcount sendtype recvtype (λ i. m i s) same few
        small all (λ e. absurd (apart (sym e))) (λ i j low inside. refl)
  gather_from-Rooted m a comm_offset order (symmetric s) (own bytes) sendcount sendtype recvtype
        same apart fits few small all =
      gather_to-Rooted m s a 0 order (own bytes) sendcount sendtype recvtype (λ i. m i s) same few
        small all (λ e. absurd (apart (sym e))) (λ i j low inside. refl)
  gather_from-Rooted m a comm_offset order (own bytes) (symmetric b) sendcount sendtype recvtype
        same apart fits few small all =
      let n = long_num_bytes sendcount sendtype in
      let in_int : leb i32_mod (comm_offset + n) ≡ false = grind arith in
      let whole = get_num_bytes_lem sendcount sendtype (omega arith) in
      rw (whole, gather_from)
        (rw in_int (
          gather_to-Rooted (copy_all num_pes m a bytes n) a a (comm_offset + n) order (symmetric b)
            sendcount sendtype recvtype bytes same few small all (λ e. absurd (apart (sym e)))
            (λ i j low inside. copy_all_lem num_pes m a bytes n i j low inside)))
  gather_from-Rooted m a comm_offset order (own bytes) (own bytes') sendcount sendtype recvtype same
        apart fits few small all =
      let n = long_num_bytes sendcount sendtype in
      let in_int : leb i32_mod (comm_offset + n) ≡ false = grind arith in
      let whole = get_num_bytes_lem sendcount sendtype (omega arith) in
      rw (whole, gather_from)
        (rw in_int (
          gather_to-Rooted (copy_all num_pes m a bytes n) a a (comm_offset + n) order (own bytes')
            sendcount sendtype recvtype bytes same few small all (λ e. omega arith)
            (λ i j low inside. copy_all_lem num_pes m a bytes n i j low inside)))

  -- Where the items of recvtype have the size of those of sendtype, the processes' buffers are
  -- apart from the communicator's and from each other as the call needs, the offset of the
  -- communicator's buffer and the numbers of items and of bytes in all are ints, and every process
  -- is among those that put, MPI_Gather leaves the data of all processes at the root, one block
  -- behind the other, in whatever order the puts come and whether the buffers are symmetric or
  -- not.
  pub mpi_gather-sent_by :
      (m : Memory) (comm : Comm) (comm_offset : ℕ) (order : List ℕ) (send recv : Buffers)
      (sendcount sendtype recvtype : ℕ)
      → type_size recvtype ≡ type_size sendtype
      → Apart comm.buffer_ptr send recv
      → comm_offset + long_num_bytes sendcount sendtype < i32_mod
      → sendcount * num_pes < i32_mod
      → long_num_bytes (sendcount * num_pes) recvtype < i32_mod
      → ((i : ℕ) → i < num_pes → Occurs i order)
      → let n = long_num_bytes sendcount sendtype in
        (m' : Memory) × (buf : Bytes) × (mpi_gather shmem num_pes root root m
            (some comm)
            comm_offset
            order
            (some send)
            sendcount
            sendtype
            (some recv)
            recvtype
          ≡ gathered m' buf)
        × ((i j : ℕ) → i < num_pes → j < n → buf (n * i + j) ≡ sent_by m send i j)
  unfolding mpi_gather
  mpi_gather-sent_by m comm comm_offset order send recv sendcount sendtype recvtype same apart fits
        few small all =
      gather_from-Rooted m comm.buffer_ptr comm_offset order send recv sendcount sendtype recvtype
        same apart fits few small all
