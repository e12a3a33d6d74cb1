-- ===== src/Mpi/Allgather/Blocks.antt =====
-- The blocks that MPI_Allgather delivers.
use mpi_to_openshmem.Prelude.{
  ℕ, suc, ◌+◌, ◌*◌, ◌≤◌, ◌<◌, ◌≡◌, ◌≢◌, ◌∙◌, sym, ap, refl, true, false, ◌&&◌, leb, ltb, ◌==◌, some,
  arith,
}
use mpi_to_openshmem.Floats.{Bytes}
use mpi_to_openshmem.Mpi.Datatypes.{
  type_size, long_num_bytes, i32_mod, write, copy_my_data_lem, get_num_bytes_lem,
}
use mpi_to_openshmem.Mpi.Groups.{Comm}
use mpi_to_openshmem.Mpi.Shmem.{Memory}
use mpi_to_openshmem.Mpi.Pack.Sequence.{write-start}
use mpi_to_openshmem.Mpi.Allgather.{
  Buffers, symmetric, own, Collects, Gathered, gathered, copy_all, collect_blocks, copied,
  gather_all, mpi_allgather,
}

-- The symmetric buffers that are used differ; `a` is the communicator's.
abbrev pub Apart : ℕ → Buffers → Buffers → Type 0
Apart a (symmetric s) (symmetric b) = b ≢ s
Apart a (symmetric s) (own bytes) = a ≢ s
Apart a (own bytes) (symmetric b) = b ≢ a
Apart a (own bytes) (own bytes') = Unit

-- What is collected goes elsewhere than to the source.
abbrev Clear : Buffers → ℕ → ℕ → ℕ → ℕ → Type 0
Clear (symmetric b) source a index n = b ≢ source
Clear (own bytes) source a index n = a ≡ source → n ≤ index

-- What process `i` sends.
abbrev pub sent_by : Memory → Buffers → ℕ → Bytes
sent_by m (symmetric s) i = m i s
sent_by m (own bytes) i = bytes i

pub within_blocks : (n i num_pes j : ℕ) → i < num_pes → j < n → n * i + j < n * num_pes
within_blocks n i num_pes j low inside =
    let up : n * suc i ≤ n * num_pes = grind arith in
    let block : n * suc i ≡ n * i + n = grind arith in omega arith

wide_lem : (count d j : ℕ) → type_size d ≡ 8 → j < 8 * count → j < count * type_size d
wide_lem count d j wide inside = rw wide (omega arith)

eight_lem : (count d n : ℕ) → type_size d ≡ 8 → 8 * count ≤ n + count * type_size d
eight_lem count d n wide = rw wide (omega arith)

all_lem :
    (count num_pes d : ℕ) → type_size d ≡ 8 → count * num_pes * type_size d ≡ 8 * count * num_pes
all_lem count num_pes d wide = rw wide (grind arith)

module _ (num_pes : ℕ) (calls : Collects num_pes) (my_pe : ℕ) (mine : my_pe < num_pes) where
  -- What is collected has the blocks of `source`.
  abbrev Blocks : Gathered → (ℕ → Bytes) → ℕ → Type 0
  Blocks r source n =
      (m : Memory) × (buf : Bytes) × (r ≡ gathered m buf)
      × ((i j : ℕ) → i < num_pes → j < n → buf (n * i + j) ≡ source i j)

  copy_all_lem :
      (m : Memory) (a : ℕ) (bytes : ℕ → Bytes) (n i j : ℕ)
      → i < num_pes
      → j < n
      → copy_all num_pes m a bytes n i a j ≡ bytes i j
  unfolding copy_all
  copy_all_lem m a bytes n i j low inside =
      let there : (a == a && ltb i num_pes) ≡ true = grind arith in
      rw there (write-start (m i a) (bytes i) n j inside)

  collect_blocks-Blocks :
      (m : Memory) (source a index sendcount : ℕ) (recv : Buffers) (sent : ℕ → Bytes)
      → Clear recv source a index (8 * sendcount)
      → ((i j : ℕ) → i < num_pes → j < 8 * sendcount → m i source j ≡ sent i j)
      → Blocks
          (collect_blocks num_pes calls my_pe m source a index sendcount recv)
          sent
          (8 * sendcount)
  unfolding collect_blocks
  collect_blocks-Blocks m source a index sendcount (symmetric b) sent clear there =
      let m' = calls.fcollect64 m b 0 source sendcount in
      let start : (k : ℕ) → 0 + k ≡ k = λ k. omega arith in
      (
        m',
        m' my_pe b,
        refl,
        λ i j low inside.
            ap (m' my_pe b) (sym (start (8 * sendcount * i + j)))
            ∙ calls.fcollect64_lem m b 0 source sendcount my_pe i j (λ e. absurd (clear e)) mine low
                inside
            ∙ there i j low inside,
      )
  collect_blocks-Blocks m source a index sendcount (own bytes) sent clear there =
      let m' = calls.fcollect64 m a index source sendcount in
      (
        m',
        (λ k. m' my_pe a (index + k)),
        refl,
        λ i j low inside.
            calls.fcollect64_lem m a index source sendcount my_pe i j clear mine low inside
            ∙ there i j low inside,
      )

  copied-Blocks :
      (recv : Buffers) (sendcount recvtype : ℕ) (r : Gathered) (sent : ℕ → Bytes)
      → type_size recvtype ≡ 8
      → sendcount * num_pes < i32_mod
      → long_num_bytes (sendcount * num_pes) recvtype < i32_mod
      → Blocks r sent (8 * sendcount)
      → Blocks (copied num_pes calls my_pe recv sendcount recvtype r) sent (8 * sendcount)
  unfolding copied long_num_bytes
  copied-Blocks (symmetric b) sendcount recvtype r sent wide few small blocks = blocks
  copied-Blocks (own bytes) sendcount recvtype r sent wide few small (m, buf, e, there) =
      let copy = copy_my_data_lem (bytes my_pe) buf (sendcount * num_pes) recvtype small in
      let in_int : leb i32_mod (sendcount * num_pes) ≡ false = grind arith in
      let n = sendcount * num_pes * type_size recvtype in
      let all : n ≡ 8 * sendcount * num_pes = all_lem sendcount num_pes recvtype wide in
      (
        m,
        write (bytes my_pe) 0 buf n,
        rw e (rw (in_int, copy) refl),
        λ i j low inside.
            let within = within_blocks (8 * sendcount) i num_pes j low inside in
            write-start (bytes my_pe) buf n (8 * sendcount * i + j) (rw all within)
            ∙ there i j low inside,
      )

  gather_all-Blocks :
      (m : Memory) (a comm_offset : ℕ) (send recv : Buffers) (sendcount sendtype : ℕ)
      → type_size sendtype ≡ 8
      → Apart a send recv
      → comm_offset + long_num_bytes sendcount sendtype < i32_mod
      → Blocks
          (gather_all num_pes calls my_pe m a comm_offset send recv sendcount sendtype)
          (sent_by m send)
          (8 * sendcount)
  unfolding gather_all long_num_bytes
  gather_all-Blocks m a comm_offset (symmetric s) (symmetric b) sendcount sendtype wide apart fits =
      collect_blocks-Blocks m s a 0 sendcount (symmetric b) (λ i. m i s) apart
        (λ i j low inside. refl)
  gather_all-Blocks m a comm_offset (symmetric s) (own bytes) sendcount sendtype wide apart fits =
      collect_blocks-Blocks m s a 0 sendcount (own bytes) (λ i. m i s) (λ e. absurd (apart e))
        (λ i j low inside. refl)
  gather_all-Blocks m a comm_offset (own bytes) (symmetric b) sendcount sendtype wide apart fits =
      let in_int : leb i32_mod (comm_offset + sendcount * type_size sendtype) ≡ false =
        grind arith in
      let whole = get_num_bytes_lem sendcount sendtype (omega arith) in
      rw (whole, gather_all)
        (rw in_int (
          collect_blocks-Blocks (copy_all num_pes m a bytes (sendcount * type_size sendtype)) a a
            (comm_offset + sendcount * type_size sendtype) sendcount (symmetric b) bytes apart
            (λ i j low inside.
              copy_all_lem m a bytes (sendcount * type_size sendtype) i j low
                (wide_lem sendcount sendtype j wide inside))))
  gather_all-Blocks m a comm_offset (own bytes) (own bytes') sendcount sendtype wide apart fits =
      let in_int : leb i32_mod (comm_offset + sendcount * type_size sendtype) ≡ false =
        grind arith in
      let whole = get_num_bytes_lem sendcount sendtype (omega arith) in
      rw (whole, gather_all)
        (rw in_int (
          collect_blocks-Blocks (copy_all num_pes m a bytes (sendcount * type_size sendtype)) a a
            (comm_offset + sendcount * type_size sendtype) sendcount (own bytes') bytes
            (λ e. eight_lem sendcount sendtype comm_offset wide)
            (λ i j low inside.
              copy_all_lem m a bytes (sendcount * type_size sendtype) i j low
                (wide_lem sendcount sendtype j wide inside))))

  -- For items of 8 bytes on both sides, symmetric buffers that differ where they are used, and an
  -- offset, a number of items and a number of bytes in all that are ints, MPI_Allgather gives each
  -- process the data of all, one block behind the other in the order of the processes, whether the
  -- buffers are symmetric or not.
  pub mpi_allgather-sent_by :
      (m : Memory) (comm : Comm) (comm_offset : ℕ) (send recv : Buffers)
      (sendcount sendtype recvtype : ℕ)
      → type_size sendtype ≡ 8
      → type_size recvtype ≡ 8
      → Apart comm.buffer_ptr send recv
      → comm_offset + long_num_bytes sendcount sendtype < i32_mod
      → sendcount * num_pes < i32_mod
      → long_num_bytes (sendcount * num_pes) recvtype < i32_mod
      → (m' : Memory) × (buf : Bytes) × (mpi_allgather num_pes calls my_pe m
            (some comm)
            comm_offset
            (some send)
            sendcount
            sendtype
            (some recv)
            recvtype
          ≡ gathered m' buf)
        × ((i j : ℕ)
            → i < num_pes
            → j < 8 * sendcount
            → buf (8 * sendcount * i + j) ≡ sent_by m send i j)
  unfolding mpi_allgather
  mpi_allgather-sent_by m comm comm_offset send recv sendcount sendtype recvtype wide wide' apart
        fits few small =
      let all =
        gather_all-Blocks m comm.buffer_ptr comm_offset send recv sendcount sendtype wide apart
          fits in
      copied-Blocks recv sendcount recvtype
        (gather_all num_pes calls my_pe m comm.buffer_ptr comm_offset send recv sendcount sendtype)
        (sent_by m send) wide' few small all
