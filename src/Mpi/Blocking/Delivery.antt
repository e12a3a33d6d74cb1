-- ===== src/Mpi/Blocking/Delivery.antt =====
-- MPI_Send ends once its data are delivered, and MPI_Recv gives them.
use mpi_to_openshmem.Prelude.{
  ℕ, ◌+◌, ◌-◌, ◌≤◌, ◌<◌, ◌≡◌, ◌∙◌, ap, refl, true, false, leb, ◌==◌, Option, none, some, inl, arith,
}
use mpi_to_openshmem.Floats.{Bytes}
use mpi_to_openshmem.Mpi.Datatypes.{type_size, long_num_bytes, i32_mod, write, copy_my_data_lem}
use mpi_to_openshmem.Mpi.Groups.{Comm}
use mpi_to_openshmem.Mpi.Shmem.{Memory, Shmem}
use mpi_to_openshmem.Mpi.Pack.Sequence.{write-inside, write-start, write-below, set_buffer_self}
use mpi_to_openshmem.Mpi.Blocking.{
  word, int_bytes, Polls, SendRecv, expected_int, SendResult, sent, returns, send_wait, send_data,
  as_flag, mpi_send, mpi_recv, RecvResult,
}
use mpi_to_openshmem.Mpi.Blocking.Polling.{
  wait_lem, word_ext, expected_int_small, word-int_bytes, size_within, FitsFlag, as_flag_lem,
  equal_lem,
}

-- By poll `k` all puts are complete, whether a fence came after them or not.
pub record Delivers (shmem : Shmem) (network : Memory → ℕ → Memory) (k : ℕ) : Type 0 where
  pub complete : (m : Memory) (p a i : ℕ) → network m k p a i ≡ shmem.fence m p a i
  pub complete_fenced :
      (m : Memory) (p a i : ℕ) → network (shmem.fence m) k p a i ≡ shmem.fence m p a i

module _ (shmem : Shmem) (polls : Polls shmem) (network : Memory → ℕ → Memory) (ret k : ℕ)
    (delivers : Delivers shmem network k) where
  -- MPI_Send comes to an end by poll `k`, and what is then in buffer `a` of `dest` starts with the data.
  abbrev Ends : SendResult → SendRecv → ℕ → ℕ → Bytes → ℕ → Type 0
  Ends result info a dest buf n =
      (m : Memory) × (i : ℕ) × (i ≤ k)
      × (result ≡ sent ret info (network m i))
      × ((j : ℕ) → j < n → network m k dest a j ≡ buf j)

  send_wait-sent :
      (fuel : ℕ) (info : SendRecv) (m : Memory) (w a offset expected dest : ℕ)
      → k < fuel
      → word w (λ i. network m k dest a (offset + i)) ≡ expected
      → FitsFlag w expected
      → (i : ℕ) × (i ≤ k)
        × (send_wait shmem polls network ret fuel info m w a offset expected dest
            ≡ sent ret info (network m i))
  unfolding send_wait returns
  send_wait-sent fuel info m w a offset expected dest enough there fits =
      let is_there = λ (seen : Memory).
        as_flag w (polls.cswap w seen a offset expected expected dest) == expected in
      let read = polls.cswap_lem w (network m k) a offset expected dest ∙ there in
      let flag = ap (as_flag w) read ∙ as_flag_lem w expected fits in
      let start : 0 + k ≡ k = omega arith in
      let found : is_there (network m (0 + k)) ≡ true = rw start (equal_lem flag) in
      let (i, e, within) = wait_lem (network m) is_there fuel 0 k enough found in
      (i, omega arith, rw e refl)

  data_there :
      (m : Memory) (buf : Bytes) (a n dest j : ℕ)
      → j < n
      → shmem.fence (shmem.putmem m a 0 buf n dest) dest a j ≡ buf j
  data_there m buf a n dest j inside =
      shmem.fence-putmem m a 0 buf n dest dest a j
      ∙ set_buffer_self m dest a (write (m dest a) 0 buf n) j
      ∙ write-start (m dest a) buf n j inside

  both_there :
      (m : Memory) (buf mark : Bytes) (a n offset dest j : ℕ)
      → shmem.fence (shmem.putmem (shmem.putmem m a 0 buf n dest) a offset mark 4 dest) dest a j
        ≡ write (shmem.fence (shmem.putmem m a 0 buf n dest) dest a) offset mark 4 j
  both_there m buf mark a n offset dest j =
      let before = shmem.fence (shmem.putmem m a 0 buf n dest) in
      polls.fence-putmem-putmem m a 0 buf n dest a offset mark 4 dest dest a j
      ∙ set_buffer_self before dest a (write (before dest a) offset mark 4) j

  send_last-Ends :
      (fuel : ℕ) (m : Memory) (info : SendRecv) (buf : Bytes) (n w dest : ℕ)
      → k < fuel
      → w ≤ n
      → FitsFlag w (word w (λ i. buf (n - w + i)))
      → Ends
          (send_wait shmem polls network ret fuel info
            (shmem.putmem m info.buf_ptr 0 buf n dest)
            w
            info.buf_ptr
            (n - w)
            (word w (λ i. buf (n - w + i)))
            dest)
          info
          info.buf_ptr
          dest
          buf
          n
  send_last-Ends fuel m info buf n w dest enough wide last =
      let a = info.buf_ptr in
      let m1 = shmem.putmem m a 0 buf n dest in
      let there =
        λ (j : ℕ) (b : j < n). delivers.complete m1 dest a j ∙ data_there m buf a n dest j b in
      let (i, within, e) =
        send_wait-sent fuel info m1 w a (n - w) (word w (λ i. buf (n - w + i))) dest enough
          (word_ext w (λ i. network m1 k dest a (n - w + i)) (λ i. buf (n - w + i))
            (λ i b. there (n - w + i) (omega arith)))
          last in
      (m1, i, within, e, there)

  send_marked-Ends :
      (fuel : ℕ) (m : Memory) (info : SendRecv) (buf : Bytes) (n offset e dest : ℕ)
      → k < fuel
      → n ≤ offset
      → e < 100000
      → Ends
          (send_wait shmem polls network ret fuel info
            (shmem.fence (
              shmem.putmem
                (shmem.putmem m info.buf_ptr 0 buf n dest)
                info.buf_ptr
                offset
                (int_bytes e)
                4
                dest))
            4
            info.buf_ptr
            offset
            e
            dest)
          info
          info.buf_ptr
          dest
          buf
          n
  send_marked-Ends fuel m info buf n offset e dest enough behind small =
      let a = info.buf_ptr in
      let both = shmem.putmem (shmem.putmem m a 0 buf n dest) a offset (int_bytes e) 4 dest in
      let before = shmem.fence (shmem.putmem m a 0 buf n dest) in
      let there = λ (j : ℕ).
        delivers.complete_fenced both dest a j ∙ both_there m buf (int_bytes e) a n offset dest j in
      let (i, within, ends) =
        send_wait-sent fuel info (shmem.fence both) 4 a offset e dest enough
          (word_ext 4 (λ i. network (shmem.fence both) k dest a (offset + i)) (int_bytes e)
              (λ i b. there (offset + i) ∙ write-inside (before dest a) (int_bytes e) offset 4 i b)
            ∙ word-int_bytes e small)
          (inl (omega arith)) in
      (
        shmem.fence both,
        i,
        within,
        ends,
        λ j b.
            there j
            ∙ write-below (before dest a) (int_bytes e) offset 4 j (omega arith)
            ∙ data_there m buf a n dest j b,
      )

  send_data-Ends :
      (fuel : ℕ) (m : Memory) (comm : Comm) (comm_offset : ℕ) (info : SendRecv) (buf : Bytes)
      (count d dest : ℕ) (expected : Option ℕ)
      → k < fuel
      → 1 ≤ count
      → comm.buffer_ptr ≡ info.buf_ptr
      → comm_offset + long_num_bytes count d < i32_mod
      → ((e : ℕ) → expected ≡ some e → e < 100000)
      → (expected ≡ none
          → FitsFlag
              (type_size d)
              (word (type_size d) (λ i. buf (long_num_bytes count d - type_size d + i))))
      → Ends
          (send_data shmem polls network ret fuel m comm comm_offset info buf count d dest expected)
          info
          info.buf_ptr
          dest
          buf
          (long_num_bytes count d)
  unfolding send_data
  send_data-Ends fuel m comm comm_offset info buf count d dest none enough some_data same fits small
        last =
      let there : (count == 0) ≡ false = grind arith in
      rw there (
        send_last-Ends fuel m info buf (long_num_bytes count d) (type_size d) dest enough
          (size_within count d some_data) (last refl))
  send_data-Ends fuel m comm comm_offset info buf count d dest (some e) enough some_data same fits
        small last =
      let n = long_num_bytes count d in
      let in_int : leb i32_mod (comm_offset + n) ≡ false = grind arith in
      rw (in_int, same)
        (send_marked-Ends fuel m info buf n (comm_offset + n) e dest enough (omega arith)
          (small e refl))

  -- If all puts are complete by poll k, then MPI_Send of one item or more, with more than k polls
  -- at hand and an offset behind the data that is an int, into the buffer that is the
  -- communicator's, returns by poll k, where for the types of int, long and long long the value of
  -- the last item fits an int; and MPI_Recv at dest, into whose buffer it was, ends and gives the
  -- data on the memory of poll k, whatever source and tags.
  pub mpi_send-mpi_recv :
      (fuel : ℕ) (m : Memory) (comm comm' : Comm) (comm_offset : ℕ) (info info' : SendRecv)
      (buf buf' : Bytes) (count d dest source tag tag' : ℕ)
      → k < fuel
      → 1 ≤ count
      → comm_offset + long_num_bytes count d < i32_mod
      → comm.buffer_ptr ≡ info.buf_ptr
      → info'.buf_ptr ≡ info.buf_ptr
      → (expected_int d ≡ none
          → FitsFlag
              (type_size d)
              (word (type_size d) (λ i. buf (long_num_bytes count d - type_size d + i))))
      → (m' : Memory) × (i : ℕ) × (i ≤ k)
        × (mpi_send shmem polls network ret fuel m (some comm) comm_offset info buf count d dest tag
            ≡ sent ret
                (record { tag = tag; datatype = some d; count = count; buf_ptr = info.buf_ptr })
                (network m' i))
        × (got : RecvResult) × (mpi_recv ret dest
              (network m' k)
              (some comm')
              info'
              buf'
              count
              d
              source
              tag'
            ≡ some got)
        × ((j : ℕ) → j < long_num_bytes count d → got.buf j ≡ buf j)
  unfolding mpi_send mpi_recv
  mpi_send-mpi_recv fuel m comm comm' comm_offset info info' buf buf' count d dest source tag tag'
        enough some_data fits same same' last =
      let told : SendRecv = record {
        tag = tag;
        datatype = some d;
        count = count;
        buf_ptr = info.buf_ptr;
      } in
      let (m', i, within, e, there) =
        send_data-Ends fuel m comm comm_offset told buf count d dest (expected_int d) enough
          some_data same fits (expected_int_small d) last in
      let copied = copy_my_data_lem buf' (network m' k dest info'.buf_ptr) count d (omega arith) in
      (
        m',
        i,
        within,
        e,
        record {
          ret = ret;
          buf = write buf' 0 (network m' k dest info'.buf_ptr) (long_num_bytes count d);
          send_info = record { tag = 0; datatype = none; count = 0; buf_ptr = comm'.buffer_ptr };
        },
        rw (copied, mpi_recv) refl,
        λ j b.
            write-start buf' (network m' k dest info'.buf_ptr) (long_num_bytes count d) j b
            ∙ ap (λ a. network m' k dest a j) same'
            ∙ there j b,
      )
