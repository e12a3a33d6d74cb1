-- ===== src/Mpi/Blocking.antt =====
-- MPI_Send and MPI_Recv of src/mpi_to_openshmem.c. Both return a variable that is never set: `ret` is
-- what it holds. The calls of printf and the locks are left out.
pub mod Polling
pub mod Delivery
pub mod AtOnce
mod Tests
use mpi_to_openshmem.Prelude.{
  ℕ, zero, suc, ◌+◌, ◌-◌, ◌*◌, ◌/◌, ◌%◌, ◌^◌, ◌≡◌, List, [], ◌∷◌, Bool, true, false, ltb, leb, ◌==◌,
  if◌then◌else◌, Option, none, some,
}
use mpi_to_openshmem.Prelude.Int.{u32_mod}
use mpi_to_openshmem.Floats.{Bytes}
use mpi_to_openshmem.Mpi.Datatypes.{
  mpi_err_comm, mpi_char, mpi_unsigned_char, mpi_byte, mpi_short, mpi_unsigned_short, mpi_int,
  mpi_unsigned, mpi_long, mpi_unsigned_long, mpi_float, mpi_double, mpi_long_double, mpi_long_long,
  one_of, type_size, long_num_bytes, i32_mod, write, copy_my_data,
}
use mpi_to_openshmem.Mpi.Groups.{Comm}
use mpi_to_openshmem.Mpi.Shmem.{Memory, Shmem, set_buffer}

-- The number in the first `w` bytes, least byte first.
unfoldable pub word : ℕ → Bytes → ℕ
word zero f = 0
word (suc w) f = f 0 + 256 * word w (λ i. f (suc i))

-- The bytes of an int.
abbrev pub int_bytes : ℕ → Bytes
int_bytes v k = v / 256 ^ k % 256

-- shmem_int_cswap, shmem_long_cswap and shmem_longlong_cswap (width, memory, target, offset, cond, value,
-- pe) give what is there before; and a fence completes all puts before it.
pub record Polls (shmem : Shmem) : Type 0 where
  pub cswap : ℕ → Memory → ℕ → ℕ → ℕ → ℕ → ℕ → ℕ
  pub cswap_lem :
      (w : ℕ) (m : Memory) (a offset v pe : ℕ)
      → cswap w m a offset v v pe ≡ word w (λ i. m pe a (offset + i))
  pub fence-putmem-putmem :
      (m : Memory) (a offset : ℕ) (from : Bytes) (n pe a' offset' : ℕ) (from' : Bytes)
      (n' pe' p b k : ℕ)
      → let before = shmem.fence (shmem.putmem m a offset from n pe) in
        shmem.fence (shmem.putmem (shmem.putmem m a offset from n pe) a' offset' from' n' pe') p b k
        ≡ set_buffer before pe' a' (write (before pe' a') offset' from' n') p b k

-- struct MPID_SendRecv, of sendInfo[0]: -1 as datatype is `none`. afterBufAreaPtr is not used.
pub record SendRecv : Type 0 where
  pub tag : ℕ
  pub datatype : Option ℕ
  pub count : ℕ
  pub buf_ptr : ℕ

-- What MPI_Send puts behind the data and waits for; for ints and longs it waits for the last of them.
unfoldable pub expected_int : ℕ → Option ℕ
unfolding one_of
expected_int d =
    if one_of d (mpi_char ∷ mpi_unsigned_char ∷ mpi_byte ∷ [])
    then some 12345
    else if one_of d (mpi_short ∷ mpi_unsigned_short ∷ [])
    then some 23456
    else if one_of d (mpi_int ∷ mpi_unsigned ∷ [])
    then none
    else if one_of d (mpi_long ∷ mpi_unsigned_long ∷ [])
    then none
    else if d == mpi_float
    then some 34567
    else if d == mpi_double
    then some 45678
    else if d == mpi_long_double
    then some 56789
    else if d == mpi_long_long
    then none
    else some 67890

-- MPI_Send returns; or it polls on; or it reads before its buffer, or an int overflows.
pub data SendResult : Type 0 where
  sent : ℕ → SendRecv → Memory → SendResult
  polling : SendResult
  fault : SendResult

pub record RecvResult : Type 0 where
  pub ret : ℕ
  pub buf : Bytes
  pub send_info : SendRecv

-- The loop that polls; `seen n` is the memory at poll `n`.
unfoldable pub wait : (ℕ → Memory) → (Memory → Bool) → ℕ → ℕ → Option ℕ
wait seen is_there zero n = none
wait seen is_there (suc fuel) n =
    let rest = wait seen is_there fuel (suc n) in if is_there (seen n) then some n else rest

-- The int that the result of the swap is stored in, compared as `w` bytes: it is cut off and
-- its sign extended.
unfoldable pub as_flag : ℕ → ℕ → ℕ
as_flag w x =
    let low = x % u32_mod in
    if leb w 4 then x else if ltb low i32_mod then low else low + (256 ^ w - u32_mod)

-- `network m n` is what becomes of the memory `m` by poll `n`.
module _ (shmem : Shmem) (polls : Polls shmem) (network : Memory → ℕ → Memory) (ret : ℕ) where
  returns : SendRecv → (ℕ → Memory) → Option ℕ → SendResult
  returns info seen none = polling
  returns info seen (some n) = sent ret info (seen n)

  -- Waits for the `w` bytes of `expected` at `offset` of the symmetric buffer `a`.
  unfoldable pub send_wait : ℕ → SendRecv → Memory → ℕ → ℕ → ℕ → ℕ → ℕ → SendResult
  unfolding returns as_flag
  send_wait fuel info m w a offset expected dest = returns info (network m) (
      wait (network m)
        (λ seen. as_flag w (polls.cswap w seen a offset expected expected dest) == expected) fuel 0)

  -- The cases of the switch.
  unfoldable pub send_data :
      ℕ → Memory → Comm → ℕ → SendRecv → Bytes → ℕ → ℕ → ℕ → Option ℕ → SendResult
  send_data fuel m comm comm_offset info buf count d dest none =
      let n = long_num_bytes count d in
      let w = type_size d in
      let m1 = shmem.putmem m info.buf_ptr 0 buf n dest in
      let waits =
        send_wait fuel info m1 w info.buf_ptr (n - w) (word w (λ i. buf (n - w + i))) dest in
      if count == 0 then fault else waits
  send_data fuel m comm comm_offset info buf count d dest (some expected) =
      let n = long_num_bytes count d in
      let m1 = shmem.putmem m info.buf_ptr 0 buf n dest in
      let offset = comm_offset + n in
      let m2 = shmem.fence (shmem.putmem m1 comm.buffer_ptr offset (int_bytes expected) 4 dest) in
      let waits = send_wait fuel info m2 4 comm.buffer_ptr offset expected dest in
      if leb i32_mod offset then fault else waits

  -- `comm_offset` is the field offset of the communicator, and `info` its sendInfo[0].
  unfoldable pub mpi_send :
      ℕ → Memory → Option Comm → ℕ → SendRecv → Bytes → ℕ → ℕ → ℕ → ℕ → SendResult
  mpi_send fuel m none comm_offset info buf count datatype dest tag = sent mpi_err_comm info m
  mpi_send fuel m (some comm) comm_offset info buf count datatype dest tag =
      send_data fuel m comm comm_offset
        (record info { tag = tag; datatype = some datatype; count = count }) buf count datatype dest
        (expected_int datatype)

-- The tests of tag, count and datatype are only printed. `none` is a memcpy of a negative length.
unfoldable pub mpi_recv :
    ℕ → ℕ → Memory → Option Comm → SendRecv → Bytes → ℕ → ℕ → ℕ → ℕ → Option RecvResult
unfolding copy_my_data
mpi_recv ret my_pe m none info buf count datatype source tag =
    some (record { ret = mpi_err_comm; buf = buf; send_info = info })
mpi_recv ret my_pe m (some comm) info buf count datatype source tag =
    elim (copy_my_data buf (m my_pe info.buf_ptr) count datatype) [
      | none ↦ none
      | some copy ↦ some (record {
        ret = ret;
        buf = copy;
        send_info = record { tag = 0; datatype = none; count = 0; buf_ptr = comm.buffer_ptr };
      })
    ]
