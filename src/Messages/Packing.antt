-- ===== src/Messages/Packing.antt =====
-- What mdhimMods/src/messages.c relies on of MPI_Pack and MPI_Unpack, and the ways in which it calls
-- them. The communicator is the one that the calls are for.
pub mod Holds
pub mod Lengthed
use mpi_to_openshmem.Prelude.{
  ℕ, zero, suc, ◌+◌, ◌*◌, ◌≤◌, ◌<◌, ◌≡◌, List, [], ◌∷◌, ◌++◌, Bool, true, false, Option, none, some,
  leb, ◌==◌, if◌then◌else◌,
}
use mpi_to_openshmem.Floats.{Bytes}
use mpi_to_openshmem.Mpi.Datatypes.{long_num_bytes, mpi_char, mpi_int, i32_mod}
use mpi_to_openshmem.Messages.Types.{Data, Pair, max_msg_size}
use mpi_to_openshmem.Messages.Struct.{struct_bytes, int_field}

-- A return code that is MDHIM_SUCCESS, with what was made, or MDHIM_ERROR; or undefined behaviour.
pub data Result (A : Type 0) : Type 0 where
  ok : A → Result A
  error : Result A
  fault : Result A

infixl 5 ◌>>=◌
abbrev pub ◌>>=◌ : {A B : Type 0} → Result A → (A → Result B) → Result B
ok a >>= f = f a
error >>= f = error
fault >>= f = fault

-- MPI_Pack (buffer, inbuf, count, datatype, outsize, position) gives a return code, the buffer and the
-- position, and MPI_Unpack (buffer, insize, position, outbuf, count, datatype) a return code, what is in
-- outbuf, and the position. `none` is undefined behaviour.
pub record MpiCalls : Type 1 where
  pub Buffer : Type 0
  pub pack : Buffer → Bytes → ℕ → ℕ → ℕ → ℕ → Option (ℕ × Buffer × ℕ)
  pub unpack : Buffer → ℕ → ℕ → Bytes → ℕ → ℕ → Option (ℕ × Bytes × ℕ)

-- What is documented of them, for a buffer that is large enough: packing leaves what is before the
-- position, and unpacking gives what is at the position.
pub record Packs (mpi : MpiCalls) : Type 0 where
  pub bytes_of : mpi.Buffer → Bytes
  pub pack-fits :
      (b : mpi.Buffer) (from : Bytes) (count d outsize position : ℕ)
      → position + long_num_bytes count d ≤ outsize
      → outsize < i32_mod
      → (b' : mpi.Buffer) × (mpi.pack b from count d outsize position
          ≡ some (0, b', position + long_num_bytes count d))
        × ((k : ℕ) → k < long_num_bytes count d → bytes_of b' (position + k) ≡ from k)
        × ((k : ℕ) → k < position → bytes_of b' k ≡ bytes_of b k)
  pub unpack-fits :
      (b : mpi.Buffer) (insize position : ℕ) (out : Bytes) (count d : ℕ)
      → position + long_num_bytes count d ≤ insize
      → insize < i32_mod
      → (out' : Bytes) × (mpi.unpack b insize position out count d
          ≡ some (0, out', position + long_num_bytes count d))
        × ((k : ℕ) → k < long_num_bytes count d → out' k ≡ bytes_of b (position + k))

-- The arguments of a call of MPI_Pack that differ from call to call.
pub record Chunk : Type 0 where
  pub from : Bytes
  pub count : ℕ
  pub datatype : ℕ

abbrev pub chars : Bytes → ℕ → Chunk
chars from n = record { from = from; count = n; datatype = mpi_char }

abbrev pub data_chunk : Data → Chunk
data_chunk d = chars d.bytes d.len

-- &key_lens[i]
abbrev pub int_chunk : ℕ → Bytes → Chunk
int_chunk n rest = record { from = struct_bytes ((0, n) ∷ []) rest; count = 1; datatype = mpi_int }

-- What is sent: a buffer and its size.
pub record Packed (mpi : MpiCalls) : Type 0 where
  pub sendbuf : mpi.Buffer
  pub sendsize : ℕ

-- Where the unpacking of a message is: its mesg_idx, and the sum of the return codes.
pub record Cursor : Type 0 where
  pub mesg_idx : ℕ
  pub return_code : ℕ

abbrev pub cursor : Cursor
cursor = record { mesg_idx = 0; return_code = 0 }

-- Nothing is packed for a length of 0.
abbrev pub data_chunks_if : Data → List Chunk
data_chunks_if d = if d.len == 0 then [] else data_chunk d ∷ []

-- malloc (n) for an int: NULL for a negative one.
unfoldable pub malloc : ℕ → Result Unit
malloc n = if leb i32_mod n then error else ok tt

module _ (mpi : MpiCalls) where
  -- The calls of MPI_Pack, whose return codes are added up.
  packed :
      ℕ
      → ℕ
      → (mpi.Buffer → ℕ → ℕ → Result (mpi.Buffer × ℕ))
      → Option (ℕ × mpi.Buffer × ℕ)
      → Result (mpi.Buffer × ℕ)
  packed mesg_size return_code rest none = fault
  packed mesg_size return_code rest (some (ret, b, mesg_idx)) = rest b mesg_idx (return_code + ret)

  unfoldable pub pack_calls : ℕ → List Chunk → mpi.Buffer → ℕ → ℕ → Result (mpi.Buffer × ℕ)
  unfolding packed
  pack_calls mesg_size [] b mesg_idx return_code = ok (b, return_code)
  pack_calls mesg_size (c ∷ cs) b mesg_idx return_code =
      packed mesg_size return_code (λ b' idx code. pack_calls mesg_size cs b' idx code)
        (mpi.pack b c.from c.count c.datatype mesg_size mesg_idx)

  -- What each function does with the size of its message and the calls. `outbuf` is what malloc gives.
  unfoldable pub pack_message : mpi.Buffer → ℕ → List Chunk → Result (Packed mpi)
  pack_message outbuf mesg_size cs = do
    (b, return_code) ← pack_calls mesg_size cs outbuf 0 0
    if return_code == 0 then ok (record { sendbuf = b; sendsize = mesg_size }) else error

  -- The test for the size is before it.
  unfoldable pub pack_sized : mpi.Buffer → ℕ → List Chunk → Result (Packed mpi)
  pack_sized outbuf m_size cs =
      let message = pack_message outbuf m_size cs in
      if leb m_size max_msg_size then message else error

  unpacked : Cursor → Option (ℕ × Bytes × ℕ) → Result (Bytes × Cursor)
  unpacked at none = fault
  unpacked at (some (ret, out, idx)) =
      ok (out, record { mesg_idx = idx; return_code = at.return_code + ret })

  -- A call of MPI_Unpack into space of malloc, which holds `raw` at first.
  unfoldable pub get_bytes : mpi.Buffer → ℕ → Cursor → Bytes → ℕ → ℕ → Result (Bytes × Cursor)
  unfolding unpacked
  get_bytes b mesg_size at raw count d =
      unpacked at (mpi.unpack b mesg_size at.mesg_idx raw count d)

  -- A key or a value of `len` bytes.
  unfoldable pub get_data : mpi.Buffer → ℕ → Bytes → ℕ → Cursor → Result (Data × Cursor)
  get_data b mesg_size raw len at = do
    _ ← malloc len
    (bytes, at') ← get_bytes b mesg_size at raw len mpi_char
    ok (record { bytes = bytes; len = len }, at')

  -- Where it has no bytes nothing is unpacked, and the pointer is NULL.
  unfoldable pub get_data_if : mpi.Buffer → ℕ → Bytes → ℕ → Cursor → Result (Data × Cursor)
  get_data_if b mesg_size raw len at =
      let there = get_data b mesg_size raw len at in
      if len == 0 then ok (record { bytes = raw; len = 0 }, at) else there

  -- The length first.
  unfoldable pub get_lengthed : mpi.Buffer → ℕ → Bytes → Cursor → Result (Data × Cursor)
  get_lengthed b mesg_size raw at = do
    (p, at') ← get_bytes b mesg_size at raw 1 mpi_int
    get_data b mesg_size raw (int_field p 0) at'

  unfoldable pub get_lengthed_if : mpi.Buffer → ℕ → Bytes → Cursor → Result (Data × Cursor)
  get_lengthed_if b mesg_size raw at = do
    (p, at') ← get_bytes b mesg_size at raw 1 mpi_int
    get_data_if b mesg_size raw (int_field p 0) at'

  -- The test for the return codes at the end.
  unfoldable pub unpacked_message : {A : Type 0} → Cursor → A → Result A
  unpacked_message at m = if at.return_code == 0 then ok m else error
