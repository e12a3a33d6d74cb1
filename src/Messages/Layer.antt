-- ===== src/Messages/Layer.antt =====
-- MPI_Pack and MPI_Unpack of src/mpi_to_openshmem.c below the messages of mdhimMods: with a buffer
-- that is symmetric, and with one of malloc, as the functions pack_..._message allocate.
use mpi_to_openshmem.Prelude.{
  ℕ, ◌+◌, ◌≤◌, ◌<◌, ◌≡◌, ◌∙◌, ap, refl, [], ◌∷◌, true, false, Option, none, some, leb, arith,
}
use mpi_to_openshmem.Floats.{Bytes}
use mpi_to_openshmem.Mpi.Datatypes.{long_num_bytes, i32_mod, write, mpi_char}
use mpi_to_openshmem.Mpi.Groups.{Comm}
use mpi_to_openshmem.Mpi.Shmem.{Memory, Shmem}
use mpi_to_openshmem.Mpi.Pack.{
  Packed as MpiPacked, Unpacked, Buffer, symmetric, own, put_packed, mpi_pack, mpi_unpack,
}
use mpi_to_openshmem.Mpi.Pack.Sequence.{
  Item, mpi_pack_symmetric, mpi_unpack_symmetric, write-inside, write-start, write-below,
  set_buffer_self,
}
use mpi_to_openshmem.Mpi.Pack.Private.{mpi_pack_own_kept}
use mpi_to_openshmem.Messages.Types.{PutMessage, max_msg_size}
use mpi_to_openshmem.Messages.Packing.{
  ok, MpiCalls, Packs, chars, data_chunk, pack_calls, pack_message, pack_sized,
}
use mpi_to_openshmem.Messages.Packing.Holds.{chars_bytes, pack_calls_next}
use mpi_to_openshmem.Messages.Pack.{put_struct, pack_put_message}
use mpi_to_openshmem.Messages.RoundTrip.Single.{put_size, put_chunks}

-- The bytes of a buffer that is not symmetric.
abbrev own_bytes : Buffer → Bytes
own_bytes (own bytes) = bytes
own_bytes (symmetric a) = λ k. 0

abbrev packed_symmetric : Option MpiPacked → Option (ℕ × Memory × ℕ)
packed_symmetric none = none
packed_symmetric (some p) = some (p.ret, p.memory, p.position)

abbrev packed_own : Option MpiPacked → Option (ℕ × (Memory × Bytes) × ℕ)
packed_own none = none
packed_own (some p) = some (p.ret, (p.memory, own_bytes p.outbuf), p.position)

abbrev unpacked_bytes : Option Unpacked → Option (ℕ × Bytes × ℕ)
unpacked_bytes none = none
unpacked_bytes (some u) = some (u.ret, u.outbuf, u.position)

pack_put_lem :
    (mpi : MpiCalls) (outbuf : mpi.Buffer) (rest : Bytes) (pm : PutMessage) (b : mpi.Buffer)
    → put_size pm ≤ max_msg_size
    → pack_calls mpi (put_size pm) (put_chunks rest pm) outbuf 0 0 ≡ ok (b, 0)
    → pack_put_message mpi outbuf rest pm ≡ ok (record { sendbuf = b; sendsize = put_size pm })
unfolding pack_put_message pack_sized pack_message
pack_put_lem mpi outbuf rest pm b fits e =
    let in_int : leb i32_mod (pm.key.len + pm.value.len) ≡ false = grind arith in
    let passes : leb (48 + (pm.key.len + pm.value.len)) max_msg_size ≡ true = grind arith in
    rw (in_int, passes) (rw e refl)

module _ (shmem : Shmem) (my_pe : ℕ) (comm : Comm) where
  -- Of the symmetric buffer `a`.
  abbrev pub symmetric_calls : ℕ → MpiCalls
  symmetric_calls a = record {
    Buffer = Memory;
    pack = λ m from count d outsize position.
        packed_symmetric
          (mpi_pack shmem my_pe m from count d (symmetric a) outsize position (some comm));
    unpack = λ m insize position out count d.
        unpacked_bytes
          (mpi_unpack shmem my_pe m (symmetric a) insize position out count d (some comm));
  }

  -- Of a buffer of malloc. What unpacking leaves in the scratch buffer is not read again.
  abbrev pub own_calls : MpiCalls
  own_calls = record {
    Buffer = Memory × Bytes;
    pack = λ (m, bytes) from count d outsize position.
        packed_own (mpi_pack shmem my_pe m from count d (own bytes) outsize position (some comm));
    unpack = λ (m, bytes) insize position out count d.
        unpacked_bytes
          (mpi_unpack shmem my_pe m (own bytes) insize position out count d (some comm));
  }

  -- With a symmetric buffer they are as documented.
  pub symmetric-Packs : (a : ℕ) → Packs (symmetric_calls a)
  unfolding put_packed
  symmetric-Packs a = record {
    bytes_of = λ m. m comm.group.rank a;
    pack-fits = λ m from count d outsize position fits small.
        let x : Item = record { count = count; datatype = d; bytes = from } in
        let n = long_num_bytes count d in
        let e = mpi_pack_symmetric shmem my_pe comm a outsize m x position fits small in
        let put = λ (k : ℕ).
          shmem.fence-putmem m a position from n comm.group.rank comm.group.rank a k
          ∙ set_buffer_self m comm.group.rank a (write (m comm.group.rank a) position from n) k in
        (
          shmem.fence (shmem.putmem m a position from n comm.group.rank),
          ap packed_symmetric e,
          (λ k below.
              put (position + k) ∙ write-inside (m comm.group.rank a) from position n k below),
          λ k below. put k ∙ write-below (m comm.group.rank a) from position n k below,
        );
    unpack-fits = λ m insize position out count d fits small.
        let x : Item = record { count = count; datatype = d; bytes = out } in
        let n = long_num_bytes count d in
        let e = mpi_unpack_symmetric shmem my_pe comm a insize m x position out fits small in
        (
          shmem.getmem m out a position n comm.group.rank,
          ap unpacked_bytes e,
          λ k below.
              shmem.getmem_lem m out a position n comm.group.rank k
              ∙ write-start out (λ i. m comm.group.rank a (position + i)) n k below,
        );
  }

  -- Packing a chunk leaves what is behind its length, wherever it is to go.
  own_kept :
      (m : Memory) (bytes from : Bytes) (size len n n' : ℕ)
      → n + len ≡ n'
      → n' ≤ size
      → size < i32_mod
      → (b : Memory × Bytes) × (own_calls.pack (m, bytes) from len mpi_char size n
          ≡ some (0, b, n'))
        × ((k : ℕ) → len ≤ k → b.1 k ≡ bytes k)
  own_kept m bytes from size len n n' end fits small =
      let whole = chars_bytes len in
      let moved : n + long_num_bytes len mpi_char ≡ n' = omega arith in
      let x : Item = record { count = len; datatype = mpi_char; bytes = from } in
      let (m', bytes', e, kept) =
        mpi_pack_own_kept shmem my_pe comm size m x bytes n (omega arith) small in
      (
        (m', bytes'),
        ap packed_own e ∙ ap (λ i. some (0, (m', bytes'), i)) moved,
        λ k above. kept k (omega arith),
      )

  -- Over MPI_Pack of the layer and a buffer of malloc, pack_put_message of a key and a value of at
  -- most 48 bytes each, within MDHIM_MAX_MSG_SIZE, returns MDHIM_SUCCESS with the full size, but
  -- the buffer from byte 48 on, where the key and the value are to be, is as malloc gave it.
  pub pack_put_message_lost :
      (outbuf : Memory × Bytes) (rest : Bytes) (pm : PutMessage)
      → 48 + (pm.key.len + pm.value.len) ≤ max_msg_size
      → pm.key.len ≤ 48
      → pm.value.len ≤ 48
      → (b : Memory × Bytes) × (pack_put_message own_calls outbuf rest pm
          ≡ ok (record { sendbuf = b; sendsize = 48 + (pm.key.len + pm.value.len) }))
        × ((k : ℕ) → 48 ≤ k → b.1 k ≡ outbuf.1 k)
  unfolding pack_calls
  pack_put_message_lost (m0, bytes0) rest pm fits short_key short_value =
      let size = put_size pm in
      let st = put_struct pm size rest in
      let end = 48 + pm.key.len in
      let small : size < i32_mod = omega arith in
      let key_call = data_chunk pm.key in
      let value_call = data_chunk pm.value in
      let ((m1, bytes1), e1, kept1) = own_kept m0 bytes0 st size 48 0 48 refl (omega arith) small in
      let ((m2, bytes2), e2, kept2) =
        own_kept m1 bytes1 pm.key.bytes size pm.key.len 48 end refl (omega arith) small in
      let ((m3, bytes3), e3, kept3) =
        own_kept m2 bytes2 pm.value.bytes size pm.value.len end (end + pm.value.len) refl
          (omega arith) small in
      let b1 : Memory × Bytes = (m1, bytes1) in
      let b2 : Memory × Bytes = (m2, bytes2) in
      let b3 : Memory × Bytes = (m3, bytes3) in
      let last = pack_calls_next own_calls size value_call [] b2 b3 end (end + pm.value.len) e3 in
      let second = pack_calls_next own_calls size key_call (value_call ∷ []) b1 b2 48 end e2 in
      let first =
        pack_calls_next own_calls size (chars st 48) (key_call ∷ value_call ∷ []) (m0, bytes0) b1 0
          48 e1 in
      (
        b3,
        pack_put_lem own_calls (m0, bytes0) rest pm b3 fits (first ∙ second ∙ last),
        λ k above. kept3 k (omega arith) ∙ kept2 k (omega arith) ∙ kept1 k above,
      )
