-- ===== src/Messages/RoundTrip/BulkRecords.antt =====
-- The bulk messages of keys and values.
use mpi_to_openshmem.Prelude.{
  ℕ, ◌+◌, ◌*◌, ◌≤◌, ◌<◌, ◌≡◌, refl, List, ◌∷◌, false, leb, length, arith,
}
use mpi_to_openshmem.Prelude.Int.{u32_mod}
use mpi_to_openshmem.Floats.{Bytes}
use mpi_to_openshmem.Mpi.Datatypes.{i32_mod, mpi_char}
use mpi_to_openshmem.Messages.Types.{Pair, BulkPutMessage, BulkGetReturnMessage, max_msg_size}
use mpi_to_openshmem.Messages.Struct.{int_field, int_bytes_lem}
use mpi_to_openshmem.Messages.Packing.{
  ok, MpiCalls, Packs, Chunk, chars, cursor, get_bytes, malloc, unpacked_message,
}
use mpi_to_openshmem.Messages.Packing.Holds.{
  total_bytes, after, chars_bytes, Ahead, get_struct-Ahead, pack_sized-Ahead, field_lem, malloc_lem,
}
use mpi_to_openshmem.Messages.Pack.{
  sum_pairs, pair_chunks, found_chunks, bput_struct, bgetrm_struct, pack_bput_message,
  pack_bgetrm_message,
}
use mpi_to_openshmem.Messages.Unpack.{
  get_pairs, get_found, unpack_bput_message, unpack_bgetrm_message,
}
use mpi_to_openshmem.Messages.RoundTrip.Loops.{
  SamePairs, total-pair_chunks, total-found_chunks, sums_fit, get_pairs-Same, get_found-Same,
}

-- How a message that came in is the one that was sent; its size is that of the buffer.
pub record SameBulkPut (m' m : BulkPutMessage) (n : ℕ) : Type 0 where
  pub server_rank : m'.server_rank ≡ m.server_rank
  pub size : m'.size ≡ n
  pub records : SamePairs m'.records m.records

pub record SameBulkGetReturn (m' m : BulkGetReturnMessage) (n : ℕ) : Type 0 where
  pub server_rank : m'.server_rank ≡ m.server_rank
  pub size : m'.size ≡ n
  pub error : m'.error ≡ m.error
  pub records : SamePairs m'.records m.records

abbrev pub bput_size : BulkPutMessage → ℕ
bput_size m = 56 + 2 * length m.records * 4 + sum_pairs m.records

abbrev pub bput_chunks : Bytes → BulkPutMessage → List Chunk
bput_chunks rest m = chars (bput_struct m (bput_size m) rest) 56 ∷ pair_chunks rest m.records

abbrev pub bgetrm_size : BulkGetReturnMessage → ℕ
bgetrm_size m = 64 + 2 * length m.records * 4 + sum_pairs m.records

abbrev pub bgetrm_chunks : Bytes → BulkGetReturnMessage → List Chunk
bgetrm_chunks rest m = chars (bgetrm_struct m (bgetrm_size m) rest) 64 ∷ found_chunks rest m.records

module _ (mpi : MpiCalls) (packs : Packs mpi) (rest : Bytes) where
  pub pack_bput-Ahead :
      (outbuf : mpi.Buffer) (m : BulkPutMessage) (fits : bput_size m ≤ max_msg_size)
      → (b : mpi.Buffer) × (pack_bput_message mpi outbuf rest m
          ≡ ok (record { sendbuf = b; sendsize = bput_size m }))
        × Ahead mpi packs (bput_size m) (omega arith) b (bput_chunks rest m) 0
  unfolding pack_bput_message total_bytes
  pack_bput-Ahead outbuf m fits =
      let c_struct = chars_bytes 56 in
      let c_records = total-pair_chunks rest m.records in
      let few : leb i32_mod (2 * length m.records) ≡ false = grind arith in
      let sums = sums_fit m.records (omega arith) in
      let (b, e, ahead) =
        pack_sized-Ahead mpi packs (bput_size m) fits outbuf (bput_chunks rest m) (omega arith) in
      (b, rw few (rw sums e), ahead)

  run_bput :
      (raw : Bytes) (b : mpi.Buffer) (n count n1 : ℕ) (pm : Bytes) (records : List Pair)
      → get_bytes mpi b n cursor raw 56 mpi_char ≡ ok (pm, after 56)
      → int_field pm 48 ≡ count
      → malloc count ≡ ok tt
      → get_pairs mpi raw b n count (after 56) ≡ ok (records, after n1)
      → unpack_bput_message mpi raw b n
        ≡ ok (record { server_rank = int_field pm 4; size = int_field pm 8; records = records })
  unfolding unpack_bput_message unpacked_message
  run_bput raw b n count n1 pm records e0 c room e1 = rw e0 (rw c (rw room (rw e1 refl)))

  pub unpack_bput-Same :
      (raw : Bytes) (b : mpi.Buffer) (m : BulkPutMessage) (fits : bput_size m ≤ max_msg_size)
      → m.server_rank < u32_mod
      → Ahead mpi packs (bput_size m) (omega arith) b (bput_chunks rest m) 0
      → (m' : BulkPutMessage) × (unpack_bput_message mpi raw b (bput_size m) ≡ ok m')
        × SameBulkPut m' m (bput_size m)
  unpack_bput-Same raw b m fits h_server_rank ahead =
      let n = bput_size m in
      let st = bput_struct m n rest in
      let (pm, e0, got, ahead0) =
        get_struct-Ahead mpi packs n (omega arith) b st 56 (pair_chunks rest m.records) raw ahead in
      let int = λ (offset v : ℕ) (f : offset + 4 ≤ 56). field_lem st pm 56 offset v got f in
      let count =
        int 48 (length m.records) (omega arith) (int_bytes_lem (length m.records) (omega arith)) in
      let room = malloc_lem (length m.records) (omega arith) in
      let (records, n1, e1, same) =
        get_pairs-Same mpi packs n (omega arith) b raw rest m.records 56 ahead0 in
      (
        record { server_rank = int_field pm 4; size = int_field pm 8; records = records },
        run_bput raw b n (length m.records) n1 pm records e0 count room e1,
        record {
          server_rank =
              int 4 m.server_rank (omega arith) (int_bytes_lem m.server_rank h_server_rank);
          size = int 8 n (omega arith) (int_bytes_lem n (omega arith));
          records = same;
        },
      )

  pub pack_bgetrm-Ahead :
      (outbuf : mpi.Buffer) (m : BulkGetReturnMessage) (fits : bgetrm_size m ≤ max_msg_size)
      → (b : mpi.Buffer) × (pack_bgetrm_message mpi outbuf rest m
          ≡ ok (record { sendbuf = b; sendsize = bgetrm_size m }))
        × Ahead mpi packs (bgetrm_size m) (omega arith) b (bgetrm_chunks rest m) 0
  unfolding pack_bgetrm_message total_bytes
  pack_bgetrm-Ahead outbuf m fits =
      let c_struct = chars_bytes 64 in
      let c_records = total-found_chunks rest m.records in
      let few : leb i32_mod (2 * length m.records) ≡ false = grind arith in
      let sums = sums_fit m.records (omega arith) in
      let (b, e, ahead) =
        pack_sized-Ahead mpi packs (bgetrm_size m) fits outbuf (bgetrm_chunks rest m)
          (omega arith) in
      (b, rw few (rw sums e), ahead)

  run_bgetrm :
      (raw : Bytes) (b : mpi.Buffer) (n count n1 : ℕ) (pm : Bytes) (records : List Pair)
      → get_bytes mpi b n cursor raw 64 mpi_char ≡ ok (pm, after 64)
      → int_field pm 48 ≡ count
      → malloc count ≡ ok tt
      → get_found mpi raw b n count (after 64) ≡ ok (records, after n1)
      → unpack_bgetrm_message mpi raw b n
        ≡ ok (record {
          server_rank = int_field pm 4;
          size = int_field pm 8;
          error = int_field pm 12;
          records = records;
        })
  unfolding unpack_bgetrm_message unpacked_message
  run_bgetrm raw b n count n1 pm records e0 c room e1 = rw e0 (rw c (rw room (rw e1 refl)))

  pub unpack_bgetrm-Same :
      (raw : Bytes) (b : mpi.Buffer) (m : BulkGetReturnMessage)
      (fits : bgetrm_size m ≤ max_msg_size)
      → m.server_rank < u32_mod
      → m.error < u32_mod
      → Ahead mpi packs (bgetrm_size m) (omega arith) b (bgetrm_chunks rest m) 0
      → (m' : BulkGetReturnMessage) × (unpack_bgetrm_message mpi raw b (bgetrm_size m) ≡ ok m')
        × SameBulkGetReturn m' m (bgetrm_size m)
  unpack_bgetrm-Same raw b m fits h_server_rank h_error ahead =
      let n = bgetrm_size m in
      let st = bgetrm_struct m n rest in
      let (pm, e0, got, ahead0) =
        get_struct-Ahead mpi packs n (omega arith) b st 64 (found_chunks rest m.records) raw
          ahead in
      let int = λ (offset v : ℕ) (f : offset + 4 ≤ 64). field_lem st pm 64 offset v got f in
      let count =
        int 48 (length m.records) (omega arith) (int_bytes_lem (length m.records) (omega arith)) in
      let room = malloc_lem (length m.records) (omega arith) in
      let (records, n1, e1, same) =
        get_found-Same mpi packs n (omega arith) b raw rest m.records 64 (omega arith) ahead0 in
      (
        record {
          server_rank = int_field pm 4;
          size = int_field pm 8;
          error = int_field pm 12;
          records = records;
        },
        run_bgetrm raw b n (length m.records) n1 pm records e0 count room e1,
        record {
          server_rank =
              int 4 m.server_rank (omega arith) (int_bytes_lem m.server_rank h_server_rank);
          size = int 8 n (omega arith) (int_bytes_lem n (omega arith));
          error = int 12 m.error (omega arith) (int_bytes_lem m.error h_error);
          records = same;
        },
      )
