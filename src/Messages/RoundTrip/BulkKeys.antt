-- ===== src/Messages/RoundTrip/BulkKeys.antt =====
-- The bulk messages of keys.
use mpi_to_openshmem.Prelude.{ℕ, ◌+◌, ◌*◌, ◌≤◌, ◌<◌, ◌≡◌, refl, List, ◌∷◌, length, arith}
use mpi_to_openshmem.Prelude.Int.{u32_mod}
use mpi_to_openshmem.Floats.{Bytes}
use mpi_to_openshmem.Mpi.Datatypes.{mpi_char}
use mpi_to_openshmem.Messages.Types.{Data, BulkGetMessage, BulkDelMessage, max_msg_size}
use mpi_to_openshmem.Messages.Struct.{int_field, int_bytes_lem}
use mpi_to_openshmem.Messages.Packing.{
  ok, MpiCalls, Packs, Chunk, chars, cursor, get_bytes, malloc, unpacked_message,
}
use mpi_to_openshmem.Messages.Packing.Holds.{
  total_bytes, after, chars_bytes, Ahead, get_struct-Ahead, pack_sized-Ahead, field_lem, malloc_lem,
}
use mpi_to_openshmem.Messages.Pack.{
  sum_lens, key_chunks, bget_struct, bdel_struct, pack_bget_message, pack_bdel_message,
}
use mpi_to_openshmem.Messages.Unpack.{get_keys, unpack_bget_message, unpack_bdel_message}
use mpi_to_openshmem.Messages.RoundTrip.Loops.{SameKeys, total-key_chunks, get_keys-Same}

-- How a message that came in is the one that was sent; its size is that of the buffer.
pub record SameBulkGet (m' m : BulkGetMessage) (n : ℕ) : Type 0 where
  pub server_rank : m'.server_rank ≡ m.server_rank
  pub size : m'.size ≡ n
  pub op : m'.op ≡ m.op
  pub keys : SameKeys m'.keys m.keys

pub record SameBulkDel (m' m : BulkDelMessage) (n : ℕ) : Type 0 where
  pub server_rank : m'.server_rank ≡ m.server_rank
  pub size : m'.size ≡ n
  pub keys : SameKeys m'.keys m.keys

abbrev pub bget_size : BulkGetMessage → ℕ
bget_size m = 40 + length m.keys * 4 * 2 + sum_lens m.keys

abbrev pub bget_chunks : Bytes → BulkGetMessage → List Chunk
bget_chunks rest m = chars (bget_struct m (bget_size m) rest) 40 ∷ key_chunks rest m.keys

abbrev pub bdel_size : BulkDelMessage → ℕ
bdel_size m = 40 + length m.keys * 4 + sum_lens m.keys

abbrev pub bdel_chunks : Bytes → BulkDelMessage → List Chunk
bdel_chunks rest m = chars (bdel_struct m (bdel_size m) rest) 40 ∷ key_chunks rest m.keys

module _ (mpi : MpiCalls) (packs : Packs mpi) (rest : Bytes) where
  pub pack_bget-Ahead :
      (outbuf : mpi.Buffer) (m : BulkGetMessage) (fits : bget_size m ≤ max_msg_size)
      → (b : mpi.Buffer) × (pack_bget_message mpi outbuf rest m
          ≡ ok (record { sendbuf = b; sendsize = bget_size m }))
        × Ahead mpi packs (bget_size m) (omega arith) b (bget_chunks rest m) 0
  unfolding pack_bget_message total_bytes
  pack_bget-Ahead outbuf m fits =
      let c_struct = chars_bytes 40 in
      let c_records = total-key_chunks rest m.keys in
      let (b, e, ahead) =
        pack_sized-Ahead mpi packs (bget_size m) fits outbuf (bget_chunks rest m) (omega arith) in
      (b, e, ahead)

  run_bget :
      (raw : Bytes) (b : mpi.Buffer) (n count n1 : ℕ) (pm : Bytes) (keys : List Data)
      → get_bytes mpi b n cursor raw 40 mpi_char ≡ ok (pm, after 40)
      → int_field pm 32 ≡ count
      → malloc count ≡ ok tt
      → get_keys mpi raw b n count (after 40) ≡ ok (keys, after n1)
      → unpack_bget_message mpi raw b n
        ≡ ok (record {
          server_rank = int_field pm 4;
          size = int_field pm 8;
          op = int_field pm 12;
          keys = keys;
        })
  unfolding unpack_bget_message unpacked_message
  run_bget raw b n count n1 pm keys e0 c room e1 = rw e0 (rw c (rw room (rw e1 refl)))

  pub unpack_bget-Same :
      (raw : Bytes) (b : mpi.Buffer) (m : BulkGetMessage) (fits : bget_size m ≤ max_msg_size)
      → m.server_rank < u32_mod
      → m.op < u32_mod
      → Ahead mpi packs (bget_size m) (omega arith) b (bget_chunks rest m) 0
      → (m' : BulkGetMessage) × (unpack_bget_message mpi raw b (bget_size m) ≡ ok m')
        × SameBulkGet m' m (bget_size m)
  unpack_bget-Same raw b m fits h_server_rank h_op ahead =
      let n = bget_size m in
      let st = bget_struct m n rest in
      let (pm, e0, got, ahead0) =
        get_struct-Ahead mpi packs n (omega arith) b st 40 (key_chunks rest m.keys) raw ahead in
      let int = λ (offset v : ℕ) (f : offset + 4 ≤ 40). field_lem st pm 40 offset v got f in
      let count =
        int 32 (length m.keys) (omega arith) (int_bytes_lem (length m.keys) (omega arith)) in
      let room = malloc_lem (length m.keys) (omega arith) in
      let (keys, n1, e1, same) =
        get_keys-Same mpi packs n (omega arith) b raw rest m.keys 40 ahead0 in
      (
        record {
          server_rank = int_field pm 4;
          size = int_field pm 8;
          op = int_field pm 12;
          keys = keys;
        },
        run_bget raw b n (length m.keys) n1 pm keys e0 count room e1,
        record {
          server_rank =
              int 4 m.server_rank (omega arith) (int_bytes_lem m.server_rank h_server_rank);
          size = int 8 n (omega arith) (int_bytes_lem n (omega arith));
          op = int 12 m.op (omega arith) (int_bytes_lem m.op h_op);
          keys = same;
        },
      )

  pub pack_bdel-Ahead :
      (outbuf : mpi.Buffer) (m : BulkDelMessage) (fits : bdel_size m ≤ max_msg_size)
      → (b : mpi.Buffer) × (pack_bdel_message mpi outbuf rest m
          ≡ ok (record { sendbuf = b; sendsize = bdel_size m }))
        × Ahead mpi packs (bdel_size m) (omega arith) b (bdel_chunks rest m) 0
  unfolding pack_bdel_message total_bytes
  pack_bdel-Ahead outbuf m fits =
      let c_struct = chars_bytes 40 in
      let c_records = total-key_chunks rest m.keys in
      let (b, e, ahead) =
        pack_sized-Ahead mpi packs (bdel_size m) fits outbuf (bdel_chunks rest m) (omega arith) in
      (b, e, ahead)

  run_bdel :
      (raw : Bytes) (b : mpi.Buffer) (n count n1 : ℕ) (pm : Bytes) (keys : List Data)
      → get_bytes mpi b n cursor raw 40 mpi_char ≡ ok (pm, after 40)
      → int_field pm 32 ≡ count
      → malloc count ≡ ok tt
      → get_keys mpi raw b n count (after 40) ≡ ok (keys, after n1)
      → unpack_bdel_message mpi raw b n
        ≡ ok (record { server_rank = int_field pm 4; size = int_field pm 8; keys = keys })
  unfolding unpack_bdel_message unpacked_message
  run_bdel raw b n count n1 pm keys e0 c room e1 = rw e0 (rw c (rw room (rw e1 refl)))

  pub unpack_bdel-Same :
      (raw : Bytes) (b : mpi.Buffer) (m : BulkDelMessage) (fits : bdel_size m ≤ max_msg_size)
      → m.server_rank < u32_mod
      → Ahead mpi packs (bdel_size m) (omega arith) b (bdel_chunks rest m) 0
      → (m' : BulkDelMessage) × (unpack_bdel_message mpi raw b (bdel_size m) ≡ ok m')
        × SameBulkDel m' m (bdel_size m)
  unpack_bdel-Same raw b m fits h_server_rank ahead =
      let n = bdel_size m in
      let st = bdel_struct m n rest in
      let (pm, e0, got, ahead0) =
        get_struct-Ahead mpi packs n (omega arith) b st 40 (key_chunks rest m.keys) raw ahead in
      let int = λ (offset v : ℕ) (f : offset + 4 ≤ 40). field_lem st pm 40 offset v got f in
      let count =
        int 32 (length m.keys) (omega arith) (int_bytes_lem (length m.keys) (omega arith)) in
      let room = malloc_lem (length m.keys) (omega arith) in
      let (keys, n1, e1, same) =
        get_keys-Same mpi packs n (omega arith) b raw rest m.keys 40 ahead0 in
      (
        record { server_rank = int_field pm 4; size = int_field pm 8; keys = keys },
        run_bdel raw b n (length m.keys) n1 pm keys e0 count room e1,
        record {
          server_rank =
              int 4 m.server_rank (omega arith) (int_bytes_lem m.server_rank h_server_rank);
          size = int 8 n (omega arith) (int_bytes_lem n (omega arith));
          keys = same;
        },
      )
