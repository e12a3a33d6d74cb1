-- ===== src/Messages/Pack.antt =====
-- The functions pack_..._message of mdhimMods/src/messages.c, on a 64-bit system. They set the size of
-- their message to that of the buffer, as it is packed. `rest` are the bytes of pointers and padding,
-- and `outbuf` is what malloc gives, which finds space for all sizes up to the largest.
use mpi_to_openshmem.Prelude.{
  ℕ, ◌+◌, ◌*◌, List, [], ◌∷◌, ◌++◌, Bool, true, false, leb, length, if◌then◌else◌,
}
use mpi_to_openshmem.Floats.{Bytes}
use mpi_to_openshmem.Mpi.Datatypes.{i32_mod}
use mpi_to_openshmem.Messages.Types.{
  Data, Pair, BaseMessage, PutMessage, BulkPutMessage, GetMessage, BulkGetMessage, DelMessage,
  BulkDelMessage, ReturnMessage, GetReturnMessage, BulkGetReturnMessage, mdhim_put, mdhim_bulk_put,
  mdhim_get, mdhim_bulk_get, mdhim_del, mdhim_bulk_del, mdhim_recv, mdhim_recv_get,
  mdhim_recv_bulk_get,
}
use mpi_to_openshmem.Messages.Struct.{struct_bytes}
use mpi_to_openshmem.Messages.Packing.{
  Result, fault, MpiCalls, Chunk, chars, data_chunk, int_chunk, data_chunks_if, Packed,
  pack_message, pack_sized,
}

unfoldable pub sum_lens : List Data → ℕ
sum_lens [] = 0
sum_lens (d ∷ ds) = d.len + sum_lens ds

unfoldable pub sum_pairs : List Pair → ℕ
sum_pairs [] = 0
sum_pairs (p ∷ ps) = p.key.len + p.value.len + sum_pairs ps

-- The sum of two lengths is taken as an int.
unfoldable pub int_sums : List Pair → Bool
int_sums [] = true
int_sums (p ∷ ps) = if leb i32_mod (p.key.len + p.value.len) then false else int_sums ps

abbrev pub put_struct : PutMessage → ℕ → Bytes → Bytes
put_struct pm size =
    struct_bytes (
      (0, mdhim_put) ∷ (4, pm.server_rank) ∷ (8, size) ∷ (24, pm.key.len) ∷ (40, pm.value.len) ∷ [])

abbrev pub bput_struct : BulkPutMessage → ℕ → Bytes → Bytes
bput_struct bpm size =
    struct_bytes
      ((0, mdhim_bulk_put) ∷ (4, bpm.server_rank) ∷ (8, size) ∷ (48, length bpm.records) ∷ [])

abbrev pub get_struct : GetMessage → ℕ → Bytes → Bytes
get_struct gm size = struct_bytes (
    (0, mdhim_get)
    ∷ (4, gm.server_rank)
    ∷ (8, size)
    ∷ (12, gm.op)
    ∷ (24, gm.key.len)
    ∷ (28, gm.num_records)
    ∷ [])

abbrev pub bget_struct : BulkGetMessage → ℕ → Bytes → Bytes
bget_struct bgm size = struct_bytes (
    (0, mdhim_bulk_get)
    ∷ (4, bgm.server_rank)
    ∷ (8, size)
    ∷ (12, bgm.op)
    ∷ (32, length bgm.keys)
    ∷ [])

abbrev pub del_struct : DelMessage → ℕ → Bytes → Bytes
del_struct dm size =
    struct_bytes ((0, mdhim_del) ∷ (4, dm.server_rank) ∷ (8, size) ∷ (24, dm.key.len) ∷ [])

abbrev pub bdel_struct : BulkDelMessage → ℕ → Bytes → Bytes
bdel_struct bdm size =
    struct_bytes
      ((0, mdhim_bulk_del) ∷ (4, bdm.server_rank) ∷ (8, size) ∷ (32, length bdm.keys) ∷ [])

abbrev pub base_struct : ℕ → BaseMessage → ℕ → Bytes → Bytes
base_struct mtype cm size = struct_bytes ((0, mtype) ∷ (4, cm.server_rank) ∷ (8, size) ∷ [])

abbrev pub return_struct : ReturnMessage → ℕ → Bytes → Bytes
return_struct rm size =
    struct_bytes ((0, mdhim_recv) ∷ (4, rm.server_rank) ∷ (8, size) ∷ (12, rm.error) ∷ [])

abbrev pub getrm_struct : GetReturnMessage → ℕ → Bytes → Bytes
getrm_struct grm size = struct_bytes (
    (0, mdhim_recv_get)
    ∷ (4, grm.server_rank)
    ∷ (8, size)
    ∷ (12, grm.error)
    ∷ (24, grm.key.len)
    ∷ (40, grm.value.len)
    ∷ [])

abbrev pub bgetrm_struct : BulkGetReturnMessage → ℕ → Bytes → Bytes
bgetrm_struct bgrm size = struct_bytes (
    (0, mdhim_recv_bulk_get)
    ∷ (4, bgrm.server_rank)
    ∷ (8, size)
    ∷ (12, bgrm.error)
    ∷ (48, length bgrm.records)
    ∷ [])

-- The calls in the loops over the records.
unfoldable pub key_chunks : Bytes → List Data → List Chunk
key_chunks rest [] = []
key_chunks rest (d ∷ ds) = int_chunk d.len rest ∷ data_chunk d ∷ key_chunks rest ds

unfoldable pub pair_chunks : Bytes → List Pair → List Chunk
pair_chunks rest [] = []
pair_chunks rest (p ∷ ps) =
    int_chunk p.key.len rest
    ∷ data_chunk p.key
    ∷ int_chunk p.value.len rest
    ∷ data_chunk p.value
    ∷ pair_chunks rest ps

unfoldable pub found_chunks : Bytes → List Pair → List Chunk
found_chunks rest [] = []
found_chunks rest (p ∷ ps) =
    int_chunk p.key.len rest
    ∷ (data_chunks_if p.key
        ++ (int_chunk p.value.len rest ∷ (data_chunks_if p.value ++ found_chunks rest ps)))

module _ (mpi : MpiCalls) (outbuf : mpi.Buffer) (rest : Bytes) where
  unfoldable pub pack_put_message : PutMessage → Result (Packed mpi)
  pack_put_message pm =
      let m_size = 48 + (pm.key.len + pm.value.len) in
      let message =
        pack_sized mpi outbuf m_size
          (chars (put_struct pm m_size rest) 48 ∷ data_chunk pm.key ∷ data_chunk pm.value ∷ []) in
      if leb i32_mod (pm.key.len + pm.value.len) then fault else message

  unfoldable pub pack_bput_message : BulkPutMessage → Result (Packed mpi)
  pack_bput_message bpm =
      let m_size = 56 + 2 * length bpm.records * 4 + sum_pairs bpm.records in
      let message =
        pack_sized mpi outbuf m_size
          (chars (bput_struct bpm m_size rest) 56 ∷ pair_chunks rest bpm.records) in
      if leb i32_mod (2 * length bpm.records)
      then fault
      else if int_sums bpm.records
      then message
      else fault

  unfoldable pub pack_get_message : GetMessage → Result (Packed mpi)
  pack_get_message gm =
      let m_size = 32 + gm.key.len in
      pack_sized mpi outbuf m_size (chars (get_struct gm m_size rest) 32 ∷ data_chunk gm.key ∷ [])

  unfoldable pub pack_bget_message : BulkGetMessage → Result (Packed mpi)
  pack_bget_message bgm =
      let m_size = 40 + length bgm.keys * 4 * 2 + sum_lens bgm.keys in
      pack_sized mpi outbuf m_size
        (chars (bget_struct bgm m_size rest) 40 ∷ key_chunks rest bgm.keys)

  unfoldable pub pack_del_message : DelMessage → Result (Packed mpi)
  pack_del_message dm =
      let m_size = 32 + dm.key.len in
      pack_sized mpi outbuf m_size (chars (del_struct dm m_size rest) 32 ∷ data_chunk dm.key ∷ [])

  unfoldable pub pack_bdel_message : BulkDelMessage → Result (Packed mpi)
  pack_bdel_message bdm =
      let m_size = 40 + length bdm.keys * 4 + sum_lens bdm.keys in
      pack_sized mpi outbuf m_size
        (chars (bdel_struct bdm m_size rest) 40 ∷ key_chunks rest bdm.keys)

  unfoldable pub pack_base_message : ℕ → BaseMessage → Result (Packed mpi)
  pack_base_message mtype cm =
      pack_message mpi outbuf 12 (chars (base_struct mtype cm 12 rest) 12 ∷ [])

  unfoldable pub pack_return_message : ReturnMessage → Result (Packed mpi)
  pack_return_message rm = pack_message mpi outbuf 16 (chars (return_struct rm 16 rest) 16 ∷ [])

  unfoldable pub pack_getrm_message : GetReturnMessage → Result (Packed mpi)
  pack_getrm_message grm =
      let m_size = 48 + (grm.key.len + grm.value.len) in
      let message = pack_sized mpi outbuf m_size (
        chars (getrm_struct grm m_size rest) 48
        ∷ (data_chunks_if grm.key ++ (data_chunks_if grm.value ++ []))) in
      if leb i32_mod (grm.key.len + grm.value.len) then fault else message

  unfoldable pub pack_bgetrm_message : BulkGetReturnMessage → Result (Packed mpi)
  pack_bgetrm_message bgrm =
      let m_size = 64 + 2 * length bgrm.records * 4 + sum_pairs bgrm.records in
      let message =
        pack_sized mpi outbuf m_size
          (chars (bgetrm_struct bgrm m_size rest) 64 ∷ found_chunks rest bgrm.records) in
      if leb i32_mod (2 * length bgrm.records)
      then fault
      else if int_sums bgrm.records
      then message
      else fault
