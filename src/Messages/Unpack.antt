-- ===== src/Messages/Unpack.antt =====
-- The functions unpack_..._message of mdhimMods/src/messages.c, on a 64-bit system. malloc finds space
-- unless its argument is negative, and `raw` is what the space holds at first.
use mpi_to_openshmem.Prelude.{ℕ, zero, suc, List, [], ◌∷◌}
use mpi_to_openshmem.Floats.{Bytes}
use mpi_to_openshmem.Mpi.Datatypes.{mpi_char}
use mpi_to_openshmem.Messages.Types.{
  Data, Pair, PutMessage, BulkPutMessage, GetMessage, BulkGetMessage, DelMessage, BulkDelMessage,
  ReturnMessage, GetReturnMessage, BulkGetReturnMessage,
}
use mpi_to_openshmem.Messages.Struct.{int_field}
use mpi_to_openshmem.Messages.Packing.{
  Result, ok, ◌>>=◌, MpiCalls, Cursor, cursor, get_bytes, malloc, get_data, get_data_if,
  get_lengthed, get_lengthed_if, unpacked_message,
}

module _ (mpi : MpiCalls) (raw : Bytes) (message : mpi.Buffer) (mesg_size : ℕ) where
  unfoldable pub unpack_put_message : Result PutMessage
  unpack_put_message = do
    (pm, at0) ← get_bytes mpi message mesg_size cursor raw 48 mpi_char
    (key, at1) ← get_data mpi message mesg_size raw (int_field pm 24) at0
    (value, at2) ← get_data mpi message mesg_size raw (int_field pm 40) at1
    unpacked_message mpi at2
        (record { server_rank = int_field pm 4; size = int_field pm 8; key = key; value = value })

  -- The loops over the records.
  unfoldable pub get_pairs : ℕ → Cursor → Result (List Pair × Cursor)
  get_pairs zero at = ok ([], at)
  get_pairs (suc n) at = do
    (key, at1) ← get_lengthed mpi message mesg_size raw at
    (value, at2) ← get_lengthed mpi message mesg_size raw at1
    (pairs, at3) ← get_pairs n at2
    ok (record { key = key; value = value } ∷ pairs, at3)

  unfoldable pub get_found : ℕ → Cursor → Result (List Pair × Cursor)
  get_found zero at = ok ([], at)
  get_found (suc n) at = do
    (key, at1) ← get_lengthed_if mpi message mesg_size raw at
    (value, at2) ← get_lengthed_if mpi message mesg_size raw at1
    (pairs, at3) ← get_found n at2
    ok (record { key = key; value = value } ∷ pairs, at3)

  unfoldable pub get_keys : ℕ → Cursor → Result (List Data × Cursor)
  get_keys zero at = ok ([], at)
  get_keys (suc n) at = do
    (key, at1) ← get_lengthed mpi message mesg_size raw at
    (keys, at2) ← get_keys n at1
    ok (key ∷ keys, at2)

  unfoldable pub unpack_bput_message : Result BulkPutMessage
  unpack_bput_message = do
    (bput, at0) ← get_bytes mpi message mesg_size cursor raw 56 mpi_char
    _ ← malloc (int_field bput 48)
    (records, at1) ← get_pairs (int_field bput 48) at0
    unpacked_message mpi at1
        (record { server_rank = int_field bput 4; size = int_field bput 8; records = records })

  unfoldable pub unpack_get_message : Result GetMessage
  unpack_get_message = do
    (getm, at0) ← get_bytes mpi message mesg_size cursor raw 32 mpi_char
    (key, at1) ← get_data mpi message mesg_size raw (int_field getm 24) at0
    unpacked_message mpi at1 (record {
      server_rank = int_field getm 4;
      size = int_field getm 8;
      op = int_field getm 12;
      key = key;
      num_records = int_field getm 28;
    })

  unfoldable pub unpack_bget_message : Result BulkGetMessage
  unpack_bget_message = do
    (bgetm, at0) ← get_bytes mpi message mesg_size cursor raw 40 mpi_char
    _ ← malloc (int_field bgetm 32)
    (keys, at1) ← get_keys (int_field bgetm 32) at0
    unpacked_message mpi at1 (record {
      server_rank = int_field bgetm 4;
      size = int_field bgetm 8;
      op = int_field bgetm 12;
      keys = keys;
    })

  unfoldable pub unpack_del_message : Result DelMessage
  unpack_del_message = do
    (dm, at0) ← get_bytes mpi message mesg_size cursor raw 32 mpi_char
    (key, at1) ← get_data mpi message mesg_size raw (int_field dm 24) at0
    unpacked_message mpi at1
        (record { server_rank = int_field dm 4; size = int_field dm 8; key = key })

  unfoldable pub unpack_bdel_message : Result BulkDelMessage
  unpack_bdel_message = do
    (bdelm, at0) ← get_bytes mpi message mesg_size cursor raw 40 mpi_char
    _ ← malloc (int_field bdelm 32)
    (keys, at1) ← get_keys (int_field bdelm 32) at0
    unpacked_message mpi at1
        (record { server_rank = int_field bdelm 4; size = int_field bdelm 8; keys = keys })

  unfoldable pub unpack_getrm_message : Result GetReturnMessage
  unpack_getrm_message = do
    (grm, at0) ← get_bytes mpi message mesg_size cursor raw 48 mpi_char
    (key, at1) ← get_data_if mpi message mesg_size raw (int_field grm 24) at0
    (value, at2) ← get_data_if mpi message mesg_size raw (int_field grm 40) at1
    unpacked_message mpi at2 (record {
      server_rank = int_field grm 4;
      size = int_field grm 8;
      error = int_field grm 12;
      key = key;
      value = value;
    })

  unfoldable pub unpack_bgetrm_message : Result BulkGetReturnMessage
  unpack_bgetrm_message = do
    (bgrm, at0) ← get_bytes mpi message mesg_size cursor raw 64 mpi_char
    _ ← malloc (int_field bgrm 48)
    (records, at1) ← get_found (int_field bgrm 48) at0
    unpacked_message mpi at1 (record {
      server_rank = int_field bgrm 4;
      size = int_field bgrm 8;
      error = int_field bgrm 12;
      records = records;
    })

-- The size of the message is that of the struct.
unfoldable pub unpack_return_message : (mpi : MpiCalls) → Bytes → mpi.Buffer → Result ReturnMessage
unpack_return_message mpi raw message = do
  (rm, at) ← get_bytes mpi message 16 cursor raw 16 mpi_char
  unpacked_message mpi at
      (record { server_rank = int_field rm 4; size = int_field rm 8; error = int_field rm 12 })
