-- ===== src/Messages/RoundTrip/Single.antt =====
-- The requests about one record.
use mpi_to_openshmem.Prelude.{ℕ, ◌+◌, ◌≤◌, ◌<◌, ◌≡◌, refl, List, [], ◌∷◌, false, leb, arith}
use mpi_to_openshmem.Prelude.Int.{u32_mod}
use mpi_to_openshmem.Floats.{Bytes}
use mpi_to_openshmem.Mpi.Datatypes.{i32_mod, mpi_char}
use mpi_to_openshmem.Messages.Types.{Data, PutMessage, GetMessage, DelMessage, max_msg_size}
use mpi_to_openshmem.Messages.Struct.{int_field, int_bytes_lem}
use mpi_to_openshmem.Messages.Packing.{
  ok, MpiCalls, Packs, Chunk, chars, data_chunk, cursor, get_bytes, get_data, unpacked_message,
}
use mpi_to_openshmem.Messages.Packing.Holds.{
  total_bytes, Same, after, chars_bytes, Ahead, get_struct-Ahead, pack_sized-Ahead, field_lem,
}
use mpi_to_openshmem.Messages.Packing.Lengthed.{get_data-len}
use mpi_to_openshmem.Messages.Pack.{
  put_struct, get_struct, del_struct, pack_put_message, pack_get_message, pack_del_message,
}
use mpi_to_openshmem.Messages.Unpack.{unpack_put_message, unpack_get_message, unpack_del_message}

-- How a message that came in is the one that was sent; its size is that of the buffer.
pub record SamePut (m' m : PutMessage) (n : ℕ) : Type 0 where
  pub server_rank : m'.server_rank ≡ m.server_rank
  pub size : m'.size ≡ n
  pub key : Same m'.key m.key
  pub value : Same m'.value m.value

pub record SameGet (m' m : GetMessage) (n : ℕ) : Type 0 where
  pub server_rank : m'.server_rank ≡ m.server_rank
  pub size : m'.size ≡ n
  pub op : m'.op ≡ m.op
  pub key : Same m'.key m.key
  pub num_records : m'.num_records ≡ m.num_records

pub record SameDel (m' m : DelMessage) (n : ℕ) : Type 0 where
  pub server_rank : m'.server_rank ≡ m.server_rank
  pub size : m'.size ≡ n
  pub key : Same m'.key m.key

abbrev pub put_size : PutMessage → ℕ
put_size m = 48 + (m.key.len + m.value.len)

abbrev pub put_chunks : Bytes → PutMessage → List Chunk
put_chunks rest m =
    chars (put_struct m (put_size m) rest) 48 ∷ data_chunk m.key ∷ data_chunk m.value ∷ []

abbrev pub get_size : GetMessage → ℕ
get_size m = 32 + m.key.len

abbrev pub get_chunks : Bytes → GetMessage → List Chunk
get_chunks rest m = chars (get_struct m (get_size m) rest) 32 ∷ data_chunk m.key ∷ []

abbrev pub del_size : DelMessage → ℕ
del_size m = 32 + m.key.len

abbrev pub del_chunks : Bytes → DelMessage → List Chunk
del_chunks rest m = chars (del_struct m (del_size m) rest) 32 ∷ data_chunk m.key ∷ []

module _ (mpi : MpiCalls) (packs : Packs mpi) (rest : Bytes) where
  pub pack_put-Ahead :
      (outbuf : mpi.Buffer) (m : PutMessage) (fits : put_size m ≤ max_msg_size)
      → (b : mpi.Buffer) × (pack_put_message mpi outbuf rest m
          ≡ ok (record { sendbuf = b; sendsize = put_size m }))
        × Ahead mpi packs (put_size m) (omega arith) b (put_chunks rest m) 0
  unfolding pack_put_message total_bytes
  pack_put-Ahead outbuf m fits =
      let c_key = chars_bytes m.key.len in
      let c_value = chars_bytes m.value.len in
      let c_struct = chars_bytes 48 in
      let in_int : leb i32_mod (m.key.len + m.value.len) ≡ false = grind arith in
      let (b, e, ahead) =
        pack_sized-Ahead mpi packs (put_size m) fits outbuf (put_chunks rest m) (omega arith) in
      (b, rw in_int e, ahead)

  run_put :
      (raw : Bytes) (b : mpi.Buffer) (n n1 n2 : ℕ) (pm : Bytes) (key value : Data)
      → get_bytes mpi b n cursor raw 48 mpi_char ≡ ok (pm, after 48)
      → get_data mpi b n raw (int_field pm 24) (after 48) ≡ ok (key, after n1)
      → get_data mpi b n raw (int_field pm 40) (after n1) ≡ ok (value, after n2)
      → unpack_put_message mpi raw b n
        ≡ ok (record {
          server_rank = int_field pm 4;
          size = int_field pm 8;
          key = key;
          value = value;
        })
  unfolding unpack_put_message unpacked_message
  run_put raw b n n1 n2 pm key value e0 e1 e2 = rw e0 (rw e1 (rw e2 refl))

  pub unpack_put-Same :
      (raw : Bytes) (b : mpi.Buffer) (m : PutMessage) (fits : put_size m ≤ max_msg_size)
      → m.server_rank < u32_mod
      → Ahead mpi packs (put_size m) (omega arith) b (put_chunks rest m) 0
      → (m' : PutMessage) × (unpack_put_message mpi raw b (put_size m) ≡ ok m')
        × SamePut m' m (put_size m)
  unpack_put-Same raw b m fits h_server_rank ahead =
      let n = put_size m in
      let st = put_struct m n rest in
      let (pm, e0, got, ahead0) =
        get_struct-Ahead mpi packs n (omega arith) b st 48
          (data_chunk m.key ∷ data_chunk m.value ∷ []) raw ahead in
      let int = λ (offset v : ℕ) (f : offset + 4 ≤ 48). field_lem st pm 48 offset v got f in
      let (key, n1, e1, same_key, ahead1) =
        get_data-len mpi packs n (omega arith) b m.key (data_chunk m.value ∷ []) 48 raw
          (int_field pm 24) (int 24 m.key.len (omega arith) (int_bytes_lem m.key.len (omega arith)))
          ahead0 in
      let (value, n2, e2, same_value, ahead2) =
        get_data-len mpi packs n (omega arith) b m.value [] n1 raw (int_field pm 40)
          (int 40 m.value.len (omega arith) (int_bytes_lem m.value.len (omega arith))) ahead1 in
      (
        record { server_rank = int_field pm 4; size = int_field pm 8; key = key; value = value },
        run_put raw b n n1 n2 pm key value e0 e1 e2,
        record {
          server_rank =
              int 4 m.server_rank (omega arith) (int_bytes_lem m.server_rank h_server_rank);
          size = int 8 n (omega arith) (int_bytes_lem n (omega arith));
          key = same_key;
          value = same_value;
        },
      )

  pub pack_get-Ahead :
      (outbuf : mpi.Buffer) (m : GetMessage) (fits : get_size m ≤ max_msg_size)
      → (b : mpi.Buffer) × (pack_get_message mpi outbuf rest m
          ≡ ok (record { sendbuf = b; sendsize = get_size m }))
        × Ahead mpi packs (get_size m) (omega arith) b (get_chunks rest m) 0
  unfolding pack_get_message total_bytes
  pack_get-Ahead outbuf m fits =
      let c_key = chars_bytes m.key.len in
      let c_struct = chars_bytes 32 in
      let (b, e, ahead) =
        pack_sized-Ahead mpi packs (get_size m) fits outbuf (get_chunks rest m) (omega arith) in
      (b, e, ahead)

  run_get :
      (raw : Bytes) (b : mpi.Buffer) (n n1 : ℕ) (pm : Bytes) (key : Data)
      → get_bytes mpi b n cursor raw 32 mpi_char ≡ ok (pm, after 32)
      → get_data mpi b n raw (int_field pm 24) (after 32) ≡ ok (key, after n1)
      → unpack_get_message mpi raw b n
        ≡ ok (record {
          server_rank = int_field pm 4;
          size = int_field pm 8;
          op = int_field pm 12;
          num_records = int_field pm 28;
          key = key;
        })
  unfolding unpack_get_message unpacked_message
  run_get raw b n n1 pm key e0 e1 = rw e0 (rw e1 refl)

  pub unpack_get-Same :
      (raw : Bytes) (b : mpi.Buffer) (m : GetMessage) (fits : get_size m ≤ max_msg_size)
      → m.server_rank < u32_mod
      → m.op < u32_mod
      → m.num_records < u32_mod
      → Ahead mpi packs (get_size m) (omega arith) b (get_chunks rest m) 0
      → (m' : GetMessage) × (unpack_get_message mpi raw b (get_size m) ≡ ok m')
        × SameGet m' m (get_size m)
  unpack_get-Same raw b m fits h_server_rank h_op h_num_records ahead =
      let n = get_size m in
      let st = get_struct m n rest in
      let (pm, e0, got, ahead0) =
        get_struct-Ahead mpi packs n (omega arith) b st 32 (data_chunk m.key ∷ []) raw ahead in
      let int = λ (offset v : ℕ) (f : offset + 4 ≤ 32). field_lem st pm 32 offset v got f in
      let (key, n1, e1, same_key, ahead1) =
        get_data-len mpi packs n (omega arith) b m.key [] 32 raw (int_field pm 24)
          (int 24 m.key.len (omega arith) (int_bytes_lem m.key.len (omega arith))) ahead0 in
      (
        record {
          server_rank = int_field pm 4;
          size = int_field pm 8;
          op = int_field pm 12;
          num_records = int_field pm 28;
          key = key;
        },
        run_get raw b n n1 pm key e0 e1,
        record {
          server_rank =
              int 4 m.server_rank (omega arith) (int_bytes_lem m.server_rank h_server_rank);
          size = int 8 n (omega arith) (int_bytes_lem n (omega arith));
          op = int 12 m.op (omega arith) (int_bytes_lem m.op h_op);
          num_records =
              int 28 m.num_records (omega arith) (int_bytes_lem m.num_records h_num_records);
          key = same_key;
        },
      )

  pub pack_del-Ahead :
      (outbuf : mpi.Buffer) (m : DelMessage) (fits : del_size m ≤ max_msg_size)
      → (b : mpi.Buffer) × (pack_del_message mpi outbuf rest m
          ≡ ok (record { sendbuf = b; sendsize = del_size m }))
        × Ahead mpi packs (del_size m) (omega arith) b (del_chunks rest m) 0
  unfolding pack_del_message total_bytes
  pack_del-Ahead outbuf m fits =
      let c_key = chars_bytes m.key.len in
      let c_struct = chars_bytes 32 in
      let (b, e, ahead) =
        pack_sized-Ahead mpi packs (del_size m) fits outbuf (del_chunks rest m) (omega arith) in
      (b, e, ahead)

  run_del :
      (raw : Bytes) (b : mpi.Buffer) (n n1 : ℕ) (pm : Bytes) (key : Data)
      → get_bytes mpi b n cursor raw 32 mpi_char ≡ ok (pm, after 32)
      → get_data mpi b n raw (int_field pm 24) (after 32) ≡ ok (key, after n1)
      → unpack_del_message mpi raw b n
        ≡ ok (record { server_rank = int_field pm 4; size = int_field pm 8; key = key })
  unfolding unpack_del_message unpacked_message
  run_del raw b n n1 pm key e0 e1 = rw e0 (rw e1 refl)

  pub unpack_del-Same :
      (raw : Bytes) (b : mpi.Buffer) (m : DelMessage) (fits : del_size m ≤ max_msg_size)
      → m.server_rank < u32_mod
      → Ahead mpi packs (del_size m) (omega arith) b (del_chunks rest m) 0
      → (m' : DelMessage) × (unpack_del_message mpi raw b (del_size m) ≡ ok m')
        × SameDel m' m (del_size m)
  unpack_del-Same raw b m fits h_server_rank ahead =
      let n = del_size m in
      let st = del_struct m n rest in
      let (pm, e0, got, ahead0) =
        get_struct-Ahead mpi packs n (omega arith) b st 32 (data_chunk m.key ∷ []) raw ahead in
      let int = λ (offset v : ℕ) (f : offset + 4 ≤ 32). field_lem st pm 32 offset v got f in
      let (key, n1, e1, same_key, ahead1) =
        get_data-len mpi packs n (omega arith) b m.key [] 32 raw (int_field pm 24)
          (int 24 m.key.len (omega arith) (int_bytes_lem m.key.len (omega arith))) ahead0 in
      (
        record { server_rank = int_field pm 4; size = int_field pm 8; key = key },
        run_del raw b n n1 pm key e0 e1,
        record {
          server_rank =
              int 4 m.server_rank (omega arith) (int_bytes_lem m.server_rank h_server_rank);
          size = int 8 n (omega arith) (int_bytes_lem n (omega arith));
          key = same_key;
        },
      )
