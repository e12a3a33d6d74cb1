-- ===== src/Messages/RoundTrip/Returns.antt =====
-- The requests about one record.
use mpi_to_openshmem.Prelude.{ℕ, ◌+◌, ◌≤◌, ◌<◌, ◌≡◌, refl, List, [], ◌∷◌, ◌++◌, false, leb, arith}
use mpi_to_openshmem.Prelude.Int.{u32_mod}
use mpi_to_openshmem.Floats.{Bytes}
use mpi_to_openshmem.Mpi.Datatypes.{i32_mod, mpi_char}
use mpi_to_openshmem.Messages.Types.{Data, ReturnMessage, GetReturnMessage, max_msg_size}
use mpi_to_openshmem.Messages.Struct.{int_field, int_bytes_lem}
use mpi_to_openshmem.Messages.Packing.{
  ok, MpiCalls, Packs, Chunk, chars, data_chunks_if, cursor, get_bytes, get_data_if,
  unpacked_message,
}
use mpi_to_openshmem.Messages.Packing.Holds.{
  total_bytes, Same, after, chars_bytes, Ahead, pack_message-Holds, get_struct-Ahead,
  pack_sized-Ahead, field_lem,
}
use mpi_to_openshmem.Messages.Packing.Lengthed.{get_data_if-len}
use mpi_to_openshmem.Messages.Pack.{
  return_struct, getrm_struct, pack_return_message, pack_getrm_message,
}
use mpi_to_openshmem.Messages.Unpack.{unpack_return_message, unpack_getrm_message}
use mpi_to_openshmem.Messages.RoundTrip.Loops.{total-data_chunks_if}

-- How a message that came in is the one that was sent; its size is that of the buffer.
pub record SameReturn (m' m : ReturnMessage) (n : ℕ) : Type 0 where
  pub server_rank : m'.server_rank ≡ m.server_rank
  pub size : m'.size ≡ n
  pub error : m'.error ≡ m.error

pub record SameGetReturn (m' m : GetReturnMessage) (n : ℕ) : Type 0 where
  pub server_rank : m'.server_rank ≡ m.server_rank
  pub size : m'.size ≡ n
  pub error : m'.error ≡ m.error
  pub key : Same m'.key m.key
  pub value : Same m'.value m.value

abbrev pub getrm_size : GetReturnMessage → ℕ
getrm_size m = 48 + (m.key.len + m.value.len)

abbrev pub getrm_chunks : Bytes → GetReturnMessage → List Chunk
getrm_chunks rest m =
    chars (getrm_struct m (getrm_size m) rest) 48
    ∷ (data_chunks_if m.key ++ (data_chunks_if m.value ++ []))

abbrev pub return_size : ReturnMessage → ℕ
return_size m = 16

abbrev pub return_chunks : Bytes → ReturnMessage → List Chunk
return_chunks rest m = chars (return_struct m (return_size m) rest) 16 ∷ []

module _ (mpi : MpiCalls) (packs : Packs mpi) (rest : Bytes) where
  pub pack_getrm-Ahead :
      (outbuf : mpi.Buffer) (m : GetReturnMessage) (fits : getrm_size m ≤ max_msg_size)
      → (b : mpi.Buffer) × (pack_getrm_message mpi outbuf rest m
          ≡ ok (record { sendbuf = b; sendsize = getrm_size m }))
        × Ahead mpi packs (getrm_size m) (omega arith) b (getrm_chunks rest m) 0
  unfolding pack_getrm_message total_bytes
  pack_getrm-Ahead outbuf m fits =
      let c_key = total-data_chunks_if m.key (data_chunks_if m.value ++ []) in
      let c_value = total-data_chunks_if m.value [] in
      let c_struct = chars_bytes 48 in
      let in_int : leb i32_mod (m.key.len + m.value.len) ≡ false = grind arith in
      let (b, e, ahead) =
        pack_sized-Ahead mpi packs (getrm_size m) fits outbuf (getrm_chunks rest m) (omega arith) in
      (b, rw in_int e, ahead)

  run_getrm :
      (raw : Bytes) (b : mpi.Buffer) (n n1 n2 : ℕ) (pm : Bytes) (key value : Data)
      → get_bytes mpi b n cursor raw 48 mpi_char ≡ ok (pm, after 48)
      → get_data_if mpi b n raw (int_field pm 24) (after 48) ≡ ok (key, after n1)
      → get_data_if mpi b n raw (int_field pm 40) (after n1) ≡ ok (value, after n2)
      → unpack_getrm_message mpi raw b n
        ≡ ok (record {
          server_rank = int_field pm 4;
          size = int_field pm 8;
          error = int_field pm 12;
          key = key;
          value = value;
        })
  unfolding unpack_getrm_message unpacked_message
  run_getrm raw b n n1 n2 pm key value e0 e1 e2 = rw e0 (rw e1 (rw e2 refl))

  pub unpack_getrm-Same :
      (raw : Bytes) (b : mpi.Buffer) (m : GetReturnMessage) (fits : getrm_size m ≤ max_msg_size)
      → m.server_rank < u32_mod
      → m.error < u32_mod
      → Ahead mpi packs (getrm_size m) (omega arith) b (getrm_chunks rest m) 0
      → (m' : GetReturnMessage) × (unpack_getrm_message mpi raw b (getrm_size m) ≡ ok m')
        × SameGetReturn m' m (getrm_size m)
  unpack_getrm-Same raw b m fits h_server_rank h_error ahead =
      let n = getrm_size m in
      let st = getrm_struct m n rest in
      let (pm, e0, got, ahead0) =
        get_struct-Ahead mpi packs n (omega arith) b st 48
          (data_chunks_if m.key ++ (data_chunks_if m.value ++ [])) raw ahead in
      let int = λ (offset v : ℕ) (f : offset + 4 ≤ 48). field_lem st pm 48 offset v got f in
      let (key, n1, e1, same_key, ahead1) =
        get_data_if-len mpi packs n (omega arith) b m.key (data_chunks_if m.value ++ []) 48 raw
          (int_field pm 24) (int 24 m.key.len (omega arith) (int_bytes_lem m.key.len (omega arith)))
          ahead0 in
      let (value, n2, e2, same_value, ahead2) =
        get_data_if-len mpi packs n (omega arith) b m.value [] n1 raw (int_field pm 40)
          (int 40 m.value.len (omega arith) (int_bytes_lem m.value.len (omega arith))) ahead1 in
      (
        record {
          server_rank = int_field pm 4;
          size = int_field pm 8;
          error = int_field pm 12;
          key = key;
          value = value;
        },
        run_getrm raw b n n1 n2 pm key value e0 e1 e2,
        record {
          server_rank =
              int 4 m.server_rank (omega arith) (int_bytes_lem m.server_rank h_server_rank);
          size = int 8 n (omega arith) (int_bytes_lem n (omega arith));
          error = int 12 m.error (omega arith) (int_bytes_lem m.error h_error);
          key = same_key;
          value = same_value;
        },
      )

  pub pack_return-Ahead :
      (outbuf : mpi.Buffer) (m : ReturnMessage)
      → (b : mpi.Buffer) × (pack_return_message mpi outbuf rest m
          ≡ ok (record { sendbuf = b; sendsize = 16 }))
        × Ahead mpi packs 16 (omega arith) b (return_chunks rest m) 0
  unfolding pack_return_message total_bytes
  pack_return-Ahead outbuf m =
      let c_struct = chars_bytes 16 in
      pack_message-Holds mpi packs 16 (omega arith) outbuf (return_chunks rest m) (omega arith)

  run_return :
      (raw : Bytes) (b : mpi.Buffer) (pm : Bytes)
      → get_bytes mpi b 16 cursor raw 16 mpi_char ≡ ok (pm, after 16)
      → unpack_return_message mpi raw b
        ≡ ok (record {
          server_rank = int_field pm 4;
          size = int_field pm 8;
          error = int_field pm 12;
        })
  unfolding unpack_return_message unpacked_message
  run_return raw b pm e0 = rw e0 refl

  pub unpack_return-Same :
      (raw : Bytes) (b : mpi.Buffer) (m : ReturnMessage)
      → m.server_rank < u32_mod
      → m.error < u32_mod
      → Ahead mpi packs (return_size m) (omega arith) b (return_chunks rest m) 0
      → (m' : ReturnMessage) × (unpack_return_message mpi raw b ≡ ok m')
        × SameReturn m' m (return_size m)
  unpack_return-Same raw b m h_server_rank h_error ahead =
      let n = return_size m in
      let st = return_struct m n rest in
      let (pm, e0, got, ahead0) = get_struct-Ahead mpi packs n (omega arith) b st 16 [] raw ahead in
      let int = λ (offset v : ℕ) (f : offset + 4 ≤ 16). field_lem st pm 16 offset v got f in
      (
        record { server_rank = int_field pm 4; size = int_field pm 8; error = int_field pm 12 },
        run_return raw b pm e0,
        record {
          server_rank =
              int 4 m.server_rank (omega arith) (int_bytes_lem m.server_rank h_server_rank);
          size = int 8 n (omega arith) (int_bytes_lem n (omega arith));
          error = int 12 m.error (omega arith) (int_bytes_lem m.error h_error);
        },
      )
