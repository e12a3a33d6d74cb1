-- ===== src/Messages/Transfer/Base.antt =====
-- The first bytes of a message, which every struct of mdhimMods/src/messages.h shares.
use mpi_to_openshmem.Prelude.{
  ℕ, ◌+◌, ◌≤◌, ◌<◌, ◌≡◌, refl, List, [], ◌∷◌, false, leb, ltb, ◌==◌, ◌||◌, arith,
}
use mpi_to_openshmem.Floats.{Bytes}
use mpi_to_openshmem.Partitioner.Keys.{u32_at}
use mpi_to_openshmem.Mpi.Datatypes.{mpi_char, i32_mod}
use mpi_to_openshmem.Messages.Types.{BaseMessage}
use mpi_to_openshmem.Messages.Struct.{int_field}
use mpi_to_openshmem.Messages.Packing.{ok, MpiCalls, Packs, Chunk, chars, cursor, get_bytes}
use mpi_to_openshmem.Messages.Packing.Holds.{
  total_bytes, after, chars_bytes, Ahead, pack_message-Holds, get_prefix-Ahead, field_lem,
}
use mpi_to_openshmem.Messages.Pack.{base_struct, pack_base_message}
use mpi_to_openshmem.Messages.Transfer.{
  unpack_request, unpack_valid, receive_rangesrv_work, unpack_response, receive_client_response,
}

abbrev pub base_chunks : ℕ → Bytes → BaseMessage → List Chunk
base_chunks mtype rest m = chars (base_struct mtype m 12 rest) 12 ∷ []

module _ (mpi : MpiCalls) (raw : Bytes) (b : mpi.Buffer) (size : ℕ) (small : size < i32_mod) where
  pub receive_work_lem :
      (out : Bytes) (mtype : ℕ)
      → get_bytes mpi b size cursor raw 12 mpi_char ≡ ok (out, after 12)
      → int_field out 0 ≡ mtype
      → int_field out 8 ≡ size
      → ((size == 0) || (ltb mtype 1 || ltb 11 mtype)) ≡ false
      → receive_rangesrv_work mpi raw 0 size 0 b ≡ unpack_request mpi raw b mtype size 0
  unfolding receive_rangesrv_work unpack_valid
  receive_work_lem out mtype e e0 e8 valid =
      let plus : leb i32_mod size ≡ false = grind arith in
      rw (plus, e) (rw (e0, e8) (rw valid refl))

  pub receive_response_lem :
      (out : Bytes) (mtype : ℕ)
      → get_bytes mpi b size cursor raw 12 mpi_char ≡ ok (out, after 12)
      → int_field out 0 ≡ mtype
      → int_field out 8 ≡ size
      → receive_client_response mpi raw 0 size 0 b ≡ unpack_response mpi raw b mtype size 0
  unfolding receive_client_response
  receive_response_lem out mtype e e0 e8 =
      let plus : leb i32_mod size ≡ false = grind arith in rw (plus, e) (rw (e0, e8) refl)

  module _ (packs : Packs mpi) (st : Bytes) (n : ℕ) (cs : List Chunk) (wide : 12 ≤ n)
      (mtype : ℕ) where
    pub get_base-Ahead :
        u32_at (λ i. st (0 + i)) ≡ mtype
        → u32_at (λ i. st (8 + i)) ≡ size
        → Ahead mpi packs size small b (chars st n ∷ cs) 0
        → (out : Bytes) × (get_bytes mpi b size cursor raw 12 mpi_char ≡ ok (out, after 12))
          × (int_field out 0 ≡ mtype)
          × (int_field out 8 ≡ size)
    get_base-Ahead e0 e8 ahead =
        let (out, e, same) = get_prefix-Ahead mpi packs size small b st n 12 cs raw wide ahead in
        (
          out,
          e,
          field_lem st out 12 0 mtype same (omega arith) e0,
          field_lem st out 12 8 size same (omega arith) e8,
        )

    -- What comes in is unpacked by its type and its size.
    pub receive_rangesrv_work-Ahead :
        u32_at (λ i. st (0 + i)) ≡ mtype
        → u32_at (λ i. st (8 + i)) ≡ size
        → 1 ≤ mtype
        → mtype ≤ 11
        → Ahead mpi packs size small b (chars st n ∷ cs) 0
        → receive_rangesrv_work mpi raw 0 size 0 b ≡ unpack_request mpi raw b mtype size 0
    unfolding total_bytes
    receive_rangesrv_work-Ahead e0 e8 low high ahead =
        let (out, e, f0, f8) = get_base-Ahead e0 e8 ahead in
        let whole = chars_bytes n in
        let fits = ahead.1 in
        let large : 12 ≤ size = omega arith in receive_work_lem out mtype e f0 f8 (ground arith)

    pub receive_client_response-Ahead :
        u32_at (λ i. st (0 + i)) ≡ mtype
        → u32_at (λ i. st (8 + i)) ≡ size
        → Ahead mpi packs size small b (chars st n ∷ cs) 0
        → receive_client_response mpi raw 0 size 0 b ≡ unpack_response mpi raw b mtype size 0
    receive_client_response-Ahead e0 e8 ahead =
        let (out, e, f0, f8) = get_base-Ahead e0 e8 ahead in receive_response_lem out mtype e f0 f8

module _ (mpi : MpiCalls) (packs : Packs mpi) (rest : Bytes) where
  pub pack_base-Ahead :
      (outbuf : mpi.Buffer) (mtype : ℕ) (m : BaseMessage)
      → (b : mpi.Buffer) × (pack_base_message mpi outbuf rest mtype m
          ≡ ok (record { sendbuf = b; sendsize = 12 }))
        × Ahead mpi packs 12 (omega arith) b (base_chunks mtype rest m) 0
  unfolding pack_base_message total_bytes
  pack_base-Ahead outbuf mtype m =
      let c_struct = chars_bytes 12 in
      pack_message-Holds mpi packs 12 (omega arith) outbuf (base_chunks mtype rest m) (omega arith)
