-- ===== src/Messages/Transfer/Responses.antt =====
-- A response is packed and sent, and what comes in is unpacked.
use mpi_to_openshmem.Prelude.{ℕ, ◌≤◌, ◌<◌, ◌≡◌, ◌∙◌, ap, refl, [], ◌∷◌, ◌++◌, Option, some, arith}
use mpi_to_openshmem.Prelude.Int.{u32_mod}
use mpi_to_openshmem.Floats.{Bytes}
use mpi_to_openshmem.Messages.Types.{
  ReturnMessage, GetReturnMessage, BulkGetReturnMessage, Response, recv, recv_get, recv_bulk_get,
  no_response, max_msg_size,
}
use mpi_to_openshmem.Messages.Struct.{int_bytes_lem}
use mpi_to_openshmem.Messages.Packing.{ok, ◌>>=◌, MpiCalls, Packs, data_chunks_if, Packed}
use mpi_to_openshmem.Messages.Pack.{return_struct, getrm_struct, bgetrm_struct, found_chunks}
use mpi_to_openshmem.Messages.RoundTrip.Returns.{
  SameReturn, SameGetReturn, getrm_size, pack_getrm-Ahead, pack_return-Ahead, unpack_getrm-Same,
  unpack_return-Same,
}
use mpi_to_openshmem.Messages.RoundTrip.BulkRecords.{
  SameBulkGetReturn, bgetrm_size, pack_bgetrm-Ahead, unpack_bgetrm-Same,
}
use mpi_to_openshmem.Messages.Transfer.{
  SendCall, size_msg, packed_msg, pack_response, send_both, send_response, send_client_response,
  unpack_response, receive_client_response,
}
use mpi_to_openshmem.Messages.Transfer.Base.{receive_client_response-Ahead}

-- The message fits, and its int fields are within 32 bits.
abbrev pub SendableResponse : Response → Type 0
SendableResponse (recv m) = (m.server_rank < u32_mod) × (m.error < u32_mod)
SendableResponse (recv_get m) =
    (getrm_size m ≤ max_msg_size) × (m.server_rank < u32_mod) × (m.error < u32_mod)
SendableResponse (recv_bulk_get m) =
    (bgetrm_size m ≤ max_msg_size) × (m.server_rank < u32_mod) × (m.error < u32_mod)
SendableResponse (no_response m) = ⊥

abbrev pub response_size : Response → ℕ
response_size (recv m) = 16
response_size (recv_get m) = getrm_size m
response_size (recv_bulk_get m) = bgetrm_size m
response_size (no_response m) = 0

-- What comes in is the response, with the size of its buffer.
abbrev pub Answered : Response → Option Response → Type 0
Answered (recv m) (some (recv m')) = SameReturn m' m 16
Answered (recv_get m) (some (recv_get m')) = SameGetReturn m' m (getrm_size m)
Answered (recv_bulk_get m) (some (recv_bulk_get m')) = SameBulkGetReturn m' m (bgetrm_size m)
Answered _ _ = ⊥

module _ (mpi : MpiCalls) (packs : Packs mpi) (outbuf : mpi.Buffer) (rest raw : Bytes)
    (left : Packed mpi) where
  -- The buffer that is packed is one that gives the response.
  abbrev Transfers : Response → Type 0
  Transfers r =
      (b : mpi.Buffer) × (pack_response mpi outbuf rest left r
        ≡ ok (record { sendbuf = b; sendsize = response_size r }))
      × (m : Option Response) × (receive_client_response mpi raw 0 (response_size r) 0 b ≡ ok m)
      × Answered r m

  return-Transfers : (m : ReturnMessage) → SendableResponse (recv m) → Transfers (recv m)
  unfolding pack_response unpack_response
  return-Transfers m (h_server_rank, h_error) =
      let (b, e, ahead) = pack_return-Ahead mpi packs rest outbuf m in
      let (m', e', same) = unpack_return-Same mpi packs rest raw b m h_server_rank h_error ahead in
      let by_type =
        receive_client_response-Ahead mpi raw b 16 (omega arith) packs (return_struct m 16 rest) 16
          [] (omega arith) 8 refl refl ahead in
      (b, e, some (recv m'), by_type ∙ ap (λ r. r >>= (λ x. ok (some (recv x)))) e', same)

  getrm-Transfers : (m : GetReturnMessage) → SendableResponse (recv_get m) → Transfers (recv_get m)
  unfolding pack_response unpack_response
  getrm-Transfers m (fits, h_server_rank, h_error) =
      let n = getrm_size m in
      let (b, e, ahead) = pack_getrm-Ahead mpi packs rest outbuf m fits in
      let (m', e', same) =
        unpack_getrm-Same mpi packs rest raw b m fits h_server_rank h_error ahead in
      let by_type =
        receive_client_response-Ahead mpi raw b n (omega arith) packs (getrm_struct m n rest) 48
          (data_chunks_if m.key ++ (data_chunks_if m.value ++ [])) (omega arith) 9 refl
          (int_bytes_lem n (omega arith)) ahead in
      (b, e, some (recv_get m'), by_type ∙ ap (λ r. r >>= (λ x. ok (some (recv_get x)))) e', same)

  bgetrm-Transfers :
      (m : BulkGetReturnMessage) → SendableResponse (recv_bulk_get m) → Transfers (recv_bulk_get m)
  unfolding pack_response unpack_response
  bgetrm-Transfers m (fits, h_server_rank, h_error) =
      let n = bgetrm_size m in
      let (b, e, ahead) = pack_bgetrm-Ahead mpi packs rest outbuf m fits in
      let (m', e', same) =
        unpack_bgetrm-Same mpi packs rest raw b m fits h_server_rank h_error ahead in
      let by_type =
        receive_client_response-Ahead mpi raw b n (omega arith) packs (bgetrm_struct m n rest) 64
          (found_chunks rest m.records) (omega arith) 10 refl (int_bytes_lem n (omega arith))
          ahead in
      (
        b,
        e,
        some (recv_bulk_get m'),
        by_type ∙ ap (λ r. r >>= (λ x. ok (some (recv_bulk_get x)))) e',
        same,
      )

  response-Transfers : (r : Response) → SendableResponse r → Transfers r
  response-Transfers (recv m) h = return-Transfers m h
  response-Transfers (recv_get m) h = getrm-Transfers m h
  response-Transfers (recv_bulk_get m) h = bgetrm-Transfers m h
  response-Transfers (no_response m) h = absurd h

  send_response_lem :
      (mpi_send : SendCall mpi → ℕ) (p : Packed mpi)
      → ((c : SendCall mpi) → mpi_send c ≡ 0)
      → send_response mpi mpi_send left (ok p)
        ≡ record { ret = ok tt; calls = size_msg p.sendsize ∷ packed_msg p.sendbuf p.sendsize ∷ [] }
  unfolding send_response send_both
  send_response_lem mpi_send p sends =
      let e0 = sends (size_msg p.sendsize) in
      let e1 = sends (packed_msg p.sendbuf p.sendsize) in rw (e0, e1) refl

  -- If MPI_Send succeeds and MPI_Pack and MPI_Unpack are as documented, then for a response of any
  -- kind whose message is within MDHIM_MAX_MSG_SIZE and whose int fields are 32 bits wide,
  -- send_client_response sends the size and then a buffer of that size, and
  -- receive_client_response of them gives the response with all its fields, keys and values, those
  -- of length 0 included, and with that size.
  pub send_client_response-receive_client_response :
      (mpi_send : SendCall mpi → ℕ)
      → ((c : SendCall mpi) → mpi_send c ≡ 0)
      → (r : Response) → SendableResponse r
      → (b : mpi.Buffer) × (send_client_response mpi mpi_send outbuf rest left r ≡ record {
        ret = ok tt;
        calls = size_msg (response_size r) ∷ packed_msg b (response_size r) ∷ [];
      })
        × (m : Option Response) × (receive_client_response mpi raw 0 (response_size r) 0 b ≡ ok m)
        × Answered r m
  unfolding send_client_response
  send_client_response-receive_client_response mpi_send sends r h =
      let (b, e, m, e', answered) = response-Transfers r h in
      (
        b,
        ap (send_response mpi mpi_send left) e
            ∙ send_response_lem mpi_send (record { sendbuf = b; sendsize = response_size r }) sends,
        m,
        e',
        answered,
      )
