-- ===== src/Messages/Transfer/Requests.antt =====
-- A request is packed and sent, and what comes in is unpacked.
use mpi_to_openshmem.Prelude.{ℕ, ◌≤◌, ◌<◌, ◌≡◌, ◌∙◌, ap, refl, [], ◌∷◌, arith}
use mpi_to_openshmem.Prelude.Int.{u32_mod}
use mpi_to_openshmem.Floats.{Bytes}
use mpi_to_openshmem.Messages.Types.{
  BaseMessage, PutMessage, BulkPutMessage, GetMessage, BulkGetMessage, DelMessage, BulkDelMessage,
  Request, put, bulk_put, get, bulk_get, del, bulk_del, commit, close, other, max_msg_size,
}
use mpi_to_openshmem.Messages.Struct.{int_bytes_lem}
use mpi_to_openshmem.Messages.Packing.{ok, ◌>>=◌, MpiCalls, Packs, data_chunk, Packed}
use mpi_to_openshmem.Messages.Pack.{
  put_struct, bput_struct, get_struct, bget_struct, del_struct, bdel_struct, base_struct,
  pair_chunks, key_chunks,
}
use mpi_to_openshmem.Messages.RoundTrip.Single.{
  SamePut, SameGet, SameDel, put_size, get_size, del_size, pack_put-Ahead, pack_get-Ahead,
  pack_del-Ahead, unpack_put-Same, unpack_get-Same, unpack_del-Same,
}
use mpi_to_openshmem.Messages.RoundTrip.BulkKeys.{
  SameBulkGet, SameBulkDel, bget_size, bdel_size, pack_bget-Ahead, pack_bdel-Ahead,
  unpack_bget-Same, unpack_bdel-Same,
}
use mpi_to_openshmem.Messages.RoundTrip.BulkRecords.{
  SameBulkPut, bput_size, pack_bput-Ahead, unpack_bput-Same,
}
use mpi_to_openshmem.Messages.Transfer.{
  SendCall, size_msg, packed_msg, Received, work, commit_work, close_work, pack_request, send_work,
  send_rangesrv_work, no_message, unpack_request, receive_rangesrv_work,
}
use mpi_to_openshmem.Messages.Transfer.Base.{pack_base-Ahead, receive_rangesrv_work-Ahead}

-- The message fits, and its int fields are within 32 bits.
abbrev pub Sendable : Request → Type 0
Sendable (put m) = (put_size m ≤ max_msg_size) × (m.server_rank < u32_mod)
Sendable (bulk_put m) = (bput_size m ≤ max_msg_size) × (m.server_rank < u32_mod)
Sendable (get m) =
    (get_size m ≤ max_msg_size)
    × (m.server_rank < u32_mod)
    × (m.op < u32_mod)
    × (m.num_records < u32_mod)
Sendable (bulk_get m) = (bget_size m ≤ max_msg_size) × (m.server_rank < u32_mod) × (m.op < u32_mod)
Sendable (del m) = (del_size m ≤ max_msg_size) × (m.server_rank < u32_mod)
Sendable (bulk_del m) = (bdel_size m ≤ max_msg_size) × (m.server_rank < u32_mod)
Sendable (commit m) = Unit
Sendable (close m) = Unit
Sendable (other m) = ⊥

abbrev pub request_size : Request → ℕ
request_size (put m) = put_size m
request_size (bulk_put m) = bput_size m
request_size (get m) = get_size m
request_size (bulk_get m) = bget_size m
request_size (del m) = del_size m
request_size (bulk_del m) = bdel_size m
request_size (commit m) = 12
request_size (close m) = 12
request_size (other m) = 0

-- What comes in is the request, with the size of its buffer.
abbrev pub Delivered : Request → Received → Type 0
Delivered (put m) (work (put m')) = SamePut m' m (put_size m)
Delivered (bulk_put m) (work (bulk_put m')) = SameBulkPut m' m (bput_size m)
Delivered (get m) (work (get m')) = SameGet m' m (get_size m)
Delivered (bulk_get m) (work (bulk_get m')) = SameBulkGet m' m (bget_size m)
Delivered (del m) (work (del m')) = SameDel m' m (del_size m)
Delivered (bulk_del m) (work (bulk_del m')) = SameBulkDel m' m (bdel_size m)
Delivered (commit m) commit_work = Unit
Delivered (close m) close_work = Unit
Delivered _ _ = ⊥

module _ (mpi : MpiCalls) (packs : Packs mpi) (outbuf : mpi.Buffer) (rest raw : Bytes) where
  -- The buffer that is packed is one that gives the request.
  abbrev Transfers : Request → Type 0
  Transfers r =
      (b : mpi.Buffer) × (pack_request mpi outbuf rest r
        ≡ ok (record { sendbuf = b; sendsize = request_size r }))
      × (w : Received) × (receive_rangesrv_work mpi raw 0 (request_size r) 0 b ≡ ok w)
      × Delivered r w

  put-Transfers : (m : PutMessage) → Sendable (put m) → Transfers (put m)
  unfolding pack_request unpack_request
  put-Transfers m (fits, h_server_rank) =
      let n = put_size m in
      let (b, e, ahead) = pack_put-Ahead mpi packs rest outbuf m fits in
      let (m', e', same) = unpack_put-Same mpi packs rest raw b m fits h_server_rank ahead in
      let by_type =
        receive_rangesrv_work-Ahead mpi raw b n (omega arith) packs (put_struct m n rest) 48
          (data_chunk m.key ∷ data_chunk m.value ∷ []) (omega arith) 1 refl
          (int_bytes_lem n (omega arith)) (omega arith) (omega arith) ahead in
      (b, e, work (put m'), by_type ∙ ap (λ r. r >>= (λ x. ok (work (put x)))) e', same)

  bput-Transfers : (m : BulkPutMessage) → Sendable (bulk_put m) → Transfers (bulk_put m)
  unfolding pack_request unpack_request
  bput-Transfers m (fits, h_server_rank) =
      let n = bput_size m in
      let (b, e, ahead) = pack_bput-Ahead mpi packs rest outbuf m fits in
      let (m', e', same) = unpack_bput-Same mpi packs rest raw b m fits h_server_rank ahead in
      let by_type =
        receive_rangesrv_work-Ahead mpi raw b n (omega arith) packs (bput_struct m n rest) 56
          (pair_chunks rest m.records) (omega arith) 2 refl (int_bytes_lem n (omega arith))
          (omega arith) (omega arith) ahead in
      (b, e, work (bulk_put m'), by_type ∙ ap (λ r. r >>= (λ x. ok (work (bulk_put x)))) e', same)

  get-Transfers : (m : GetMessage) → Sendable (get m) → Transfers (get m)
  unfolding pack_request unpack_request
  get-Transfers m (fits, h_server_rank, h_op, h_num_records) =
      let n = get_size m in
      let (b, e, ahead) = pack_get-Ahead mpi packs rest outbuf m fits in
      let (m', e', same) =
        unpack_get-Same mpi packs rest raw b m fits h_server_rank h_op h_num_records ahead in
      let by_type =
        receive_rangesrv_work-Ahead mpi raw b n (omega arith) packs (get_struct m n rest) 32
          (data_chunk m.key ∷ []) (omega arith) 3 refl (int_bytes_lem n (omega arith)) (omega arith)
          (omega arith) ahead in
      (b, e, work (get m'), by_type ∙ ap (λ r. r >>= (λ x. ok (work (get x)))) e', same)

  bget-Transfers : (m : BulkGetMessage) → Sendable (bulk_get m) → Transfers (bulk_get m)
  unfolding pack_request unpack_request
  bget-Transfers m (fits, h_server_rank, h_op) =
      let n = bget_size m in
      let (b, e, ahead) = pack_bget-Ahead mpi packs rest outbuf m fits in
      let (m', e', same) = unpack_bget-Same mpi packs rest raw b m fits h_server_rank h_op ahead in
      let by_type =
        receive_rangesrv_work-Ahead mpi raw b n (omega arith) packs (bget_struct m n rest) 40
          (key_chunks rest m.keys) (omega arith) 4 refl (int_bytes_lem n (omega arith))
          (omega arith) (omega arith) ahead in
      (b, e, work (bulk_get m'), by_type ∙ ap (λ r. r >>= (λ x. ok (work (bulk_get x)))) e', same)

  del-Transfers : (m : DelMessage) → Sendable (del m) → Transfers (del m)
  unfolding pack_request unpack_request
  del-Transfers m (fits, h_server_rank) =
      let n = del_size m in
      let (b, e, ahead) = pack_del-Ahead mpi packs rest outbuf m fits in
      let (m', e', same) = unpack_del-Same mpi packs rest raw b m fits h_server_rank ahead in
      let by_type =
        receive_rangesrv_work-Ahead mpi raw b n (omega arith) packs (del_struct m n rest) 32
          (data_chunk m.key ∷ []) (omega arith) 5 refl (int_bytes_lem n (omega arith)) (omega arith)
          (omega arith) ahead in
      (b, e, work (del m'), by_type ∙ ap (λ r. r >>= (λ x. ok (work (del x)))) e', same)

  bdel-Transfers : (m : BulkDelMessage) → Sendable (bulk_del m) → Transfers (bulk_del m)
  unfolding pack_request unpack_request
  bdel-Transfers m (fits, h_server_rank) =
      let n = bdel_size m in
      let (b, e, ahead) = pack_bdel-Ahead mpi packs rest outbuf m fits in
      let (m', e', same) = unpack_bdel-Same mpi packs rest raw b m fits h_server_rank ahead in
      let by_type =
        receive_rangesrv_work-Ahead mpi raw b n (omega arith) packs (bdel_struct m n rest) 40
          (key_chunks rest m.keys) (omega arith) 6 refl (int_bytes_lem n (omega arith))
          (omega arith) (omega arith) ahead in
      (b, e, work (bulk_del m'), by_type ∙ ap (λ r. r >>= (λ x. ok (work (bulk_del x)))) e', same)

  commit-Transfers : (m : BaseMessage) → Transfers (commit m)
  unfolding pack_request unpack_request no_message
  commit-Transfers m =
      let (b, e, ahead) = pack_base-Ahead mpi packs rest outbuf 11 m in
      let by_type =
        receive_rangesrv_work-Ahead mpi raw b 12 (omega arith) packs (base_struct 11 m 12 rest) 12
          [] (omega arith) 11 refl refl (omega arith) (omega arith) ahead in
      (b, e, commit_work, by_type, tt)

  close-Transfers : (m : BaseMessage) → Transfers (close m)
  unfolding pack_request unpack_request no_message
  close-Transfers m =
      let (b, e, ahead) = pack_base-Ahead mpi packs rest outbuf 7 m in
      let by_type =
        receive_rangesrv_work-Ahead mpi raw b 12 (omega arith) packs (base_struct 7 m 12 rest) 12 []
          (omega arith) 7 refl refl (omega arith) (omega arith) ahead in
      (b, e, close_work, by_type, tt)

  request-Transfers : (r : Request) → Sendable r → Transfers r
  request-Transfers (put m) h = put-Transfers m h
  request-Transfers (bulk_put m) h = bput-Transfers m h
  request-Transfers (get m) h = get-Transfers m h
  request-Transfers (bulk_get m) h = bget-Transfers m h
  request-Transfers (del m) h = del-Transfers m h
  request-Transfers (bulk_del m) h = bdel-Transfers m h
  request-Transfers (commit m) h = commit-Transfers m
  request-Transfers (close m) h = close-Transfers m
  request-Transfers (other m) h = absurd h

  send_work_lem :
      (mpi_send : SendCall mpi → ℕ) (p : Packed mpi)
      → ((c : SendCall mpi) → mpi_send c ≡ 0)
      → send_work mpi mpi_send (ok p)
        ≡ record { ret = ok tt; calls = size_msg p.sendsize ∷ packed_msg p.sendbuf p.sendsize ∷ [] }
  unfolding send_work
  send_work_lem mpi_send p sends =
      let e0 = sends (size_msg p.sendsize) in
      let e1 = sends (packed_msg p.sendbuf p.sendsize) in rw (e0, e1) refl

  -- If MPI_Send succeeds and MPI_Pack and MPI_Unpack are as documented, then for a request of any
  -- kind whose message is within MDHIM_MAX_MSG_SIZE and whose int fields are 32 bits wide,
  -- send_rangesrv_work sends the size and then a buffer of that size, and receive_rangesrv_work of
  -- them gives the request with all its fields, keys and values and with that size, or
  -- MDHIM_COMMIT or MDHIM_CLOSE.
  pub send_rangesrv_work-receive_rangesrv_work :
      (mpi_send : SendCall mpi → ℕ)
      → ((c : SendCall mpi) → mpi_send c ≡ 0)
      → (r : Request) → Sendable r
      → (b : mpi.Buffer) × (send_rangesrv_work mpi mpi_send outbuf rest r ≡ record {
        ret = ok tt;
        calls = size_msg (request_size r) ∷ packed_msg b (request_size r) ∷ [];
      })
        × (w : Received) × (receive_rangesrv_work mpi raw 0 (request_size r) 0 b ≡ ok w)
        × Delivered r w
  unfolding send_rangesrv_work
  send_rangesrv_work-receive_rangesrv_work mpi_send sends r h =
      let (b, e, w, e', delivered) = request-Transfers r h in
      (
        b,
        ap (send_work mpi mpi_send) e
            ∙ send_work_lem mpi_send (record { sendbuf = b; sendsize = request_size r }) sends,
        w,
        e',
        delivered,
      )
