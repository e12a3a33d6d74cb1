-- ===== src/Messages/Transfer.antt =====
-- send_rangesrv_work, receive_rangesrv_work, send_client_response and receive_client_response of
-- mdhimMods/src/messages.c. The calls of MPI_Send are recorded, with `mpi_send` for their return codes;
-- what MPI_Irecv and MPI_Recv deliver, and their return codes, are arguments.
pub mod Base
pub mod Requests
pub mod Responses
pub mod Refused
use mpi_to_openshmem.Prelude.{
  ℕ, ◌+◌, ◌≤◌, ◌<◌, ◌≡◌, List, [], ◌∷◌, Bool, true, false, Option, none, some, leb, ltb, ◌==◌, ◌||◌,
  if◌then◌else◌,
}
use mpi_to_openshmem.Floats.{Bytes}
use mpi_to_openshmem.Mpi.Datatypes.{mpi_char, i32_mod}
use mpi_to_openshmem.Messages.Types.{
  Request, put, bulk_put, get, bulk_get, del, bulk_del, commit, close, other, Response, recv,
  recv_get, recv_bulk_get, BaseMessage, no_response, mdhim_put, mdhim_bulk_put, mdhim_get,
  mdhim_bulk_get, mdhim_del, mdhim_bulk_del, mdhim_close, mdhim_recv, mdhim_recv_get,
  mdhim_recv_bulk_get, mdhim_commit,
}
use mpi_to_openshmem.Messages.Struct.{int_field}
use mpi_to_openshmem.Messages.Packing.{
  Result, ok, error, fault, ◌>>=◌, MpiCalls, Packed, Cursor, cursor, get_bytes,
}
use mpi_to_openshmem.Messages.Pack.{
  pack_put_message, pack_bput_message, pack_get_message, pack_bget_message, pack_del_message,
  pack_bdel_message, pack_base_message, pack_return_message, pack_getrm_message,
  pack_bgetrm_message,
}
use mpi_to_openshmem.Messages.Unpack.{
  unpack_put_message, unpack_bput_message, unpack_get_message, unpack_bget_message,
  unpack_del_message, unpack_bdel_message, unpack_return_message, unpack_getrm_message,
  unpack_bgetrm_message,
}

-- A call of MPI_Send: of one MPI_INT, or of that many bytes as MPI_PACKED.
pub data SendCall (mpi : MpiCalls) : Type 0 where
  size_msg : ℕ → SendCall mpi
  packed_msg : mpi.Buffer → ℕ → SendCall mpi

-- The return code, and the calls of MPI_Send.
pub record Sending (mpi : MpiCalls) : Type 0 where
  pub ret : Result Unit
  pub calls : List (SendCall mpi)

-- What receive_rangesrv_work returns where it is not MDHIM_ERROR: MDHIM_SUCCESS with a message or with
-- NULL, MDHIM_COMMIT or MDHIM_CLOSE.
pub data Received : Type 0 where
  work : Request → Received
  null_work : Received
  commit_work : Received
  close_work : Received

module _ (mpi : MpiCalls) (outbuf : mpi.Buffer) (rest : Bytes) where
  -- The switch over the type of the message.
  unfoldable pub pack_request : Request → Result (Packed mpi)
  pack_request (put pm) = pack_put_message mpi outbuf rest pm
  pack_request (bulk_put bpm) = pack_bput_message mpi outbuf rest bpm
  pack_request (get gm) = pack_get_message mpi outbuf rest gm
  pack_request (bulk_get bgm) = pack_bget_message mpi outbuf rest bgm
  pack_request (del dm) = pack_del_message mpi outbuf rest dm
  pack_request (bulk_del bdm) = pack_bdel_message mpi outbuf rest bdm
  pack_request (commit cm) = pack_base_message mpi outbuf rest mdhim_commit cm
  pack_request (close cm) = pack_base_message mpi outbuf rest mdhim_close cm
  pack_request (other m) = error

  -- A return code of 0 where the type is none of them.
  unfoldable pub pack_response : Packed mpi → Response → Result (Packed mpi)
  pack_response unset (recv rm) = pack_return_message mpi outbuf rest rm
  pack_response unset (recv_get grm) = pack_getrm_message mpi outbuf rest grm
  pack_response unset (recv_bulk_get bgrm) = pack_bgetrm_message mpi outbuf rest bgrm
  pack_response unset (no_response m) = ok unset

module _ (mpi : MpiCalls) (mpi_send : SendCall mpi → ℕ) where
  -- The first failure ends it.
  unfoldable pub send_work : Result (Packed mpi) → Sending mpi
  send_work error = record { ret = error; calls = [] }
  send_work fault = record { ret = fault; calls = [] }
  send_work (ok p) =
      let size = size_msg p.sendsize in
      let message = packed_msg p.sendbuf p.sendsize in
      if mpi_send size == 0
      then (if mpi_send message == 0
          then record { ret = ok tt; calls = size ∷ message ∷ [] }
          else record { ret = error; calls = size ∷ message ∷ [] })
      else record { ret = error; calls = size ∷ [] }

  unfoldable pub send_rangesrv_work : mpi.Buffer → Bytes → Request → Sending mpi
  send_rangesrv_work outbuf rest message = send_work (pack_request mpi outbuf rest message)

  -- Both are sent, whatever failed before.
  unfoldable pub send_both : Result Unit → Packed mpi → Sending mpi
  send_both ret p =
      let size = size_msg p.sendsize in
      let message = packed_msg p.sendbuf p.sendsize in
      let ret' =
        if mpi_send size == 0 then (if mpi_send message == 0 then ret else error) else error in
      record { ret = ret'; calls = size ∷ message ∷ [] }

  -- `left` is what is in sendbuf and sendsize where the packing failed, or nothing was packed.
  unfoldable pub send_response : Packed mpi → Result (Packed mpi) → Sending mpi
  send_response left (ok p) = send_both (ok tt) p
  send_response left error = send_both error left
  send_response left fault = record { ret = fault; calls = [] }

  unfoldable pub send_client_response : mpi.Buffer → Bytes → Packed mpi → Response → Sending mpi
  send_client_response outbuf rest left message =
      send_response left (pack_response mpi outbuf rest left message)

module _ (mpi : MpiCalls) (raw : Bytes) where
  -- What the last return code is, where no message is unpacked.
  unfoldable pub no_message : {A : Type 0} → ℕ → A → Result A
  no_message return_code a = if return_code == 0 then ok a else error

  -- The switch over the type that was unpacked.
  unfoldable pub unpack_request : mpi.Buffer → ℕ → ℕ → ℕ → Result Received
  unpack_request recvbuf mtype msg_size return_code =
      if mtype == mdhim_put
      then unpack_put_message mpi raw recvbuf msg_size >>= (λ m. ok (work (put m)))
      else if mtype == mdhim_bulk_put
      then unpack_bput_message mpi raw recvbuf msg_size >>= (λ m. ok (work (bulk_put m)))
      else if mtype == mdhim_get
      then unpack_get_message mpi raw recvbuf msg_size >>= (λ m. ok (work (get m)))
      else if mtype == mdhim_bulk_get
      then unpack_bget_message mpi raw recvbuf msg_size >>= (λ m. ok (work (bulk_get m)))
      else if mtype == mdhim_del
      then unpack_del_message mpi raw recvbuf msg_size >>= (λ m. ok (work (del m)))
      else if mtype == mdhim_bulk_del
      then unpack_bdel_message mpi raw recvbuf msg_size >>= (λ m. ok (work (bulk_del m)))
      else if mtype == mdhim_commit
      then no_message return_code commit_work
      else if mtype == mdhim_close
      then no_message return_code close_work
      else no_message return_code null_work

  -- The test for a valid message.
  unfoldable pub unpack_valid : mpi.Buffer → ℕ → ℕ → ℕ → Result Received
  unpack_valid recvbuf mtype msg_size return_code =
      let request = unpack_request recvbuf mtype msg_size return_code in
      if msg_size == 0 || (ltb mtype mdhim_put || ltb mdhim_commit mtype) then error else request

  -- A negative size is passed to memset.
  unfoldable pub receive_rangesrv_work : ℕ → ℕ → ℕ → mpi.Buffer → Result Received
  receive_rangesrv_work size_code recvsize return_code recvbuf =
      let message =
        get_bytes mpi recvbuf recvsize cursor raw 12 mpi_char
        >>= (λ (bm, at). unpack_valid recvbuf (int_field bm 0) (int_field bm 8) at.return_code) in
      if size_code == 0
      then (if leb i32_mod recvsize then fault else if return_code == 0 then message else error)
      else error

  -- NULL with MDHIM_SUCCESS where the type is none of them.
  unfoldable pub unpack_response : mpi.Buffer → ℕ → ℕ → ℕ → Result (Option Response)
  unpack_response recvbuf mtype msg_size return_code =
      if mtype == mdhim_recv
      then unpack_return_message mpi raw recvbuf >>= (λ m. ok (some (recv m)))
      else if mtype == mdhim_recv_get
      then unpack_getrm_message mpi raw recvbuf msg_size >>= (λ m. ok (some (recv_get m)))
      else if mtype == mdhim_recv_bulk_get
      then unpack_bgetrm_message mpi raw recvbuf msg_size >>= (λ m. ok (some (recv_bulk_get m)))
      else no_message return_code none

  unfoldable pub receive_client_response : ℕ → ℕ → ℕ → mpi.Buffer → Result (Option Response)
  receive_client_response size_code msg_size return_code recvbuf =
      let message = get_bytes mpi recvbuf msg_size cursor raw 12 mpi_char >>= (λ (bm, at).
        unpack_response recvbuf (int_field bm 0) (int_field bm 8) at.return_code) in
      if size_code == 0
      then (if leb i32_mod msg_size then fault else if return_code == 0 then message else error)
      else error
