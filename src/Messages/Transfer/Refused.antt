-- ===== src/Messages/Transfer/Refused.antt =====
-- Requests that are too large.
use mpi_to_openshmem.Prelude.{ℕ, ◌+◌, ◌*◌, ◌<◌, ◌≡◌, ap, [], true, false, leb, length, arith}
use mpi_to_openshmem.Floats.{Bytes}
use mpi_to_openshmem.Mpi.Datatypes.{i32_mod}
use mpi_to_openshmem.Messages.Types.{
  Request, put, bulk_put, get, bulk_get, del, bulk_del, commit, close, other, max_msg_size,
}
use mpi_to_openshmem.Messages.Packing.{error, MpiCalls}
use mpi_to_openshmem.Messages.Packing.Holds.{pack_sized-error}
use mpi_to_openshmem.Messages.Pack.{
  int_sums, pack_put_message, pack_bput_message, pack_get_message, pack_bget_message,
  pack_del_message, pack_bdel_message,
}
use mpi_to_openshmem.Messages.RoundTrip.Single.{put_chunks, get_chunks, del_chunks}
use mpi_to_openshmem.Messages.RoundTrip.BulkKeys.{bget_chunks, bdel_chunks}
use mpi_to_openshmem.Messages.RoundTrip.BulkRecords.{bput_chunks}
use mpi_to_openshmem.Messages.Transfer.{SendCall, pack_request, send_work, send_rangesrv_work}
use mpi_to_openshmem.Messages.Transfer.Requests.{request_size}

-- The sums that are taken as ints are ints.
abbrev pub InInts : Request → Type 0
InInts (put m) = m.key.len + m.value.len < i32_mod
InInts (bulk_put m) = (2 * length m.records < i32_mod) × (int_sums m.records ≡ true)
InInts _ = Unit

module _ (mpi : MpiCalls) (outbuf : mpi.Buffer) (rest : Bytes) where
  pack_request_large :
      (r : Request)
      → InInts r
      → max_msg_size < request_size r
      → pack_request mpi outbuf rest r ≡ error
  unfolding pack_request pack_put_message pack_bput_message pack_get_message pack_bget_message
      pack_del_message pack_bdel_message
  pack_request_large (put m) ints large =
      let in_int : leb i32_mod (m.key.len + m.value.len) ≡ false = grind arith in
      rw in_int (pack_sized-error mpi outbuf (request_size (put m)) (put_chunks rest m) large)
  pack_request_large (bulk_put m) (few, sums) large =
      let in_int : leb i32_mod (2 * length m.records) ≡ false = grind arith in
      rw (in_int, sums)
        (pack_sized-error mpi outbuf (request_size (bulk_put m)) (bput_chunks rest m) large)
  pack_request_large (get m) ints large =
      pack_sized-error mpi outbuf (request_size (get m)) (get_chunks rest m) large
  pack_request_large (bulk_get m) ints large =
      pack_sized-error mpi outbuf (request_size (bulk_get m)) (bget_chunks rest m) large
  pack_request_large (del m) ints large =
      pack_sized-error mpi outbuf (request_size (del m)) (del_chunks rest m) large
  pack_request_large (bulk_del m) ints large =
      pack_sized-error mpi outbuf (request_size (bulk_del m)) (bdel_chunks rest m) large
  pack_request_large (commit m) ints large = absurd (omega arith)
  pack_request_large (close m) ints large = absurd (omega arith)
  pack_request_large (other m) ints large = absurd (omega arith)

  -- send_rangesrv_work of a request whose message is over MDHIM_MAX_MSG_SIZE, where the sums that
  -- are taken as ints are within an int, gives MDHIM_ERROR and sends nothing.
  pub send_rangesrv_work_large :
      (mpi_send : SendCall mpi → ℕ) (r : Request)
      → InInts r
      → max_msg_size < request_size r
      → send_rangesrv_work mpi mpi_send outbuf rest r ≡ record { ret = error; calls = [] }
  unfolding send_rangesrv_work send_work
  send_rangesrv_work_large mpi_send r ints large =
      ap (send_work mpi mpi_send) (pack_request_large r ints large)
