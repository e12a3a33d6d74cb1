-- ===== src/Messages/Tests.antt =====
-- Messages that are packed by src/mpi_to_openshmem.c, at concrete inputs.
use mpi_to_openshmem.Prelude.{ℕ, ◌+◌, ◌≡◌, ◌≤◌, refl, [], ◌∷◌, Option, arith}
use mpi_to_openshmem.Floats.{Bytes}
use mpi_to_openshmem.Mpi.Shmem.{Memory}
use mpi_to_openshmem.Mpi.Pack.AtOnce.{at_once, comm_of, blank}
use mpi_to_openshmem.Messages.Types.{
  Data, PutMessage, BulkGetReturnMessage, put, Response, recv_bulk_get,
}
use mpi_to_openshmem.Messages.Packing.{ok, error, MpiCalls, Packed}
use mpi_to_openshmem.Messages.Pack.{pack_put_message, sum_pairs}
use mpi_to_openshmem.Messages.Transfer.{
  SendCall, size_msg, packed_msg, Received, send_rangesrv_work, receive_rangesrv_work,
  send_client_response, receive_client_response,
}
use mpi_to_openshmem.Messages.Transfer.Requests.{
  Delivered, send_rangesrv_work-receive_rangesrv_work,
}
use mpi_to_openshmem.Messages.Transfer.Responses.{
  response_size, SendableResponse, Answered, send_client_response-receive_client_response,
}
use mpi_to_openshmem.Messages.Transfer.Refused.{send_rangesrv_work_large}
use mpi_to_openshmem.Messages.Layer.{
  symmetric_calls, own_calls, symmetric-Packs, pack_put_message_lost,
}

abbrev calls : MpiCalls
calls = symmetric_calls at_once 1 (comm_of 1) 3

abbrev all_sent : SendCall calls → ℕ
all_sent c = 0

abbrev zeros : Bytes
zeros k = 0

abbrev a_key : Data
a_key = record { bytes = λ k. 65 + k; len = 4 }

abbrev a_value : Data
a_value = record { bytes = λ k. 7; len = 2 }

abbrev a_put : PutMessage
a_put = record { server_rank = 1; size = 0; key = a_key; value = a_value }

-- One record was not found.
abbrev an_answer : BulkGetReturnMessage
an_answer = record {
  server_rank = 1;
  size = 0;
  error = 0;
  records =
      record { key = a_key; value = a_value }
      ∷ record { key = a_key; value = record { bytes = zeros; len = 0 } }
      ∷ [];
}

abbrev unset : Packed calls
unset = record { sendbuf = blank; sendsize = 0 }

answer_fits : SendableResponse (recv_bulk_get an_answer)
unfolding sum_pairs
answer_fits = (omega arith, omega arith, omega arith)

send_rangesrv_work-receive_rangesrv_work_example :
    (b : Memory) × (send_rangesrv_work calls all_sent blank zeros (put a_put)
      ≡ record { ret = ok tt; calls = size_msg 54 ∷ packed_msg b 54 ∷ [] })
    × (w : Received) × (receive_rangesrv_work calls zeros 0 54 0 b ≡ ok w)
    × Delivered (put a_put) w
send_rangesrv_work-receive_rangesrv_work_example =
    send_rangesrv_work-receive_rangesrv_work calls (symmetric-Packs at_once 1 (comm_of 1) 3) blank
      zeros zeros all_sent (λ c. refl) (put a_put) (omega arith, omega arith)

send_client_response-receive_client_response_example :
    (b : Memory) × (send_client_response calls all_sent blank zeros unset (recv_bulk_get an_answer)
      ≡ record {
        ret = ok tt;
        calls =
            size_msg (response_size (recv_bulk_get an_answer))
            ∷ packed_msg b (response_size (recv_bulk_get an_answer))
            ∷ [];
      })
    × (m : Option Response) × (receive_client_response calls zeros 0
          (response_size (recv_bulk_get an_answer))
          0
          b
        ≡ ok m)
    × Answered (recv_bulk_get an_answer) m
send_client_response-receive_client_response_example =
    send_client_response-receive_client_response calls (symmetric-Packs at_once 1 (comm_of 1) 3)
      blank zeros zeros unset all_sent (λ c. refl) (recv_bulk_get an_answer) answer_fits

abbrev a_large_put : PutMessage
a_large_put = record {
  server_rank = 1;
  size = 0;
  key = record { bytes = zeros; len = 2147483600 };
  value = a_value;
}

send_rangesrv_work_large_example :
    send_rangesrv_work calls all_sent blank zeros (put a_large_put)
    ≡ record { ret = error; calls = [] }
send_rangesrv_work_large_example =
    send_rangesrv_work_large calls blank zeros all_sent (put a_large_put) (omega arith)
      (omega arith)

pack_put_message_lost_example :
    (b : Memory × Bytes) × (pack_put_message
        (own_calls at_once 1 (comm_of 1))
        (blank, zeros)
        zeros
        a_put
      ≡ ok (record { sendbuf = b; sendsize = 54 }))
    × ((k : ℕ) → 48 ≤ k → b.1 k ≡ 0)
pack_put_message_lost_example =
    pack_put_message_lost at_once 1 (comm_of 1) (blank, zeros) zeros a_put (omega arith)
      (omega arith) (omega arith)
