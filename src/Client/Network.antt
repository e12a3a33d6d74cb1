-- ===== src/Client/Network.antt =====
-- The network of the calls, by the messages of Messages/Transfer.antt over MPI: what the client sends
-- is what the server receives, and back.
use mpi_to_openshmem.Prelude.{ℕ, ◌≡◌, ◌∙◌, ap, List, [], ◌∷◌}
use mpi_to_openshmem.Floats.{Bytes}
use mpi_to_openshmem.Messages.Packing.{Result, error, MpiCalls, Packs, Packed}
use mpi_to_openshmem.Messages.Transfer.{
  SendCall, size_msg, packed_msg, Sending, send_rangesrv_work, receive_rangesrv_work,
  send_client_response, receive_client_response,
}
use mpi_to_openshmem.Messages.Transfer.Requests.{send_rangesrv_work-receive_rangesrv_work}
use mpi_to_openshmem.Messages.Transfer.Responses.{send_client_response-receive_client_response}
use mpi_to_openshmem.Client.{NetworkCalls, Delivers}

module _ (mpi : MpiCalls) (mpi_send : SendCall mpi → ℕ) (outbuf : mpi.Buffer) (rest raw : Bytes)
    (left : Packed mpi) where
  -- The size and the buffer come in as they were sent.
  received_as : {A : Type 0} → (ℕ → mpi.Buffer → Result A) → List (SendCall mpi) → Result A
  received_as f (size_msg n ∷ packed_msg b m ∷ []) = f n b
  received_as f other = error

  pub mpi_network : NetworkCalls
  unfolding received_as
  mpi_network = record {
    send = λ r. (send_rangesrv_work mpi mpi_send outbuf rest r).ret;
    arrives = λ r.
        received_as (λ n b. receive_rangesrv_work mpi raw 0 n 0 b)
          (send_rangesrv_work mpi mpi_send outbuf rest r).calls;
    response = λ m.
        received_as (λ n b. receive_client_response mpi raw 0 n 0 b)
          (send_client_response mpi mpi_send outbuf rest left m).calls;
  }

  pub mpi_network-Delivers :
      Packs mpi → ((c : SendCall mpi) → mpi_send c ≡ 0) → Delivers mpi_network
  unfolding mpi_network
  mpi_network-Delivers packs sends = record {
    send_lem = λ r sendable.
        let (b, e, w, e', delivered) =
          send_rangesrv_work-receive_rangesrv_work mpi packs outbuf rest raw mpi_send sends r
            sendable in
        ap (λ (x : Sending mpi). x.ret) e;
    arrives_lem = λ r sendable.
        let (b, e, w, e', delivered) =
          send_rangesrv_work-receive_rangesrv_work mpi packs outbuf rest raw mpi_send sends r
            sendable in
        (
          w,
          ap
                (λ (x : Sending mpi).
                  received_as (λ n b. receive_rangesrv_work mpi raw 0 n 0 b) x.calls)
                e
              ∙ e',
          delivered,
        );
    response_lem = λ m sendable.
        let (b, e, o, e', answered) =
          send_client_response-receive_client_response mpi packs outbuf rest raw left mpi_send sends
            m sendable in
        (
          o,
          ap
                (λ (x : Sending mpi).
                  received_as (λ n b. receive_client_response mpi raw 0 n 0 b) x.calls)
                e
              ∙ e',
          answered,
        );
  }
