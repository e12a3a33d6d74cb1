-- ===== src/Client.antt =====
-- The calls of mdhimMods/src/mdhim.c on single records, with client.c and local_client.c: a message
-- goes to the range server of its key, over the network or to this process's own worker. The worker is
-- serve of RangeServer/Threads.antt, with no other work in its queue. malloc finds space; logging is
-- left out but for what it reads.
pub mod Network
pub mod Exchange
pub mod Came
pub mod PutGet
pub mod Bulk
mod Tests
use mpi_to_openshmem.Prelude.{
  ℕ, ◌≡◌, Bool, true, false, ◌&&◌, [], Option, none, some, ltb, ◌==◌, if◌then◌else◌,
}
use mpi_to_openshmem.Uthash.{IntHash}
use mpi_to_openshmem.Floats.{Floats, Bytes}
use mpi_to_openshmem.Partitioner.Alphabet.{MdhimChar}
use mpi_to_openshmem.Partitioner.Servers.{RangesrvInfo, error_u32}
use mpi_to_openshmem.Partitioner.Stats.{MdhimStat}
use mpi_to_openshmem.Partitioner.Cursor.{Mdhim, get_range_server, get_range_server_from_stats}
use mpi_to_openshmem.Messages.Types.{
  Data, Request, put, get, del, commit, Response, recv, recv_get, recv_bulk_get, no_response,
}
use mpi_to_openshmem.Messages.Packing.{Result, ok, error, fault}
use mpi_to_openshmem.Messages.Transfer.{Received, work, null_work, commit_work, close_work}
use mpi_to_openshmem.Messages.Transfer.Requests.{Sendable, Delivered}
use mpi_to_openshmem.Messages.Transfer.Responses.{SendableResponse, Answered}
use mpi_to_openshmem.RangeServer.Records.{
  StoreCalls, Answer, remote, local, get_eq, MdhimServer, data_or_null,
}
use mpi_to_openshmem.RangeServer.Bulk.{BatchCalls, max_bulk_ops}
use mpi_to_openshmem.RangeServer.Threads.{Outcome, next, done, crash, serve}

-- What the messages become on their way: what send_rangesrv_work returns, what receive_rangesrv_work
-- gives at the server, and what receive_client_response gives at the client.
pub record NetworkCalls : Type 0 where
  pub send : Request → Result Unit
  pub arrives : Request → Result Received
  pub response : Response → Result (Option Response)

-- Messages that can be sent come through.
pub record Delivers (net : NetworkCalls) : Type 0 where
  pub send_lem : (r : Request) → Sendable r → net.send r ≡ ok tt
  pub arrives_lem :
      (r : Request) → Sendable r → (w : Received) × (net.arrives r ≡ ok w) × Delivered r w
  pub response_lem :
      (r : Response)
      → SendableResponse r
      → (m : Option Response) × (net.response r ≡ ok m) × Answered r m

-- What a process is to the calls: mdhim_rank, whether mdhim_rs is set, and the rest of struct mdhim_t.
pub record Process (Alphabet Stats : Type 0) : Type 0 where
  pub mdhim_rank : ℕ
  pub is_server : Bool
  pub md : Mdhim Alphabet Stats

module _ (h : IntHash MdhimChar) (fl : Floats) (hs : IntHash (MdhimStat fl.Real))
    (store : StoreCalls) where
  -- The range servers by rank.
  abbrev pub World : Type 0
  World = ℕ → MdhimServer h fl hs store

  unfoldable pub set_server : World → ℕ → MdhimServer h fl hs store → World
  set_server w rank s = λ r. if r == rank then s else w r

  -- A call returns a message or NULL; crashes, here or at the server; or waits for ever.
  pub data Called : Type 0 where
    returned : World → Option Response → Called
    crashed : Called
    waiting : Called

  -- receive_client_response in client_put and the others. Where it fails, the error is written to a
  -- message that is not there.
  unfoldable pub receive_answer : World → Result (Option Response) → Called
  receive_answer w (ok message) = returned w message
  receive_answer w error = crashed
  receive_answer w fault = crashed

  -- The client waits for an answer over the network.
  unfoldable pub remote_answer : NetworkCalls → ℕ → ℕ → World → Outcome h fl hs store → Called
  remote_answer net source dest w (next s (some (remote rank response))) =
      if rank == source
      then receive_answer (set_server w dest s) (net.response response)
      else waiting
  remote_answer net source dest w (next s (some (local response))) = waiting
  remote_answer net source dest w (next s none) = waiting
  remote_answer net source dest w done = waiting
  remote_answer net source dest w crash = crashed

  -- get_msg_self, with no spurious wake-up.
  unfoldable pub local_answer : ℕ → World → Outcome h fl hs store → Called
  local_answer rank w (next s (some (local response))) =
      returned (set_server w rank s) (some response)
  local_answer rank w (next s (some (remote dest response))) = waiting
  local_answer rank w (next s none) = waiting
  local_answer rank w done = waiting
  local_answer rank w crash = crashed

  module _ (calls : BatchCalls store) (size : ℕ) (raw : Bytes) (net : NetworkCalls) where
    -- What the listener of the server does with what came in.
    unfoldable pub at_server : ℕ → ℕ → World → Result Received → Called
    at_server source dest w (ok (work r)) =
        remote_answer net source dest w (serve h fl hs store calls size raw (w dest) r source)
    at_server source dest w (ok close_work) = waiting
    at_server source dest w (ok commit_work) = crashed
    at_server source dest w (ok null_work) = crashed
    at_server source dest w error = waiting
    at_server source dest w fault = crashed

    -- client_put, client_get, client_bget_op and client_delete; NULL where the send fails.
    unfoldable pub client_call : ℕ → ℕ → World → Request → Called
    client_call source dest w r = elim (net.send r) [
      | ok u ↦ at_server source dest w (net.arrives r)
      | error ↦ returned w none
      | fault ↦ crashed
    ]

    -- local_client_put, local_client_get, local_client_bget_op, local_client_delete, local_client_commit
    unfoldable pub local_client_call : ℕ → World → Request → Called
    local_client_call rank w r =
        local_answer rank w (serve h fl hs store calls size raw (w rank) r rank)

    -- The end of mdhimPut and the others: to this process's own server, or over the network.
    unfoldable pub call_server : Process h.Table hs.Table → World → ℕ → Request → Called
    call_server p w dest r =
        if p.is_server && (p.mdhim_rank == dest)
        then local_client_call p.mdhim_rank w r
        else client_call p.mdhim_rank dest w r

    -- What get_range_server gave is the first argument; NULL is returned where there is no server.
    unfoldable pub with_server :
        Option (Option RangesrvInfo) → Called → World → (RangesrvInfo → Called) → Called
    with_server none missing w f = crashed
    with_server (some none) missing w f = missing
    with_server (some (some ri)) missing w f = f ri

    unfoldable pub mdhim_put : Process h.Table hs.Table → World → Data → Data → Called
    mdhim_put p w key value =
        with_server (get_range_server h fl hs p.md (some key.bytes) key.len) (returned w none) w
          (λ ri.
            call_server p w ri.rank
              (put (record { server_rank = ri.rank; size = size; key = key; value = value })))

    unfoldable pub mdhim_delete : Process h.Table hs.Table → World → Data → Called
    mdhim_delete p w key =
        with_server (get_range_server h fl hs p.md (some key.bytes) key.len) (returned w none) w
          (λ ri.
            call_server p w ri.rank
              (del (record { server_rank = ri.rank; size = size; key = key })))

    -- The key may be NULL.
    unfoldable pub key_data : Option Bytes → ℕ → Data
    key_data key key_len = elim key [
      | none ↦ record { bytes = raw; len = key_len }
      | some p ↦ record { bytes = p; len = key_len }
    ]

    -- No server by the statistics: the key is read, and an answer full of zeros is returned.
    unfoldable pub not_available : Option Bytes → World → Response → Called
    not_available none w zeros = crashed
    not_available (some p) w zeros = returned w (some zeros)

    unfoldable pub mdhim_get : Process h.Table hs.Table → World → Option Bytes → ℕ → ℕ → Called
    mdhim_get p w key key_len op =
        let null = data_or_null raw none in
        let zeros =
          recv_get (record { server_rank = 0; size = 0; error = 0; key = null; value = null }) in
        let request = λ (ri : RangesrvInfo). call_server p w ri.rank (
          get (record {
            server_rank = ri.rank;
            size = size;
            op = op;
            key = key_data key key_len;
            num_records = 1;
          })) in
        if op == get_eq
        then with_server (get_range_server h fl hs p.md key key_len) (returned w none) w request
        else with_server (get_range_server_from_stats h fl hs p.md key key_len op)
            (not_available key w zeros) w request

    unfoldable pub mdhim_bget_op :
        Process h.Table hs.Table → World → Option Bytes → ℕ → ℕ → ℕ → Called
    mdhim_bget_op p w key key_len num_records op =
        let zeros = recv_bulk_get (record { server_rank = 0; size = 0; error = 0; records = [] }) in
        let request = λ (ri : RangesrvInfo). call_server p w ri.rank (
          get (record {
            server_rank = ri.rank;
            size = size;
            op = op;
            key = key_data key key_len;
            num_records = num_records;
          })) in
        let answer =
          with_server (get_range_server_from_stats h fl hs p.md key key_len op)
            (not_available key w zeros) w request in
        if op == get_eq
        then returned w none
        else if ltb max_bulk_ops num_records
        then returned w none
        else answer

    -- What mdhimCommit returns for the answer: MDHIM_ERROR for NULL or an error.
    unfoldable pub commit_code : Option Response → ℕ
    commit_code none = error_u32
    commit_code (some (recv m)) = if m.error == 0 then 0 else error_u32
    commit_code (some (recv_get m)) = if m.error == 0 then 0 else error_u32
    commit_code (some (recv_bulk_get m)) = if m.error == 0 then 0 else error_u32
    commit_code (some (no_response m)) = 0

    unfoldable pub commit_result : Called → Option (World × ℕ)
    commit_result (returned w message) = some (w, commit_code message)
    commit_result crashed = none
    commit_result waiting = none

    -- Between the barriers: a range server commits its own store. `none`: it does not return.
    unfoldable pub mdhim_commit : Process h.Table hs.Table → World → Option (World × ℕ)
    mdhim_commit p w =
        let committed =
          commit_result
            (local_client_call p.mdhim_rank w (commit (record { server_rank = 0; size = size }))) in
        if p.is_server then committed else some (w, 0)
