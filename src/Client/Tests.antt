-- ===== src/Client/Tests.antt =====
-- A process puts a value under the key 25 over the network, and the range server itself gets it.
use mpi_to_openshmem.Prelude.{
  ℕ, ◌+◌, ◌*◌, ◌/◌, ◌≡◌, ltb, leb, ◌≤◌, refl, List, [], ◌∷◌, true, false, some, inl, All, ◌==◌,
  if◌then◌else◌, arith,
}
use mpi_to_openshmem.Prelude.Int.{pos}
use mpi_to_openshmem.Floats.{Bytes}
use mpi_to_openshmem.Floats.Whole.{whole}
use mpi_to_openshmem.Partitioner.Alphabet.{MdhimChar}
use mpi_to_openshmem.Partitioner.Keys.{
  int_key, success, max_key_len, max_slices, ikey_of, verify_bytes, verify_key, get_slice_num,
}
use mpi_to_openshmem.Partitioner.Keys.Slice.{get_slice_num-eq}
use mpi_to_openshmem.Partitioner.Servers.{RangesrvInfo, find_server, get_range_server_by_slice}
use mpi_to_openshmem.Partitioner.Stats.{MdhimStat}
use mpi_to_openshmem.Partitioner.Cursor.{Mdhim, server_of_slice, get_range_server}
use mpi_to_openshmem.Mpi.Pack.AtOnce.{at_once, comm_of, blank}
use mpi_to_openshmem.Messages.Types.{
  Data, PutMessage, ReturnMessage, GetReturnMessage, recv, recv_get,
}
use mpi_to_openshmem.Messages.Packing.{MpiCalls}
use mpi_to_openshmem.Messages.Packing.Holds.{Same}
use mpi_to_openshmem.Messages.Layer.{symmetric_calls, symmetric-Packs}
use mpi_to_openshmem.RangeServer.Stats.{update_all_stats}
use mpi_to_openshmem.RangeServer.Stats.Summary.{
  Summarised, in_slice, summary, update_all_stats-Summarised,
}
use mpi_to_openshmem.RangeServer.Records.{get_eq, new_value}
use mpi_to_openshmem.RangeServer.Records.Lookup.{Kept}
use mpi_to_openshmem.DataStore.LevelDb.{leveldb_calls-Stores}
use mpi_to_openshmem.RangeServer.Fixture.{
  same_data_lem, table, table_batch, table-Stores, chars, stats, key_25, value_2, server,
}
use mpi_to_openshmem.Client.{NetworkCalls, Delivers, Process, World, returned, mdhim_put, mdhim_get}
use mpi_to_openshmem.Client.Bulk.{BulkList, bulk_messages}
use mpi_to_openshmem.Client.Bulk.Sorted.{
  Routed, is_at, is_own, message_of, sent, bulk_messages-sent,
}
use mpi_to_openshmem.Client.Network.{mpi_network, mpi_network-Delivers}
use mpi_to_openshmem.Client.PutGet.{Takes, mdhim_put-mdhim_get}

abbrev calls : MpiCalls
calls = symmetric_calls at_once 1 (comm_of 1) 3

abbrev zeros : Bytes
zeros k = 0

net : NetworkCalls
net = mpi_network calls (λ c. 0) blank zeros zeros (record { sendbuf = blank; sendsize = 0 })

net-Delivers : Delivers net
unfolding net
net-Delivers =
    mpi_network-Delivers calls (λ c. 0) blank zeros zeros (record { sendbuf = blank; sendsize = 0 })
      (symmetric-Packs at_once 1 (comm_of 1) 3) (λ c. refl)

abbrev the_server : RangesrvInfo
the_server = record { rank = 0; rangesrv_num = 1 }

abbrev md : Mdhim (List (ℕ × MdhimChar)) (List (ℕ × MdhimStat ℕ))
md = record server.md { rangesrvs = the_server ∷ [] }

abbrev writer : Process (List (ℕ × MdhimChar)) (List (ℕ × MdhimStat ℕ))
writer = record { mdhim_rank = 1; is_server = false; md = md }

abbrev reader : Process (List (ℕ × MdhimChar)) (List (ℕ × MdhimStat ℕ))
reader = record { mdhim_rank = 0; is_server = true; md = md }

abbrev world : World chars whole stats table
world rank = server

located : get_range_server chars whole stats md (some key_25.bytes) 4 ≡ some (some the_server)
unfolding get_range_server get_slice_num server_of_slice get_range_server_by_slice find_server
located = refl

verified :
    (p : Bytes) (len n : ℕ)
    → len ≡ 4
    → p 0 + 256 * (p 1 + 256 * (p 2 + 256 * p 3)) ≡ n
    → n ≡ 25
    → verify_key chars whole [] 10 (some p) len int_key ≡ success
unfolding verify_key verify_bytes ikey_of
verified p len n e sum n_is =
    let short : ltb max_key_len len ≡ false = grind arith in
    let low : n / 10 ≤ 2 = omega arith in
    let below : leb max_slices (n / 10) ≡ false = grind arith in rw short (rw sum (rw below refl))

slice_of :
    (p : Bytes) (len : ℕ)
    → len ≡ 4
    → p 0 + 256 * (p 1 + 256 * (p 2 + 256 * p 3)) ≡ 25
    → (s : ℕ) × (get_slice_num chars whole [] 10 (some p) len int_key ≡ some (pos s))
slice_of p len e sum =
    let (located, _) =
      get_slice_num-eq chars whole [] 10 p len int_key (inl refl) (verified p len 25 e sum refl) in
    (_, located)

no_keys : Summarised chars whole stats [] []
unfolding in_slice summary
no_keys j = refl

counted :
    (key : Data)
    → Same key key_25
    → (md' : Mdhim (List (ℕ × MdhimChar)) (List (ℕ × MdhimStat ℕ))) × (update_all_stats chars whole
          stats server.md key.bytes key.len
        ≡ some md')
counted key (len, bytes) =
    let sum : key.bytes 0 + 256 * (key.bytes 1 + 256 * (key.bytes 2 + 256 * key.bytes 3)) ≡ 25 =
      omega (
        arith,
        bytes 0 (omega arith),
        bytes 1 (omega arith),
        bytes 2 (omega arith),
        bytes 3 (omega arith),
      ) in
    let (s, slice) = slice_of key.bytes key.len len sum in
    let (md', e, _) =
      update_all_stats-Summarised chars whole stats server.md key.bytes key.len (pos s) []
        (inl refl) slice no_keys in
    (md', e)

server-Takes : Takes chars whole stats table server key_25 value_2
unfolding new_value
server-Takes im key value =
    let there = same_data_lem im.key key_25 (omega arith) key in
    (refl, rw there (omega (arith, value.0)), rw there (omega (arith, value.0)), counted im.key key)

long_enough : table-Stores.Readable key_25.len
unfolding leveldb_calls-Stores
long_enough = omega arith

mdhim_put-mdhim_get_example :
    (w1 : World chars whole stats table) × (w2 : World chars whole stats table)
    × (a : ReturnMessage) × (g : GetReturnMessage) × (im : PutMessage) × (mdhim_put chars whole
          stats table table_batch 0 zeros net writer world key_25 value_2
        ≡ returned w1 (some (recv a)))
    × (a.error ≡ 0)
    × (mdhim_get chars whole stats table table_batch 0 zeros net reader w1
          (some key_25.bytes)
          4
          get_eq
        ≡ returned w2 (some (recv_get g)))
    × (g.error ≡ 0)
    × Same g.key key_25
    × Same im.key key_25
    × Same im.value value_2
    × Kept true (table.get server.db im.key).1 im.value g.value
mdhim_put-mdhim_get_example =
    mdhim_put-mdhim_get chars whole stats table table_batch 0 zeros net table-Stores net-Delivers
      writer reader world key_25 value_2 the_server located located refl (omega arith)
      (λ e. absurd (omega (arith, e))) (λ e. refl) (omega arith) server-Takes long_enough

-- Of two range servers, this process is the first.
abbrev two_servers : Mdhim (List (ℕ × MdhimChar)) (List (ℕ × MdhimStat ℕ))
two_servers = record server.md {
  num_rangesrvs = 2;
  rangesrvs = the_server ∷ record { rank = 5; rangesrv_num = 2 } ∷ [];
}

abbrev key_35 : Data
key_35 = record { bytes = λ i. if i == 0 then 35 else 0; len = 4 }

abbrev the_key : Data → Data
the_key k = k

routed : All (Routed chars whole stats the_key two_servers) (key_35 ∷ key_25 ∷ key_35 ∷ [])
unfolding get_range_server get_slice_num server_of_slice get_range_server_by_slice find_server
routed = (
  (_, refl, (omega arith, omega arith)),
  ((_, refl, (omega arith, omega arith)), ((_, refl, (omega arith, omega arith)), tt)),
)

bulk_messages-sent_example :
    (l : BulkList Data) × (bulk_messages chars whole stats the_key two_servers 0
        (key_35 ∷ key_25 ∷ key_35 ∷ [])
      ≡ some (some l))
    × ((i : ℕ)
        → l.places i
          ≡ message_of (
              sent chars whole stats the_key two_servers
                (is_at 0 i)
                (key_35 ∷ key_25 ∷ key_35 ∷ [])))
    × (l.own
        ≡ message_of
            (sent chars whole stats the_key two_servers (is_own 0) (key_35 ∷ key_25 ∷ key_35 ∷ [])))
bulk_messages-sent_example =
    bulk_messages-sent chars whole stats the_key two_servers 0 (key_35 ∷ key_25 ∷ key_35 ∷ [])
      (omega arith) routed
