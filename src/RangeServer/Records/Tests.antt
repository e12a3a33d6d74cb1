-- ===== src/RangeServer/Records/Tests.antt =====
-- The key 25 gets a value, which is then appended to, in a store that is a function.
use mpi_to_openshmem.Prelude.{ℕ, ◌≡◌, ◌≢◌, ◌<◌, refl, List, [], true, some, inl, arith}
use mpi_to_openshmem.Prelude.Int.{pos}
use mpi_to_openshmem.Floats.Whole.{whole}
use mpi_to_openshmem.Partitioner.Alphabet.{MdhimChar}
use mpi_to_openshmem.Partitioner.Keys.{int_key, get_slice_num}
use mpi_to_openshmem.Partitioner.Stats.{MdhimStat}
use mpi_to_openshmem.Partitioner.Cursor.{Mdhim}
use mpi_to_openshmem.Mpi.Datatypes.{i32_mod}
use mpi_to_openshmem.Messages.Types.{Data, PutMessage, GetMessage, recv, recv_get}
use mpi_to_openshmem.RangeServer.Stats.{update_all_stats}
use mpi_to_openshmem.RangeServer.Stats.Summary.{
  Summarised, in_slice, summary, update_all_stats-Summarised,
}
use mpi_to_openshmem.DataStore.LevelDb.{leveldb_calls-Stores}
use mpi_to_openshmem.RangeServer.Records.{
  send_locally_or_remote, get_eq, new_value, get_record, MdhimServer, served, range_server_put,
  range_server_get,
}
use mpi_to_openshmem.RangeServer.Fixture.{
  table, table-Stores, chars, stats, key_25, value_1, value_2, server,
}
use mpi_to_openshmem.RangeServer.Records.Lookup.{Kept, range_server_put-range_server_get}

abbrev put_2 : PutMessage
put_2 = record { server_rank = 0; size = 54; key = key_25; value = value_2 }

abbrev get_25 : GetMessage
get_25 = record { server_rank = 0; size = 36; op = get_eq; key = key_25; num_records = 1 }

slice_2 : get_slice_num chars whole [] 10 (some key_25.bytes) 4 int_key ≡ some (pos 2)
unfolding get_slice_num
slice_2 = refl

no_keys : Summarised chars whole stats [] []
unfolding in_slice summary
no_keys j = refl

counted :
    (md' : Mdhim (List (ℕ × MdhimChar)) (List (ℕ × MdhimStat ℕ))) × (update_all_stats chars whole
        stats server.md key_25.bytes 4
      ≡ some md')
counted =
    let (md', e, _) =
      update_all_stats-Summarised chars whole stats server.md key_25.bytes 4 (pos 2) [] (inl refl)
        slice_2 no_keys in
    (md', e)

long_enough : (new_value true (some value_1) value_2).len ≡ 5
unfolding new_value
long_enough = refl

fits : (new_value true (some value_1) value_2).len < i32_mod
fits = let five = long_enough in omega arith

has_some : (new_value true (some value_1) value_2).len ≢ 0
has_some e = let five = long_enough in omega arith

-- Another key, which the store has nothing under.
abbrev get_26 : GetMessage
get_26 = record {
  server_rank = 0;
  size = 36;
  op = get_eq;
  key = record { bytes = λ i. 26; len = 4 };
  num_records = 1;
}

first_differs : (x y : ℕ) → x ≡ y → x ≡ 26 → y ≡ 25 → ⊥
first_differs x y e x_is y_is = omega arith

key_is_read : table-Stores.Readable put_2.key.len
unfolding leveldb_calls-Stores
key_is_read = omega arith

other_key : table-Stores.Apart get_26.key key_25
unfolding leveldb_calls-Stores
other_key = refl

range_server_put-range_server_get_example :
    (s' : MdhimServer chars whole stats table) × (value : Data) × (range_server_put chars whole
        stats table 16 server put_2 1
      ≡ served s'
          (send_locally_or_remote 0 1 (recv (record { server_rank = 0; size = 16; error = 0 }))))
    × (range_server_get chars whole stats table 0 (λ k. 0) s' get_25 2 get_eq
        ≡ served s' (
            send_locally_or_remote 0 2 (
              recv_get
                (record { server_rank = 0; size = 0; error = 0; key = key_25; value = value }))))
    × Kept true (some value_1) value_2 value
    × (get_record chars whole stats table s' get_26 get_eq
        ≡ get_record chars whole stats table server get_26 get_eq)
range_server_put-range_server_get_example =
    range_server_put-range_server_get chars whole stats table table-Stores 16 0 (λ k. 0) server
      put_2 get_25 get_26 1 2 counted.0 refl fits has_some counted.1 key_is_read (refl, λ k b. refl)
      other_key
