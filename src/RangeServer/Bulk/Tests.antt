-- ===== src/RangeServer/Bulk/Tests.antt =====
-- Two records are put, got, listed and deleted in one message each.
use mpi_to_openshmem.Prelude.{ℕ, ◌≡◌, ◌≢◌, refl, List, [], ◌∷◌, true, false, some, inl, All, arith}
use mpi_to_openshmem.Prelude.Int.{pos}
use mpi_to_openshmem.Floats.Whole.{whole}
use mpi_to_openshmem.Partitioner.Alphabet.{MdhimChar}
use mpi_to_openshmem.Partitioner.Keys.{int_key, get_slice_num}
use mpi_to_openshmem.Partitioner.Stats.{MdhimStat}
use mpi_to_openshmem.Partitioner.Cursor.{Mdhim}
use mpi_to_openshmem.Messages.Types.{
  Data, Pair, GetMessage, BulkPutMessage, BulkGetMessage, BulkDelMessage, recv_get,
}
use mpi_to_openshmem.RangeServer.Stats.{update_all_stats}
use mpi_to_openshmem.RangeServer.Stats.Summary.{
  Summarised, in_slice, summary, update_all_stats-Summarised,
}
use mpi_to_openshmem.DataStore.LevelDb.{leveldb_batches-Batches}
use mpi_to_openshmem.RangeServer.Records.{
  send_locally_or_remote, get_next_op, get_first, new_value, has_bytes, MdhimServer, served, fault,
  respond, range_server_get,
}
use mpi_to_openshmem.RangeServer.Fixture.{
  table, table_batch, table-Batches, chars, stats, key_25, key_26, value_1, value_2, server,
  two_records, two_server,
}
use mpi_to_openshmem.RangeServer.Bulk.{
  Absent, update_new, freed_twice, range_server_bput, range_server_bget, range_server_bdel,
  range_server_bget_op, respond_records,
}
use mpi_to_openshmem.RangeServer.Bulk.Deletes.{dels_in_turn, range_server_bdel-dels_in_turn}
use mpi_to_openshmem.RangeServer.Bulk.Returned.{
  Distinct, Storable, prepared, Answered, range_server_bput-range_server_bget,
  range_server_bput_freed_twice,
}
use mpi_to_openshmem.RangeServer.Bulk.Walk.{range_server_bget_op-Walks, range_server_bget_op_first}

-- The second value is appended to what the key 25 has, and the key 26 is new.
abbrev two : List Pair
two = record { key = key_25; value = value_2 } ∷ record { key = key_26; value = value_1 } ∷ []

abbrev put_two : BulkPutMessage
put_two = record { server_rank = 0; size = 90; records = two }

abbrev get_two : BulkGetMessage
get_two = record { server_rank = 0; size = 50; op = 0; keys = key_25 ∷ key_26 ∷ [] }

abbrev key_27 : Data
key_27 = record { bytes = λ i. 27; len = 4 }

differ : (x y m n : ℕ) → x ≡ y → x ≡ m → y ≡ n → m ≢ n → ⊥
differ x y m n e x_is y_is ne = omega arith

two-Storable : All (Storable table server.db true) two
unfolding new_value
two-Storable = ((omega arith, omega arith), ((omega arith, omega arith), tt))

two-Distinct : Distinct table-Batches.Apart two
unfolding leveldb_batches-Batches
two-Distinct = ((refl, tt), (tt, tt))

two-Readable : All (λ r. table-Batches.Readable r.key.len) two
unfolding leveldb_batches-Batches
two-Readable = (omega arith, (omega arith, tt))

Absent-27 : Absent table-Batches.Apart key_27 two
unfolding leveldb_batches-Batches
Absent-27 = (refl, (refl, tt))

slice_2 : get_slice_num chars whole [] 10 (some key_26.bytes) 4 int_key ≡ some (pos 2)
unfolding get_slice_num
slice_2 = refl

no_keys : Summarised chars whole stats [] []
unfolding in_slice summary
no_keys j = refl

counted :
    (md' : Mdhim (List (ℕ × MdhimChar)) (List (ℕ × MdhimStat ℕ))) × (update_all_stats chars whole
        stats server.md key_26.bytes 4
      ≡ some md')
counted =
    let (md', e, _) =
      update_all_stats-Summarised chars whole stats server.md key_26.bytes 4 (pos 2) [] (inl refl)
        slice_2 no_keys in
    (md', e)

two_counted :
    update_new chars whole stats table server.md (prepared table server.db true two)
    ≡ some counted.0
unfolding update_new has_bytes
two_counted = rw (update_new, counted.1) refl

once : freed_twice true true (prepared table server.db true two) ≡ false
unfolding freed_twice has_bytes
once = refl

range_server_bput-range_server_bget_example :
    (s' : MdhimServer chars whole stats table) × (answers : List Pair) × (range_server_bput chars
        whole stats table table_batch 16 server put_two 0
      ≡ respond chars whole stats table 16 s' 0 0)
    × (range_server_bget chars whole stats table 0 (λ k. 0) s' get_two 2
        ≡ respond_records chars whole stats table 0 s' (0, answers) 2)
    × Answered table server.db true two answers
    × (table.get s'.db key_27 ≡ table.get server.db key_27)
range_server_bput-range_server_bget_example =
    range_server_bput-range_server_bget chars whole stats table table_batch table-Batches 16 0
      (λ k. 0) server put_two get_two key_27 0 2 counted.0 (omega arith) two-Storable two-Distinct
      two-Readable refl two_counted once refl Absent-27

abbrev next_3 : GetMessage
next_3 = record { server_rank = 0; size = 36; op = get_next_op; key = key_25; num_records = 3 }

-- There are two records only.
range_server_bget_op-Walks_example :
    range_server_bget_op chars whole stats two_records 60 (λ k. 0) two_server next_3 1 get_next_op
    ≡ respond_records chars whole stats two_records 60 two_server
        (
          2,
          record { key = key_25; value = value_1 } ∷ record { key = key_26; value = value_2 } ∷ [],
        )
        1
range_server_bget_op-Walks_example =
    range_server_bget_op-Walks chars whole stats two_records false 60 (λ k. 0) two_server next_3 1 2
      2 value_1 (record { key = key_26; value = value_2 } ∷ []) refl (omega arith) (omega arith)
      refl (refl, refl) (omega arith)

abbrev first_3 : GetMessage
first_3 = record {
  server_rank = 0;
  size = 32;
  op = get_first;
  key = record { bytes = λ i. 0; len = 0 };
  num_records = 3;
}

range_server_bget_op_first_example :
    (range_server_bget_op chars whole stats two_records 60 (λ k. 0) two_server first_3 1 get_first
      ≡ respond_records chars whole stats two_records 60 two_server (2, []) 1)
    × (range_server_get chars whole stats two_records 60 (λ k. 0) two_server first_3 1 get_first
        ≡ served two_server (
            send_locally_or_remote 0 1 (
              recv_get
                (record { server_rank = 0; size = 60; error = 0; key = key_25; value = value_1 }))))
range_server_bget_op_first_example =
    range_server_bget_op_first chars whole stats two_records 60 (λ k. 0) two_server first_3 1 2 2
      (record { key = key_25; value = value_1 }) refl (omega arith) refl refl (omega arith) refl

abbrev del_two : BulkDelMessage
del_two = record { server_rank = 0; size = 50; keys = key_26 ∷ key_25 ∷ [] }

range_server_bdel-dels_in_turn_example :
    (s' : MdhimServer chars whole stats two_records) × (error : ℕ) × (dels_in_turn chars whole stats
        two_records 16 two_server
        (key_26 ∷ key_25 ∷ [])
        0
        1
      ≡ some (s', error))
    × (range_server_bdel chars whole stats two_records 16 two_server del_two 1
        ≡ respond chars whole stats two_records 16 s' error 1)
range_server_bdel-dels_in_turn_example =
    range_server_bdel-dels_in_turn chars whole stats two_records 16 two_server del_two 1
      (omega arith)

exists_25 : has_bytes (table.get server.db key_25).1 ≡ true
unfolding has_bytes
exists_25 = refl

range_server_bput_freed_twice_example :
    range_server_bput chars whole stats table table_batch 16 server put_two 1 ≡ fault
range_server_bput_freed_twice_example =
    range_server_bput_freed_twice chars whole stats table table_batch 16 server put_two 1
      (record { key = key_25; value = value_2 }) [] (record { key = key_26; value = value_1 } ∷ [])
      refl (omega arith) refl exists_25 two-Storable
