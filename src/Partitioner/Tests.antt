-- ===== src/Partitioner/Tests.antt =====
-- Runs of the partitioner on small inputs: five processes, every second one a range server, ten
-- records to a slice.
use mpi_to_openshmem.Prelude.{
  ℕ, ◌+◌, ◌*◌, ◌/◌, ◌%◌, ◌≤◌, ◌<◌, ◌≡◌, ◌≢◌, refl, List, [], ◌∷◌, some, inl, ◌==◌, if◌then◌else◌,
  arith,
}
use mpi_to_openshmem.Prelude.Int.{pos}
use mpi_to_openshmem.Uthash.{IntHash}
use mpi_to_openshmem.Uthash.Assoc.{assoc}
use mpi_to_openshmem.Floats.{Bytes}
use mpi_to_openshmem.Floats.Whole.{whole}
use mpi_to_openshmem.Partitioner.Alphabet.{MdhimChar}
use mpi_to_openshmem.Partitioner.Keys.{
  success, int_key, string_key, max_slices, ikey_of, verify_key, get_slice_num,
}
use mpi_to_openshmem.Partitioner.Keys.Slice.{get_slice_num_integer}
use mpi_to_openshmem.Partitioner.Servers.{
  get_rangesrvs, get_num_range_servers, is_range_server, get_range_server_by_slice,
}
use mpi_to_openshmem.Partitioner.Servers.Ranks.{
  server_rank, is_range_server-server_rank, server_rank-is_range_server,
}
use mpi_to_openshmem.Partitioner.Servers.Listing.{reports, report}
use mpi_to_openshmem.Partitioner.Servers.Routing.{get_range_server_by_slice_lem}
use mpi_to_openshmem.Partitioner.Stats.{
  MdhimStat, word, get_next_slice_stat, get_prev_slice_stat, get_first_slice_stat,
  get_last_slice_stat,
}
use mpi_to_openshmem.Partitioner.Stats.Nearest.{
  IsNext, IsPrev, IsFirst, IsLast, nearest_slices, extreme_slices,
}
use mpi_to_openshmem.Partitioner.Cursor.{
  Mdhim, is_empty, holds, as_word, get_next, get_range_server, get_slice_from_istat,
  get_range_server_from_stats,
}
use mpi_to_openshmem.Partitioner.Cursor.Located.{get_range_server_integer}
use mpi_to_openshmem.Partitioner.Cursor.Wrapped.{
  NextSlice, ReachesAbove, get_slice_from_istat-NextSlice, get_range_server_from_stats_past_end,
}

abbrev chars : IntHash MdhimChar
chars = assoc MdhimChar

abbrev stats : IntHash (MdhimStat ℕ)
stats = assoc (MdhimStat ℕ)

-- the key 25, least byte first
abbrev key_25 : Bytes
key_25 i = if i == 0 then 25 else 0

-- the key "a1"
abbrev key_a1 : Bytes
key_a1 i = if i == 0 then b'a' else if i == 1 then b'1' else 0

abbrev letters : List (ℕ × MdhimChar)
letters = (b'a', record { id = b'a'; pos = 36 }) ∷ (b'1', record { id = b'1'; pos = 1 }) ∷ []

abbrev stat_of : ℕ → ℕ → ℕ → MdhimStat ℕ
stat_of slice low high = record { key = pos slice; max = word high; min = word low; num = 2 }

-- statistics on the slices 4, 0 and 2
abbrev table : List (ℕ × MdhimStat ℕ)
table = (4, stat_of 4 40 48) ∷ (0, stat_of 0 1 9) ∷ (2, stat_of 2 21 25) ∷ []

-- statistics on the slices 0 and 2
abbrev short_table : List (ℕ × MdhimStat ℕ)
short_table = (0, stat_of 0 1 9) ∷ (2, stat_of 2 21 25) ∷ []

abbrev servers : ℕ
servers = get_num_range_servers 2 (some 5)

abbrev five : Mdhim (List (ℕ × MdhimChar)) (List (ℕ × MdhimStat ℕ))
five = record {
  key_type = int_key;
  num_rangesrvs = servers;
  rangesrvs = (get_rangesrvs (reports (report 2 5) 5 0) (pos 0)).0;
  stats = short_table;
  alphabet = letters;
  max_recs_per_slice = 10;
}

key_25-verified : verify_key chars whole letters 10 (some key_25) 4 int_key ≡ success
unfolding verify_key
key_25-verified = refl

get_range_server_integer_example :
    let s = ikey_of chars whole key_25 int_key / 10 % servers + 1 in
    get_range_server chars whole stats five (some key_25) 4
    ≡ some (some (record { rank = server_rank 2 5 s; rangesrv_num = s }))
get_range_server_integer_example =
    get_range_server_integer chars whole stats 2 5 (omega arith) (omega arith) (omega arith) five
      key_25 4 (pos 0) refl refl (omega arith) (inl refl) key_25-verified

key_too_long : verify_key chars whole letters 10 (some key_25) 300_000 int_key ≢ success
unfolding verify_key
key_too_long e = ground arith

get_range_server_by_slice_lem_example :
    get_range_server_by_slice servers (get_rangesrvs (reports (report 2 5) 5 0) (pos 0)).0 (pos 7)
    ≡ some (record { rank = server_rank 2 5 (7 % servers + 1); rangesrv_num = 7 % servers + 1 })
get_range_server_by_slice_lem_example =
    get_range_server_by_slice_lem 2 5 (omega arith) (omega arith) (omega arith) 7 (pos 0)
      (omega arith)

servers_of_five : servers ≡ 3
unfolding get_num_range_servers
servers_of_five = refl

is_range_server-server_rank_example :
    (server_rank 2 5 3 < 5) × (is_range_server 2 servers (some 5) (server_rank 2 5 3) ≡ 3)
is_range_server-server_rank_example =
    is_range_server-server_rank 2 5 (omega arith) (omega arith) (omega arith) 3 (omega arith)
      (omega (arith, servers_of_five))

rank_4_serves : is_range_server 2 servers (some 5) 4 ≢ 0
unfolding is_range_server get_num_range_servers
rank_4_serves e = ground arith

server_rank-is_range_server_example :
    (is_range_server 2 servers (some 5) 4 ≤ servers)
    × (server_rank 2 5 (is_range_server 2 servers (some 5) 4) ≡ 4)
server_rank-is_range_server_example =
    server_rank-is_range_server 2 5 (omega arith) (omega arith) (omega arith) 4 (omega arith)
      rank_4_serves

get_slice_num_integer_example :
    (s : ℕ) × (get_slice_num chars whole letters 10 (some key_25) 4 int_key ≡ some (pos s))
    × (s < max_slices)
    × (s * 10 ≤ ikey_of chars whole key_25 int_key)
    × (ikey_of chars whole key_25 int_key < (s + 1) * 10)
get_slice_num_integer_example =
    get_slice_num_integer chars whole letters 10 key_25 4 int_key (omega arith) (inl refl)
      key_25-verified

key_a1-verified : verify_key chars whole letters 10 (some key_a1) 3 string_key ≡ success
unfolding verify_key
key_a1-verified = refl

nearest_slices_example :
    IsNext (pos 2) (stats.items table) (get_next_slice_stat stats table (pos 2))
    × IsPrev (pos 2) (stats.items table) (get_prev_slice_stat stats table (pos 2))
nearest_slices_example = nearest_slices stats table (pos 2)

extreme_slices_example :
    IsFirst (stats.items table) (get_first_slice_stat stats table)
    × IsLast (stats.items table) (get_last_slice_stat stats table)
extreme_slices_example = extreme_slices stats table

get_slice_from_istat-NextSlice_example :
    NextSlice chars whole stats table
      (pos 2)
      25
      (get_slice_from_istat chars whole stats table (pos 2) 25 get_next)
unfolding is_empty
get_slice_from_istat-NextSlice_example =
    get_slice_from_istat-NextSlice chars whole stats table (pos 2) 25 refl

key_25-slice : get_slice_num chars whole letters 10 (some key_25) 4 int_key ≡ some (pos 2)
unfolding get_slice_num
key_25-slice = refl

last_slice_full : ¬ ReachesAbove chars whole stats short_table (pos 2) 25
unfolding holds as_word
last_slice_full e = cc

-- Key 25 is the largest one there is, and the "next" slice is slice 0.
get_range_server_from_stats_past_end_example :
    get_range_server_from_stats chars whole stats five (some key_25) 4 get_next
    ≡ some (some (record { rank = server_rank 2 5 1; rangesrv_num = 1 }))
unfolding is_empty ikey_of
get_range_server_from_stats_past_end_example =
    get_range_server_from_stats_past_end chars whole stats five key_25 3 2 2 5 (pos 0) (omega arith)
      (omega arith) (omega arith) refl refl refl (inl refl) key_25-slice (omega arith)
      last_slice_full
