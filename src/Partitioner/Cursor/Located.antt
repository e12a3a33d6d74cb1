-- ===== src/Partitioner/Cursor/Located.antt =====
-- The server that holds a key.
use mpi_to_openshmem.Prelude.{ℕ, ◌+◌, ◌/◌, ◌%◌, ◌<◌, ◌≡◌, ◌≢◌, ap, Option, some, none, arith}
use mpi_to_openshmem.Prelude.Int.{ℤ, u32_mod}
use mpi_to_openshmem.Uthash.{IntHash}
use mpi_to_openshmem.Floats.{Floats, Bytes}
use mpi_to_openshmem.Partitioner.Alphabet.{MdhimChar}
use mpi_to_openshmem.Partitioner.Keys.{success, ikey_of, verify_key}
use mpi_to_openshmem.Partitioner.Keys.Valid.{get_slice_num_invalid}
use mpi_to_openshmem.Partitioner.Keys.Slice.{IsInteger, get_slice_num-eq}
use mpi_to_openshmem.Partitioner.Servers.{get_rangesrvs, get_num_range_servers}
use mpi_to_openshmem.Partitioner.Servers.Ranks.{server_rank}
use mpi_to_openshmem.Partitioner.Servers.Listing.{reports, report}
use mpi_to_openshmem.Partitioner.Servers.Routing.{get_range_server_by_slice_lem}
use mpi_to_openshmem.Partitioner.Stats.{MdhimStat}
use mpi_to_openshmem.Partitioner.Cursor.{Mdhim, server_of_slice, get_range_server}

module _ (h : IntHash MdhimChar) (fl : Floats) (hs : IntHash (MdhimStat fl.Real)) where
  -- A key that verify_key refuses, NULL included, has no range server: get_range_server returns
  -- NULL.
  pub get_range_server_invalid :
      (md : Mdhim h.Table hs.Table) (key : Option Bytes) (key_len : ℕ)
      → verify_key h fl md.alphabet md.max_recs_per_slice key key_len md.key_type ≢ success
      → get_range_server h fl hs md key key_len ≡ some none
  unfolding get_range_server server_of_slice
  get_range_server_invalid md key key_len v = rw (
    get_slice_num_invalid h fl md.alphabet md.max_recs_per_slice key key_len md.key_type v,
    get_range_server,
  )

  module _ (f size : ℕ) (pos_f : 0 < f) (pos_size : 0 < size) (fits : size < u32_mod) where
    -- On processes that hold the list of get_rangesrvs (size below 2^32, factor, size and max_recs
    -- positive), a valid key n of an integer type is located at the server with number n /
    -- max_recs % servers + 1, at the rank of that server.
    pub get_range_server_integer :
        (md : Mdhim h.Table hs.Table) (p : Bytes) (key_len : ℕ) (master : ℤ)
        → md.num_rangesrvs ≡ get_num_range_servers f (some size)
        → md.rangesrvs ≡ (get_rangesrvs (reports (report f size) size 0) master).0
        → 0 < md.max_recs_per_slice
        → IsInteger md.key_type
        → verify_key h fl md.alphabet md.max_recs_per_slice (some p) key_len md.key_type ≡ success
        → let s =
            ikey_of h fl p md.key_type / md.max_recs_per_slice % get_num_range_servers f (some size)
            + 1 in
          get_range_server h fl hs md (some p) key_len
          ≡ some (some (record { rank = server_rank f size s; rangesrv_num = s }))
    unfolding get_range_server server_of_slice
    get_range_server_integer md p key_len master n_eq l_eq r t v =
        let (located, small) =
          get_slice_num-eq h fl md.alphabet md.max_recs_per_slice p key_len md.key_type t v in
        let s = ikey_of h fl p md.key_type / md.max_recs_per_slice in
        rw (located, get_range_server)
          (rw (n_eq, l_eq, server_of_slice)
            (ap some (
              get_range_server_by_slice_lem f size pos_f pos_size fits s master
                (omega (arith, small)))))
