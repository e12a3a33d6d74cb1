-- ===== src/Partitioner/Servers.antt =====
-- Range servers (mdhimMods/src/partitioner.c: get_num_range_servers, is_range_server,
-- get_range_server_by_slice; mdhimMods/src/messages.c: get_rangesrvs): which ranks are servers, the
-- list of them that each process builds, and the server of a slice.
-- `none` for the size of the communicator is a failure of MPI_Comm_size.
pub mod Count
pub mod Ranks
pub mod Listing
pub mod Routing
use mpi_to_openshmem.Prelude.{
  ℕ, zero, suc, ◌+◌, ◌-◌, ◌/◌, ◌%◌, List, [], ◌∷◌, ◌++◌, ◌&&◌, Option, none, some, ltb, leb, ◌==◌,
  if◌then◌else◌,
}
use mpi_to_openshmem.Prelude.Int.{ℤ, pos, negsuc, u32_mod, u64_mod, to_u32}

-- MDHIM_ERROR, returned as a uint32_t
abbrev pub error_u32 : ℕ
error_u32 = u32_mod - 1

-- the loop of get_num_range_servers, with the rounds that are left
pub count_servers : ℕ → ℕ → ℕ → ℕ → ℕ
count_servers factor zero i num_servers = num_servers
count_servers factor (suc n) i num_servers =
    count_servers factor n (i + 1)
      (if i % factor == 0 then (num_servers + 1) % u32_mod else num_servers)

unfoldable pub get_num_range_servers : ℕ → Option ℕ → ℕ
unfolding count_servers
get_num_range_servers factor none = error_u32
get_num_range_servers factor (some size) =
    if ltb (size - 1) factor then 1 else count_servers factor size 0 0

pub rangesrv_num_of : ℕ → ℕ → ℕ → ℕ
rangesrv_num_of factor size rank =
    let last = size - 1 in
    if ltb last factor && (rank == last)
    then 1
    else if leb factor last && (rank % factor == 0)
    then rank / factor + 1
    else 0

-- `num_rangesrvs` is the field of `md`. The result is cut to the 32 bits of its type.
unfoldable pub is_range_server : ℕ → ℕ → Option ℕ → ℕ → ℕ
unfolding rangesrv_num_of
is_range_server factor num_rangesrvs none rank = error_u32
is_range_server factor num_rangesrvs (some size) rank =
    let num = rangesrv_num_of factor size rank in
    (if ltb num_rangesrvs num then 0 else num) % u32_mod

-- struct rangesrv_info; the links of the list are the order of a `List`.
pub record RangesrvInfo : Type 0 where
  pub rank : ℕ
  pub rangesrv_num : ℕ

-- The master is the server with the largest rank. `rangesrv_master` is an `int`, which the code
-- compares as unsigned.
pub next_master : ℕ → ℕ → ℤ → ℤ
next_master num i master =
    if num == 0 then master else if ltb (to_u32 master) i then pos i else master

-- The loop of get_rangesrvs: the list and the master, from the numbers that the ranks from `i` on
-- sent.
pub collect : List ℕ → ℕ → ℤ → List RangesrvInfo × ℤ
collect [] i master = ([], master)
collect (num ∷ nums) i master =
    let (rest, master') = collect nums (i + 1) (next_master num i master) in
    ((if num == 0 then rest else record { rank = i; rangesrv_num = num } ∷ rest), master')

-- get_rangesrvs, with what MPI_Allgather delivered
pub get_rangesrvs : List ℕ → ℤ → List RangesrvInfo × ℤ
get_rangesrvs nums master = collect nums 0 master

-- the loop of get_range_server_by_slice
unfoldable pub find_server : ℕ → List RangesrvInfo → Option RangesrvInfo
find_server num [] = none
find_server num (rp ∷ rest) = if num == rp.rangesrv_num then some rp else find_server num rest

unfoldable pub get_range_server_by_slice : ℕ → List RangesrvInfo → ℤ → Option RangesrvInfo
get_range_server_by_slice num_rangesrvs rangesrvs slice =
    let num = if num_rangesrvs == 1 then 1 else (to_u32 slice % num_rangesrvs + 1) % u32_mod in
    find_server num rangesrvs
