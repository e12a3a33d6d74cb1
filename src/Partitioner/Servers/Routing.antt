-- ===== src/Partitioner/Servers/Routing.antt =====
-- The server of a slice.
use native.Mathlib.Nat.{mod-lt, mod-eq_of_lt}
use mpi_to_openshmem.Prelude.{
  ℕ, ◌+◌, ◌-◌, ◌%◌, ◌≤◌, ◌<◌, ◌≡◌, some, inl, inr, ltb, ◌==◌, if◌then◌else◌, ltb→le, Bool-cases,
  arith,
}
use mpi_to_openshmem.Prelude.Int.{ℤ, pos, u32_mod, to_u32}
use mpi_to_openshmem.Partitioner.Servers.{
  get_rangesrvs, get_num_range_servers, get_range_server_by_slice,
}
use mpi_to_openshmem.Partitioner.Servers.Count.{num_servers-IsCeil}
use mpi_to_openshmem.Partitioner.Servers.Ranks.{server_rank}
use mpi_to_openshmem.Partitioner.Servers.Listing.{reports, report, find_server-get_rangesrvs}

module _ (f size : ℕ) (pos_f : 0 < f) (pos_size : 0 < size) (fits : size < u32_mod) where
  abbrev servers : ℕ
  servers = get_num_range_servers f (some size)

  servers_range : (0 < servers) × (servers ≤ size)
  unfolding get_num_range_servers
  servers_range = elim (Bool-cases (ltb (size - 1) f)) [
    | inl alone ↦ ground arith
    | inr many ↦
        let c = num_servers-IsCeil f size pos_f fits (ltb→le _ _ many) in (grind arith, c.small)
  ]

  number_of_slice :
      (k : ℕ)
      → k < u32_mod
      → (if servers == 1 then 1 else (to_u32 (pos k) % servers + 1) % u32_mod) ≡ k % servers + 1
  number_of_slice k h = ground (
    arith,
    servers_range,
    mod-lt k servers_range.0,
    mod-eq_of_lt {n = k} {m = u32_mod} h,
    mod-eq_of_lt {n = k % servers + 1} {m = u32_mod},
  )

  -- Every slice below 2^32 has a range server in the list that the processes build: slices go
  -- round the servers in the order of their numbers, and the rank found is the one that
  -- is_range_server gives that number to.
  pub get_range_server_by_slice_lem :
      (k : ℕ) (master : ℤ)
      → k < u32_mod
      → let s = k % servers + 1 in
        get_range_server_by_slice servers
          (get_rangesrvs (reports (report f size) size 0) master).0
          (pos k)
        ≡ some (record { rank = server_rank f size s; rangesrv_num = s })
  unfolding get_range_server_by_slice
  get_range_server_by_slice_lem k master h = rw (number_of_slice k h) (
      find_server-get_rangesrvs f size pos_f pos_size fits (k % servers + 1) master (omega arith)
        (omega (arith, mod-lt k servers_range.0)))
