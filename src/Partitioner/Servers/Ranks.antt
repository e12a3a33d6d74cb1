-- ===== src/Partitioner/Servers/Ranks.antt =====
-- The numbers of the range servers and their ranks.
use native.Mathlib.Nat.{div-add-mod', mul-mod_left, mul-div_cancel_left, mod-eq_of_lt, mul_comm}
use mpi_to_openshmem.Prelude.{
  ℕ, ◌+◌, ◌-◌, ◌*◌, ◌/◌, ◌≤◌, ◌<◌, ◌≡◌, ◌≢◌, some, inl, inr, ltb, if◌then◌else◌, Bool-cases, arith,
  ltb→le,
}
use mpi_to_openshmem.Prelude.Int.{u32_mod}
use mpi_to_openshmem.Partitioner.Servers.{get_num_range_servers, rangesrv_num_of, is_range_server}
use mpi_to_openshmem.Partitioner.Servers.Count.{num_servers-IsCeil}

-- the rank of the server with number `s`
pub server_rank : ℕ → ℕ → ℕ → ℕ
server_rank factor size s = if ltb (size - 1) factor then size - 1 else (s - 1) * factor

module _ (f size : ℕ) (pos_f : 0 < f) (pos_size : 0 < size) (fits : size < u32_mod) where
  abbrev servers : ℕ
  servers = get_num_range_servers f (some size)

  multiple_below : (s n : ℕ) → 0 < s → s ≤ n → n * f < size + f → (s - 1) * f < size
  multiple_below s n h le t = grind arith

  -- For a positive factor and a size between 1 and 2^32 - 1, every number from 1 to
  -- get_num_range_servers belongs to a rank of the communicator, for which is_range_server returns
  -- that number.
  pub is_range_server-server_rank :
      (s : ℕ)
      → 0 < s
      → s ≤ servers
      → (server_rank f size s < size)
        × (is_range_server f servers (some size) (server_rank f size s) ≡ s)
  unfolding server_rank is_range_server rangesrv_num_of
  is_range_server-server_rank s h le = elim (Bool-cases (ltb (size - 1) f)) [
    | inl alone ↦ unfold get_num_range_servers in ground arith
    | inr many ↦
        let c = num_servers-IsCeil f size pos_f fits (ltb→le _ _ many) in
        ground (
          arith,
          multiple_below s servers h le c.tight,
          c.small,
          mul-mod_left (s - 1) f,
          mul-div_cancel_left (s - 1) pos_f,
          mul_comm (s - 1) f,
          mod-eq_of_lt {n = s} {m = u32_mod} (omega (arith, c.small)),
        )
  ]

  -- Conversely, a rank below the size for which is_range_server is not 0 gets a number of that
  -- range, and is the rank of that number.
  pub server_rank-is_range_server :
      (rank : ℕ)
      → rank < size
      → is_range_server f servers (some size) rank ≢ 0
      → (is_range_server f servers (some size) rank ≤ servers)
        × (server_rank f size (is_range_server f servers (some size) rank) ≡ rank)
  unfolding server_rank is_range_server rangesrv_num_of
  server_rank-is_range_server rank lt ne = elim (Bool-cases (ltb (size - 1) f)) [
    | inl alone ↦ unfold get_num_range_servers in ground arith
    | inr many ↦
        let c = num_servers-IsCeil f size pos_f fits (ltb→le _ _ many) in
        ground (arith, c.small, div-add-mod' rank f, mod-eq_of_lt {n = rank / f + 1} {m = u32_mod})
  ]
