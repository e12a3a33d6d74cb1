-- ===== src/Partitioner/Servers/Listing.antt =====
-- The list of range servers that get_rangesrvs builds from what the ranks report.
use mpi_to_openshmem.Prelude.{ℕ, zero, suc, ◌+◌, ◌≤◌, ◌<◌, ◌≡◌, ◌≢◌, List, [], ◌∷◌, some, arith}
use mpi_to_openshmem.Prelude.Int.{ℤ, u32_mod}
use mpi_to_openshmem.Partitioner.Servers.{
  next_master, collect, find_server, get_rangesrvs, get_num_range_servers, is_range_server,
}
use mpi_to_openshmem.Partitioner.Servers.Ranks.{
  server_rank, is_range_server-server_rank, server_rank-is_range_server,
}

-- What the ranks from `i` on report, rank by rank.
abbrev pub reports : (ℕ → ℕ) → ℕ → ℕ → List ℕ
reports g zero i = []
reports g (suc n) i = g i ∷ reports g n (i + 1)

-- A number that one rank alone reports is found in the list, with that rank.
find_server-collect :
    (g : ℕ → ℕ) (s r : ℕ)
    → s ≢ 0
    → g r ≡ s
    → (n i : ℕ) (master : ℤ) → ((k : ℕ) → k < i + n → g k ≡ s → k ≡ r)
    → i ≤ r
    → r < i + n
    → find_server s (collect (reports g n i) i master).0
      ≡ some (record { rank = r; rangesrv_num = s })
unfolding collect find_server
find_server-collect g s r ne e zero i master only lo hi = absurd (omega arith)
find_server-collect g s r ne e (suc n) i master only lo hi = ground (
  arith,
  only i,
  find_server-collect g s r ne e n (i + 1) (next_master (g i) i master)
      (λ k lt. only k (omega arith)),
)

-- What rank `r` reports: its number as a range server, or 0.
abbrev pub report : ℕ → ℕ → ℕ → ℕ
report f size r = is_range_server f (get_num_range_servers f (some size)) (some size) r

module _ (f size : ℕ) (pos_f : 0 < f) (pos_size : 0 < size) (fits : size < u32_mod) where
  abbrev servers : ℕ
  servers = get_num_range_servers f (some size)

  -- When each rank reports what `is_range_server` says of it, the list that `get_rangesrvs` builds
  -- has for each number from 1 on the rank of that server.
  pub find_server-get_rangesrvs :
      (s : ℕ) (master : ℤ)
      → 0 < s
      → s ≤ servers
      → find_server s (get_rangesrvs (reports (report f size) size 0) master).0
        ≡ some (record { rank = server_rank f size s; rangesrv_num = s })
  unfolding get_rangesrvs
  find_server-get_rangesrvs s master h le =
      let here = is_range_server-server_rank f size pos_f pos_size fits s h le in
      find_server-collect (report f size) s (server_rank f size s) (omega arith) here.1 size 0
        master (λ k lt e. only k lt e) (omega arith) (omega arith)
    where
      only : (k : ℕ) → k < 0 + size → report f size k ≡ s → k ≡ server_rank f size s
      only k lt e = ground (
        arith,
        server_rank-is_range_server f size pos_f pos_size fits k (omega arith) (omega arith),
      )
