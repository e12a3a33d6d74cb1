-- ===== src/Partitioner/Stats/Nearest.antt =====
-- The loops over the statistics find the nearest slice, whatever the order of the table.
use mpi_to_openshmem.Prelude.{◌≡◌, refl, List, [], ◌∷◌, Option, none, some, All, ◌⊎◌, arith}
use mpi_to_openshmem.Prelude.Int.{ℤ, ◌<ℤ◌, ◌≤ℤ◌}
use mpi_to_openshmem.Uthash.{IntHash}
use mpi_to_openshmem.Partitioner.Stats.{
  MdhimStat, better_next, next_loop, better_prev, prev_loop, get_next_slice_stat,
  get_prev_slice_stat, last_loop, first_loop, better_last, better_first, get_last_slice_stat,
  get_first_slice_stat,
}

-- `stat` is one of the structures.
abbrev pub Among : {A : Type 0} → A → List A → Type 0
Among a [] = ⊥
Among a (x ∷ xs) = (a ≡ x) ⊎ Among a xs

module _ {R : Type 0} (slice_num : ℤ) where
  -- What get_next_slice_stat should find among `stats`: none where no slice lies above, and else one
  -- above, with none between.
  abbrev pub IsNext : List (MdhimStat R) → Option (MdhimStat R) → Type 0
  IsNext stats none = All (λ stat. stat.key ≤ℤ slice_num) stats
  IsNext stats (some next) =
      Among next stats
      × (slice_num <ℤ next.key)
      × All (λ stat. (stat.key ≤ℤ slice_num) ⊎ (next.key ≤ℤ stat.key)) stats

  -- The same, for a loop that has found `seen` before.
  abbrev NextFrom : List (MdhimStat R) → MdhimStat R → Option (MdhimStat R) → Type 0
  NextFrom stats seen none = ⊥
  NextFrom stats seen (some next) =
      ((next ≡ seen) ⊎ Among next stats)
      × (slice_num <ℤ next.key)
      × (next.key ≤ℤ seen.key)
      × All (λ stat. (stat.key ≤ℤ slice_num) ⊎ (next.key ≤ℤ stat.key)) stats

  next_loop-NextFrom :
      (stats : List (MdhimStat R)) (seen : MdhimStat R)
      → slice_num <ℤ seen.key
      → NextFrom stats seen (next_loop slice_num stats (some seen))
  unfolding next_loop better_next
  next_loop-NextFrom [] seen lt = ground arith
  next_loop-NextFrom (stat ∷ stats) seen lt =
      ground (arith, next_loop-NextFrom stats seen lt, next_loop-NextFrom stats stat)

  next_loop-IsNext : (stats : List (MdhimStat R)) → IsNext stats (next_loop slice_num stats none)
  unfolding next_loop better_next
  next_loop-IsNext [] = tt
  next_loop-IsNext (stat ∷ stats) =
      ground (arith, next_loop-IsNext stats, next_loop-NextFrom stats stat)

  -- The same below `slice_num`.
  abbrev pub IsPrev : List (MdhimStat R) → Option (MdhimStat R) → Type 0
  IsPrev stats none = All (λ stat. slice_num ≤ℤ stat.key) stats
  IsPrev stats (some prev) =
      Among prev stats
      × (prev.key <ℤ slice_num)
      × All (λ stat. (slice_num ≤ℤ stat.key) ⊎ (stat.key ≤ℤ prev.key)) stats

  abbrev PrevFrom : List (MdhimStat R) → MdhimStat R → Option (MdhimStat R) → Type 0
  PrevFrom stats seen none = ⊥
  PrevFrom stats seen (some prev) =
      ((prev ≡ seen) ⊎ Among prev stats)
      × (prev.key <ℤ slice_num)
      × (seen.key ≤ℤ prev.key)
      × All (λ stat. (slice_num ≤ℤ stat.key) ⊎ (stat.key ≤ℤ prev.key)) stats

  prev_loop-PrevFrom :
      (stats : List (MdhimStat R)) (seen : MdhimStat R)
      → seen.key <ℤ slice_num
      → PrevFrom stats seen (prev_loop slice_num stats (some seen))
  unfolding prev_loop better_prev
  prev_loop-PrevFrom [] seen lt = ground arith
  prev_loop-PrevFrom (stat ∷ stats) seen lt =
      ground (arith, prev_loop-PrevFrom stats seen lt, prev_loop-PrevFrom stats stat)

  prev_loop-IsPrev : (stats : List (MdhimStat R)) → IsPrev stats (prev_loop slice_num stats none)
  unfolding prev_loop better_prev
  prev_loop-IsPrev [] = tt
  prev_loop-IsPrev (stat ∷ stats) =
      ground (arith, prev_loop-IsPrev stats, prev_loop-PrevFrom stats stat)

module _ {R : Type 0} where
  -- A structure with the largest key; none where there is no structure.
  abbrev pub IsLast : List (MdhimStat R) → Option (MdhimStat R) → Type 0
  IsLast stats none = stats ≡ []
  IsLast stats (some last) = Among last stats × All (λ stat. stat.key ≤ℤ last.key) stats

  abbrev LastFrom : List (MdhimStat R) → MdhimStat R → Option (MdhimStat R) → Type 0
  LastFrom stats seen none = ⊥
  LastFrom stats seen (some last) =
      ((last ≡ seen) ⊎ Among last stats)
      × (seen.key ≤ℤ last.key)
      × All (λ stat. stat.key ≤ℤ last.key) stats

  last_loop-LastFrom :
      (stats : List (MdhimStat R)) (seen : MdhimStat R)
      → LastFrom stats seen (last_loop stats (some seen))
  unfolding last_loop better_last
  last_loop-LastFrom [] seen = ground arith
  last_loop-LastFrom (stat ∷ stats) seen =
      ground (arith, last_loop-LastFrom stats seen, last_loop-LastFrom stats stat)

  last_loop-IsLast : (stats : List (MdhimStat R)) → IsLast stats (last_loop stats none)
  unfolding last_loop better_last
  last_loop-IsLast [] = refl
  last_loop-IsLast (stat ∷ stats) = ground (arith, last_loop-LastFrom stats stat)

  -- A structure with the smallest key; none where there is no structure.
  abbrev pub IsFirst : List (MdhimStat R) → Option (MdhimStat R) → Type 0
  IsFirst stats none = stats ≡ []
  IsFirst stats (some first) = Among first stats × All (λ stat. first.key ≤ℤ stat.key) stats

  abbrev FirstFrom : List (MdhimStat R) → MdhimStat R → Option (MdhimStat R) → Type 0
  FirstFrom stats seen none = ⊥
  FirstFrom stats seen (some first) =
      ((first ≡ seen) ⊎ Among first stats)
      × (first.key ≤ℤ seen.key)
      × All (λ stat. first.key ≤ℤ stat.key) stats

  first_loop-FirstFrom :
      (stats : List (MdhimStat R)) (seen : MdhimStat R)
      → FirstFrom stats seen (first_loop stats (some seen))
  unfolding first_loop better_first
  first_loop-FirstFrom [] seen = ground arith
  first_loop-FirstFrom (stat ∷ stats) seen =
      ground (arith, first_loop-FirstFrom stats seen, first_loop-FirstFrom stats stat)

  first_loop-IsFirst : (stats : List (MdhimStat R)) → IsFirst stats (first_loop stats none)
  unfolding first_loop better_first
  first_loop-IsFirst [] = refl
  first_loop-IsFirst (stat ∷ stats) = ground (arith, first_loop-FirstFrom stats stat)

module _ {R : Type 0} (hs : IntHash (MdhimStat R)) (stats : hs.Table) where
  -- For every order of the hash table, get_next_slice_stat finds the least slice above the given
  -- one and get_prev_slice_stat the largest below it, or none where the table has none.
  pub nearest_slices :
      (slice_num : ℤ)
      → IsNext slice_num (hs.items stats) (get_next_slice_stat hs stats slice_num)
        × IsPrev slice_num (hs.items stats) (get_prev_slice_stat hs stats slice_num)
  unfolding get_next_slice_stat get_prev_slice_stat
  nearest_slices slice_num =
      (next_loop-IsNext slice_num (hs.items stats), prev_loop-IsPrev slice_num (hs.items stats))

  -- get_first_slice_stat and get_last_slice_stat find the least and the largest slice of the
  -- table, and none only if it is empty.
  pub extreme_slices :
      IsFirst (hs.items stats) (get_first_slice_stat hs stats)
      × IsLast (hs.items stats) (get_last_slice_stat hs stats)
  unfolding get_first_slice_stat get_last_slice_stat
  extreme_slices = (first_loop-IsFirst (hs.items stats), last_loop-IsLast (hs.items stats))
