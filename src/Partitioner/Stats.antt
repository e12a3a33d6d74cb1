-- ===== src/Partitioner/Stats.antt =====
-- Statistics on slices (mdhimMods/src/partitioner.c: get_next_slice_stat to
-- get_first_slice_stat): of the slices with statistics, the next, previous, last and first. They are a hash table from slice numbers; a loop visits its structures in turn.
pub mod Nearest
use mpi_to_openshmem.Prelude.{ℕ, List, [], ◌∷◌, Option, none, some, if◌then◌else◌}
use mpi_to_openshmem.Prelude.Int.{ℤ, ltb_ℤ}
use mpi_to_openshmem.Uthash.{IntHash}

-- What `max` and `min` of a structure point to: a long double or a uint64_t, by the type of key.
pub data StatValue (R : Type 0) : Type 0 where
  real : R → StatValue R
  word : ℕ → StatValue R

-- struct mdhim_stat (data_store.h)
pub record MdhimStat (R : Type 0) : Type 0 where
  pub key : ℤ
  pub max : StatValue R
  pub min : StatValue R
  pub num : ℕ

module _ {R : Type 0} where
  -- one round of the loop of get_next_slice_stat
  pub better_next : ℤ → Option (MdhimStat R) → MdhimStat R → Option (MdhimStat R)
  better_next slice_num none stat = if ltb_ℤ slice_num stat.key then some stat else none
  better_next slice_num (some next) stat =
      if ltb_ℤ slice_num stat.key
      then (if ltb_ℤ stat.key next.key then some stat else some next)
      else some next

  pub next_loop : ℤ → List (MdhimStat R) → Option (MdhimStat R) → Option (MdhimStat R)
  next_loop slice_num [] next = next
  next_loop slice_num (stat ∷ stats) next =
      next_loop slice_num stats (better_next slice_num next stat)

  -- one round of the loop of get_prev_slice_stat
  pub better_prev : ℤ → Option (MdhimStat R) → MdhimStat R → Option (MdhimStat R)
  better_prev slice_num none stat = if ltb_ℤ stat.key slice_num then some stat else none
  better_prev slice_num (some prev) stat =
      if ltb_ℤ stat.key slice_num
      then (if ltb_ℤ prev.key stat.key then some stat else some prev)
      else some prev

  pub prev_loop : ℤ → List (MdhimStat R) → Option (MdhimStat R) → Option (MdhimStat R)
  prev_loop slice_num [] prev = prev
  prev_loop slice_num (stat ∷ stats) prev =
      prev_loop slice_num stats (better_prev slice_num prev stat)

  better_last : Option (MdhimStat R) → MdhimStat R → Option (MdhimStat R)
  better_last none stat = some stat
  better_last (some last) stat = if ltb_ℤ last.key stat.key then some stat else some last

  pub last_loop : List (MdhimStat R) → Option (MdhimStat R) → Option (MdhimStat R)
  last_loop [] last = last
  last_loop (stat ∷ stats) last = last_loop stats (better_last last stat)

  better_first : Option (MdhimStat R) → MdhimStat R → Option (MdhimStat R)
  better_first none stat = some stat
  better_first (some first) stat = if ltb_ℤ stat.key first.key then some stat else some first

  pub first_loop : List (MdhimStat R) → Option (MdhimStat R) → Option (MdhimStat R)
  first_loop [] first = first
  first_loop (stat ∷ stats) first = first_loop stats (better_first first stat)

module _ {R : Type 0} (hs : IntHash (MdhimStat R)) where
  open hs use {Table, items}

  pub get_next_slice_stat : Table → ℤ → Option (MdhimStat R)
  get_next_slice_stat stats slice_num = next_loop slice_num (items stats) none

  pub get_prev_slice_stat : Table → ℤ → Option (MdhimStat R)
  get_prev_slice_stat stats slice_num = prev_loop slice_num (items stats) none

  pub get_last_slice_stat : Table → Option (MdhimStat R)
  unfolding better_last
  get_last_slice_stat stats = last_loop (items stats) none

  pub get_first_slice_stat : Table → Option (MdhimStat R)
  unfolding better_first
  get_first_slice_stat stats = first_loop (items stats) none
