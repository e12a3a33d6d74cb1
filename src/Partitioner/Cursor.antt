-- ===== src/Partitioner/Cursor.antt =====
-- Cursor operations (mdhimMods/src/partitioner.c: get_range_server, get_slice_from_fstat,
-- get_slice_from_istat, get_range_server_from_stats): the server that holds a key, or the key next to
-- it by the statistics.
pub mod Located
pub mod Wrapped
use mpi_to_openshmem.Prelude.{
  ℕ, zero, suc, Bool, true, false, ◌&&◌, not, List, [], ◌∷◌, Option, none, some, ltb, ◌==◌,
  if◌then◌else◌,
}
use mpi_to_openshmem.Prelude.Int.{ℤ, pos, negsuc, to_u32}
use mpi_to_openshmem.Uthash.{IntHash}
use mpi_to_openshmem.Floats.{Floats, Bytes}
use mpi_to_openshmem.Partitioner.Alphabet.{MdhimChar}
use mpi_to_openshmem.Partitioner.Keys.{
  int_key, long_int_key, float_key, double_key, string_key, byte_key, u32_at, u64_at, is_float_key,
  get_str_num, get_byte_num, get_slice_num,
}
use mpi_to_openshmem.Partitioner.Servers.{RangesrvInfo, get_range_server_by_slice}
use mpi_to_openshmem.Partitioner.Stats.{
  StatValue, real, word, MdhimStat, get_next_slice_stat, get_prev_slice_stat, get_last_slice_stat,
  get_first_slice_stat,
}

-- messages.h: what is asked of a cursor
abbrev pub get_next : ℕ
get_next = 1

abbrev pub get_prev : ℕ
get_prev = 2

abbrev pub get_first : ℕ
get_first = 3

abbrev pub get_last : ℕ
get_last = 4

-- the parts of struct mdhim_t and the globals of partitioner.c that are read here
pub record Mdhim (Alphabet Stats : Type 0) : Type 0 where
  pub key_type : ℕ
  pub num_rangesrvs : ℕ
  pub rangesrvs : List RangesrvInfo
  pub stats : Stats
  pub alphabet : Alphabet
  pub max_recs_per_slice : ℕ

-- the label new_stat: the slice of the structure that was found, or 0
pub slice_or_zero : {R : Type 0} → Option (MdhimStat R) → ℤ
slice_or_zero none = pos 0
slice_or_zero (some stat) = stat.key

-- `if (!md->stats)`: uthash's table is NULL when it holds nothing.
unfoldable pub is_empty : {A : Type 0} → List A → Bool
is_empty [] = true
is_empty (x ∷ xs) = false

-- The switch of get_slice_from_fstat and get_slice_from_istat, with their two tests of the structure
-- for the current slice.
pub slice_by_op : {R : Type 0} (hs : IntHash (MdhimStat R)) → hs.Table → ℤ → ℕ → Bool → Bool → ℤ
slice_by_op hs stats cur_slice op max_above min_below =
    if op == get_next
    then (if max_above then cur_slice else slice_or_zero (get_next_slice_stat hs stats cur_slice))
    else if op == get_prev
    then (if min_below then cur_slice else slice_or_zero (get_prev_slice_stat hs stats cur_slice))
    else if op == get_first
    then slice_or_zero (get_first_slice_stat hs stats)
    else if op == get_last
    then slice_or_zero (get_last_slice_stat hs stats)
    else pos 0

module _ (h : IntHash MdhimChar) (fl : Floats) (hs : IntHash (MdhimStat fl.Real)) where
  -- *(long double *) p and *(uint64_t *) p
  pub as_real : StatValue fl.Real → fl.Real
  as_real (real x) = x
  as_real (word n) = fl.of_bits n

  unfoldable pub as_word : StatValue fl.Real → ℕ
  as_word (real x) = fl.to_bits x
  as_word (word n) = n

  -- cur_stat && a test of it
  unfoldable pub holds : Option (MdhimStat fl.Real) → (MdhimStat fl.Real → Bool) → Bool
  holds none test = false
  holds (some stat) test = test stat

  pub get_slice_from_fstat : hs.Table → ℤ → fl.Real → ℕ → ℤ
  unfolding as_real
  get_slice_from_fstat stats cur_slice fstat op =
      let cur_stat = hs.find (to_u32 cur_slice) stats in
      if is_empty (hs.items stats)
      then pos 0
      else slice_by_op hs stats cur_slice op (holds cur_stat (λ s. fl.lt fstat (as_real s.max)))
          (holds cur_stat (λ s. fl.lt (as_real s.min) fstat))

  pub get_slice_from_istat : hs.Table → ℤ → ℕ → ℕ → ℤ
  get_slice_from_istat stats cur_slice istat op =
      let cur_stat = hs.find (to_u32 cur_slice) stats in
      if is_empty (hs.items stats)
      then pos 0
      else slice_by_op hs stats cur_slice op (holds cur_stat (λ s. ltb istat (as_word s.max)))
          (holds cur_stat (λ s. ltb (as_word s.min) istat))

  -- fstat and istat for a key; `none` is a crash in get_str_num.
  stat_of_key : h.Table → ℕ → Bytes → ℕ → Option (fl.Real × ℕ)
  stat_of_key alphabet key_type p key_len =
      if key_type == string_key
      then elim (get_str_num h fl alphabet p key_len) [ none ↦ none | some fstat ↦ some (fstat, 0) ]
      else if key_type == float_key
      then some (fl.float_at p, 0)
      else if key_type == double_key
      then some (fl.double_at p, 0)
      else if key_type == int_key
      then some (fl.zero, u32_at p)
      else if key_type == long_int_key
      then some (fl.zero, u64_at p)
      else if key_type == byte_key
      then some (get_byte_num h fl p key_len, 0)
      else some (fl.zero, 0)

  -- NULL is the inner `none`; the outer one is a crash.
  abbrev pub Server : Type 0
  Server = Option (Option RangesrvInfo)

  unfoldable pub server_of_slice : Mdhim h.Table hs.Table → ℤ → Option RangesrvInfo
  server_of_slice md (negsuc zero) = none
  server_of_slice md slice = get_range_server_by_slice md.num_rangesrvs md.rangesrvs slice

  unfoldable pub get_range_server : Mdhim h.Table hs.Table → Option Bytes → ℕ → Server
  get_range_server md key key_len =
      elim (get_slice_num h fl md.alphabet md.max_recs_per_slice key key_len md.key_type) [
        | none ↦ none
        | some slice ↦ some (server_of_slice md slice)
      ]

  server_from_stats : Mdhim h.Table hs.Table → ℤ → fl.Real → ℕ → ℕ → Option RangesrvInfo
  server_from_stats md cur_slice fstat istat op = server_of_slice md (
      if is_float_key md.key_type
      then get_slice_from_fstat md.stats cur_slice fstat op
      else get_slice_from_istat md.stats cur_slice istat op)

  -- The body for a key that is there: its slice, or NULL if it has none, then the statistics.
  from_key : Mdhim h.Table hs.Table → Bytes → ℕ → ℕ → ℤ → Server
  unfolding stat_of_key server_from_stats
  from_key md p key_len op (negsuc zero) = some none
  from_key md p key_len op cur_slice = elim (stat_of_key md.alphabet md.key_type p key_len) [
    | none ↦ none
    | some (fstat, istat) ↦ some (server_from_stats md cur_slice fstat istat op)
  ]

  -- the body where `key && key_len` is false
  from_op : Mdhim h.Table hs.Table → ℕ → Server
  unfolding server_from_stats
  from_op md op =
      if not (op == get_first) && not (op == get_last)
      then some none
      else some (server_from_stats md (pos 0) fl.zero 0 op)

  key_or_op : Mdhim h.Table hs.Table → Option Bytes → ℕ → ℕ → Server
  unfolding from_key from_op
  key_or_op md none key_len op = from_op md op
  key_or_op md (some p) zero op = from_op md op
  key_or_op md (some p) (suc n) op =
      elim (get_slice_num h fl md.alphabet md.max_recs_per_slice (some p) (suc n) md.key_type) [
        | none ↦ none
        | some cur_slice ↦ from_key md p (suc n) op cur_slice
      ]

  pub get_range_server_from_stats : Mdhim h.Table hs.Table → Option Bytes → ℕ → ℕ → Server
  unfolding key_or_op
  get_range_server_from_stats md key key_len op =
      if is_empty (hs.items md.stats) then some none else key_or_op md key key_len op
