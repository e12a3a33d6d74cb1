-- ===== src/RangeServer/Stats.antt =====
-- update_all_stats of mdhimMods/src/range_server.c: the statistics on the slice of a new key. That the
-- values are allocated and freed is left out: each is freed as soon as no statistics hold it.
pub mod Summary
mod Tests
use mpi_to_openshmem.Prelude.{ℕ, ◌+◌, ◌%◌, Bool, Option, none, some, ltb, ◌==◌, if◌then◌else◌}
use mpi_to_openshmem.Prelude.Int.{ℤ, to_u32, u64_mod}
use mpi_to_openshmem.Uthash.{IntHash}
use mpi_to_openshmem.Floats.{Floats, Bytes}
use mpi_to_openshmem.Partitioner.Alphabet.{MdhimChar}
use mpi_to_openshmem.Partitioner.Keys.{
  int_key, long_int_key, float_key, double_key, string_key, byte_key, u32_at, u64_at, is_float_key,
  get_str_num, get_byte_num, get_slice_num,
}
use mpi_to_openshmem.Partitioner.Stats.{StatValue, real, word, MdhimStat}
use mpi_to_openshmem.Partitioner.Cursor.{Mdhim, as_real, as_word}

module _ (h : IntHash MdhimChar) (fl : Floats) (hs : IntHash (MdhimStat fl.Real)) where
  -- val1 and val2; `none` is a crash in get_str_num, or an unknown type of key, for which they are unset.
  pub stat_value : h.Table → ℕ → Bytes → ℕ → Option (StatValue fl.Real)
  stat_value alphabet key_type p key_len =
      if key_type == string_key
      then elim (get_str_num h fl alphabet p key_len) [ none ↦ none | some x ↦ some (real x) ]
      else if key_type == float_key
      then some (real (fl.float_at p))
      else if key_type == double_key
      then some (real (fl.double_at p))
      else if key_type == int_key
      then some (word (u32_at p))
      else if key_type == long_int_key
      then some (word (u64_at p))
      else if key_type == byte_key
      then some (real (get_byte_num h fl p key_len))
      else none

  -- the first value less than the second, by the type of key
  pub less : Bool → StatValue fl.Real → StatValue fl.Real → Bool
  less float_type v w =
      if float_type
      then fl.lt (as_real h fl hs v) (as_real h fl hs w)
      else ltb (as_word h fl hs v) (as_word h fl hs w)

  -- What HASH_FIND_INT gave is the third argument. HASH_REPLACE_INT deletes and adds.
  pub put_stat : Bool → ℤ → Option (MdhimStat fl.Real) → StatValue fl.Real → hs.Table → hs.Table
  unfolding less
  put_stat float_type slice none val stats =
      hs.add (to_u32 slice) (record { key = slice; max = val; min = val; num = 1 }) stats
  put_stat float_type slice (some os) val stats =
      hs.add (to_u32 slice)
        (record {
          key = slice;
          max = if less float_type os.max val then val else os.max;
          min = if less float_type val os.min then val else os.min;
          num = (os.num + 1) % u64_mod;
        })
        (hs.del (to_u32 slice) stats)

  -- The structure with the statistics; `none` is a crash.
  unfoldable pub update_all_stats :
      Mdhim h.Table hs.Table → Bytes → ℕ → Option (Mdhim h.Table hs.Table)
  update_all_stats md p key_len = elim (stat_value md.alphabet md.key_type p key_len) [
    | none ↦ none
    | some val ↦
        elim (get_slice_num h fl md.alphabet md.max_recs_per_slice (some p) key_len md.key_type) [
          | none ↦ none
          | some slice ↦
              let os = hs.find (to_u32 slice) md.stats in
              some (record md { stats = put_stat (is_float_key md.key_type) slice os val md.stats })
        ]
  ]
