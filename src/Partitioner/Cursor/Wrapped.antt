-- ===== src/Partitioner/Cursor/Wrapped.antt =====
-- The slice of a cursor over integer keys, and what it is where there is none.
use mathlib.Core.Bool.{false≢true}
use mpi_to_openshmem.Prelude.{
  ℕ, suc, ◌+◌, ◌%◌, ◌<◌, ◌≡◌, ◌∙◌, ap, refl, List, [], ◌∷◌, All, true, false, some, none, Option,
  ◌⊎◌, inl, inr, ltb, arith, Bool-cases,
}
use mpi_to_openshmem.Prelude.Int.{ℤ, pos, ◌≤ℤ◌, u32_mod, to_u32}
use mpi_to_openshmem.Uthash.{IntHash}
use mpi_to_openshmem.Floats.{Floats, Bytes}
use mpi_to_openshmem.Partitioner.Alphabet.{MdhimChar}
use mpi_to_openshmem.Partitioner.Keys.{ikey_of, get_slice_num, is_float_key}
use mpi_to_openshmem.Partitioner.Keys.Slice.{IsInteger}
use mpi_to_openshmem.Partitioner.Servers.{
  get_rangesrvs, get_num_range_servers, get_range_server_by_slice,
}
use mpi_to_openshmem.Partitioner.Servers.Ranks.{server_rank}
use mpi_to_openshmem.Partitioner.Servers.Listing.{reports, report}
use mpi_to_openshmem.Partitioner.Servers.Routing.{get_range_server_by_slice_lem}
use mpi_to_openshmem.Partitioner.Stats.{MdhimStat, get_next_slice_stat}
use mpi_to_openshmem.Partitioner.Stats.Nearest.{IsNext, Among, nearest_slices}
use mpi_to_openshmem.Partitioner.Cursor.{
  Mdhim, get_next, is_empty, slice_or_zero, slice_by_op, holds, as_word, get_slice_from_istat,
  get_range_server_from_stats, stat_of_key, server_of_slice, server_from_stats, from_key, key_or_op,
}

server_of_slice_0 :
    (f size : ℕ)
    → 0 < f
    → 0 < size
    → size < u32_mod
    → (master : ℤ)
    → get_range_server_by_slice
        (get_num_range_servers f (some size))
        (get_rangesrvs (reports (report f size) size 0) master).0
        (pos 0)
      ≡ some (record { rank = server_rank f size 1; rangesrv_num = 1 })
server_of_slice_0 f size some_f some_size fits master =
    let r = get_range_server_by_slice_lem f size some_f some_size fits 0 master (omega arith) in
    let first : 0 % get_num_range_servers f (some size) + 1 ≡ 1 = grind arith in rw first at r

module _ (h : IntHash MdhimChar) (fl : Floats) (hs : IntHash (MdhimStat fl.Real)) where
  -- The current slice has statistics, with a largest key above `istat`.
  abbrev pub ReachesAbove : hs.Table → ℤ → ℕ → Type 0
  ReachesAbove stats cur istat =
      holds h fl hs (hs.find (to_u32 cur) stats) (λ s. ltb istat (as_word h fl hs s.max)) ≡ true

  abbrev pub ReachesBelow : hs.Table → ℤ → ℕ → Type 0
  ReachesBelow stats cur istat =
      holds h fl hs (hs.find (to_u32 cur) stats) (λ s. ltb (as_word h fl hs s.min) istat) ≡ true

  -- What get_slice_from_istat should return for MDHIM_GET_NEXT.
  abbrev pub NextSlice : hs.Table → ℤ → ℕ → ℤ → Type 0
  NextSlice stats cur istat r =
      (ReachesAbove stats cur istat × (r ≡ cur))
      ⊎ ((ReachesAbove stats cur istat → ⊥)
          × (((next : MdhimStat fl.Real) × IsNext cur (hs.items stats) (some next) × (r ≡ next.key))
              ⊎ (IsNext cur (hs.items stats) none × (r ≡ pos 0))))

  nearest_or_zero :
      (cur : ℤ) (stats : List (MdhimStat fl.Real)) (found : Option (MdhimStat fl.Real))
      → IsNext cur stats found
      → ((next : MdhimStat fl.Real) × IsNext cur stats (some next)
          × (slice_or_zero found ≡ next.key))
        ⊎ (IsNext cur stats none × (slice_or_zero found ≡ pos 0))
  unfolding slice_or_zero
  nearest_or_zero cur stats none n = inr (n, refl)
  nearest_or_zero cur stats (some next) n = inl (next, n, refl)

  -- With statistics there, the slice for MDHIM_GET_NEXT is the current one exactly where its
  -- largest key is above the key, else the least slice above it, and slice 0 where there is none.
  pub get_slice_from_istat-NextSlice :
      (stats : hs.Table) (cur : ℤ) (istat : ℕ)
      → is_empty (hs.items stats) ≡ false
      → NextSlice stats cur istat (get_slice_from_istat h fl hs stats cur istat get_next)
  unfolding get_slice_from_istat slice_by_op
  get_slice_from_istat-NextSlice stats cur istat e =
      let above =
        holds h fl hs (hs.find (to_u32 cur) stats) (λ s. ltb istat (as_word h fl hs s.max)) in
      rw (e, get_slice_from_istat)
        (elim (Bool-cases above) [
          | inl y ↦ inl (y, rw y)
          | inr n ↦ rw n (
              inr (
                (λ y. false≢true y),
                nearest_or_zero cur (hs.items stats) (get_next_slice_stat hs stats cur)
                    (nearest_slices hs stats cur).0,
              ))
        ])

  below_among :
      (cur : ℤ) (stats : List (MdhimStat fl.Real)) (next : MdhimStat fl.Real)
      → All (λ stat. stat.key ≤ℤ cur) stats
      → Among next stats
      → next.key ≤ℤ cur
  below_among cur [] next all a = absurd a
  below_among cur (stat ∷ stats) next all (inl e) = rw e all.0
  below_among cur (stat ∷ stats) next all (inr a) = below_among cur stats next all.1 a

  past_end :
      (cur : ℤ) (stats : List (MdhimStat fl.Real)) (found : Option (MdhimStat fl.Real))
      → All (λ stat. stat.key ≤ℤ cur) stats
      → IsNext cur stats found
      → slice_or_zero found ≡ pos 0
  unfolding slice_or_zero
  past_end cur stats none all n = refl
  past_end cur stats (some next) all n = absurd (omega (arith, below_among cur stats next all n.0))

  istat_of_integer :
      (alphabet : h.Table) (p : Bytes) (key_len key_type : ℕ)
      → IsInteger key_type
      → stat_of_key h fl hs alphabet key_type p key_len ≡ some (fl.zero, ikey_of h fl p key_type)
  unfolding stat_of_key ikey_of
  istat_of_integer alphabet p key_len key_type (inl e) = rw e refl
  istat_of_integer alphabet p key_len key_type (inr e) = rw e refl

  is_float_key_integer : (key_type : ℕ) → IsInteger key_type → is_float_key key_type ≡ false
  unfolding is_float_key
  is_float_key_integer key_type (inl e) = rw e refl
  is_float_key_integer key_type (inr e) = rw e refl

  get_slice_from_istat_past_end :
      (stats : hs.Table) (cur : ℤ) (istat : ℕ)
      → is_empty (hs.items stats) ≡ false
      → All (λ stat. stat.key ≤ℤ cur) (hs.items stats)
      → ¬ ReachesAbove stats cur istat
      → get_slice_from_istat h fl hs stats cur istat get_next ≡ pos 0
  unfolding get_slice_from_istat slice_by_op
  get_slice_from_istat_past_end stats cur istat e all below =
      let above =
        holds h fl hs (hs.find (to_u32 cur) stats) (λ s. ltb istat (as_word h fl hs s.max)) in
      rw (e, get_slice_from_istat)
        (elim (Bool-cases above) [
          | inl y ↦ absurd (below y)
          | inr n ↦ rw n (
              past_end cur (hs.items stats) (get_next_slice_stat hs stats cur) all
                (nearest_slices hs stats cur).0)
        ])

  cursor_past_end :
      (md : Mdhim h.Table hs.Table) (p : Bytes) (n cur : ℕ)
      → is_empty (hs.items md.stats) ≡ false
      → IsInteger md.key_type
      → get_slice_num h fl md.alphabet md.max_recs_per_slice (some p) (suc n) md.key_type
        ≡ some (pos cur)
      → All (λ stat. stat.key ≤ℤ pos cur) (hs.items md.stats)
      → ¬ ReachesAbove md.stats (pos cur) (ikey_of h fl p md.key_type)
      → get_range_server_from_stats h fl hs md (some p) (suc n) get_next
        ≡ some (get_range_server_by_slice md.num_rangesrvs md.rangesrvs (pos 0))
  unfolding get_range_server_from_stats server_of_slice
  cursor_past_end md p n cur e t located all below =
      let istat = ikey_of h fl p md.key_type in
      rw (e, get_range_server_from_stats)
        (rw (located, key_or_op)
          (rw (istat_of_integer md.alphabet p (suc n) md.key_type t, from_key)
            (rw (is_float_key_integer md.key_type t, server_from_stats)
              (rw (get_slice_from_istat_past_end md.stats (pos cur) istat e all below) refl))))

  -- Where the processes build the list of range servers from what they report, a cursor on integer
  -- keys that asks for the key after one with no slice behind it and no larger key in its own
  -- slice gets the server number 1, of slice 0, and not NULL.
  pub get_range_server_from_stats_past_end :
      (md : Mdhim h.Table hs.Table) (p : Bytes) (n cur f size : ℕ) (master : ℤ)
      → 0 < f
      → 0 < size
      → size < u32_mod
      → md.num_rangesrvs ≡ get_num_range_servers f (some size)
      → md.rangesrvs ≡ (get_rangesrvs (reports (report f size) size 0) master).0
      → is_empty (hs.items md.stats) ≡ false
      → IsInteger md.key_type
      → get_slice_num h fl md.alphabet md.max_recs_per_slice (some p) (suc n) md.key_type
        ≡ some (pos cur)
      → All (λ stat. stat.key ≤ℤ pos cur) (hs.items md.stats)
      → ¬ ReachesAbove md.stats (pos cur) (ikey_of h fl p md.key_type)
      → get_range_server_from_stats h fl hs md (some p) (suc n) get_next
        ≡ some (some (record { rank = server_rank f size 1; rangesrv_num = 1 }))
  get_range_server_from_stats_past_end md p n cur f size master some_f some_size fits num list e t
        located all below =
      cursor_past_end md p n cur e t located all below
      ∙ (rw (num, list) (ap (λ r. some r) (server_of_slice_0 f size some_f some_size fits master)))
