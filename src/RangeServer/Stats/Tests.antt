-- ===== src/RangeServer/Stats/Tests.antt =====
-- The key 25 comes in where 21 has been in its slice of ten, and 1 in another.
use mpi_to_openshmem.Prelude.{
  ℕ, ◌≡◌, refl, List, [], ◌∷◌, some, inl, inr, Bool-cases, ◌==◌, if◌then◌else◌,
}
use mpi_to_openshmem.Prelude.Int.{pos}
use mpi_to_openshmem.Uthash.{IntHash}
use mpi_to_openshmem.Uthash.Assoc.{assoc}
use mpi_to_openshmem.Floats.{Bytes}
use mpi_to_openshmem.Floats.Whole.{whole}
use mpi_to_openshmem.Partitioner.Alphabet.{MdhimChar}
use mpi_to_openshmem.Partitioner.Keys.{int_key, u32_at, get_slice_num}
use mpi_to_openshmem.Partitioner.Stats.{MdhimStat, word}
use mpi_to_openshmem.Partitioner.Cursor.{Mdhim}
use mpi_to_openshmem.RangeServer.Stats.{update_all_stats}
use mpi_to_openshmem.RangeServer.Stats.Summary.{
  Summarised, in_slice, summary, greatest, least, update_all_stats-Summarised,
}

abbrev chars : IntHash MdhimChar
chars = assoc MdhimChar

abbrev stats : IntHash (MdhimStat ℕ)
stats = assoc (MdhimStat ℕ)

abbrev key_25 : Bytes
key_25 i = if i == 0 then 25 else 0

abbrev one_stat : List (ℕ × MdhimStat ℕ)
one_stat = (2, record { key = pos 2; max = word 21; min = word 21; num = 1 }) ∷ []

abbrev server : Mdhim (List (ℕ × MdhimChar)) (List (ℕ × MdhimStat ℕ))
server = record {
  key_type = int_key;
  num_rangesrvs = 1;
  rangesrvs = [];
  stats = one_stat;
  alphabet = [];
  max_recs_per_slice = 10;
}

one_summary : Summarised chars whole stats one_stat ((pos 2, 21) ∷ [])
unfolding in_slice summary greatest least
one_summary j = elim (Bool-cases (2 == j)) [ inl here ↦ rw here refl | inr apart ↦ rw apart refl ]

slice_2 : get_slice_num chars whole [] 10 (some key_25) 4 int_key ≡ some (pos 2)
unfolding get_slice_num
slice_2 = refl

update_all_stats-Summarised_example :
    (md' : Mdhim (List (ℕ × MdhimChar)) (List (ℕ × MdhimStat ℕ))) × (update_all_stats chars whole
        stats server key_25 4
      ≡ some md')
    × Summarised chars whole stats md'.stats ((pos 2, u32_at key_25) ∷ (pos 2, 21) ∷ [])
update_all_stats-Summarised_example =
    update_all_stats-Summarised chars whole stats server key_25 4 (pos 2) ((pos 2, 21) ∷ [])
      (inl refl) slice_2 one_summary
