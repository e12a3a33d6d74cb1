-- ===== src/RangeServer/Stats/Summary.antt =====
-- The statistics of integer keys are a summary of all keys that came in.
use mathlib.Core.Path.{subst}
use mpi_to_openshmem.Prelude.{
  ℕ, ◌%◌, ◌≡◌, ◌∙◌, sym, ap, refl, List, [], ◌∷◌, Bool, true, false, Option, none, some, ltb, ◌==◌,
  length, if◌then◌else◌, Bool-cases, ◌⊎◌, inl, inr, arith,
}
use mpi_to_openshmem.Prelude.Int.{ℤ, to_u32, u64_mod}
use mpi_to_openshmem.Uthash.{IntHash}
use mpi_to_openshmem.Floats.{Floats, Bytes}
use mpi_to_openshmem.Partitioner.Alphabet.{MdhimChar}
use mpi_to_openshmem.Partitioner.Keys.{
  int_key, long_int_key, u32_at, u64_at, is_float_key, get_slice_num,
}
use mpi_to_openshmem.Partitioner.Stats.{StatValue, word, MdhimStat}
use mpi_to_openshmem.Partitioner.Cursor.{Mdhim, as_word}
use mpi_to_openshmem.RangeServer.Stats.{stat_value, less, put_stat, update_all_stats}

-- The keys that came in, the newest first, each with its slice.
abbrev pub Log : Type 0
Log = List (ℤ × ℕ)

unfoldable pub in_slice : ℕ → Log → Log
in_slice j [] = []
in_slice j ((s, k) ∷ log) =
    let rest = in_slice j log in if to_u32 s == j then (s, k) ∷ rest else rest

unfoldable pub least : ℕ → Log → ℕ
least k [] = k
least k ((s, x) ∷ log) = let l = least x log in if ltb k l then k else l

unfoldable pub greatest : ℕ → Log → ℕ
greatest k [] = k
greatest k ((s, x) ∷ log) = let g = greatest x log in if ltb g k then k else g

-- The summary of the keys of one slice: the least, the greatest and how many.
unfoldable pub summary : {R : Type 0} → Log → Option (MdhimStat R)
summary [] = none
summary ((s, k) ∷ log) = some (record {
  key = s;
  max = word (greatest k log);
  min = word (least k log);
  num = length ((s, k) ∷ log) % u64_mod;
})

module _ (h : IntHash MdhimChar) (fl : Floats) (hs : IntHash (MdhimStat fl.Real)) where
  abbrev pub Summarised : hs.Table → Log → Type 0
  Summarised stats log = (j : ℕ) → hs.find j stats ≡ summary (in_slice j log)

  newer : ℤ → ℕ → Log → MdhimStat fl.Real
  newer s k log = record {
    key = s;
    max = word (greatest k log);
    min = word (least k log);
    num = length ((s, k) ∷ log) % u64_mod;
  }

  found_added :
      (s : ℤ) (k : ℕ) (log : Log) (t : hs.Table)
      → ((j : ℕ) → (to_u32 s == j) ≡ false → hs.find j t ≡ summary (in_slice j log))
      → hs.find (to_u32 s) t ≡ none
      → Summarised (hs.add (to_u32 s) (newer s k (in_slice (to_u32 s) log)) t) ((s, k) ∷ log)
  unfolding in_slice summary newer
  found_added s k log t others gone j =
      let u = to_u32 s in
      let v = newer s k (in_slice u log) in
      hs.find-add u v t j gone ∙ (elim (Bool-cases (u == j)) [
        | inl here ↦
            let same : u ≡ j = ground (arith, here) in
            rw here (ap (λ i. some (newer s k (in_slice i log))) same)
        | inr apart ↦ rw apart (others j apart)
      ])

  if-word :
      (b : Bool) (x y : ℕ)
      → Path (StatValue fl.Real) (if b then word x else word y) (word (if b then x else y))
  if-word true x y = refl
  if-word false x y = refl

  stat_eq :
      {s : ℤ} {v v' w w' : StatValue fl.Real} {n n' : ℕ}
      → v ≡ v'
      → w ≡ w'
      → n ≡ n'
      → Path
          (MdhimStat fl.Real)
          (record { key = s; max = v; min = w; num = n })
          (record { key = s; max = v'; min = w'; num = n' })
  stat_eq e f g = cc

  -- What put_stat adds, and to which table.
  put_stat_lem :
      (s : ℤ) (k : ℕ) (stats : hs.Table) (es : Log)
      → hs.find (to_u32 s) stats ≡ summary es
      → (t : hs.Table) × (put_stat h fl hs false s (hs.find (to_u32 s) stats) (word k) stats
          ≡ hs.add (to_u32 s) (newer s k es) t)
        × (hs.find (to_u32 s) t ≡ none)
        × ((j : ℕ) → (to_u32 s == j) ≡ false → hs.find j t ≡ hs.find j stats)
  unfolding put_stat less as_word summary newer greatest least
  put_stat_lem s k stats [] e = (stats, rw e refl, e, λ j b. refl)
  put_stat_lem s k stats ((s', x) ∷ es) e =
      let u = to_u32 s in
      (
        hs.del u stats,
        rw e (
            ap (λ v. hs.add u v (hs.del u stats))
              (stat_eq (if-word (ltb (greatest x es) k) k (greatest x es))
                (if-word (ltb k (least x es)) k (least x es)) (omega arith))),
        hs.find-del u stats u ∙ ground arith,
        λ j b. hs.find-del u stats j ∙ rw b refl,
      )

  put_stat-Summarised :
      (s : ℤ) (k : ℕ) (stats : hs.Table) (log : Log)
      → Summarised stats log
      → Summarised
          (put_stat h fl hs false s (hs.find (to_u32 s) stats) (word k) stats)
          ((s, k) ∷ log)
  put_stat-Summarised s k stats log inv =
      let (t, e, gone, others) =
        put_stat_lem s k stats (in_slice (to_u32 s) log) (inv (to_u32 s)) in
      subst (λ t'. Summarised t' ((s, k) ∷ log)) (sym e)
        (found_added s k log t (λ j apart. others j apart ∙ inv j) gone)

  stat_value_integer :
      (alphabet : h.Table) (key_type : ℕ) (p : Bytes) (key_len : ℕ)
      → (key_type ≡ int_key) ⊎ (key_type ≡ long_int_key)
      → (stat_value h fl hs alphabet key_type p key_len
          ≡ some (word (if key_type == int_key then u32_at p else u64_at p)))
        × (is_float_key key_type ≡ false)
  unfolding stat_value is_float_key
  stat_value_integer alphabet key_type p key_len (inl e) = rw e (refl, refl)
  stat_value_integer alphabet key_type p key_len (inr e) = rw e (refl, refl)

  -- For a type of integer keys and a key with a slice, update_all_stats keeps the statistics a
  -- summary of all keys: for each slice that had a key the least, the greatest and the number of
  -- its keys modulo 2^64, and nothing for another.
  pub update_all_stats-Summarised :
      (md : Mdhim h.Table hs.Table) (p : Bytes) (key_len : ℕ) (s : ℤ) (log : Log)
      → (md.key_type ≡ int_key) ⊎ (md.key_type ≡ long_int_key)
      → get_slice_num h fl md.alphabet md.max_recs_per_slice (some p) key_len md.key_type ≡ some s
      → Summarised md.stats log
      → (md' : Mdhim h.Table hs.Table) × (update_all_stats h fl hs md p key_len ≡ some md')
        × Summarised md'.stats ((s, if md.key_type == int_key then u32_at p else u64_at p) ∷ log)
  unfolding update_all_stats
  update_all_stats-Summarised md p key_len s log integer slice inv =
      let k = if md.key_type == int_key then u32_at p else u64_at p in
      let (e, f) = stat_value_integer md.alphabet md.key_type p key_len integer in
      let os = hs.find (to_u32 s) md.stats in
      (
        record md { stats = put_stat h fl hs false s os (word k) md.stats },
        rw (e, slice, f, update_all_stats) refl,
        put_stat-Summarised s k md.stats log inv,
      )
