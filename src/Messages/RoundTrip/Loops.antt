-- ===== src/Messages/RoundTrip/Loops.antt =====
-- The records of a bulk message: their size, and the loops that unpack them.
use mpi_to_openshmem.Prelude.{
  ℕ, ◌+◌, ◌*◌, ◌<◌, ◌≡◌, refl, List, [], ◌∷◌, ◌++◌, true, false, leb, ◌==◌, length, Bool-cases, inl,
  inr, arith,
}
use mpi_to_openshmem.Floats.{Bytes}
use mpi_to_openshmem.Mpi.Datatypes.{i32_mod}
use mpi_to_openshmem.Messages.Types.{Data, Pair}
use mpi_to_openshmem.Messages.Packing.{
  ok, MpiCalls, Packs, Chunk, data_chunk, data_chunks_if, int_chunk,
}
use mpi_to_openshmem.Messages.Packing.Holds.{total_bytes, Same, after, chars_bytes, int_one, Ahead}
use mpi_to_openshmem.Messages.Packing.Lengthed.{get_lengthed-Ahead, get_lengthed_if-Ahead}
use mpi_to_openshmem.Messages.Pack.{
  sum_lens, sum_pairs, int_sums, key_chunks, pair_chunks, found_chunks,
}
use mpi_to_openshmem.Messages.Unpack.{get_keys, get_pairs, get_found}

abbrev pub SamePair : Pair → Pair → Type 0
SamePair p q = Same p.key q.key × Same p.value q.value

abbrev pub SameKeys : List Data → List Data → Type 0
SameKeys [] es = es ≡ []
SameKeys (d ∷ ds) [] = ⊥
SameKeys (d ∷ ds) (e ∷ es) = Same d e × SameKeys ds es

abbrev pub SamePairs : List Pair → List Pair → Type 0
SamePairs [] qs = qs ≡ []
SamePairs (p ∷ ps) [] = ⊥
SamePairs (p ∷ ps) (q ∷ qs) = SamePair p q × SamePairs ps qs

pub total-key_chunks :
    (rest : Bytes) (ds : List Data) → total_bytes (key_chunks rest ds) ≡ length ds * 4 + sum_lens ds
unfolding key_chunks total_bytes sum_lens
total-key_chunks rest [] = refl
total-key_chunks rest (d ∷ ds) =
    let whole = chars_bytes d.len in
    let four = int_one in let more = total-key_chunks rest ds in omega arith

pub total-pair_chunks :
    (rest : Bytes) (ps : List Pair)
    → total_bytes (pair_chunks rest ps) ≡ 2 * length ps * 4 + sum_pairs ps
unfolding pair_chunks total_bytes sum_pairs
total-pair_chunks rest [] = refl
total-pair_chunks rest (p ∷ ps) =
    let key = chars_bytes p.key.len in
    let value = chars_bytes p.value.len in
    let four = int_one in let more = total-pair_chunks rest ps in omega arith

pub total-data_chunks_if :
    (d : Data) (cs : List Chunk) → total_bytes (data_chunks_if d ++ cs) ≡ d.len + total_bytes cs
unfolding total_bytes
total-data_chunks_if d cs = elim (Bool-cases (d.len == 0)) [
  | inl nothing ↦ rw nothing (grind arith)
  | inr some_there ↦ let whole = chars_bytes d.len in rw some_there (omega arith)
]

pub total-found_chunks :
    (rest : Bytes) (ps : List Pair)
    → total_bytes (found_chunks rest ps) ≡ 2 * length ps * 4 + sum_pairs ps
unfolding found_chunks total_bytes sum_pairs
total-found_chunks rest [] = refl
total-found_chunks rest (p ∷ ps) =
    let four = int_one in
    let more = total-found_chunks rest ps in
    let values = total-data_chunks_if p.value (found_chunks rest ps) in
    let keys =
      total-data_chunks_if p.key
        (int_chunk p.value.len rest ∷ (data_chunks_if p.value ++ found_chunks rest ps)) in
    omega arith

-- Within the largest size the sums of two lengths are ints.
pub sums_fit : (ps : List Pair) → sum_pairs ps < i32_mod → int_sums ps ≡ true
unfolding sum_pairs int_sums
sums_fit [] below = refl
sums_fit (p ∷ ps) below =
    let this : leb i32_mod (p.key.len + p.value.len) ≡ false = grind arith in
    rw this (sums_fit ps (omega arith))

module _ (mpi : MpiCalls) (packs : Packs mpi) (size : ℕ) (small : size < i32_mod) (b : mpi.Buffer)
    (raw rest : Bytes) where
  abbrev AheadAt : List Chunk → ℕ → Type 0
  AheadAt cs n = Ahead mpi packs size small b cs n

  pub get_keys-Same :
      (ds : List Data) (n : ℕ)
      → AheadAt (key_chunks rest ds) n
      → (ds' : List Data) × (n' : ℕ) × (get_keys mpi raw b size (length ds) (after n)
          ≡ ok (ds', after n'))
        × SameKeys ds' ds
  unfolding get_keys key_chunks
  get_keys-Same [] n ahead = ([], n, refl, refl)
  get_keys-Same (d ∷ ds) n ahead =
      let (d', n1, e1, same, ahead1) =
        get_lengthed-Ahead mpi packs size small b d rest (key_chunks rest ds) n raw ahead in
      let (ds', n2, e2, sames) = get_keys-Same ds n1 ahead1 in
      (d' ∷ ds', n2, rw e1 (rw e2 refl), (same, sames))

  pub get_pairs-Same :
      (ps : List Pair) (n : ℕ)
      → AheadAt (pair_chunks rest ps) n
      → (ps' : List Pair) × (n' : ℕ) × (get_pairs mpi raw b size (length ps) (after n)
          ≡ ok (ps', after n'))
        × SamePairs ps' ps
  unfolding get_pairs pair_chunks
  get_pairs-Same [] n ahead = ([], n, refl, refl)
  get_pairs-Same (p ∷ ps) n ahead =
      let tail = pair_chunks rest ps in
      let (key, n1, e1, same, ahead1) =
        get_lengthed-Ahead mpi packs size small b p.key rest
          (int_chunk p.value.len rest ∷ data_chunk p.value ∷ tail) n raw ahead in
      let (value, n2, e2, same', ahead2) =
        get_lengthed-Ahead mpi packs size small b p.value rest tail n1 raw ahead1 in
      let (ps', n3, e3, sames) = get_pairs-Same ps n2 ahead2 in
      (
        record { key = key; value = value } ∷ ps',
        n3,
        rw e1 (rw e2 (rw e3 refl)),
        ((same, same'), sames),
      )

  pub get_found-Same :
      (ps : List Pair) (n : ℕ)
      → sum_pairs ps < i32_mod
      → AheadAt (found_chunks rest ps) n
      → (ps' : List Pair) × (n' : ℕ) × (get_found mpi raw b size (length ps) (after n)
          ≡ ok (ps', after n'))
        × SamePairs ps' ps
  unfolding get_found found_chunks sum_pairs
  get_found-Same [] n bound ahead = ([], n, refl, refl)
  get_found-Same (p ∷ ps) n bound ahead =
      let tail = found_chunks rest ps in
      let (key, n1, e1, same, ahead1) =
        get_lengthed_if-Ahead mpi packs size small b p.key rest
          (int_chunk p.value.len rest ∷ (data_chunks_if p.value ++ tail)) n raw (omega arith)
          ahead in
      let (value, n2, e2, same', ahead2) =
        get_lengthed_if-Ahead mpi packs size small b p.value rest tail n1 raw (omega arith)
          ahead1 in
      let (ps', n3, e3, sames) = get_found-Same ps n2 (omega arith) ahead2 in
      (
        record { key = key; value = value } ∷ ps',
        n3,
        rw e1 (rw e2 (rw e3 refl)),
        ((same, same'), sames),
      )
