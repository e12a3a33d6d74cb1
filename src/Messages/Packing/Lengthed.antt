-- ===== src/Messages/Packing/Lengthed.antt =====
-- Keys and values with their lengths, where they are next in a buffer.
use mpi_to_openshmem.Prelude.{
  ℕ, ◌+◌, ◌≤◌, ◌<◌, ◌≡◌, ◌∙◌, sym, ap, refl, List, ◌∷◌, ◌++◌, false, leb, ◌==◌, Bool-cases, inl,
  inr, arith,
}
use mpi_to_openshmem.Floats.{Bytes}
use mpi_to_openshmem.Mpi.Datatypes.{mpi_int, i32_mod}
use mpi_to_openshmem.Messages.Types.{Data}
use mpi_to_openshmem.Messages.Struct.{int_field, int_bytes_lem, u32_at_ext}
use mpi_to_openshmem.Messages.Packing.{
  ok, MpiCalls, Packs, Chunk, data_chunk, data_chunks_if, int_chunk, get_bytes, malloc, get_data,
  get_data_if, get_lengthed, get_lengthed_if,
}
use mpi_to_openshmem.Messages.Packing.Holds.{
  chunk_bytes, total_bytes, Same, after, chars_bytes, int_one, Ahead, get_bytes-Ahead,
}

module _ (mpi : MpiCalls) (packs : Packs mpi) (size : ℕ) (small : size < i32_mod) where
  abbrev Left : mpi.Buffer → List Chunk → ℕ → Type 0
  Left b cs n = Ahead mpi packs size small b cs n

  fits_int :
      (c : Chunk) (cs : List Chunk) (n : ℕ)
      → n + total_bytes (c ∷ cs) ≤ size
      → chunk_bytes c < i32_mod
  unfolding total_bytes
  fits_int c cs n fits = omega arith

  fits_data :
      (c : Chunk) (d : Data) (cs : List Chunk) (n : ℕ)
      → n + total_bytes (c ∷ data_chunk d ∷ cs) ≤ size
      → d.len < i32_mod
  unfolding total_bytes
  fits_data c d cs n fits = let whole = chars_bytes d.len in omega arith

  pub get_data-Ahead :
      (b : mpi.Buffer) (d : Data) (cs : List Chunk) (n : ℕ) (raw : Bytes)
      → Left b (data_chunk d ∷ cs) n
      → (d' : Data) × (get_data mpi b size raw d.len (after n)
          ≡ ok (d', after (n + chunk_bytes (data_chunk d))))
        × Same d' d
        × Left b cs (n + chunk_bytes (data_chunk d))
  unfolding get_data malloc
  get_data-Ahead b d cs n raw ahead =
      let (out, e, got, rest) =
        get_bytes-Ahead mpi packs size small b (data_chunk d) cs n raw ahead in
      let whole = chars_bytes d.len in
      let room = fits_int (data_chunk d) cs n ahead.1 in
      let small_len : leb i32_mod d.len ≡ false = grind arith in
      (
        record { bytes = out; len = d.len },
        rw small_len (rw e refl),
        (refl, λ k below. got k (omega arith)),
        rest,
      )

  pub get_data_if-Ahead :
      (b : mpi.Buffer) (d : Data) (cs : List Chunk) (n : ℕ) (raw : Bytes)
      → Left b (data_chunks_if d ++ cs) n
      → (d' : Data) × (n' : ℕ) × (get_data_if mpi b size raw d.len (after n) ≡ ok (d', after n'))
        × Same d' d
        × Left b cs n'
  unfolding get_data_if
  get_data_if-Ahead b d cs n raw ahead = elim (Bool-cases (d.len == 0)) [
    | inl nothing ↦
        let none_there : d.len ≡ 0 = grind arith in
        (
          record { bytes = raw; len = 0 },
          n,
          rw nothing refl,
          (sym none_there, λ k below. absurd (omega arith)),
          rw nothing at ahead,
        )
    | inr some_there ↦
        let (d', e, same, rest) = get_data-Ahead b d cs n raw (rw some_there at ahead) in
        (d', n + chunk_bytes (data_chunk d), rw some_there e, same, rest)
  ]

  -- The int that is unpacked is the length.
  get_int-Ahead :
      (b : mpi.Buffer) (v : ℕ) (rest : Bytes) (cs : List Chunk) (n : ℕ) (raw : Bytes)
      → v < i32_mod
      → Left b (int_chunk v rest ∷ cs) n
      → (out : Bytes) × (get_bytes mpi b size (after n) raw 1 mpi_int ≡ ok (out, after (n + 4)))
        × (int_field out 0 ≡ v)
        × Left b cs (n + 4)
  unfolding int_field
  get_int-Ahead b v rest cs n raw bound ahead =
      let (out, e, got, ahead') =
        get_bytes-Ahead mpi packs size small b (int_chunk v rest) cs n raw ahead in
      let four = int_one in
      (
        out,
        rw four at e,
        u32_at_ext out (int_chunk v rest).from (λ k below. got k (omega arith))
            ∙ int_bytes_lem v (omega arith),
        rw four at ahead',
      )

  pub get_lengthed-Ahead :
      (b : mpi.Buffer) (d : Data) (rest : Bytes) (cs : List Chunk) (n : ℕ) (raw : Bytes)
      → Left b (int_chunk d.len rest ∷ data_chunk d ∷ cs) n
      → (d' : Data) × (n' : ℕ) × (get_lengthed mpi b size raw (after n) ≡ ok (d', after n'))
        × Same d' d
        × Left b cs n'
  unfolding get_lengthed
  get_lengthed-Ahead b d rest cs n raw ahead =
      let whole = chars_bytes d.len in
      let bound = fits_data (int_chunk d.len rest) d cs n ahead.1 in
      let (out, e, len, ahead1) =
        get_int-Ahead b d.len rest (data_chunk d ∷ cs) n raw bound ahead in
      let (d', e', same, ahead2) = get_data-Ahead b d cs (n + 4) raw ahead1 in
      (d', n + 4 + chunk_bytes (data_chunk d), rw e (rw len e'), same, ahead2)

  pub get_lengthed_if-Ahead :
      (b : mpi.Buffer) (d : Data) (rest : Bytes) (cs : List Chunk) (n : ℕ) (raw : Bytes)
      → d.len < i32_mod
      → Left b (int_chunk d.len rest ∷ (data_chunks_if d ++ cs)) n
      → (d' : Data) × (n' : ℕ) × (get_lengthed_if mpi b size raw (after n) ≡ ok (d', after n'))
        × Same d' d
        × Left b cs n'
  unfolding get_lengthed_if
  get_lengthed_if-Ahead b d rest cs n raw bound ahead =
      let (out, e, len, ahead1) =
        get_int-Ahead b d.len rest (data_chunks_if d ++ cs) n raw bound ahead in
      let (d', n', e', same, ahead2) = get_data_if-Ahead b d cs (n + 4) raw ahead1 in
      (d', n', rw e (rw len e'), same, ahead2)

  -- The same where the length is one that came before.
  pub get_data-len :
      (b : mpi.Buffer) (d : Data) (cs : List Chunk) (n : ℕ) (raw : Bytes) (len : ℕ)
      → len ≡ d.len
      → Left b (data_chunk d ∷ cs) n
      → (d' : Data) × (n' : ℕ) × (get_data mpi b size raw len (after n) ≡ ok (d', after n'))
        × Same d' d
        × Left b cs n'
  get_data-len b d cs n raw len e ahead =
      let (d', e', same, ahead') = get_data-Ahead b d cs n raw ahead in
      (
        d',
        n + chunk_bytes (data_chunk d),
        ap (λ l. get_data mpi b size raw l (after n)) e ∙ e',
        same,
        ahead',
      )

  pub get_data_if-len :
      (b : mpi.Buffer) (d : Data) (cs : List Chunk) (n : ℕ) (raw : Bytes) (len : ℕ)
      → len ≡ d.len
      → Left b (data_chunks_if d ++ cs) n
      → (d' : Data) × (n' : ℕ) × (get_data_if mpi b size raw len (after n) ≡ ok (d', after n'))
        × Same d' d
        × Left b cs n'
  get_data_if-len b d cs n raw len e ahead =
      let (d', n', e', same, ahead') = get_data_if-Ahead b d cs n raw ahead in
      (d', n', ap (λ l. get_data_if mpi b size raw l (after n)) e ∙ e', same, ahead')
