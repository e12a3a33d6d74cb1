-- ===== src/Partitioner/Keys/Valid.antt =====
-- What a valid key is, and that a valid string key is safe to number.
use mpi_to_openshmem.Prelude.{
  ℕ, zero, suc, ◌+◌, ◌≡◌, ◌≢◌, refl, Option, true, inl, inr, none, some, arith, Option-cases,
}
use mpi_to_openshmem.Prelude.Int.{char_to_int}
use mpi_to_openshmem.Uthash.{IntHash}
use mpi_to_openshmem.Floats.{Floats, Bytes}
use mpi_to_openshmem.Partitioner.Alphabet.{MdhimChar}
use mpi_to_openshmem.Partitioner.Keys.{
  success, string_key, check_chars, verify_bytes, verify_key, add_str_num, get_str_num, add_pos,
  get_slice_num, error,
}

module _ (h : IntHash MdhimChar) (fl : Floats) where
  add_str_num_total :
      (alphabet : h.Table) (p : Bytes) (key_len n i : ℕ) (acc : fl.Real)
      → check_chars h fl alphabet p key_len n i ≡ true
      → add_str_num h fl alphabet p key_len n i acc ≢ none
  unfolding check_chars add_str_num
  add_str_num_total alphabet p key_len zero i acc c = ground arith
  add_str_num_total alphabet p key_len (suc n) i acc c =
      elim (Option-cases (h.find (char_to_int (p i)) alphabet)) [
        | inl missing ↦ ground arith
        | inr (mc, found) ↦
            ground (arith, add_str_num_total alphabet p key_len n (i + 1) (add_pos h fl acc i mc))
      ]

  -- A string key that verify_key accepts is numbered by get_str_num with no access through a NULL
  -- alphabet entry.
  pub get_str_num_total :
      (alphabet : h.Table) (max_recs : ℕ) (p : Bytes) (key_len : ℕ)
      → verify_key h fl alphabet max_recs (some p) key_len string_key ≡ success
      → get_str_num h fl alphabet p key_len ≢ none
  unfolding verify_key verify_bytes get_str_num
  get_str_num_total alphabet max_recs p key_len v =
      add_str_num_total alphabet p key_len key_len 0 fl.zero (ground arith)

  -- A key that `verify_key` refuses has no slice: `get_slice_num` returns the error code.
  pub get_slice_num_invalid :
      (alphabet : h.Table) (max_recs : ℕ) (key : Option Bytes) (key_len key_type : ℕ)
      → verify_key h fl alphabet max_recs key key_len key_type ≢ success
      → get_slice_num h fl alphabet max_recs key key_len key_type ≡ some error
  unfolding get_slice_num verify_key verify_bytes
  get_slice_num_invalid alphabet max_recs none key_len key_type v = refl
  get_slice_num_invalid alphabet max_recs (some p) key_len key_type v = ground arith
