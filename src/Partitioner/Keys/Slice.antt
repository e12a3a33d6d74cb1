-- ===== src/Partitioner/Keys/Slice.antt =====
-- The slice of a key with an integer type: the key space is cut into slices of equal size.
use mpi_to_openshmem.Prelude.{
  ℕ, ◌+◌, ◌*◌, ◌/◌, ◌≤◌, ◌<◌, ◌≡◌, refl, ap, ◌∙◌, ◌⊎◌, inl, inr, some, arith,
}
use mpi_to_openshmem.Prelude.Int.{pos, to_int}
use mpi_to_openshmem.Uthash.{IntHash}
use mpi_to_openshmem.Floats.{Floats, Bytes}
use mpi_to_openshmem.Partitioner.Alphabet.{MdhimChar}
use mpi_to_openshmem.Partitioner.Keys.{
  success, int_key, long_int_key, max_slices, ikey_of, verify_bytes, verify_key, key_num, slice_of,
  slice_of_bytes, get_slice_num,
}

to_int-small : (x : ℕ) → x < 2_147_483_648 → to_int x ≡ pos x
to_int-small x h = ground arith

quotient_below : (n d : ℕ) → n / d * d ≤ n
quotient_below n d = grind arith

quotient_above : (n d : ℕ) → 0 < d → n < (n / d + 1) * d
quotient_above n d h = grind arith

-- a type of key for integers
abbrev pub IsInteger : ℕ → Type 0
IsInteger key_type = (key_type ≡ int_key) ⊎ (key_type ≡ long_int_key)

module _ (h : IntHash MdhimChar) (fl : Floats) where
  verified-lt :
      (alphabet : h.Table) (max_recs : ℕ) (p : Bytes) (key_len key_type : ℕ)
      → verify_bytes h fl alphabet max_recs p key_len key_type ≡ success
      → ikey_of h fl p key_type / max_recs < max_slices
  unfolding verify_bytes
  verified-lt alphabet max_recs p key_len key_type v = ground arith

  slice_of_integer :
      (alphabet : h.Table) (max_recs : ℕ) (p : Bytes) (key_len key_type : ℕ)
      → IsInteger key_type
      → slice_of_bytes h fl alphabet max_recs p key_len key_type
        ≡ some (to_int (ikey_of h fl p key_type / max_recs))
  unfolding slice_of_bytes slice_of key_num ikey_of
  slice_of_integer alphabet max_recs p key_len key_type (inl e) = rw e refl
  slice_of_integer alphabet max_recs p key_len key_type (inr e) = rw e refl

  pub get_slice_num-eq :
      (alphabet : h.Table) (max_recs : ℕ) (p : Bytes) (key_len key_type : ℕ)
      → IsInteger key_type
      → verify_key h fl alphabet max_recs (some p) key_len key_type ≡ success
      → let s = ikey_of h fl p key_type / max_recs in
        (get_slice_num h fl alphabet max_recs (some p) key_len key_type ≡ some (pos s))
        × (s < max_slices)
  unfolding verify_key get_slice_num
  get_slice_num-eq alphabet max_recs p key_len key_type t v =
      let s = ikey_of h fl p key_type / max_recs in
      let v' : verify_bytes h fl alphabet max_recs p key_len key_type ≡ success = v in
      let fits = verified-lt alphabet max_recs p key_len key_type v in
      (
        rw (v', get_slice_num)
            (slice_of_integer alphabet max_recs p key_len key_type t
              ∙ ap some (to_int-small s (omega arith))),
        fits,
      )

  -- For a key of an integer type that verify_key accepts and max_recs positive, get_slice_num
  -- returns a slice s below MDHIM_MAX_SLICES with s * max_recs <= key < (s + 1) * max_recs:
  -- nothing is cut off by the conversion to int.
  pub get_slice_num_integer :
      (alphabet : h.Table) (max_recs : ℕ) (p : Bytes) (key_len key_type : ℕ)
      → 0 < max_recs
      → IsInteger key_type
      → verify_key h fl alphabet max_recs (some p) key_len key_type ≡ success
      → (s : ℕ) × (get_slice_num h fl alphabet max_recs (some p) key_len key_type ≡ some (pos s))
        × (s < max_slices)
        × (s * max_recs ≤ ikey_of h fl p key_type)
        × (ikey_of h fl p key_type < (s + 1) * max_recs)
  get_slice_num_integer alphabet max_recs p key_len key_type r t v =
      let n = ikey_of h fl p key_type in
      let (located, fits) = get_slice_num-eq alphabet max_recs p key_len key_type t v in
      (n / max_recs, located, fits, quotient_below n max_recs, quotient_above n max_recs r)
