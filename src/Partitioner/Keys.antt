-- ===== src/Partitioner/Keys.antt =====
-- Keys (mdhimMods/src/partitioner.c): is a key valid, and which slice of the key space holds it.
-- A key is a pointer, `none` for NULL, with the bytes there. Lengths are not negative.
pub mod Valid
pub mod Slice
use mpi_to_openshmem.Prelude.{
  ℕ, zero, suc, ◌+◌, ◌-◌, ◌*◌, ◌/◌, ◌%◌, Bool, true, false, ◌&&◌, not, Option, none, some, ltb, leb,
  ◌==◌, if◌then◌else◌,
}
use mpi_to_openshmem.Prelude.Int.{ℤ, pos, negsuc, u64_mod, to_int, char_to_int}
use mpi_to_openshmem.Uthash.{IntHash}
use mpi_to_openshmem.Floats.{Floats, Bytes}
use mpi_to_openshmem.Partitioner.Alphabet.{MdhimChar}

-- mdhim.h: MDHIM_SUCCESS and MDHIM_ERROR
abbrev pub success : ℤ
success = pos 0

abbrev pub error : ℤ
error = negsuc 0

-- partitioner.h
abbrev pub max_slices : ℕ
max_slices = 2_147_483_647

abbrev pub max_key_len : ℕ
max_key_len = 262_144

abbrev pub alphabet_exponent : ℕ
alphabet_exponent = 6

abbrev pub int_key : ℕ
int_key = 1

abbrev pub long_int_key : ℕ
long_int_key = 2

abbrev pub float_key : ℕ
float_key = 3

abbrev pub double_key : ℕ
double_key = 4

abbrev pub string_key : ℕ
string_key = 5

abbrev pub byte_key : ℕ
byte_key = 6

-- *(uint32_t *) p and *(uint64_t *) p, least byte first
abbrev pub u32_at : Bytes → ℕ
u32_at p = p 0 + 256 * (p 1 + 256 * (p 2 + 256 * p 3))

abbrev pub u64_at : Bytes → ℕ
u64_at p = u32_at p + 4_294_967_296 * u32_at (λ i. p (4 + i))

-- The last character of a string may be its terminating null.
abbrev pub ends_at : Bytes → ℕ → ℕ → Bool
ends_at p key_len i = (i + 1 == key_len) && (p i == 0)

unfoldable pub is_float_key : ℕ → Bool
is_float_key type =
    if type == string_key
    then true
    else if type == float_key
    then true
    else if type == double_key
    then true
    else if type == int_key
    then false
    else if type == long_int_key
    then false
    else type == byte_key

module _ (h : IntHash MdhimChar) (fl : Floats) where
  open h use {Table, find}
  open fl use {Real}

  -- The loop of verify_key over a string, with the rounds that are left.
  pub check_chars : Table → Bytes → ℕ → ℕ → ℕ → Bool
  check_chars alphabet p key_len zero i = true
  check_chars alphabet p key_len (suc n) i = elim (ends_at p key_len i) [
    | true ↦ true
    | false ↦ elim (find (char_to_int (p i)) alphabet) [
      | none ↦ false
      | some mc ↦ check_chars alphabet p key_len n (i + 1)
    ]
  ]

  -- the number that verify_key takes the size of
  unfoldable pub ikey_of : Bytes → ℕ → ℕ
  ikey_of p key_type =
      if key_type == int_key
      then u32_at p
      else if key_type == long_int_key
      then u64_at p
      else if key_type == float_key
      then fl.to_u64 (fl.float_at p)
      else if key_type == double_key
      then fl.to_u64 (fl.double_at p)
      else 0

  unfoldable pub verify_bytes : Table → ℕ → Bytes → ℕ → ℕ → ℤ
  unfolding ikey_of check_chars
  verify_bytes alphabet max_recs p key_len key_type =
      if ltb max_key_len key_len
      then error
      else if (key_type == string_key) && not (check_chars alphabet p key_len key_len 0)
      then error
      else if leb max_slices (ikey_of p key_type / max_recs)
      then error
      else success

  unfoldable pub verify_key : Table → ℕ → Option Bytes → ℕ → ℕ → ℤ
  unfolding verify_bytes
  verify_key alphabet max_recs none key_len key_type = error
  verify_key alphabet max_recs (some p) key_len key_type =
      verify_bytes alphabet max_recs p key_len key_type

  -- str_num += mc->pos * pow(2, MDHIM_ALPHABET_EXPONENT * -(i + 1))
  pub add_pos : Real → ℕ → MdhimChar → Real
  add_pos str_num i mc =
      fl.add str_num (fl.mul (fl.of_nat mc.pos) (fl.pow2_neg (alphabet_exponent * (i + 1))))

  -- The loop of get_str_num. `none` is a crash: mc->pos with mc NULL.
  pub add_str_num : Table → Bytes → ℕ → ℕ → ℕ → Real → Option Real
  add_str_num alphabet p key_len zero i str_num = some str_num
  add_str_num alphabet p key_len (suc n) i str_num = elim (ends_at p key_len i) [
    | true ↦ some str_num
    | false ↦ elim (find (char_to_int (p i)) alphabet) [
      | none ↦ none
      | some mc ↦ add_str_num alphabet p key_len n (i + 1) (add_pos str_num i mc)
    ]
  ]

  pub get_str_num : Table → Bytes → ℕ → Option Real
  get_str_num alphabet p key_len = add_str_num alphabet p key_len key_len 0 fl.zero

  add_byte_num : Bytes → ℕ → ℕ → Real → Real
  add_byte_num p zero i byte_num = byte_num
  add_byte_num p (suc n) i byte_num =
      add_byte_num p n (i + 1)
        (fl.add byte_num (fl.mul (fl.of_nat (p i)) (fl.pow2_neg (8 * (i + 1)))))

  pub get_byte_num : Bytes → ℕ → Real
  get_byte_num p key_len = add_byte_num p key_len 0 fl.zero

  -- floorl(map_num * total_keys), as a uint64_t
  pub scale : ℕ → Real → ℕ
  scale max_recs map_num =
      let total_keys = (max_slices * max_recs) % u64_mod in
      fl.to_u64 (fl.floor (fl.mul map_num (fl.of_nat total_keys)))

  -- The switch of get_slice_num: `none` for a crash, `some none` where it returns 0 at once.
  pub key_num : Table → ℕ → Bytes → ℕ → ℕ → Option (Option ℕ)
  key_num alphabet max_recs p key_len key_type =
      if key_type == int_key
      then some (some (u32_at p))
      else if key_type == long_int_key
      then some (some (u64_at p))
      else if key_type == byte_key
      then some (some (scale max_recs (get_byte_num p key_len)))
      else if key_type == float_key
      then some (some (fl.to_u64 (fl.floor (fl.fabs (fl.float_at p)))))
      else if key_type == double_key
      then some (some (fl.to_u64 (fl.floor (fl.fabs (fl.double_at p)))))
      else if key_type == string_key
      then elim (get_str_num alphabet p key_len) [
        | none ↦ none
        | some map_num ↦ some (some (scale max_recs map_num))
      ]
      else some none

  slice_of : ℕ → Option ℕ → ℤ
  slice_of max_recs none = pos 0
  slice_of max_recs (some n) = to_int (n / max_recs)

  -- get_slice_num past its call of verify_key
  pub slice_of_bytes : Table → ℕ → Bytes → ℕ → ℕ → Option ℤ
  unfolding slice_of key_num
  slice_of_bytes alphabet max_recs p key_len key_type =
      elim (key_num alphabet max_recs p key_len key_type) [
        | none ↦ none
        | some n ↦ some (slice_of max_recs n)
      ]

  -- `none` is a crash.
  unfoldable pub get_slice_num : Table → ℕ → Option Bytes → ℕ → ℕ → Option ℤ
  unfolding verify_key slice_of_bytes
  get_slice_num alphabet max_recs none key_len key_type = some error
  get_slice_num alphabet max_recs (some p) key_len key_type =
      elim (verify_bytes alphabet max_recs p key_len key_type) [
        | pos zero ↦ slice_of_bytes alphabet max_recs p key_len key_type
        | _ ↦ some error
      ]
