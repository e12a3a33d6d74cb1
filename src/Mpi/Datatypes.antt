-- ===== src/Mpi/Datatypes.antt =====
-- The data types and return codes of src/mpi_to_openshmem.h, and GetNumBytes and CopyMyData. The sizes
-- are those of a 64-bit system; a count is not negative.
use mpi_to_openshmem.Prelude.{
  ℕ, ◌+◌, ◌-◌, ◌*◌, ◌%◌, ◌<◌, ◌≡◌, refl, arith, List, [], ◌∷◌, Bool, true, false, ◌&&◌, ltb, leb,
  ◌==◌, if◌then◌else◌, Option, none, some,
}
use mpi_to_openshmem.Prelude.Int.{u32_mod}

abbrev pub mpi_success : ℕ
mpi_success = 0

abbrev pub mpi_err_no_mem : ℕ
mpi_err_no_mem = 1

abbrev pub mpi_err_buffer : ℕ
mpi_err_buffer = 2

abbrev pub mpi_err_no_space : ℕ
mpi_err_no_space = 6

abbrev pub mpi_err_comm : ℕ
mpi_err_comm = 7

abbrev pub mpi_char : ℕ
mpi_char = 1

abbrev pub mpi_unsigned_char : ℕ
mpi_unsigned_char = 2

abbrev pub mpi_byte : ℕ
mpi_byte = 3

abbrev pub mpi_short : ℕ
mpi_short = 4

abbrev pub mpi_unsigned_short : ℕ
mpi_unsigned_short = 5

abbrev pub mpi_int : ℕ
mpi_int = 6

abbrev pub mpi_unsigned : ℕ
mpi_unsigned = 7

abbrev pub mpi_long : ℕ
mpi_long = 8

abbrev pub mpi_unsigned_long : ℕ
mpi_unsigned_long = 9

abbrev pub mpi_float : ℕ
mpi_float = 10

abbrev pub mpi_double : ℕ
mpi_double = 11

abbrev pub mpi_long_double : ℕ
mpi_long_double = 12

abbrev pub mpi_long_long : ℕ
mpi_long_long = 13

unfoldable pub one_of : ℕ → List ℕ → Bool
one_of d [] = false
one_of d (e ∷ es) = if d == e then true else one_of d es

-- The switch of GetNumBytes, which MPI_Pack and MPI_Unpack repeat.
unfoldable pub type_size : ℕ → ℕ
unfolding one_of
type_size d =
    if one_of d (mpi_char ∷ mpi_unsigned_char ∷ mpi_byte ∷ [])
    then 1
    else if one_of d (mpi_short ∷ mpi_unsigned_short ∷ [])
    then 2
    else if one_of d (mpi_int ∷ mpi_unsigned ∷ [])
    then 4
    else if one_of d (mpi_long ∷ mpi_unsigned_long ∷ [])
    then 8
    else if d == mpi_float
    then 4
    else if d == mpi_double
    then 8
    else if d == mpi_long_double
    then 16
    else if d == mpi_long_long
    then 8
    else 1

-- The local numBytes of GetNumBytes, a long, where no int and size exceed 2 ^ 35.
unfoldable pub long_num_bytes : ℕ → ℕ → ℕ
long_num_bytes count d = count * type_size d

abbrev pub i32_mod : ℕ
i32_mod = 2147483648

-- What GetNumBytes returns, an int, as MPI_Pack and MPI_Unpack reckon it too; `none` where it comes out
-- negative.
unfoldable pub get_num_bytes : ℕ → ℕ → Option ℕ
get_num_bytes count d =
    let n = (count * type_size d) % u32_mod in if ltb n i32_mod then some n else none

-- `n` bytes of the second buffer go to the first, from its byte `offset` on.
unfoldable pub write : (ℕ → ℕ) → ℕ → (ℕ → ℕ) → ℕ → ℕ → ℕ
write to offset from n k = if leb offset k && ltb k (offset + n) then from (k - offset) else to k

-- `none` is a memcpy of a negative length.
unfoldable pub copy_my_data : (ℕ → ℕ) → (ℕ → ℕ) → ℕ → ℕ → Option (ℕ → ℕ)
copy_my_data to_buf from_buf count d = elim (get_num_bytes count d) [
  | none ↦ none
  | some n ↦ some (write to_buf 0 from_buf n)
]

-- An int does not cut off a size that is below 2 ^ 31.
pub get_num_bytes_lem :
    (count d : ℕ)
    → long_num_bytes count d < i32_mod
    → get_num_bytes count d ≡ some (long_num_bytes count d)
unfolding get_num_bytes long_num_bytes
get_num_bytes_lem count d b =
    let whole : (count * type_size d) % u32_mod ≡ count * type_size d = omega arith in
    rw whole (ground arith)

pub copy_my_data_lem :
    (to from : ℕ → ℕ) (count d : ℕ)
    → long_num_bytes count d < i32_mod
    → copy_my_data to from count d ≡ some (write to 0 from (long_num_bytes count d))
unfolding copy_my_data
copy_my_data_lem to from count d b = rw (get_num_bytes_lem count d b, copy_my_data) refl
