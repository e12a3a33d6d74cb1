-- ===== src/Mpi/Pack/Outcome.antt =====
-- What MPI_Pack does on each of its paths.
use mpi_to_openshmem.Prelude.{
  ℕ, ◌+◌, ◌≤◌, ◌<◌, ◌≡◌, refl, false, Option, none, some, ltb, leb, Bool-cases, inl, inr, arith,
}
use mpi_to_openshmem.Mpi.Datatypes.{
  long_num_bytes, i32_mod, mpi_success, mpi_err_no_space, mpi_err_comm, get_num_bytes_lem,
}
use mpi_to_openshmem.Mpi.Groups.{Comm}
use mpi_to_openshmem.Mpi.Shmem.{Memory, Shmem}
use mpi_to_openshmem.Mpi.Pack.{Buffer, symmetric, own, Packed, put_packed, pack_bytes, mpi_pack}

-- The outcomes for `n` bytes: refused for want of a communicator or of space, and then nothing changed,
-- or packed, and then the position is moved on by the bytes and not past the size.
pub data Outcome (m : Memory) (outbuf : Buffer) (n outsize position : ℕ)
    : Option Comm → Packed → Type 0 where
  no_comm :
      Outcome m outbuf n outsize position none
        (record { ret = mpi_err_comm; memory = m; outbuf = outbuf; position = position })
  no_space :
      {comm : Comm}
      → outsize < position + n
      → Outcome m outbuf n outsize position
          (some comm)
          (record { ret = mpi_err_no_space; memory = m; outbuf = outbuf; position = position })
  packed :
      {comm : Comm} {p : Packed}
      → p.ret ≡ mpi_success
      → p.position ≡ position + n
      → p.position ≤ outsize
      → Outcome m outbuf n outsize position (some comm) p

module _ (shmem : Shmem) (my_pe : ℕ) where
  put_packed-position :
      (m : Memory) (inbuf : ℕ → ℕ) (n : ℕ) (outbuf : Buffer) (position : ℕ) (comm : Comm)
      → let p = put_packed shmem my_pe m inbuf n outbuf position comm in
        (p.ret ≡ mpi_success) × (p.position ≡ position + n)
  unfolding put_packed
  put_packed-position m inbuf n (symmetric a) position comm = (refl, refl)
  put_packed-position m inbuf n (own bytes) position comm = (refl, refl)

  -- If the bytes behind the position end below 2^31, MPI_Pack is refused for want of a
  -- communicator or of space with nothing changed, or succeeds with the position moved on by the
  -- bytes and not past the size.
  pub mpi_pack-Outcome :
      (m : Memory) (inbuf : ℕ → ℕ) (incount datatype : ℕ) (outbuf : Buffer) (outsize position : ℕ)
      (comm : Option Comm)
      → position + long_num_bytes incount datatype < i32_mod
      → (p : Packed) × (mpi_pack shmem my_pe m inbuf incount datatype outbuf outsize position comm
          ≡ some p)
        × Outcome m outbuf (long_num_bytes incount datatype) outsize position comm p
  unfolding mpi_pack pack_bytes
  mpi_pack-Outcome m inbuf incount datatype outbuf outsize position none small = (_, refl, no_comm)
  mpi_pack-Outcome m inbuf incount datatype outbuf outsize position (some comm) small =
      let n = long_num_bytes incount datatype in
      let whole = get_num_bytes_lem incount datatype (omega arith) in
      let in_int : leb i32_mod (n + position) ≡ false = grind arith in
      elim (Bool-cases (ltb outsize (n + position))) [
        | inl over ↦ (
          record { ret = mpi_err_no_space; memory = m; outbuf = outbuf; position = position },
          rw (whole, in_int, over, mpi_pack) refl,
          no_space (grind arith),
        )
        | inr fits ↦
            let (e, f) = put_packed-position m inbuf n outbuf position comm in
            (
              put_packed shmem my_pe m inbuf n outbuf position comm,
              rw (whole, in_int, fits, mpi_pack) refl,
              packed e f (rw f (grind arith)),
            )
      ]
