-- ===== src/Mpi/Bcast/Tests.antt =====
-- MPI_Bcast of two longs from process 0 to process 1.
use mpi_to_openshmem.Prelude.{
  ℕ, ◌+◌, ◌-◌, ◌*◌, ◌<◌, ◌≤◌, ◌≡◌, ◌≢◌, refl, ◌&&◌, not, leb, ltb, ◌==◌, if◌then◌else◌, some, arith,
}
use mpi_to_openshmem.Floats.{Bytes}
use mpi_to_openshmem.Mpi.Datatypes.{mpi_long, type_size, long_num_bytes, one_of}
use mpi_to_openshmem.Mpi.Shmem.{Memory}
use mpi_to_openshmem.Mpi.Pack.AtOnce.{comm_of, blank}
use mpi_to_openshmem.Mpi.Allgather.{own, gathered}
use mpi_to_openshmem.Mpi.Bcast.{Broadcasts, mpi_bcast}
use mpi_to_openshmem.Mpi.Bcast.Spread.{mpi_bcast-sent_by}

abbrev broadcast_now : Memory → ℕ → ℕ → ℕ → ℕ → ℕ → Memory
broadcast_now m target offset source nelems root p b k =
    if (b == target && not (p == root)) && (leb offset k && ltb k (offset + 8 * nelems))
    then m root source (k - offset)
    else m p b k

broadcast_now_lem :
    (m : Memory) (target offset source nelems root pe j : ℕ)
    → pe ≢ root
    → j < 8 * nelems
    → broadcast_now m target offset source nelems root pe target (offset + j) ≡ m root source j
broadcast_now_lem m target offset source nelems root pe j ne inside =
    let back : offset + j - offset ≡ j = omega arith in rw back (ground arith)

two : Broadcasts 2
two = record {
  broadcast64 = broadcast_now;
  broadcast64_lem = λ m target offset source nelems root pe j clear low ne inside.
      broadcast_now_lem m target offset source nelems root pe j ne inside;
}

abbrev numbers : ℕ → Bytes
numbers i k = 10 * i + k

long_bytes : long_num_bytes 2 mpi_long ≡ 16
unfolding long_num_bytes type_size one_of
long_bytes = refl

long_is_8 : type_size mpi_long ≤ 8
unfolding type_size one_of
long_is_8 = omega arith

mpi_bcast-sent_by_example :
    (m' : Memory) × (buf : Bytes) × (mpi_bcast 2 two 1 blank
        (some (comm_of 0))
        0
        (own numbers)
        2
        mpi_long
        0
      ≡ gathered m' buf)
    × ((k : ℕ) → k < long_num_bytes 2 mpi_long → buf k ≡ numbers 0 k)
mpi_bcast-sent_by_example =
    mpi_bcast-sent_by 2 two 1 (omega arith) blank (comm_of 0) 0 (own numbers) 2 mpi_long 0
      (omega arith) (omega arith) long_is_8 (omega (arith, long_bytes), omega (arith, long_bytes))
