-- ===== src/Mpi/Allgather/Tests.antt =====
-- MPI_Allgather of two processes.
use mpi_to_openshmem.Prelude.{
  ℕ, zero, suc, ◌+◌, ◌-◌, ◌*◌, ◌<◌, ◌≡◌, ◌∙◌, ap, refl, ◌&&◌, leb, ltb, ◌==◌, if◌then◌else◌, some,
  arith,
}
use mpi_to_openshmem.Floats.{Bytes}
use mpi_to_openshmem.Mpi.Datatypes.{mpi_long, type_size, long_num_bytes, one_of, i32_mod}
use mpi_to_openshmem.Mpi.Shmem.{Memory}
use mpi_to_openshmem.Mpi.Pack.AtOnce.{comm_of, blank}
use mpi_to_openshmem.Mpi.Allgather.{own, Collects, gathered, mpi_allgather}
use mpi_to_openshmem.Mpi.Allgather.Blocks.{mpi_allgather-sent_by}

abbrev collect_two : Memory → ℕ → ℕ → ℕ → ℕ → Memory
collect_two m target offset source nelems p b k =
    if b == target && (leb offset k && ltb k (offset + 16 * nelems))
    then (if ltb (k - offset) (8 * nelems)
        then m 0 source (k - offset)
        else m 1 source (k - offset - 8 * nelems))
    else m p b k

first_block :
    (m : Memory) (target offset source nelems pe j : ℕ)
    → j < 8 * nelems
    → collect_two m target offset source nelems pe target (offset + j) ≡ m 0 source j
first_block m target offset source nelems pe j inside =
    let back : offset + j - offset ≡ j = omega arith in rw back (ground arith)

second_block :
    (m : Memory) (target offset source nelems pe j : ℕ)
    → j < 8 * nelems
    → collect_two m target offset source nelems pe target (offset + (8 * nelems + j)) ≡ m 1 source j
second_block m target offset source nelems pe j inside =
    let back : offset + (8 * nelems + j) - offset ≡ 8 * nelems + j = omega arith in
    let rest : 8 * nelems + j - 8 * nelems ≡ j = omega arith in rw back (rw rest (ground arith))

two_blocks :
    (m : Memory) (target offset source nelems pe i j : ℕ)
    → i < 2
    → j < 8 * nelems
    → collect_two m target offset source nelems pe target (offset + (8 * nelems * i + j))
      ≡ m i source j
two_blocks m target offset source nelems pe zero j low inside =
    let at : 8 * nelems * 0 + j ≡ j = grind arith in
    ap (λ k. collect_two m target offset source nelems pe target (offset + k)) at
    ∙ first_block m target offset source nelems pe j inside
two_blocks m target offset source nelems pe (suc zero) j low inside =
    let at : 8 * nelems * 1 + j ≡ 8 * nelems + j = grind arith in
    ap (λ k. collect_two m target offset source nelems pe target (offset + k)) at
    ∙ second_block m target offset source nelems pe j inside
two_blocks m target offset source nelems pe (suc (suc i)) j low inside = absurd (omega arith)

two : Collects 2
two = record {
  fcollect64 = collect_two;
  fcollect64_lem = λ m target offset source nelems pe i j clear mine low inside.
      two_blocks m target offset source nelems pe i j low inside;
}

abbrev numbers : ℕ → Bytes
numbers i k = 10 * i + k

abbrev nothing : ℕ → Bytes
nothing i k = 0

long_is_8 : type_size mpi_long ≡ 8
unfolding type_size one_of
long_is_8 = refl

fits : 0 + long_num_bytes 1 mpi_long < i32_mod
unfolding long_num_bytes type_size one_of
fits = omega arith

all_fit : long_num_bytes (1 * 2) mpi_long < i32_mod
unfolding long_num_bytes type_size one_of
all_fit = omega arith

mpi_allgather-sent_by_example :
    (m' : Memory) × (buf : Bytes) × (mpi_allgather 2 two 0 blank
        (some (comm_of 0))
        0
        (some (own numbers))
        1
        mpi_long
        (some (own nothing))
        mpi_long
      ≡ gathered m' buf)
    × ((i j : ℕ) → i < 2 → j < 8 → buf (8 * i + j) ≡ numbers i j)
mpi_allgather-sent_by_example =
    mpi_allgather-sent_by 2 two 0 (omega arith) blank (comm_of 0) 0 (own numbers) (own nothing) 1
      mpi_long mpi_long long_is_8 long_is_8 tt fits (omega arith) all_fit
