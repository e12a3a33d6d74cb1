-- ===== src/Mpi/Groups/Tests.antt =====
-- The ranks 3, 0 and 2 of four processes, seen from process 0.
use mpi_to_openshmem.Prelude.{
  ℕ, zero, suc, ◌≡◌, refl, List, [], ◌∷◌, true, length, get_elem?, take, none, some, arith,
}
use mpi_to_openshmem.Mpi.Datatypes.{mpi_success}
use mpi_to_openshmem.Mpi.Groups.{
  Comm, mpi_comm_rank, mpi_comm_size, mpi_group_incl, is_pe_in_group, mpi_comm_create,
}
use mpi_to_openshmem.Mpi.Groups.Members.{OnlyAt, all_room, comm_create-group_incl}

abbrev world : Comm
world = record {
  rank = 0;
  size = 4;
  group = record { size = 4; rank = 0; pe_rank = 0; pes_in_group = 0 ∷ 1 ∷ 2 ∷ 3 ∷ [] };
  buffer_ptr = 5;
}

abbrev three : List ℕ
three = 3 ∷ 0 ∷ 2 ∷ []

second : OnlyAt 0 three 1
second = (refl, only)
  where
    only : (j : ℕ) → get_elem? three j ≡ some 0 → j ≡ 1
    only zero e = cc
    only (suc zero) e = refl
    only (suc (suc zero)) e = cc
    only (suc (suc (suc j))) e = cc

in_world : is_pe_in_group 0 (take world.group.size world.group.pes_in_group) ≡ true
unfolding is_pe_in_group
in_world = refl

comm_create-group_incl_example :
    (made : Comm) × (mpi_comm_create 0 4
        (some world)
        (mpi_group_incl 0 9 true world.group three world.group).1
        (all_room 6 world)
        none
      ≡ some (mpi_success, some made))
    × ((r : ℕ) → mpi_comm_rank (some made) r ≡ (mpi_success, 1))
    × ((r : ℕ) → mpi_comm_size (some made) r ≡ (mpi_success, length three))
    × (made.group.pes_in_group ≡ three)
comm_create-group_incl_example =
    comm_create-group_incl 0 4 9 1 6 three world world world.group world.group none second
      (omega arith) in_world
