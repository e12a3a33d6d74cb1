-- ===== src/Mpi/Groups.antt =====
-- Groups and communicators of src/mpi_to_openshmem.c. What shmalloc gives and what a variable holds
-- before it is set are arguments. A communicator has a group. Locks and logging are left out.
pub mod Members
mod Tests
use mpi_to_openshmem.Prelude.{
  ℕ, ◌+◌, List, [], ◌∷◌, Bool, true, false, ◌&&◌, not, ltb, ◌==◌, length, take, if◌then◌else◌,
  Option, none, some,
}
use mpi_to_openshmem.Mpi.Datatypes.{mpi_success, mpi_err_no_mem, mpi_err_buffer, mpi_err_comm}

-- struct MPID_Group: pes_in_group has the entries of the array.
pub record Group : Type 0 where
  pub size : ℕ
  pub rank : ℕ
  pub pe_rank : ℕ
  pub pes_in_group : List ℕ

-- struct MPID_Comm, less the fields for sending.
pub record Comm : Type 0 where
  pub rank : ℕ
  pub size : ℕ
  pub group : Group
  pub buffer_ptr : ℕ

-- The return code, with what is left in `*rank`.
pub mpi_comm_rank : Option Comm → ℕ → ℕ × ℕ
mpi_comm_rank none rank = (mpi_err_comm, rank)
mpi_comm_rank (some comm) rank = (mpi_success, comm.group.rank)

pub mpi_comm_size : Option Comm → ℕ → ℕ × ℕ
mpi_comm_size none size = (mpi_err_comm, size)
mpi_comm_size (some comm) size = (mpi_success, comm.group.size)

-- The loop of MPI_Group_incl from index `i` on.
pub new_rank_from : ℕ → List ℕ → ℕ → ℕ → ℕ
new_rank_from my_pe [] i new_rank = new_rank
new_rank_from my_pe (r ∷ ranks) i new_rank =
    new_rank_from my_pe ranks (i + 1) (if r == my_pe then i else new_rank)

-- The ranks are taken as numbers of processing elements, for the first group is not used. `new_rank` is
-- what the variable holds at first, and `room` whether shmalloc finds space.
pub mpi_group_incl : ℕ → ℕ → Bool → Group → List ℕ → Group → ℕ × Group
unfolding new_rank_from
mpi_group_incl my_pe new_rank room group ranks newgroup =
    if room
    then (
      mpi_success,
      record {
        size = length ranks;
        rank = new_rank_from my_pe ranks 0 new_rank;
        pe_rank = my_pe;
        pes_in_group = ranks;
      },
    )
    else (mpi_err_no_mem, newgroup)

pub is_pe_in_group : ℕ → List ℕ → Bool
is_pe_in_group my_pe [] = false
is_pe_in_group my_pe (p ∷ ps) = if my_pe == p then true else is_pe_in_group my_pe ps

-- What the calls of shmalloc give: the scratch buffer, whether there is room for each struct, and what
-- the space for a communicator and its group holds at first.
pub record Shmalloc : Type 0 where
  pub shared_buffer : Option ℕ
  pub accessible : Bool
  pub comm_room : Bool
  pub group_room : Bool
  pub pes_room : Bool
  pub raw : Comm

-- pe_rank is not set.
pub made_comm : ℕ → Group → Comm → ℕ → Comm
made_comm my_pe group raw buffer = record {
  rank = my_pe;
  size = group.size;
  group = record {
    size = group.size;
    rank = group.rank;
    pe_rank = raw.group.pe_rank;
    pes_in_group = take group.size group.pes_in_group;
  };
  buffer_ptr = buffer;
}

new_comm : ℕ → ℕ → Group → Shmalloc → ℕ → Option Comm → Option (ℕ × Option Comm)
unfolding made_comm
new_comm my_pe num_pes group s buffer newcomm =
    if not s.accessible
    then some (mpi_err_buffer, newcomm)
    else if not s.comm_room
    then some (mpi_err_no_mem, none)
    else if not (s.group_room && s.pes_room)
    then some (mpi_err_no_mem, some s.raw)
    else if ltb num_pes group.size
    then none
    else some (mpi_success, some (made_comm my_pe group s.raw buffer))

-- The code, with what `*newcomm` is then; `none` is a group of more than `num_pes` members, which is
-- written past the end of its array.
pub mpi_comm_create :
    ℕ → ℕ → Option Comm → Group → Shmalloc → Option Comm → Option (ℕ × Option Comm)
unfolding new_comm is_pe_in_group
mpi_comm_create my_pe num_pes none group s newcomm = some (mpi_err_comm, newcomm)
mpi_comm_create my_pe num_pes (some comm) group s newcomm =
    if is_pe_in_group my_pe (take comm.group.size comm.group.pes_in_group)
    then elim s.shared_buffer [
      | none ↦ some (mpi_err_no_mem, newcomm)
      | some buffer ↦ new_comm my_pe num_pes group s buffer newcomm
    ]
    else some (mpi_success, newcomm)
