-- ===== src/Mpi/Groups/Members.antt =====
-- The ranks that a process has in a group that MPI_Group_incl makes, and in its communicator.
use mpi_to_openshmem.Prelude.{
  ◌≤◌, ltb, false, ℕ, zero, suc, ◌+◌, ◌≡◌, ◌≢◌, ◌∙◌, ap, refl, List, [], ◌∷◌, true, ◌==◌, length,
  take, get_elem?, if◌then◌else◌, Option, some, Bool-cases, inl, inr, arith,
}
use mpi_to_openshmem.Mpi.Datatypes.{mpi_success}
use mpi_to_openshmem.Mpi.Groups.{
  Group, Comm, Shmalloc, mpi_comm_rank, mpi_comm_size, new_rank_from, mpi_group_incl,
  is_pe_in_group, made_comm, new_comm, mpi_comm_create,
}

-- `my_pe` stands at `i` in the list and nowhere else.
abbrev pub OnlyAt : ℕ → List ℕ → ℕ → Type 0
OnlyAt my_pe ranks i =
    (get_elem? ranks i ≡ some my_pe) × ((j : ℕ) → get_elem? ranks j ≡ some my_pe → j ≡ i)

new_rank_none :
    (my_pe : ℕ) (ranks : List ℕ) (i g : ℕ)
    → ((j : ℕ) → get_elem? ranks j ≢ some my_pe)
    → new_rank_from my_pe ranks i g ≡ g
unfolding new_rank_from
new_rank_none my_pe [] i g f = refl
new_rank_none my_pe (r ∷ ranks) i g f =
    let rest = new_rank_none my_pe ranks (i + 1) g (λ j. f (suc j)) in
    elim (Bool-cases (r == my_pe)) [
      | inl e ↦ absurd (f 0 (ap some (grind arith)))
      | inr e ↦ rw e rest
    ]

new_rank_lem :
    (my_pe : ℕ) (ranks : List ℕ) (i g k : ℕ)
    → OnlyAt my_pe ranks k
    → new_rank_from my_pe ranks i g ≡ i + k
unfolding new_rank_from
new_rank_lem my_pe [] i g k (at, only) = cc
new_rank_lem my_pe (r ∷ ranks) i g zero (at, only) =
    let here : (r == my_pe) ≡ true = grind arith in
    rw here (new_rank_none my_pe ranks (i + 1) i (λ j e. suc-zero j (only (suc j) e)) ∙ omega arith)
  where
    suc-zero : (j : ℕ) → ¬ (suc j ≡ zero)
    suc-zero j e = omega arith
new_rank_lem my_pe (r ∷ ranks) i g (suc k) (at, only) =
    new_rank_lem my_pe ranks (i + 1) (if r == my_pe then i else g) k
      (at, λ j e. suc-cancel (only (suc j) e))
    ∙ omega arith
  where
    suc-cancel : {a b : ℕ} → suc a ≡ suc b → a ≡ b
    suc-cancel e = omega arith

take-length : (xs : List ℕ) → take (length xs) xs ≡ xs
take-length [] = refl
take-length (x ∷ xs) = ap (◌∷◌ x) (take-length xs)

-- every shmalloc finds room
abbrev pub all_room : ℕ → Comm → Shmalloc
all_room buffer raw = record {
  shared_buffer = some buffer;
  accessible = true;
  comm_room = true;
  group_room = true;
  pes_room = true;
  raw = raw;
}

-- If all allocations succeed, the ranks are not more than the processes, the process is in the
-- group of the old communicator and its number stands at i in the ranks and nowhere else,
-- MPI_Group_incl, of whatever group, and MPI_Comm_create give a communicator in which
-- MPI_Comm_rank is i, MPI_Comm_size the number of the ranks, and the members the processes with
-- the ranks as numbers, in order.
pub comm_create-group_incl :
    (my_pe num_pes g i buffer : ℕ) (ranks : List ℕ) (comm raw : Comm) (group newgroup : Group)
    (newcomm : Option Comm)
    → OnlyAt my_pe ranks i
    → length ranks ≤ num_pes
    → is_pe_in_group my_pe (take comm.group.size comm.group.pes_in_group) ≡ true
    → (made : Comm) × (mpi_comm_create my_pe num_pes
          (some comm)
          (mpi_group_incl my_pe g true group ranks newgroup).1
          (all_room buffer raw)
          newcomm
        ≡ some (mpi_success, some made))
      × ((r : ℕ) → mpi_comm_rank (some made) r ≡ (mpi_success, i))
      × ((r : ℕ) → mpi_comm_size (some made) r ≡ (mpi_success, length ranks))
      × (made.group.pes_in_group ≡ ranks)
unfolding mpi_comm_create new_comm made_comm mpi_group_incl mpi_comm_rank mpi_comm_size
comm_create-group_incl my_pe num_pes g i buffer ranks comm raw group newgroup newcomm at room
      in_group =
    let in_room : ltb num_pes (length ranks) ≡ false = grind arith in
    (
      made_comm my_pe (mpi_group_incl my_pe g true group ranks newgroup).1 raw buffer,
      rw in_group (rw in_room refl),
      λ r. ap (λ k. (mpi_success, k)) (new_rank_lem my_pe ranks 0 g i at ∙ omega arith),
      λ r. refl,
      take-length ranks,
    )
