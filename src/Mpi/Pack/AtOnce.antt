-- ===== src/Mpi/Pack/AtOnce.antt =====
-- A memory that delivers each put at once, for concrete runs of src/mpi_to_openshmem.c.
use mpi_to_openshmem.Prelude.{ℕ, ◌+◌, refl, [], ◌∷◌}
use mpi_to_openshmem.Mpi.Datatypes.{write}
use mpi_to_openshmem.Mpi.Shmem.{Memory, Shmem, set_buffer}
use mpi_to_openshmem.Mpi.Groups.{Comm}

unfoldable pub at_once : Shmem
unfolding set_buffer write
at_once = record {
  putmem = λ m a offset from n pe. set_buffer m pe a (write (m pe a) offset from n);
  fence = λ m. m;
  getmem = λ m to a offset n pe. write to 0 (λ i. m pe a (offset + i)) n;
  fence-putmem = λ m a offset from n pe p b k. refl;
  getmem_lem = λ m to a offset n pe k. refl;
}

abbrev pub comm_of : ℕ → Comm
comm_of rank = record {
  rank = rank;
  size = 2;
  group = record { size = 2; rank = rank; pe_rank = rank; pes_in_group = 1 ∷ 2 ∷ [] };
  buffer_ptr = 9;
}

abbrev pub blank : Memory
blank pe a k = 0
