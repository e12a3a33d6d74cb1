-- ===== src/Mpi/Blocking/AtOnce.antt =====
-- Polls of a memory that delivers each put at once, for concrete runs.
use mpi_to_openshmem.Prelude.{ℕ, ◌+◌, refl}
use mpi_to_openshmem.Mpi.Shmem.{Memory}
use mpi_to_openshmem.Mpi.Pack.AtOnce.{at_once}
use mpi_to_openshmem.Mpi.Blocking.{word, Polls}
use mpi_to_openshmem.Mpi.Blocking.Delivery.{Delivers}

unfoldable pub at_once_polls : Polls at_once
unfolding at_once
at_once_polls = record {
  cswap = λ w m a offset cond value pe. word w (λ i. m pe a (offset + i));
  cswap_lem = λ w m a offset v pe. refl;
  fence-putmem-putmem = λ m a offset from n pe a' offset' from' n' pe' p b k. refl;
}

abbrev pub unchanged : Memory → ℕ → Memory
unchanged m n = m

pub unchanged-Delivers : Delivers at_once unchanged 0
unfolding at_once
unchanged-Delivers = record { complete = λ m p a i. refl; complete_fenced = λ m p a i. refl }
