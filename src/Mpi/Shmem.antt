-- ===== src/Mpi/Shmem.antt =====
-- What src/mpi_to_openshmem.c relies on of OpenSHMEM: the calls it packs and unpacks with.
use mpi_to_openshmem.Prelude.{ℕ, ◌+◌, ◌≡◌, ◌&&◌, ◌==◌, if◌then◌else◌}
use mpi_to_openshmem.Mpi.Datatypes.{write}

-- The symmetric buffers: the byte at an offset of a buffer on a processing element.
abbrev pub Memory : Type 0
Memory = ℕ → ℕ → ℕ → ℕ

unfoldable pub set_buffer : Memory → ℕ → ℕ → (ℕ → ℕ) → Memory
set_buffer m pe a bytes p b = if p == pe && b == a then bytes else m p b

-- shmem_putmem (memory, target, offset, source, n, pe), shmem_fence, and
-- shmem_getmem (memory, target, source, offset, n, pe), whose target is the caller's own.
pub record Shmem : Type 0 where
  pub putmem : Memory → ℕ → ℕ → (ℕ → ℕ) → ℕ → ℕ → Memory
  pub fence : Memory → Memory
  pub getmem : Memory → (ℕ → ℕ) → ℕ → ℕ → ℕ → ℕ → ℕ → ℕ
  pub fence-putmem :
      (m : Memory) (a offset : ℕ) (from : ℕ → ℕ) (n pe p b k : ℕ)
      → fence (putmem m a offset from n pe) p b k
        ≡ set_buffer m pe a (write (m pe a) offset from n) p b k
  pub getmem_lem :
      (m : Memory) (to : ℕ → ℕ) (a offset n pe k : ℕ)
      → getmem m to a offset n pe k ≡ write to 0 (λ i. m pe a (offset + i)) n k
