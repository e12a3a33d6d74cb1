-- ===== src/Mpi/Gather/Puts.antt =====
-- The puts of MPI_Gather, in any order.
use mathlib.Core.Path.{subst}
use mpi_to_openshmem.Prelude.{
  ℕ, suc, ◌+◌, ◌*◌, ◌≤◌, ◌<◌, ◌≡◌, ◌≢◌, ◌∙◌, sym, ap, refl, ◌⊎◌, inl, inr, List, [], ◌∷◌, true,
  false, Bool-cases, ltb, ◌==◌, ◌&&◌, arith,
}
use mpi_to_openshmem.Floats.{Bytes}
use mpi_to_openshmem.Mpi.Datatypes.{write}
use mpi_to_openshmem.Mpi.Shmem.{Memory, Shmem, set_buffer}
use mpi_to_openshmem.Mpi.Pack.Sequence.{write-start, write-inside, set_buffer_self}
use mpi_to_openshmem.Mpi.Allgather.{copy_all}
use mpi_to_openshmem.Mpi.Gather.{Target, put_block, put_blocks}

abbrev pub Occurs : ℕ → List ℕ → Type 0
Occurs i [] = ⊥
Occurs i (p ∷ order) = (i ≡ p) ⊎ Occurs i order

-- One block is not another.
blocks_apart :
    (index n p i j : ℕ)
    → i ≢ p
    → j < n
    → (index + (n * i + j) < index + n * p) ⊎ (index + n * p + n ≤ index + (n * i + j))
blocks_apart index n p i j ne inside = elim (Bool-cases (ltb i p)) [
  | inl low ↦
      let le : suc i ≤ p = grind arith in
      let up : n * suc i ≤ n * p = grind arith in
      let block : n * suc i ≡ n * i + n = grind arith in inl (omega arith)
  | inr high ↦
      let le : suc p ≤ i = grind arith in
      let up : n * suc p ≤ n * i = grind arith in
      let block : n * suc p ≡ n * p + n = grind arith in inr (omega arith)
]

write-outside :
    (to from : ℕ → ℕ) (offset n k : ℕ)
    → (k < offset) ⊎ (offset + n ≤ k)
    → write to offset from n k ≡ to k
unfolding write
write-outside to from offset n k (inl low) = ground arith
write-outside to from offset n k (inr high) = ground arith

set_buffer_here :
    (m : Memory) (pe a k : ℕ) (f : ℕ → ℕ) (p b : ℕ)
    → (f k ≡ m pe a k)
    → set_buffer m pe a f p b k ≡ m p b k
unfolding set_buffer
set_buffer_here m pe a k f p b e = elim (Bool-cases (p == pe && b == a)) [
  | inl here ↦
      let p_pe : p ≡ pe = grind arith in
      let b_a : b ≡ a = grind arith in
      rw here (e ∙ ap (λ q. m q a k) (sym p_pe) ∙ ap (λ c. m p c k) (sym b_a))
  | inr there ↦ rw there refl
]

set_buffer_apart :
    (m : Memory) (pe a : ℕ) (f : ℕ → ℕ) (p b k : ℕ)
    → (b == a) ≡ false
    → set_buffer m pe a f p b k ≡ m p b k
unfolding set_buffer
set_buffer_apart m pe a f p b k apart = ground arith

below : (n index k j : ℕ) → n ≤ index → j < n → j < index + k
below n index k j le inside = omega arith

equal_not : (i p : ℕ) → i ≡ p → (i == p) ≡ false → ⊥
equal_not i p e differs = ground arith

pub copy_all_lem :
    (num_pes : ℕ) (m : Memory) (a : ℕ) (bytes : ℕ → Bytes) (n i j : ℕ)
    → i < num_pes
    → j < n
    → copy_all num_pes m a bytes n i a j ≡ bytes i j
unfolding copy_all
copy_all_lem num_pes m a bytes n i j low inside =
    let there : (a == a && ltb i num_pes) ≡ true = grind arith in
    rw there (write-start (m i a) (bytes i) n j inside)

module _ (shmem : Shmem) (num_pes : ℕ) (root : ℕ) (source : ℕ) (t : Target) (n : ℕ)
    (sent : ℕ → Bytes) where
  -- The puts go elsewhere than to the sources.
  abbrev pub Clear : Type 0
  Clear = source ≡ t.buffer → n ≤ t.index

  -- The sources hold what is sent.
  abbrev pub Holds : Memory → Type 0
  Holds m = (i j : ℕ) → i < num_pes → j < n → m i source j ≡ sent i j

  -- The block of the process is at the root.
  abbrev pub Block : Memory → ℕ → Type 0
  Block m i = (j : ℕ) → j < n → m root t.buffer (t.index + (n * i + j)) ≡ sent i j

  put_block-outside :
      (m : Memory) (pe p b k : ℕ)
      → (b ≡ t.buffer → (k < t.index + n * pe) ⊎ (t.index + n * pe + n ≤ k))
      → put_block shmem num_pes root m source t n pe p b k ≡ m p b k
  unfolding put_block
  put_block-outside m pe p b k outside =
      shmem.fence-putmem m t.buffer (t.index + n * pe) (m pe source) n root p b k
      ∙ (elim (Bool-cases (b == t.buffer)) [
        | inl here ↦
            let e : b ≡ t.buffer = grind arith in
            set_buffer_here m root t.buffer k _ p b
              (write-outside (m root t.buffer) (m pe source) (t.index + n * pe) n k (outside e))
        | inr there ↦ set_buffer_apart m root t.buffer _ p b k there
      ])

  put_block-Holds :
      (m : Memory) (pe : ℕ) → Clear → Holds m → Holds (put_block shmem num_pes root m source t n pe)
  put_block-Holds m pe clear holds i j low inside =
      put_block-outside m pe i source j (λ e. inl (below n t.index (n * pe) j (clear e) inside))
      ∙ holds i j low inside

  put_block-kept :
      (m : Memory) (pe i : ℕ)
      → i ≢ pe
      → Block m i
      → Block (put_block shmem num_pes root m source t n pe) i
  put_block-kept m pe i ne block j inside =
      put_block-outside m pe root t.buffer (t.index + (n * i + j))
        (λ e. blocks_apart t.index n pe i j ne inside)
      ∙ block j inside

  put_block-Block :
      (m : Memory) (pe : ℕ)
      → pe < num_pes
      → Holds m
      → Block (put_block shmem num_pes root m source t n pe) pe
  unfolding put_block
  put_block-Block m pe low holds j inside =
      let at : t.index + (n * pe + j) ≡ t.index + n * pe + j = omega arith in
      shmem.fence-putmem m t.buffer (t.index + n * pe) (m pe source) n root root t.buffer
        (t.index + (n * pe + j))
      ∙ set_buffer_self m root t.buffer _ (t.index + (n * pe + j))
      ∙ ap (write (m root t.buffer) (t.index + n * pe) (m pe source) n) at
      ∙ write-inside (m root t.buffer) (m pe source) (t.index + n * pe) n j inside
      ∙ holds pe j low inside

  -- A block is there at the end if its process is among those that put, or if it was there before.
  pub put_blocks-Block :
      (order : List ℕ) (m : Memory) (i : ℕ)
      → Clear
      → i < num_pes
      → Holds m
      → Occurs i order ⊎ Block m i
      → Block (put_blocks shmem num_pes root m source t n order) i
  unfolding put_blocks
  put_blocks-Block [] m i clear low holds (inl occurs) = absurd occurs
  put_blocks-Block [] m i clear low holds (inr block) = block
  put_blocks-Block (p ∷ order) m i clear low holds there =
      let m' = put_block shmem num_pes root m source t n p in
      let holds' = put_block-Holds m p clear holds in
      elim (Bool-cases (i == p)) [
        | inl same ↦
            let e : p ≡ i = grind arith in
            put_blocks-Block order m' i clear low holds' (
              inr (
                subst (λ q. Block (put_block shmem num_pes root m source t n q) i) (sym e)
                  (put_block-Block m i low holds)))
        | inr differs ↦
            let ne : i ≢ p = λ e. equal_not i p e differs in
            put_blocks-Block order m' i clear low holds' (later i p order m ne there)
      ]
    where
      later :
          (i p : ℕ) (order : List ℕ) (m : Memory)
          → i ≢ p
          → Occurs i (p ∷ order) ⊎ Block m i
          → Occurs i order ⊎ Block (put_block shmem num_pes root m source t n p) i
      later i p order m ne (inl (inl e)) = absurd (ne e)
      later i p order m ne (inl (inr occurs)) = inl occurs
      later i p order m ne (inr block) = inr (put_block-kept m p i ne block)
