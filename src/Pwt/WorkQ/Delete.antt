-- ===== src/Pwt/WorkQ/Delete.antt =====
-- workq_del frees a queue with its items: it ends, and leaves no entry allocated.
use mpi_to_openshmem.Prelude.{
  ℕ, zero, suc, ◌<◌, ◌≡◌, ◌≢◌, ◌∙◌, refl, [], ◌∷◌, true, false, none, some, All, length, arith,
}
use mpi_to_openshmem.Pwt.WorkQ.{WorkQ, Heap, free, workq_empty, deleted, delete_all}
use mpi_to_openshmem.Pwt.WorkQ.Linked.{Entries, items, Apart, Represents}
use mpi_to_openshmem.Pwt.WorkQ.Queue.{workq_remove-Represents}
use mpi_to_openshmem.Pwt.WorkQ.History.{workq_tests}

module _ {A : Type 0} where
  -- `h'` is `h` without the entries `es`.
  pub record Freed (h h' : Heap A) (es : Entries A) : Type 0 where
    pub gone : All (λ c. h'.cell c.0 ≡ none) es
    pub kept : (p : ℕ) → Apart p es → h'.cell p ≡ h.cell p

  freed_cell : (h : Heap A) (a : ℕ) → (free h a).cell a ≡ none
  freed_cell h a = ground arith

  other_cell : (h : Heap A) (a p : ℕ) → a ≢ p → (free h a).cell p ≡ h.cell p
  other_cell h a p ne = ground arith

  -- workq_del on a well-formed queue, with fuel for more steps than it has entries, frees each
  -- entry and its item once, the items in order, and nothing else.
  pub delete_all-Freed :
      (fuel : ℕ) (h : Heap A) (q : WorkQ) (es : Entries A)
      → length es < fuel
      → Represents h q es
      → (h' : Heap A) × (delete_all fuel h (some q) ≡ some (h', items es)) × Freed h h' es
  unfolding delete_all deleted
  delete_all-Freed zero h q es lt v = absurd (omega arith)
  delete_all-Freed (suc fuel) h q [] lt v =
      let idle : workq_empty (some q) ≡ true = (workq_tests h q [] v).0 in
      (h, rw (idle, delete_all), record { gone = tt; kept = λ p _. refl })
  delete_all-Freed (suc fuel) h q ((a, x) ∷ es) lt v =
      let busy : workq_empty (some q) ≡ false = (workq_tests h q ((a, x) ∷ es) v).0 in
      let (e, v', _) = workq_remove-Represents h q a x es v in
      let (h', e', freed) = delete_all-Freed fuel (free h a) _ es (omega arith) v' in
      (
        h',
        rw (busy, delete_all) (rw e (rw e')),
        record {
          gone = (freed.kept a v.linked.2 ∙ freed_cell h a, freed.gone);
          kept = λ p ap. freed.kept p ap.1 ∙ other_cell h a p (λ e. ap.0 e);
        },
      )
