-- ===== src/Pwt/WorkQ/Tests.antt =====
-- Runs of the queue on small inputs.
use mpi_to_openshmem.Prelude.{ℕ, ◌≡◌, refl, List, [], ◌∷◌, none, some, ◌==◌, if◌then◌else◌, arith}
use mpi_to_openshmem.Prelude.Int.{pos}
use mpi_to_openshmem.Pwt.WorkQ.{WorkQ, Heap, workq_new, delete_all}
use mpi_to_openshmem.Pwt.WorkQ.Linked.{Entries, items, Represents}
use mpi_to_openshmem.Pwt.WorkQ.History.{Call, adds, removes, run, fifo, run-fifo}
use mpi_to_openshmem.Pwt.WorkQ.Delete.{Freed, delete_all-Freed}

abbrev no_heap : Heap ℕ
no_heap = record { fresh = 1; cell = λ a. none }

-- A queue of the item 7, limited to one item.
abbrev one_heap : Heap ℕ
one_heap = record {
  fresh = 2;
  cell = λ a. if a == 1 then some (record { item = 7; next = 0 }) else none;
}

abbrev one : WorkQ
one = record { count = pos 1; max = pos 1; head = 1; tail = 1 }

abbrev one_entry : Entries ℕ
one_entry = (1, 7) ∷ []

new-Represents : Represents no_heap workq_new []
unfolding workq_new
new-Represents = record {
  linked = tt;
  at_head = refl;
  at_tail = refl;
  counted = refl;
  unused = tt;
  not_null = omega arith;
}

one-Represents : Represents one_heap one one_entry
one-Represents = record {
  linked = (refl, omega arith, tt, tt);
  at_head = refl;
  at_tail = refl;
  counted = refl;
  unused = (omega arith, tt);
  not_null = omega arith;
}

abbrev calls : List (Call ℕ)
calls = adds (some 8) ∷ removes ∷ adds none ∷ removes ∷ removes ∷ []

run-fifo_example : run one_heap (some one) calls ≡ some (fifo (items one_entry) calls)
run-fifo_example = run-fifo one_heap one one_entry calls one-Represents (omega arith)

delete_all-Freed_example :
    (h' : Heap ℕ) × (delete_all 2 one_heap (some one) ≡ some (h', items one_entry))
    × Freed one_heap h' one_entry
delete_all-Freed_example = delete_all-Freed 2 one_heap one one_entry (omega arith) one-Represents
