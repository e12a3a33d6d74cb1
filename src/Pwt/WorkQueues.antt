-- ===== src/Pwt/WorkQueues.antt =====
-- What the scheduler relies on of its work queues: each holds items, oldest first, and has a limit, an
-- int. The items are counted by an int: what comes of adding to INT_MAX items is left open.
pub mod OnHeap
use mpi_to_openshmem.Prelude.{
  ℕ, ◌<◌, ◌≤◌, ◌≡◌, List, [], ◌∷◌, ◌++◌, Bool, Option, none, some, length, is_nil,
}
use mpi_to_openshmem.Prelude.Int.{ℤ, pos}
use mpi_to_openshmem.Pwt.WorkQ.{int_max}
use mpi_to_openshmem.Pwt.WorkQ.History.{reached}

pub record WorkQueues (A : Type 0) : Type 1 where
  pub Queue : Type 0
  pub items : Queue → List A
  pub limit : Queue → ℤ
  pub is_empty : Queue → Bool
  pub is_full : Queue → Bool
  pub add : Queue → A → Queue
  pub remove : Queue → Queue × Option A
  pub is_empty_lem : (q : Queue) → is_empty q ≡ is_nil (items q)
  pub is_full_lem : (q : Queue) → is_full q ≡ reached (limit q) (length (items q))
  pub limit_int : (q : Queue) (max : ℕ) → limit q ≡ pos max → max ≤ int_max
  pub items-add :
      (q : Queue) (x : A) → length (items q) < int_max → items (add q x) ≡ items q ++ x ∷ []
  pub limit-add : (q : Queue) (x : A) → limit (add q x) ≡ limit q
  pub remove-nil : (q : Queue) → items q ≡ [] → remove q ≡ (q, none)
  pub remove-cons :
      (q : Queue) (x : A) (xs : List A)
      → items q ≡ x ∷ xs
      → ((remove q).1 ≡ some x) × (items (remove q).0 ≡ xs) × (limit (remove q).0 ≡ limit q)
