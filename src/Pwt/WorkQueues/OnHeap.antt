-- ===== src/Pwt/WorkQueues/OnHeap.antt =====
-- The linked queues of workq.c meet what the scheduler asks of its work queues.
use mpi_to_openshmem.Prelude.{
  ◌≡◌, refl, List, [], ◌∷◌, ◌++◌, Option, none, some, length, is_nil, ℕ, ◌<◌, ◌≤◌, Bool-cases, inl,
  inr, ltb, ◌∙◌, sym, arith, true, false, ◌⊎◌, ltb→lt, ltb→le,
}
use mpi_to_openshmem.Prelude.Int.{pos}
use mpi_to_openshmem.Pwt.WorkQ.{
  WorkQ, Heap, free, workq_empty, workq_full, workq_remove, unlink_head, int_max,
}
use mpi_to_openshmem.Pwt.WorkQ.Linked.{Entries, first, items, Represents}
use mpi_to_openshmem.Pwt.WorkQ.Queue.{
  workq_add-Represents, workq_remove-Represents, workq_remove_empty,
}
use mpi_to_openshmem.Pwt.WorkQ.History.{reached, workq_tests, items-append, length-items}
use mpi_to_openshmem.Pwt.WorkQueues.{WorkQueues}

-- A queue on a part of the heap of its own.
pub record Held (A : Type 0) : Type 0 where
  pub heap : Heap A
  pub queue : WorkQ
  pub entries : Entries A
  pub represents : Represents heap queue entries
  pub max_int : (m : ℕ) → queue.max ≡ pos m → m ≤ int_max

module _ {A : Type 0} where
  abbrev pub held_items : Held A → List A
  held_items q = items q.entries

  added : (q : Held A) → A → length q.entries < int_max → Held A
  added q x few =
      let (h', q', _, v, same) = workq_add-Represents q.heap q.queue q.entries x q.represents few in
      record {
        heap = h';
        queue = q';
        entries = q.entries ++ (q.heap.fresh, x) ∷ [];
        represents = v;
        max_int = λ m is. q.max_int m (sym same ∙ is);
      }

  abbrev Decided : Held A → Type 0
  Decided q = let b = ltb (length q.entries) int_max in (b ≡ true) ⊎ (b ≡ false)

  add_if : (q : Held A) → A → Decided q → Held A
  add_if q x (inl few) = added q x (ltb→lt _ _ few)
  add_if q x (inr full) = q

  -- The heap and queue are those that `workq_add` gives, where the count does not overflow.
  pub held_add : Held A → A → Held A
  unfolding added add_if
  held_add q x = add_if q x (Bool-cases (ltb (length q.entries) int_max))

  remove_from :
      (h : Heap A) (q : WorkQ) (es : Entries A)
      → Represents h q es
      → ((m : ℕ) → q.max ≡ pos m → m ≤ int_max)
      → Held A × Option A
  remove_from h q [] v mi =
      (record { heap = h; queue = q; entries = []; represents = v; max_int = mi }, none)
  remove_from h q ((a, x) ∷ es) v mi = (
    record {
      heap = free h a;
      queue = unlink_head q (record { item = x; next = first es });
      entries = es;
      represents = (workq_remove-Represents h q a x es v).1;
      max_int = λ m is. mi m (sym (workq_remove-Represents h q a x es v).2 ∙ is);
    },
    some x,
  )

  pub held_remove : Held A → Held A × Option A
  unfolding remove_from
  held_remove q = remove_from q.heap q.queue q.entries q.represents q.max_int

  -- It is what `workq_remove` gives.
  pub held_remove_lem :
      (q : Held A)
      → let (q', item) = held_remove q in
        workq_remove q.heap (some q.queue) ≡ some (q'.heap, some q'.queue, item)
  unfolding held_remove
  held_remove_lem q = at q.heap q.queue q.entries q.represents q.max_int
    where
      at :
          (h : Heap A) (p : WorkQ) (es : Entries A) (v : Represents h p es)
          (mi : (m : ℕ) → p.max ≡ pos m → m ≤ int_max)
          → let (q', item) = remove_from h p es v mi in
            workq_remove h (some p) ≡ some (q'.heap, some q'.queue, item)
      at h p [] v mi = workq_remove_empty h p v
      at h p ((a, x) ∷ es) v mi = (workq_remove-Represents h p a x es v).0

  pub is_empty_held : (q : Held A) → workq_empty (some q.queue) ≡ is_nil (held_items q)
  is_empty_held q = (workq_tests q.heap q.queue q.entries q.represents).0

  pub is_full_held :
      (q : Held A) → workq_full (some q.queue) ≡ reached q.queue.max (length (held_items q))
  is_full_held q = (workq_tests q.heap q.queue q.entries q.represents).1

  items-add_if :
      (q : Held A) (x : A) (d : Decided q)
      → length (held_items q) < int_max
      → held_items (add_if q x d) ≡ held_items q ++ x ∷ []
  unfolding add_if added
  items-add_if q x (inl few) room = items-append q.entries ((q.heap.fresh, x) ∷ [])
  items-add_if q x (inr full) room =
      let same = length-items q.entries in
      absurd (omega (arith, same, ltb→le (length q.entries) int_max full))

  pub items-held_add :
      (q : Held A) (x : A)
      → length (held_items q) < int_max
      → held_items (held_add q x) ≡ held_items q ++ x ∷ []
  unfolding held_add
  items-held_add q x few = items-add_if q x (Bool-cases (ltb (length q.entries) int_max)) few

  limit-add_if : (q : Held A) (x : A) (d : Decided q) → (add_if q x d).queue.max ≡ q.queue.max
  unfolding add_if added
  limit-add_if q x (inl few) =
      (workq_add-Represents q.heap q.queue q.entries x q.represents (ltb→lt _ _ few)).4
  limit-add_if q x (inr full) = refl

  pub limit-held_add : (q : Held A) (x : A) → (held_add q x).queue.max ≡ q.queue.max
  unfolding held_add
  limit-held_add q x = limit-add_if q x (Bool-cases (ltb (length q.entries) int_max))

  pub held_remove-nil : (q : Held A) → held_items q ≡ [] → held_remove q ≡ (q, none)
  unfolding held_remove
  held_remove-nil q e = at q.heap q.queue q.entries q.represents q.max_int e
    where
      at :
          (h : Heap A) (p : WorkQ) (es : Entries A) (v : Represents h p es)
          (mi : (m : ℕ) → p.max ≡ pos m → m ≤ int_max)
          → items es ≡ []
          → remove_from h p es v mi
            ≡ (record { heap = h; queue = p; entries = es; represents = v; max_int = mi }, none)
      at h p [] v mi e = refl
      at h p ((a, x) ∷ es) v mi e = cc

  pub held_remove-cons :
      (q : Held A) (x : A) (xs : List A)
      → held_items q ≡ x ∷ xs
      → ((held_remove q).1 ≡ some x)
        × (held_items (held_remove q).0 ≡ xs)
        × ((held_remove q).0.queue.max ≡ q.queue.max)
  unfolding held_remove
  held_remove-cons q x xs e = at q.heap q.queue q.entries q.represents q.max_int e
    where
      at :
          (h : Heap A) (p : WorkQ) (es : Entries A) (v : Represents h p es)
          (mi : (m : ℕ) → p.max ≡ pos m → m ≤ int_max)
          → items es ≡ x ∷ xs
          → ((remove_from h p es v mi).1 ≡ some x)
            × (held_items (remove_from h p es v mi).0 ≡ xs)
            × ((remove_from h p es v mi).0.queue.max ≡ p.max)
      at h p [] v mi e = cc
      at h p ((a, y) ∷ es) v mi e = (cc, cc, (workq_remove-Represents h p a y es v).2)

-- `pftool`'s queues.
abbrev pub on_heap : (A : Type 0) → WorkQueues A
on_heap A = record {
  Queue = Held A;
  items = held_items;
  limit = λ q. q.queue.max;
  is_empty = λ q. workq_empty (some q.queue);
  is_full = λ q. workq_full (some q.queue);
  add = held_add;
  remove = held_remove;
  is_empty_lem = is_empty_held;
  is_full_lem = is_full_held;
  limit_int = λ q. q.max_int;
  items-add = items-held_add;
  limit-add = limit-held_add;
  remove-nil = held_remove-nil;
  remove-cons = held_remove-cons;
}
