-- ===== src/Pwt/Scheduler/Tests.antt =====
-- Runs of the scheduler's theorems on the queues of workq.c.
use mpi_to_openshmem.Prelude.{
  ℕ, zero, suc, length, ◌≡◌, ◌↔◌, refl, [], ◌∷◌, true, none, some, leb, get_elem?, arith, ◌<◌, ◌≤◌,
}
use mathlib.Core.Path.{subst}
use mpi_to_openshmem.Prelude.Int.{pos, negsuc}
use mpi_to_openshmem.Pwt.WorkQ.{Heap, workq_new, int_max}
use mpi_to_openshmem.Pwt.WorkQueues.{WorkQueues}
use mpi_to_openshmem.Pwt.WorkQueues.OnHeap.{on_heap, Held, held_add, items-held_add, held_items}
use mpi_to_openshmem.Pwt.Scheduler.{
  WorkItem, WorkRequest, null, request, Scheduler, scheduler_getwork, scheduler_ackwork,
  scheduler_work_done, scheduler_can_assign_work, workreq_is_deadlocked,
}
use mpi_to_openshmem.Pwt.Scheduler.Assign.{
  Assigned, scheduler_getwork-Assigned, can_assign-getwork, is_some, AllEmpty,
}
use mpi_to_openshmem.Pwt.Scheduler.Requests.{
  denied, denied-deadlock, IsChosen, Acked, scheduler_ackwork-Acked,
}
use mpi_to_openshmem.Pwt.Scheduler.Limits.{Limited, WithinLimit, scheduler_ackwork-Limited}
use mpi_to_openshmem.Pwt.Scheduler.Done.{AtMostOneActive, work_done_iff}

abbrev queues : WorkQueues WorkItem
queues = on_heap WorkItem

empty_heap : Heap WorkItem
empty_heap = record { fresh = 1; cell = λ a. none }

no_limit : (m : ℕ) → negsuc 0 ≡ pos m → m ≤ int_max
no_limit m is = cc

abbrev no_work : Held WorkItem
unfolding workq_new empty_heap
no_work = record {
  heap = empty_heap;
  queue = workq_new;
  entries = [];
  represents = record {
    linked = tt;
    at_head = refl;
    at_tail = refl;
    counted = refl;
    unused = tt;
    not_null = omega arith;
  };
  max_int = λ m is. no_limit m is;
}

abbrev some_item : WorkItem
some_item = record { originator = 1; qidx = 0; workdata = null }

abbrev asked : WorkRequest
asked = record { sleep_seconds = 2 }

abbrev asking : WorkItem
asking = record { originator = 1; qidx = 7; workdata = request asked }

-- The manager is process 0; a queue is empty, the other holds an item.
abbrev two_queues : Scheduler queues
two_queues = record { processes = 1 ∷ 0 ∷ []; workq = held_add no_work some_item ∷ no_work ∷ [] }

scheduler_getwork-Assigned_example :
    Assigned queues two_queues (scheduler_getwork queues two_queues)
scheduler_getwork-Assigned_example = scheduler_getwork-Assigned queues two_queues

can_assign-getwork_example :
    scheduler_can_assign_work queues two_queues ≡ is_some (scheduler_getwork queues two_queues).1
can_assign-getwork_example = can_assign-getwork queues two_queues

denied-deadlock_example : workreq_is_deadlocked (some (denied 3 asked)) ≡ leb 4 3
denied-deadlock_example = denied-deadlock 3 asked

two-few :
    (j : ℕ) (q : Held WorkItem)
    → get_elem? two_queues.workq j ≡ some q
    → length (held_items q) < int_max
unfolding no_work
two-few zero q e =
    let first = items-held_add no_work some_item (omega arith) in
    let is : held_add no_work some_item ≡ q = cc in
    let one : length (held_items (held_add no_work some_item)) ≡ 1 = rw first refl in
    subst (λ q. length (held_items q) < int_max) is (omega (arith, one))
two-few (suc zero) q e =
    let is : no_work ≡ q = cc in subst (λ q. length (held_items q) < int_max) is (omega arith)
two-few (suc (suc j)) q e = cc

scheduler_ackwork-Acked_example :
    (idx : ℕ) × (q : Held WorkItem) × IsChosen 7 2 idx
    × (get_elem? two_queues.workq idx ≡ some q)
    × Acked queues two_queues asking some_item asked idx q
        (scheduler_ackwork queues two_queues asking some_item)
scheduler_ackwork-Acked_example =
    scheduler_ackwork-Acked queues two_queues asking some_item asked refl (λ e. cc) two-few

work_done_iff_example :
    (scheduler_work_done queues two_queues ≡ true)
    ↔ (AllEmpty queues two_queues.workq × AtMostOneActive two_queues.processes)
work_done_iff_example = work_done_iff queues two_queues

at_most : (m : ℕ) → pos 1 ≡ pos m → m ≤ int_max
at_most m is = let one : 1 ≡ m = cc in omega (arith, one)

-- an empty queue that takes one item
abbrev short : Held WorkItem
unfolding empty_heap
short = record {
  heap = empty_heap;
  queue = record { count = pos 0; max = pos 1; head = 0; tail = 0 };
  entries = [];
  represents = record {
    linked = tt;
    at_head = refl;
    at_tail = refl;
    counted = refl;
    unused = tt;
    not_null = omega arith;
  };
  max_int = λ m is. at_most m is;
}

abbrev one_queue : Scheduler queues
one_queue = record { processes = 1 ∷ 0 ∷ []; workq = short ∷ [] }

one_queue-Limited : Limited queues one_queue.workq
unfolding short
one_queue-Limited zero q e =
    let is_q : short ≡ q = cc in
    subst (λ q. WithinLimit (queues.limit q) (length (queues.items q))) is_q (omega arith)
one_queue-Limited (suc j) q e = cc

scheduler_ackwork-Limited_example :
    Limited queues (scheduler_ackwork queues one_queue asking some_item).0.workq
scheduler_ackwork-Limited_example =
    scheduler_ackwork-Limited queues one_queue asking some_item one_queue-Limited
