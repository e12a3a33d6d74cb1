-- ===== src/Pwt/Scheduler.antt =====
-- pftool-new-test/src/pwt/scheduler.c and workreq.c: which item goes to which worker process. The
-- queues are those of `WorkQueues`, the highest index first. Messages to and from a worker
-- (send_workitem, get_workitem) are a result and an argument.
pub mod Requests
pub mod Assign
pub mod Done
pub mod Limits
mod Tests
use mpi_to_openshmem.Prelude.{
  ℕ, zero, suc, ◌+◌, ◌-◌, ◌*◌, List, [], ◌∷◌, Bool, true, false, ◌&&◌, not, Option, none, some, ltb,
  leb, ◌==◌, if◌then◌else◌, length, get_elem?,
}
use mpi_to_openshmem.Prelude.Int.{ℤ, pos, negsuc}
use mpi_to_openshmem.Pwt.WorkQueues.{WorkQueues}

-- workreq.h
abbrev pub deadlock_limit : ℕ
deadlock_limit = 16

-- struct work_request: `type` is a constructor of `Workdata`.
pub record WorkRequest : Type 0 where
  pub sleep_seconds : ℕ

pub workreq_accept : WorkRequest → WorkRequest
workreq_accept wr = record { sleep_seconds = 0 }

pub workreq_deny : WorkRequest → WorkRequest
workreq_deny wr =
    if wr.sleep_seconds == 0
    then record { sleep_seconds = 2 }
    else if ltb wr.sleep_seconds deadlock_limit
    then record { sleep_seconds = wr.sleep_seconds * 2 }
    else wr

pub workreq_is_deadlocked : Option WorkRequest → Bool
workreq_is_deadlocked none = false
workreq_is_deadlocked (some wr) = leb deadlock_limit wr.sleep_seconds

pub workreq_not_accepted : Option WorkRequest → ℕ
workreq_not_accepted none = 0
workreq_not_accepted (some wr) = wr.sleep_seconds

-- What `workdata` points to: nothing, a WorkRequest, or something else.
pub data Workdata : Type 0 where
  null : Workdata
  request : WorkRequest → Workdata
  other : Workdata

-- The parts of struct work_item that are read here. A negative qidx, which indexes outside the array, is left out.
pub record WorkItem : Type 0 where
  pub originator : ℕ
  pub qidx : ℕ
  pub workdata : Workdata

-- The statuses of the processes, 0 for idle.
pub processing_initialize : ℕ → List ℕ
processing_initialize zero = []
processing_initialize (suc n) = 0 ∷ processing_initialize n

-- Writing outside the array is undefined, and changes nothing here.
pub set_status : List ℕ → ℕ → ℕ → List ℕ
set_status [] i v = []
set_status (s ∷ ss) zero v = v ∷ ss
set_status (s ∷ ss) (suc i) v = s ∷ set_status ss i v

pub processing_set_active : List ℕ → ℕ → List ℕ
unfolding set_status
processing_set_active ss i = set_status ss i 1

pub processing_set_idle : List ℕ → ℕ → List ℕ
unfolding set_status
processing_set_idle ss i = set_status ss i 0

-- Over the statuses from index `i` on; `none` is the -1 of the code.
pub processing_get_idle : List ℕ → ℕ → Option ℕ
processing_get_idle [] i = none
processing_get_idle (s ∷ ss) i =
    let rest = processing_get_idle ss (i + 1) in if s == 0 then some i else rest

pub count_active : List ℕ → ℕ → ℕ
count_active [] count = count
count_active (s ∷ ss) count = count_active ss (if s == 1 then count + 1 else count)

pub processing_complete : List ℕ → Bool
processing_complete ss = leb (count_active ss 0) 1

module _ (w : WorkQueues WorkItem) where
  open w use {Queue}

  -- process_count and workq_count are the lengths of the two arrays.
  pub record Scheduler : Type 0 where
    pub processes : List ℕ
    pub workq : List Queue

  -- Is some queue not empty?
  pub any_work : List Queue → Bool
  any_work [] = false
  any_work (q ∷ qs) = if not (w.is_empty q) then true else any_work qs

  pub scheduler_can_assign_work : Scheduler → Bool
  scheduler_can_assign_work s =
      if any_work s.workq
      then elim (processing_get_idle s.processes 0) [ none ↦ false | some i ↦ true ]
      else false

  pub scheduler_work_done : Scheduler → Bool
  scheduler_work_done s = if any_work s.workq then false else processing_complete s.processes

  -- The loop of scheduler_getwork, from the last queue down: the first item that a queue gives.
  or_from : Queue → List Queue × Option WorkItem → List Queue × Option WorkItem
  or_from q (qs, some item) = (q ∷ qs, some item)
  or_from q (qs, none) =
      if not (w.is_empty q) then ((w.remove q).0 ∷ qs, (w.remove q).1) else (q ∷ qs, none)

  pub take_highest : List Queue → List Queue × Option WorkItem
  unfolding or_from
  take_highest [] = ([], none)
  take_highest (q ∷ qs) = or_from q (take_highest qs)

  assign : Scheduler → ℕ → List Queue × Option WorkItem → Scheduler × Option (WorkItem × ℕ)
  assign s idle_proc (qs, none) = (record s { workq = qs }, none)
  assign s idle_proc (qs, some work) = (
    record { processes = processing_set_active s.processes idle_proc; workq = qs },
    some (work, idle_proc),
  )

  -- The item with the rank of the process that is to do it, or NULL and -1.
  pub scheduler_getwork : Scheduler → Scheduler × Option (WorkItem × ℕ)
  unfolding assign
  scheduler_getwork s = elim (processing_get_idle s.processes 0) [
    | none ↦ (s, none)
    | some idle_proc ↦ assign s idle_proc (take_highest s.workq)
  ]

  pub scheduler_set_processidle : Scheduler → ℕ → Scheduler
  scheduler_set_processidle s proc_num = record s {
    processes = processing_set_idle s.processes proc_num;
  }

  -- the highest queue for an index past the end
  pub queue_index : ℕ → List Queue → ℕ
  queue_index qidx qs = if leb (length qs) qidx then length qs - 1 else qidx

  pub add_at : List Queue → ℕ → WorkItem → List Queue
  add_at [] i item = []
  add_at (q ∷ qs) zero item = w.add q item ∷ qs
  add_at (q ∷ qs) (suc i) item = q ∷ add_at qs i item

  -- The item that goes back to the worker is the last part. `newwork` is what the worker sends then.
  answer : Scheduler → WorkItem → WorkItem → WorkRequest → ℕ → Queue → Scheduler × Option WorkItem
  answer s item newwork r idx q =
      if w.is_full q then (s, some (record item { workdata = request (workreq_deny r) })) else (
        record s { workq = add_at s.workq idx newwork },
        some (record item { workdata = request (workreq_accept r) }),
      )

  ack_request : Scheduler → WorkItem → WorkItem → Workdata → Scheduler × Option WorkItem
  unfolding answer
  ack_request s item newwork (request r) =
      let idx = queue_index item.qidx s.workq in
      elim (get_elem? s.workq idx) [ none ↦ (s, none) | some q ↦ answer s item newwork r idx q ]
  ack_request s item newwork data' = (s, none)

  pub scheduler_ackwork : Scheduler → WorkItem → WorkItem → Scheduler × Option WorkItem
  unfolding ack_request
  scheduler_ackwork s item newwork = ack_request s item newwork item.workdata

  pub has_request : Workdata → Bool
  has_request (request r) = true
  has_request _ = false

  pub scheduler_addwork : Scheduler → WorkItem → WorkItem → Scheduler × Option WorkItem
  scheduler_addwork s item newwork =
      if has_request item.workdata
      then scheduler_ackwork s item newwork
      else (record s { workq = add_at s.workq (queue_index item.qidx s.workq) item }, none)

-- the loop over workq_new
new_queues : (w : WorkQueues WorkItem) → w.Queue → ℕ → List w.Queue
new_queues w empty zero = []
new_queues w empty (suc n) = empty ∷ new_queues w empty n

-- scheduler_new, for `nproc` processes, `nqueues` queues and the calling rank, over an empty queue.
pub scheduler_new : (w : WorkQueues WorkItem) → w.Queue → ℕ → ℕ → ℕ → Scheduler w
unfolding new_queues
scheduler_new w empty nproc nqueues rank = record {
  processes = processing_set_active (processing_initialize nproc) rank;
  workq = new_queues w empty (if nqueues == 0 then 1 else nqueues);
}
