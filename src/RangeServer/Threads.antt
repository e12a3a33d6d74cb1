-- ===== src/RangeServer/Threads.antt =====
-- listener_thread and worker_thread of mdhimMods/src/range_server.c: messages that come in are put on
-- the work queue, and the items of the queue are served until it is empty. The waits on the mutex and
-- the condition variable are left out: the worker is followed from its first get_work that finds an item.
pub mod Queued
pub mod Order
mod Tests
use mpi_to_openshmem.Prelude.{
  ℕ, zero, suc, Bool, true, false, List, [], ◌∷◌, Option, none, some, ltb, ◌==◌, if◌then◌else◌,
}
use mpi_to_openshmem.Uthash.{IntHash}
use mpi_to_openshmem.Floats.{Floats, Bytes}
use mpi_to_openshmem.Partitioner.Alphabet.{MdhimChar}
use mpi_to_openshmem.Partitioner.Stats.{MdhimStat}
use mpi_to_openshmem.Messages.Types.{
  GetMessage, Request, put, bulk_put, get, bulk_get, del, bulk_del, commit, close, other,
}
use mpi_to_openshmem.Messages.Packing.{Result, ok, error, fault}
use mpi_to_openshmem.Messages.Transfer.{Received, work, null_work, commit_work, close_work}
use mpi_to_openshmem.RangeServer.Queue.{
  WorkItem, WorkQueue, Cells, store, range_server_add_work, get_work,
}
use mpi_to_openshmem.RangeServer.Records.{
  StoreCalls, Answer, MdhimServer, Served, served, range_server_put, range_server_get,
  range_server_del, range_server_commit,
}
use mpi_to_openshmem.RangeServer.Bulk.{
  BatchCalls, range_server_bput, range_server_bdel, range_server_bget, range_server_bget_op,
}

-- A message and its source.
abbrev pub Work : Type 0
Work = Request × ℕ

-- What receive_rangesrv_work gave, and the item that malloc then finds.
pub record Receipt : Type 0 where
  pub received : Result Received
  pub source : ℕ
  pub item : ℕ

pub data Listened : Type 0 where
  listening : Cells Work → WorkQueue → Listened
  quit : Cells Work → WorkQueue → Listened
  crashed : Listened

unfoldable pub add_item : Cells Work → WorkQueue → ℕ → Work → Listened
add_item c q a w =
    let fresh : WorkItem Work = record { message = w; next = 0; prev = 0 } in
    elim (range_server_add_work (store c a fresh) q a) [
      | none ↦ crashed
      | some (c', q') ↦ listening c' q'
    ]

-- One round of listener_thread. The type of a message that is NULL is read.
unfoldable pub listen_once : Cells Work → WorkQueue → ℕ → ℕ → Result Received → Listened
listen_once c q a source error = listening c q
listen_once c q a source fault = crashed
listen_once c q a source (ok close_work) = quit c q
listen_once c q a source (ok commit_work) = crashed
listen_once c q a source (ok null_work) = crashed
listen_once c q a source (ok (work r)) = add_item c q a (r, source)

pub listen : Cells Work → WorkQueue → List Receipt → Listened
listen c q [] = listening c q
listen c q (r ∷ rs) = elim (listen_once c q r.item r.source r.received) [
  | crashed ↦ crashed
  | quit c' q' ↦ quit c' q'
  | listening c' q' ↦ listen c' q' rs
]

-- free(item)
unfoldable pub free : Cells Work → ℕ → Cells Work
free c a = λ b. if b == a then none else c b

module _ (h : IntHash MdhimChar) (fl : Floats) (hs : IntHash (MdhimStat fl.Real))
    (store : StoreCalls) where
  -- After the switch over the type of the message: the server and the answer, if any.
  pub data Outcome : Type 0 where
    next : MdhimServer h fl hs store → Option Answer → Outcome
    done : Outcome
    crash : Outcome

  unfoldable pub outcome : Served h fl hs store → Outcome
  outcome (served s answer) = next s (some answer)
  outcome Served.fault = crash

  -- range_server_get, or range_server_bget_op for more than one record
  unfoldable pub serve_get :
      ℕ → Bytes → MdhimServer h fl hs store → GetMessage → ℕ → Served h fl hs store
  serve_get size raw s gm source =
      if ltb 1 gm.num_records
      then range_server_bget_op h fl hs store size raw s gm source gm.op
      else range_server_get h fl hs store size raw s gm source gm.op

  -- The switch of worker_thread. An unknown type is only printed.
  unfoldable pub serve :
      BatchCalls store → ℕ → Bytes → MdhimServer h fl hs store → Request → ℕ → Outcome
  serve calls size raw s (put m) source = outcome (range_server_put h fl hs store size s m source)
  serve calls size raw s (bulk_put m) source =
      outcome (range_server_bput h fl hs store calls size s m source)
  serve calls size raw s (get m) source = outcome (serve_get size raw s m source)
  serve calls size raw s (bulk_get m) source =
      outcome (range_server_bget h fl hs store size raw s m source)
  serve calls size raw s (del m) source = outcome (range_server_del h fl hs store size s m source)
  serve calls size raw s (bulk_del m) source =
      outcome (range_server_bdel h fl hs store size s m source)
  serve calls size raw s (commit m) source =
      outcome (range_server_commit h fl hs store size s m source)
  serve calls size raw s (close m) source = done
  serve calls size raw s (other m) source = next s none

  -- All items are served, with the answers in order; the worker ends; or a crash. `spent`: out of fuel.
  pub data Drained : Type 0 where
    emptied : MdhimServer h fl hs store → List Answer → Drained
    ended : List Answer → Drained
    broken : Drained
    spent : Drained

  unfoldable pub answer_first : Option Answer → Drained → Drained
  answer_first (some a) (emptied s as_) = emptied s (a ∷ as_)
  answer_first (some a) (ended as_) = ended (a ∷ as_)
  answer_first (some a) broken = broken
  answer_first (some a) spent = spent
  answer_first none d = d

  -- The inner loop of worker_thread from a call of get_work on, with fuel, and the queue it leaves.
  pub drain :
      BatchCalls store
      → ℕ
      → Bytes
      → ℕ
      → Cells Work
      → WorkQueue
      → MdhimServer h fl hs store
      → Drained × Cells Work × WorkQueue
  drain calls size raw zero c q s = (spent, c, q)
  drain calls size raw (suc n) c q s = elim (get_work c q) [
    | none ↦ (broken, c, q)
    | some (c', q', a) ↦ elim (a == 0) [
      | true ↦ (emptied s [], c', q')
      | false ↦ elim (c' a) [
        | none ↦ (broken, c', q')
        | some item ↦ elim (serve calls size raw s item.message.0 item.message.1) [
          | crash ↦ (broken, c', q')
          | done ↦ (ended [], c', q')
          | next s' answer ↦
              let (d, c2, q2) = drain calls size raw n (free c' a) q' s' in
              (answer_first answer d, c2, q2)
        ]
      ]
    ]
  ]
