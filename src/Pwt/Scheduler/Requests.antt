-- ===== src/Pwt/Scheduler/Requests.antt =====
-- Work requests: how often a worker is denied, and what scheduler_ackwork does with its request.
use mathlib.Core.Path.{subst}
use mpi_to_openshmem.Prelude.{
  ℕ, ◌≤◌, zero, suc, ◌-◌, ◌<◌, ◌≡◌, ◌≢◌, ap, refl, List, [], ◌∷◌, ◌++◌, true, false, Option, some,
  leb, length, get_elem?, Bool-cases, inl, inr, arith, sym,
}
use mpi_to_openshmem.Pwt.WorkQ.{int_max}
use mpi_to_openshmem.Pwt.WorkQ.History.{reached}
use mpi_to_openshmem.Pwt.WorkQueues.{WorkQueues}
use mpi_to_openshmem.Pwt.Scheduler.{
  WorkItem, WorkRequest, request, workreq_accept, workreq_deny, workreq_is_deadlocked, Scheduler,
  queue_index, add_at, answer, ack_request, scheduler_ackwork,
}

-- `n` requests of one worker that are all denied, after one that was accepted
pub denied : ℕ → WorkRequest → WorkRequest
denied zero wr = workreq_accept wr
denied (suc n) wr = workreq_deny (denied n wr)

deny_top : (wr : WorkRequest) → wr.sleep_seconds ≡ 16 → (workreq_deny wr).sleep_seconds ≡ 16
unfolding workreq_deny
deny_top wr e = ground arith

-- From the fourth denial on the worker is told to sleep 16 seconds.
denied-sleep : (n : ℕ) (wr : WorkRequest) → (denied (suc (suc (suc (suc n)))) wr).sleep_seconds ≡ 16
unfolding denied workreq_accept workreq_deny
denied-sleep zero wr = refl
denied-sleep (suc n) wr = deny_top (denied (suc (suc (suc (suc n)))) wr) (denied-sleep n wr)

-- A worker that is denied sees a deadlock at its fourth denial in a row and at each one after it,
-- and not before.
pub denied-deadlock :
    (n : ℕ) (wr : WorkRequest) → workreq_is_deadlocked (some (denied n wr)) ≡ leb 4 n
unfolding workreq_is_deadlocked denied workreq_accept workreq_deny
denied-deadlock zero wr = refl
denied-deadlock (suc zero) wr = refl
denied-deadlock (suc (suc zero)) wr = refl
denied-deadlock (suc (suc (suc zero))) wr = refl
denied-deadlock (suc (suc (suc (suc n)))) wr = let e = denied-sleep n wr in ground arith

pub get_elem?-add_at_ne :
    (w : WorkQueues WorkItem) (qs : List w.Queue) (i j : ℕ) (x : WorkItem)
    → i ≢ j
    → get_elem? (add_at w qs i x) j ≡ get_elem? qs j
unfolding add_at
get_elem?-add_at_ne w [] i j x ne = refl
get_elem?-add_at_ne w (q ∷ qs) zero zero x ne = absurd (ne refl)
get_elem?-add_at_ne w (q ∷ qs) zero (suc j) x ne = refl
get_elem?-add_at_ne w (q ∷ qs) (suc i) zero x ne = refl
get_elem?-add_at_ne w (q ∷ qs) (suc i) (suc j) x ne =
    get_elem?-add_at_ne w qs i j x (λ e. ne (ap suc e))

pub get_elem?-add_at_self :
    (w : WorkQueues WorkItem) (qs : List w.Queue) (i : ℕ) (q : w.Queue) (x : WorkItem)
    → get_elem? qs i ≡ some q
    → get_elem? (add_at w qs i x) i ≡ some (w.add q x)
unfolding add_at
get_elem?-add_at_self w [] i q x e = cc
get_elem?-add_at_self w (q' ∷ qs) zero q x e = cc
get_elem?-add_at_self w (q' ∷ qs) (suc i) q x e = get_elem?-add_at_self w qs i q x e

get_elem?-below :
    {A : Type 0} → (i : ℕ) (xs : List A) → i < length xs → (x : A) × (get_elem? xs i ≡ some x)
get_elem?-below i [] b = absurd (omega arith)
get_elem?-below zero (x ∷ xs) b = (x, refl)
get_elem?-below (suc i) (x ∷ xs) b = get_elem?-below i xs (omega arith)

queue_index_lem :
    (w : WorkQueues WorkItem) (qs : List w.Queue) (i : ℕ)
    → qs ≢ []
    → (q : w.Queue) × (get_elem? qs (queue_index w i qs) ≡ some q)
unfolding queue_index
queue_index_lem w [] i ne = absurd (ne refl)
queue_index_lem w (q ∷ qs) i ne = elim (Bool-cases (leb (length (q ∷ qs)) i)) [
  | inl past ↦ rw past (get_elem?-below (length (q ∷ qs) - 1) (q ∷ qs) (omega arith))
  | inr within ↦ rw within (get_elem?-below i (q ∷ qs) (grind arith))
]

-- `idx` is the index asked for if there is such a queue, and else the last one's.
abbrev pub IsChosen : ℕ → ℕ → ℕ → Type 0
IsChosen asked n idx = (asked < n → idx ≡ asked) × (n ≤ asked → suc idx ≡ n)

queue_index-IsChosen :
    (w : WorkQueues WorkItem) (i : ℕ) (qs : List w.Queue)
    → qs ≢ []
    → IsChosen i (length qs) (queue_index w i qs)
unfolding queue_index
queue_index-IsChosen w i [] ne = absurd (ne refl)
queue_index-IsChosen w i (q ∷ qs) ne = elim (Bool-cases (leb (length (q ∷ qs)) i)) [
  | inl past ↦ rw past ((λ below. absurd (grind arith)), λ over. omega arith)
  | inr within ↦ rw within ((λ below. refl), λ over. absurd (grind arith))
]

module _ (w : WorkQueues WorkItem) where
  open w use {Queue, items, limit}

  -- The two answers to a request `r` in `item`, where `q` is the queue it is about, at `idx`.
  pub data Acked (s : Scheduler w) (item newwork : WorkItem) (r : WorkRequest) (idx : ℕ) (q : Queue)
      : Scheduler w × Option WorkItem → Type 0 where
    refused :
        reached (limit q) (length (items q)) ≡ true
        → Acked s item newwork r idx q
            (s, some (record item { workdata = request (workreq_deny r) }))
    accepted :
        {s' : Scheduler w} {q' : Queue}
        → reached (limit q) (length (items q)) ≡ false
        → s'.processes ≡ s.processes
        → get_elem? s'.workq idx ≡ some q'
        → items q' ≡ items q ++ newwork ∷ []
        → limit q' ≡ limit q
        → ((j : ℕ) → idx ≢ j → get_elem? s'.workq j ≡ get_elem? s.workq j)
        → Acked s item newwork r idx q
            (s', some (record item { workdata = request (workreq_accept r) }))

  answer-Acked :
      (s : Scheduler w) (item newwork : WorkItem) (r : WorkRequest) (idx : ℕ) (q : Queue)
      → get_elem? s.workq idx ≡ some q
      → length (items q) < int_max
      → Acked s item newwork r idx q (answer w s item newwork r idx q)
  unfolding answer
  answer-Acked s item newwork r idx q at few = elim (Bool-cases (w.is_full q)) [
    | inl full ↦ rw full (refused (rw (w.is_full_lem q) at full))
    | inr room ↦ rw room (
        accepted (rw (w.is_full_lem q) at room) refl
          (get_elem?-add_at_self w s.workq idx q newwork at) (w.items-add q newwork few)
          (w.limit-add q newwork) (λ j. get_elem?-add_at_ne w s.workq idx j newwork))
  ]

  -- If there are queues and none holds INT_MAX items, a work request is answered from the queue of
  -- its index, or the last one if the index is past the end: a queue that has reached its limit
  -- stays as it is and the worker is denied; else the item sent then is the newest of that queue
  -- and no other queue changes.
  pub scheduler_ackwork-Acked :
      (s : Scheduler w) (item newwork : WorkItem) (r : WorkRequest)
      → item.workdata ≡ request r
      → s.workq ≢ []
      → ((j : ℕ) (q : Queue) → get_elem? s.workq j ≡ some q → length (items q) < int_max)
      → (idx : ℕ) × (q : Queue) × IsChosen item.qidx (length s.workq) idx
        × (get_elem? s.workq idx ≡ some q)
        × Acked s item newwork r idx q (scheduler_ackwork w s item newwork)
  unfolding scheduler_ackwork ack_request
  scheduler_ackwork-Acked s item newwork r e some_queue few =
      let (q, at) = queue_index_lem w s.workq item.qidx some_queue in
      let idx = queue_index w item.qidx s.workq in
      let acked : Acked s item newwork r idx q (ack_request w s item newwork (request r)) =
        rw (at, ack_request) (answer-Acked s item newwork r idx q at (few idx q at)) in
      (
        idx,
        q,
        queue_index-IsChosen w item.qidx s.workq some_queue,
        at,
        subst (λ d. Acked s item newwork r idx q (ack_request w s item newwork d)) (sym e) acked,
      )
