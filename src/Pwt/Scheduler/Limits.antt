-- ===== src/Pwt/Scheduler/Limits.antt =====
-- The limits of the work queues, which work requests are there to keep.
use mpi_to_openshmem.Prelude.{
  ℕ, suc, ◌≤◌, ◌≡◌, ◌∙◌, ap, sym, List, [], ◌∷◌, ◌++◌, false, some, length, length-append,
  get_elem?, Bool-cases, Option-cases, inl, inr, arith, ◌==◌, ◌<◌, refl,
}
use mpi_to_openshmem.Pwt.WorkQ.{int_max}
use mathlib.Core.Path.{subst}
use mpi_to_openshmem.Prelude.Int.{ℤ, pos, negsuc}
use mpi_to_openshmem.Pwt.WorkQ.History.{reached}
use mpi_to_openshmem.Pwt.WorkQueues.{WorkQueues}
use mpi_to_openshmem.Pwt.Scheduler.{
  WorkItem, Workdata, null, request, other, Scheduler, queue_index, add_at, answer, ack_request,
  scheduler_ackwork,
}
use mpi_to_openshmem.Pwt.Scheduler.Requests.{get_elem?-add_at_ne, get_elem?-add_at_self}

-- A negative limit is none.
abbrev pub WithinLimit : ℤ → ℕ → Type 0
WithinLimit (pos max) n = n ≤ max
WithinLimit (negsuc _) n = Unit

not_reached : (max : ℤ) (n : ℕ) → reached max n ≡ false → WithinLimit max (suc n)
unfolding reached
not_reached (pos max) n e = grind arith
not_reached (negsuc _) n e = tt

module _ (w : WorkQueues WorkItem) where
  open w use {Queue, items, limit}

  abbrev pub Limited : List Queue → Type 0
  Limited qs =
      (j : ℕ) (q : Queue) → get_elem? qs j ≡ some q → WithinLimit (limit q) (length (items q))

  add-WithinLimit :
      (q : Queue) (x : WorkItem)
      → w.is_full q ≡ false
      → WithinLimit (limit (w.add q x)) (length (items (w.add q x)))
  add-WithinLimit q x room =
      let below = sym (w.is_full_lem q) ∙ room in
      rw (w.limit-add q x) (at (limit q) (λ m is. w.limit_int q m is) below)
    where
      at :
          (l : ℤ)
          → ((m : ℕ) → l ≡ pos m → m ≤ int_max)
          → reached l (length (items q)) ≡ false
          → WithinLimit l (length (items (w.add q x)))
      at (negsuc n) fits below = tt
      at (pos max) fits below =
          let less : suc (length (items q)) ≤ max =
            not_reached (pos max) (length (items q)) below in
          let longer : length (items q ++ x ∷ []) ≡ suc (length (items q)) =
            length-append (items q) (x ∷ []) ∙ omega arith in
          let few : length (items q) < int_max = omega (arith, fits max refl) in
          rw (w.items-add q x few, longer) less

  add_at-Limited :
      (qs : List Queue) (i : ℕ) (q : Queue) (x : WorkItem)
      → get_elem? qs i ≡ some q
      → w.is_full q ≡ false
      → Limited qs
      → Limited (add_at w qs i x)
  add_at-Limited qs i q x at room limited j p at' = elim (Bool-cases (i == j)) [
    | inl here ↦
        let same : j ≡ i = grind arith in
        let found =
          sym (get_elem?-add_at_self w qs i q x at)
          ∙ ap (get_elem? (add_at w qs i x)) (sym same)
          ∙ at' in
        let is_p : w.add q x ≡ p = cc in
        subst (λ p. WithinLimit (limit p) (length (items p))) is_p (add-WithinLimit q x room)
    | inr apart ↦ limited j p (sym (get_elem?-add_at_ne w qs i j x (λ e. grind arith)) ∙ at')
  ]

  ack_request-Limited :
      (s : Scheduler w) (item newwork : WorkItem) (d : Workdata)
      → Limited s.workq
      → Limited (ack_request w s item newwork d).0.workq
  unfolding ack_request answer
  ack_request-Limited s item newwork null limited = limited
  ack_request-Limited s item newwork other limited = limited
  ack_request-Limited s item newwork (request r) limited =
      elim (Option-cases (get_elem? s.workq (queue_index w item.qidx s.workq))) [
        | inl none_there ↦ rw (none_there, ack_request) limited
        | inr (q, at) ↦ elim (Bool-cases (w.is_full q)) [
          | inl full ↦ rw (at, full, ack_request) limited
          | inr room ↦
              rw (at, room, ack_request)
                (add_at-Limited s.workq (queue_index w item.qidx s.workq) q newwork at room limited)
        ]
      ]

  -- scheduler_ackwork takes no queue past its limit: if each queue with a limit that is not
  -- negative holds at most that many items, so it is after.
  pub scheduler_ackwork-Limited :
      (s : Scheduler w) (item newwork : WorkItem)
      → Limited s.workq
      → Limited (scheduler_ackwork w s item newwork).0.workq
  unfolding scheduler_ackwork
  scheduler_ackwork-Limited s item newwork limited =
      ack_request-Limited s item newwork item.workdata limited
