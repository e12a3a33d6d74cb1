-- ===== src/Pwt/Scheduler/Assign.antt =====
-- Which item scheduler_getwork assigns to which process.
use mpi_to_openshmem.Prelude.{
  ℕ, zero, suc, ◌+◌, ◌≡◌, ◌≢◌, ◌∙◌, ap, refl, List, [], ◌∷◌, Bool, true, false, Option, none, some,
  ◌⊎◌, inl, inr, All, get_elem?, is_nil, ◌==◌, Option-cases, Bool-cases, arith,
}
use mpi_to_openshmem.Pwt.WorkQueues.{WorkQueues}
use mpi_to_openshmem.Pwt.Scheduler.{
  WorkItem, Scheduler, set_status, processing_set_active, processing_get_idle, any_work, or_from,
  take_highest, scheduler_getwork, scheduler_can_assign_work,
}

-- `p` is the first process from index `i` on that is idle.
processing_get_idle-some :
    (ss : List ℕ) (i p : ℕ)
    → processing_get_idle ss i ≡ some p
    → (k : ℕ) × (p ≡ i + k) × (get_elem? ss k ≡ some 0)
unfolding processing_get_idle
processing_get_idle-some [] i p e = cc
processing_get_idle-some (s ∷ ss) i p e = elim (Bool-cases (s == 0)) [
  | inl idle ↦ (0, ground arith, ground arith)
  | inr busy ↦
      let rest : processing_get_idle ss (i + 1) ≡ some p = rw busy at e in
      let (k, at, here) = processing_get_idle-some ss (i + 1) p rest in (suc k, omega arith, here)
]

processing_get_idle-none :
    (ss : List ℕ) (i p : ℕ) → processing_get_idle ss i ≡ none → get_elem? ss p ≢ some 0
unfolding processing_get_idle
processing_get_idle-none [] i p e at = cc
processing_get_idle-none (s ∷ ss) i zero e at = elim (Bool-cases (s == 0)) [
  | inl idle ↦ (let found : some i ≡ none = rw idle at e in cc)
  | inr busy ↦
      let same : some s ≡ some 0 = at in
      let zero_there : s ≡ 0 = ground (arith, same) in absurd (grind arith)
]
processing_get_idle-none (s ∷ ss) i (suc p) e at = elim (Bool-cases (s == 0)) [
  | inl idle ↦ (let found : some i ≡ none = rw idle at e in cc)
  | inr busy ↦
      let rest : processing_get_idle ss (i + 1) ≡ none = rw busy at e in
      processing_get_idle-none ss (i + 1) p rest at
]

get_elem?-set_status_self :
    (ss : List ℕ) (p s v : ℕ) → get_elem? ss p ≡ some s → get_elem? (set_status ss p v) p ≡ some v
unfolding set_status
get_elem?-set_status_self [] p s v e = cc
get_elem?-set_status_self (s' ∷ ss) zero s v e = refl
get_elem?-set_status_self (s' ∷ ss) (suc p) s v e = get_elem?-set_status_self ss p s v e

get_elem?-set_status_ne :
    (ss : List ℕ) (p v j : ℕ) → p ≢ j → get_elem? (set_status ss p v) j ≡ get_elem? ss j
unfolding set_status
get_elem?-set_status_ne [] p v j ne = refl
get_elem?-set_status_ne (s ∷ ss) zero v zero ne = absurd (ne refl)
get_elem?-set_status_ne (s ∷ ss) zero v (suc j) ne = refl
get_elem?-set_status_ne (s ∷ ss) (suc p) v zero ne = refl
get_elem?-set_status_ne (s ∷ ss) (suc p) v (suc j) ne =
    get_elem?-set_status_ne ss p v j (λ e. ne (omega arith))

abbrev pub is_some : {A : Type 0} → Option A → Bool
is_some none = false
is_some (some a) = true

module _ (w : WorkQueues WorkItem) where
  open w use {Queue, items}

  -- `x` is the oldest item of the last queue that is not empty, and the second list is what is left.
  pub data Highest : List Queue → List Queue → WorkItem → Type 0 where
    here :
        {q q' : Queue} {qs : List Queue} {x : WorkItem} {xs : List WorkItem}
        → items q ≡ x ∷ xs
        → items q' ≡ xs
        → w.limit q' ≡ w.limit q
        → All (λ p. items p ≡ []) qs
        → Highest (q ∷ qs) (q' ∷ qs) x
    later :
        {q : Queue} {qs qs' : List Queue} {x : WorkItem}
        → Highest qs qs' x
        → Highest (q ∷ qs) (q ∷ qs') x

  abbrev pub AllEmpty : List Queue → Type 0
  AllEmpty qs = All (λ q. items q ≡ []) qs

  List-cases :
      (xs : List WorkItem) → (xs ≡ []) ⊎ ((x : WorkItem) × (ys : List WorkItem) × (xs ≡ x ∷ ys))
  List-cases [] = inl refl
  List-cases (x ∷ ys) = inr (x, ys, refl)

  abbrev Taken : List Queue → Type 0
  Taken qs =
      ((take_highest w qs ≡ (qs, none)) × (any_work w qs ≡ false) × AllEmpty qs)
      ⊎ ((x : WorkItem) × (qs' : List Queue) × (take_highest w qs ≡ (qs', some x))
          × (any_work w qs ≡ true)
          × Highest qs qs' x)

  take_highest-Taken : (qs : List Queue) → Taken qs
  unfolding take_highest any_work or_from
  take_highest-Taken [] = inl (refl, refl, tt)
  take_highest-Taken (q ∷ qs) = elim (take_highest-Taken qs) [
    | inl (e, none_left, all) ↦ elim (List-cases (items q)) [
      | inl nothing ↦
          let idle = w.is_empty_lem q ∙ ap is_nil nothing in
          inl (rw e (rw idle), rw idle none_left, (nothing, all))
      | inr (x, xs, some_there) ↦
          let (out, left, limit) = w.remove-cons q x xs some_there in
          let busy = w.is_empty_lem q ∙ ap is_nil some_there in
          inr (
            x,
            (w.remove q).0 ∷ qs,
            rw e (rw (busy, out)),
            rw busy refl,
            here some_there left limit all,
          )
    ]
    | inr (x, qs', e, more, highest) ↦ inr (x, q ∷ qs', rw e, ground (arith, more), later highest)
  ]

  -- Nothing is assigned if no process is idle or no queue holds an item, and the scheduler is left as
  -- it is. Else the oldest item of the highest queue that is not empty leaves that queue, and goes to
  -- an idle process, which becomes active while the others keep their status.
  pub data Assigned (s : Scheduler w) : Scheduler w × Option (WorkItem × ℕ) → Type 0 where
    nothing_to_do : AllEmpty s.workq → Assigned s (s, none)
    all_busy : ((p : ℕ) → get_elem? s.processes p ≢ some 0) → Assigned s (s, none)
    assigned :
        {s' : Scheduler w} {x : WorkItem} {p : ℕ}
        → Highest s.workq s'.workq x
        → get_elem? s.processes p ≡ some 0
        → get_elem? s'.processes p ≡ some 1
        → ((j : ℕ) → p ≢ j → get_elem? s'.processes j ≡ get_elem? s.processes j)
        → Assigned s (s', some (x, p))

  -- scheduler_getwork assigns nothing and leaves all as it is only if no process is idle or no
  -- queue holds an item; else the oldest item of the highest queue that is not empty goes to an
  -- idle process, which becomes active while the others keep their status.
  pub scheduler_getwork-Assigned : (s : Scheduler w) → Assigned s (scheduler_getwork w s)
  unfolding scheduler_getwork processing_set_active
  scheduler_getwork-Assigned s = elim (Option-cases (processing_get_idle s.processes 0)) [
    | inl busy ↦
        rw (busy, scheduler_getwork) (all_busy (λ p. processing_get_idle-none s.processes 0 p busy))
    | inr (p, idle) ↦ elim (take_highest-Taken s.workq) [
      | inl (e, _, all) ↦ rw (idle, scheduler_getwork) (rw e (nothing_to_do all))
      | inr (x, qs', e, _, highest) ↦
          let (k, at, status) = processing_get_idle-some s.processes 0 p idle in
          let same : p ≡ k = omega arith in
          let status' = ap (get_elem? s.processes) same ∙ status in
          rw (idle, scheduler_getwork)
            (rw e (
              assigned highest status' (get_elem?-set_status_self s.processes p 0 1 status')
                (get_elem?-set_status_ne s.processes p 1)))
    ]
  ]

  -- scheduler_canAssignWork is true exactly if scheduler_getwork gives an item and a process.
  pub can_assign-getwork :
      (s : Scheduler w) → scheduler_can_assign_work w s ≡ is_some (scheduler_getwork w s).1
  unfolding scheduler_can_assign_work scheduler_getwork
  can_assign-getwork s = elim (Option-cases (processing_get_idle s.processes 0)) [
    | inl busy ↦ rw (busy, scheduler_getwork) (ground arith)
    | inr (p, idle) ↦ elim (take_highest-Taken s.workq) [
      | inl (e, nothing, _) ↦ rw (idle, scheduler_getwork) (rw (e, nothing) refl)
      | inr (x, qs', e, more, _) ↦ rw (idle, scheduler_getwork) (rw (e, more) refl)
    ]
  ]
