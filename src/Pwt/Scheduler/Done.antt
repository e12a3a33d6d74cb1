-- ===== src/Pwt/Scheduler/Done.antt =====
-- When scheduler_work_done says that the work is done.
use mpi_to_openshmem.Prelude.{
  ℕ, zero, suc, ◌+◌, ◌≤◌, ◌≡◌, ◌≢◌, ap, refl, List, [], ◌∷◌, true, false, some, ◌==◌, get_elem?,
  is_nil, Bool-cases, inl, inr, ◌↔◌, arith, sym, ◌∙◌,
}
use mpi_to_openshmem.Pwt.WorkQueues.{WorkQueues}
use mpi_to_openshmem.Pwt.Scheduler.{
  WorkItem, Scheduler, any_work, count_active, processing_complete, scheduler_work_done,
}
use mpi_to_openshmem.Pwt.Scheduler.Assign.{AllEmpty}

-- No two processes are active.
abbrev pub AtMostOneActive : List ℕ → Type 0
AtMostOneActive ss = (i j : ℕ) → get_elem? ss i ≡ some 1 → get_elem? ss j ≡ some 1 → i ≡ j

abbrev NoneActive : List ℕ → Type 0
NoneActive ss = (i : ℕ) → ¬ (get_elem? ss i ≡ some 1)

-- The count goes on from where it starts.
count_active_add : (ss : List ℕ) (n : ℕ) → count_active ss n ≡ n + count_active ss 0
unfolding count_active
count_active_add [] n = omega arith
count_active_add (s ∷ ss) n = elim (Bool-cases (s == 1)) [
  | inl active ↦ rw active (rw (count_active_add ss (n + 1), count_active_add ss 1) (omega arith))
  | inr other ↦ rw other (count_active_add ss n)
]

count-NoneActive : (ss : List ℕ) → count_active ss 0 ≡ 0 → NoneActive ss
unfolding count_active
count-NoneActive [] e i at = cc
count-NoneActive (s ∷ ss) e i at = elim (Bool-cases (s == 1)) [
  | inl active ↦
      let counted : count_active ss 1 ≡ 0 = rw active at e in
      let more = count_active_add ss 1 in omega arith
  | inr other ↦
      let rest : count_active ss 0 ≡ 0 = rw other at e in
      elim i as (λ i. ¬ (get_elem? (s ∷ ss) i ≡ some 1)) [
        | zero ↦ λ at. grind arith
        | suc i ↦ λ at. count-NoneActive ss rest i at
      ]
        at
]

NoneActive-count : (ss : List ℕ) → NoneActive ss → count_active ss 0 ≡ 0
unfolding count_active
NoneActive-count [] f = refl
NoneActive-count (s ∷ ss) f = elim (Bool-cases (s == 1)) [
  | inl active ↦ absurd (f 0 (grind arith))
  | inr other ↦ rw other (NoneActive-count ss (λ i. f (suc i)))
]

first_only : (s : ℕ) (ss : List ℕ) (i : ℕ) → get_elem? (s ∷ ss) i ≡ some 1 → NoneActive ss → i ≡ 0
first_only s ss zero at f = refl
first_only s ss (suc i) at f = absurd (f i at)

behind :
    (s : ℕ) (ss : List ℕ) (i j : ℕ)
    → get_elem? (s ∷ ss) i ≡ some 1
    → get_elem? (s ∷ ss) j ≡ some 1
    → s ≢ 1
    → AtMostOneActive ss
    → i ≡ j
behind s ss zero j at at' ne f = absurd (ne cc)
behind s ss (suc i) zero at at' ne f = absurd (ne cc)
behind s ss (suc i) (suc j) at at' ne f = ap suc (f i j at at')

complete-AtMostOneActive : (ss : List ℕ) → count_active ss 0 ≤ 1 → AtMostOneActive ss
unfolding count_active
complete-AtMostOneActive [] e i j at at' = cc
complete-AtMostOneActive (s ∷ ss) e i j at at' = elim (Bool-cases (s == 1)) [
  | inl active ↦
      let counted : count_active ss 1 ≤ 1 = rw active at e in
      let more = count_active_add ss 1 in
      let others = count-NoneActive ss (omega arith) in
      first_only s ss i at others ∙ sym (first_only s ss j at' others)
  | inr other ↦ behind s ss i j at at' (grind arith) (complete-AtMostOneActive ss (rw other at e))
]

zero-suc : (i : ℕ) → ¬ (zero ≡ suc i)
zero-suc i e = omega arith

suc-cancel : {i j : ℕ} → suc i ≡ suc j → i ≡ j
suc-cancel e = omega arith

AtMostOneActive-complete : (ss : List ℕ) → AtMostOneActive ss → count_active ss 0 ≤ 1
unfolding count_active
AtMostOneActive-complete [] f = omega arith
AtMostOneActive-complete (s ∷ ss) f = elim (Bool-cases (s == 1)) [
  | inl active ↦
      let alone : NoneActive ss = λ i at. zero-suc i (f 0 (suc i) (grind arith) at) in
      let nothing = NoneActive-count ss alone in
      let more = count_active_add ss 1 in rw active (omega arith)
  | inr other ↦
      rw other (AtMostOneActive-complete ss (λ i j at at'. suc-cancel (f (suc i) (suc j) at at')))
]

nil-is_nil : {A : Type 0} → (xs : List A) → is_nil xs ≡ true → xs ≡ []
nil-is_nil [] e = refl
nil-is_nil (x ∷ xs) e = cc

module _ (w : WorkQueues WorkItem) where
  open w use {Queue, items}

  any_work-AllEmpty : (qs : List Queue) → (any_work w qs ≡ false) ↔ AllEmpty w qs
  unfolding any_work
  any_work-AllEmpty [] = (λ e. tt, λ e. refl)
  any_work-AllEmpty (q ∷ qs) =
      let (to, from) = any_work-AllEmpty qs in
      elim (Bool-cases (w.is_empty q)) [
        | inl e ↦ (
          λ none_left. (nil-is_nil (items q) (sym (w.is_empty_lem q) ∙ e), to (rw e at none_left)),
          λ (_, all). rw e (from all),
        )
        | inr e ↦ (
          λ none_left. cc,
          λ (nothing, _). let bad = sym e ∙ w.is_empty_lem q ∙ ap is_nil nothing in cc,
        )
      ]

  -- scheduler_workDone is true exactly if all queues are empty and no two processes are active.
  pub work_done_iff :
      (s : Scheduler w)
      → (scheduler_work_done w s ≡ true) ↔ (AllEmpty w s.workq × AtMostOneActive s.processes)
  unfolding scheduler_work_done processing_complete
  work_done_iff s = (
    λ done. elim (Bool-cases (any_work w s.workq)) [
      | inl more ↦ cc
      | inr nothing ↦ (
        (any_work-AllEmpty s.workq).0 nothing,
        complete-AtMostOneActive s.processes (grind arith),
      )
    ],
    λ (all, one).
        let nothing = (any_work-AllEmpty s.workq).1 all in
        let few = AtMostOneActive-complete s.processes one in rw nothing (ground arith),
  )
