-- ===== src/Pwt/WorkQ/History.antt =====
-- Whole histories of calls on a queue, and its tests, against a list of items.
use mpi_to_openshmem.Prelude.{
  ℕ, suc, ◌≡◌, ◌∙◌, sym, ap, List, [], ◌∷◌, ◌++◌, Bool, false, Option, none, some, is_nil, leb,
  length, arith, refl, ◌+◌, ◌≤◌, length-append,
}
use mpi_to_openshmem.Prelude.Int.{ℤ, pos, negsuc}
use mpi_to_openshmem.Pwt.WorkQ.{
  WorkQ, Heap, is_zero, workq_empty, workq_full, workq_add, workq_remove, int_max,
}
use mpi_to_openshmem.Pwt.WorkQ.Linked.{Entries, items, Represents}
use mpi_to_openshmem.Pwt.WorkQ.Queue.{
  workq_add-Represents, workq_remove-Represents, workq_remove_empty, workq_add_null,
}

-- A call of workq_add, with the item or NULL, or of workq_remove.
pub data Call (A : Type 0) : Type 0 where
  adds : Option A → Call A
  removes : Call A

-- The limit is there, and `n` items reach it.
unfoldable pub reached : ℤ → ℕ → Bool
reached (pos max) n = leb max n
reached (negsuc _) n = false

full_at : (q : WorkQ) (n : ℕ) → q.count ≡ pos n → workq_full (some q) ≡ reached q.max n
unfolding workq_full reached
full_at q n c = ground arith

module _ {A : Type 0} where
  abbrev reply : Option A → Option (List (Option A)) → Option (List (Option A))
  reply item none = none
  reply item (some out) = some (item ∷ out)

  -- What the calls of workq_remove return in turn; `none` is a fault.
  pub run : Heap A → Option WorkQ → List (Call A) → Option (List (Option A))
  run h q [] = some []
  run h q (adds item ∷ calls) = elim (workq_add h q item) [
    | none ↦ none
    | some (h', q') ↦ run h' q' calls
  ]
  run h q (removes ∷ calls) = elim (workq_remove h q) [
    | none ↦ none
    | some (h', q', item) ↦ reply item (run h' q' calls)
  ]

  -- The same of a list, oldest item first.
  pub fifo : List A → List (Call A) → List (Option A)
  fifo xs [] = []
  fifo xs (adds none ∷ calls) = fifo xs calls
  fifo xs (adds (some x) ∷ calls) = fifo (xs ++ x ∷ []) calls
  fifo [] (removes ∷ calls) = none ∷ fifo [] calls
  fifo (x ∷ xs) (removes ∷ calls) = some x ∷ fifo xs calls

  pub items-append : (es fs : Entries A) → items (es ++ fs) ≡ items es ++ items fs
  items-append [] fs = refl
  items-append ((a, x) ∷ es) fs = ap (◌∷◌ x) (items-append es fs)

  pub length-items : (es : Entries A) → length (items es) ≡ length es
  length-items [] = refl
  length-items ((a, x) ∷ es) = ap suc (length-items es)

  -- How many items the calls add.
  abbrev pub number_added : List (Call A) → ℕ
  number_added [] = 0
  number_added (adds none ∷ calls) = number_added calls
  number_added (adds (some x) ∷ calls) = suc (number_added calls)
  number_added (removes ∷ calls) = number_added calls

  -- Every sequence of workq_add and workq_remove calls on a well-formed queue, whose items and the
  -- added ones are together at most INT_MAX, runs without a fault and returns what a first-in
  -- first-out list returns.
  pub run-fifo :
      (h : Heap A) (q : WorkQ) (es : Entries A) (calls : List (Call A))
      → Represents h q es
      → length es + number_added calls ≤ int_max
      → run h (some q) calls ≡ some (fifo (items es) calls)
  unfolding run fifo
  run-fifo h q es [] v few = refl
  run-fifo h q es (adds none ∷ calls) v few =
      rw (workq_add_null h q, run) (run-fifo h q es calls v few)
  run-fifo h q es (adds (some x) ∷ calls) v few =
      let (h', q', e, v', _) = workq_add-Represents h q es x v (omega arith) in
      let longer : length (es ++ (h.fresh, x) ∷ []) ≡ suc (length es) =
        length-append es ((h.fresh, x) ∷ []) ∙ omega arith in
      rw (e, run)
        (rw (← items-append es ((h.fresh, x) ∷ []))
          (run-fifo h' q' (es ++ (h.fresh, x) ∷ []) calls v' (omega (arith, longer))))
  run-fifo h q [] (removes ∷ calls) v few =
      rw (workq_remove_empty h q v, run) (rw (run-fifo h q [] calls v few))
  run-fifo h q ((a, x) ∷ es) (removes ∷ calls) v few =
      let (e, v', _) = workq_remove-Represents h q a x es v in
      rw (e, run) (rw (run-fifo _ _ es calls v' (omega arith)))

  -- On a well-formed queue workq_empty tells whether there are no items, and workq_full whether
  -- the limit is not negative and the number of items has reached it.
  pub workq_tests :
      (h : Heap A) (q : WorkQ) (es : Entries A)
      → Represents h q es
      → (workq_empty (some q) ≡ is_nil (items es))
        × (workq_full (some q) ≡ reached q.max (length (items es)))
  unfolding workq_empty is_zero
  workq_tests h q [] v = (ground arith, full_at q 0 v.counted)
  workq_tests h q ((a, x) ∷ es) v =
      (ground arith, full_at q _ (v.counted ∙ ap pos (ap suc (sym (length-items es)))))
