-- ===== src/Pwt/WorkQ.antt =====
-- pftool-new-test/src/pwt/workq.c: a queue of work items, as a linked list of entries on the heap.
-- An address is a number, 0 for NULL. Reading or writing through an address that is not allocated is
-- a fault, `none`, and so is a count that overflows. malloc gives an address that was never used; the code does not test for NULL.
pub mod Linked
pub mod Queue
pub mod History
pub mod Delete
mod Tests
use mpi_to_openshmem.Prelude.{
  ℕ, zero, suc, ◌+◌, Bool, true, false, ◌&&◌, not, List, [], ◌∷◌, Option, none, some, ◌==◌,
  if◌then◌else◌,
}
use mpi_to_openshmem.Prelude.Int.{ℤ, pos, negsuc, ltb_ℤ, pred_ℤ, suc_ℤ}

-- INT_MAX
abbrev pub int_max : ℕ
int_max = 2147483647

abbrev pub is_int_max : ℤ → Bool
is_int_max (pos n) = n == int_max
is_int_max (negsuc _) = false

-- WorkQEntry
pub record WorkQEntry (A : Type 0) : Type 0 where
  pub item : A
  pub next : ℕ

-- WorkQ: two ints and two addresses; `max` below 0 is no limit.
pub record WorkQ : Type 0 where
  pub count : ℤ
  pub max : ℤ
  pub head : ℕ
  pub tail : ℕ

-- The entries that are allocated, and the next address that malloc gives.
pub record Heap (A : Type 0) : Type 0 where
  pub fresh : ℕ
  pub cell : ℕ → Option (WorkQEntry A)

pub is_zero : ℤ → Bool
is_zero (pos zero) = true
is_zero _ = false

unfoldable pub workq_new : WorkQ
workq_new = record { count = pos 0; max = negsuc 0; head = 0; tail = 0 }

pub workq_empty : Option WorkQ → Bool
unfolding is_zero
workq_empty none = true
workq_empty (some q) = is_zero q.count && (q.head == 0)

-- q && q->max >= 0 && q->max <= q->count
pub workq_full : Option WorkQ → Bool
workq_full none = false
workq_full (some q) = not (ltb_ℤ q.max (pos 0)) && not (ltb_ℤ q.count q.max)

pub workq_set_max : Option WorkQ → ℤ → Option WorkQ
workq_set_max none l = none
workq_set_max (some q) l = some (record q { max = l })

module _ {A : Type 0} where
  abbrev pub update :
      (ℕ → Option (WorkQEntry A)) → ℕ → Option (WorkQEntry A) → ℕ → Option (WorkQEntry A)
  update f p v a = if p == a then v else f a

  abbrev pub malloc : Heap A → WorkQEntry A → ℕ × Heap A
  malloc h e = (h.fresh, record h { fresh = h.fresh + 1; cell = update h.cell h.fresh (some e) })

  abbrev pub free : Heap A → ℕ → Heap A
  free h p = record h { cell = update h.cell p none }

  -- if (q->tail) q->tail->next = nentry
  pub link_tail : Heap A → ℕ → ℕ → Option (Heap A)
  link_tail h tail nentry = if tail == 0 then some h else elim (h.cell tail) [
    | none ↦ none
    | some e ↦ some (record h { cell = update h.cell tail (some (record e { next = nentry })) })
  ]

  -- Nothing is done if the queue or the item is NULL.
  pub workq_add : Heap A → Option WorkQ → Option A → Option (Heap A × Option WorkQ)
  workq_add h none item = some (h, none)
  workq_add h (some q) none = some (h, some q)
  workq_add h (some q) (some item) =
      let (nentry, h') = malloc h (record { item = item; next = 0 }) in
      let added = elim (link_tail h' q.tail nentry) as (λ _. Option (Heap A × Option WorkQ)) [
        | none ↦ none
        | some h'' ↦ some (
          h'',
          some (record q {
            count = suc_ℤ q.count;
            head = if is_zero q.count then nentry else q.head;
            tail = nentry;
          }),
        )
      ] in
      if is_int_max q.count then none else added

  -- The queue after its entry `e` was taken off its head.
  pub unlink_head : WorkQ → WorkQEntry A → WorkQ
  unlink_head q e =
      if ltb_ℤ (pos 0) (pred_ℤ q.count)
      then record q { head = e.next; count = pred_ℤ q.count }
      else record q { head = e.next; tail = e.next; count = pos 0 }

  -- The last part is the item, or NULL.
  pub workq_remove : Heap A → Option WorkQ → Option (Heap A × Option WorkQ × Option A)
  workq_remove h none = some (h, none, none)
  workq_remove h (some q) = if q.head == 0 then some (h, some q, none) else elim (h.cell q.head) [
    | none ↦ none
    | some e ↦ some (free h q.head, some (unlink_head q e), some e.item)
  ]

  -- workitem_del does nothing for NULL.
  pub deleted : Option A → Option (Heap A × List A) → Option (Heap A × List A)
  deleted w none = none
  deleted none (some (h, ws)) = some (h, ws)
  deleted (some w) (some (h, ws)) = some (h, w ∷ ws)

  -- The loop of workq_del. It tells which items were deleted, in order; `none` is a fault or the end
  -- of the fuel. What is left is a queue to be freed, or NULL.
  pub delete_all : ℕ → Heap A → Option WorkQ → Option (Heap A × List A)
  delete_all zero h q = none
  delete_all (suc fuel) h q = elim (workq_empty q) [
    | true ↦ some (h, [])
    | false ↦ elim (workq_remove h q) [
      | none ↦ none
      | some (h', q', w) ↦ deleted w (delete_all fuel h' q')
    ]
  ]
