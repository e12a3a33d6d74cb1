-- ===== src/RangeServer/Queue.antt =====
-- range_server_add_work and get_work of mdhimMods/src/range_server.c: a queue that is linked both ways.
-- An address is a number, 0 for NULL; `none` is a fault. The mutex and the condition variable are left
-- out: get_work's caller holds the mutex.
pub mod Linked
use mpi_to_openshmem.Prelude.{ℕ, Bool, Option, none, some, ◌==◌, if◌then◌else◌}

-- struct work_item: `message` stands for the message and its source.
pub record WorkItem (A : Type 0) : Type 0 where
  pub message : A
  pub next : ℕ
  pub prev : ℕ

pub record WorkQueue : Type 0 where
  pub head : ℕ
  pub tail : ℕ

abbrev pub Cells : Type 0 → Type 0
Cells A = ℕ → Option (WorkItem A)

module _ {A : Type 0} where
  unfoldable pub store : Cells A → ℕ → WorkItem A → Cells A
  store h a item c = if c == a then some item else h c

  -- The head that is there gets the item before it.
  link_head : Cells A → WorkQueue → ℕ → WorkItem A → Option (Cells A × WorkQueue)
  link_head h q a item = elim (h q.head) [
    | none ↦ none
    | some first ↦ some (
      store (store h q.head (record first { prev = a })) a (record item { next = q.head }),
      record q { head = a },
    )
  ]

  -- The item is the one at the address `a`.
  pub range_server_add_work : Cells A → WorkQueue → ℕ → Option (Cells A × WorkQueue)
  unfolding link_head
  range_server_add_work h q a = elim (h a) [
    | none ↦ none
    | some item ↦
        let cleared = record item { next = 0; prev = 0 } in
        let h' = store h a cleared in
        if q.head == 0 then some (h', record { head = a; tail = a }) else link_head h' q a cleared
  ]

  -- The tail and what it points to are given.
  unlink_tail : Cells A → WorkQueue → WorkItem A → Option (Cells A × WorkQueue)
  unlink_tail h q item =
      if item.prev == 0 then some (h, record { head = 0; tail = 0 }) else elim (h item.prev) [
        | none ↦ none
        | some before ↦
            some (store h item.prev (record before { next = 0 }), record q { tail = item.prev })
      ]

  -- The last part is the address of the item, 0 if there is none.
  pub get_work : Cells A → WorkQueue → Option (Cells A × WorkQueue × ℕ)
  unfolding unlink_tail
  get_work h q = if q.tail == 0 then some (h, q, 0) else elim (h q.tail) [
    | none ↦ none
    | some item ↦ elim (unlink_tail h q item) [
      | none ↦ none
      | some (h', q') ↦ some (store h' q.tail (record item { next = 0; prev = 0 }), q', q.tail)
    ]
  ]
