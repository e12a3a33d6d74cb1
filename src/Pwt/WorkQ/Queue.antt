-- ===== src/Pwt/WorkQ/Queue.antt =====
-- The operations of the queue against a list of items: first in, first out.
use mathlib.Core.Path.{subst}
use mpi_to_openshmem.Prelude.{
  ℕ, suc, ◌+◌, ◌<◌, ◌≡◌, ◌≢◌, refl, sym, ap, [], ◌∷◌, ◌++◌, Option, none, some, if◌then◌else◌,
  ne→==, length, length-append, arith, false,
}
use mpi_to_openshmem.Prelude.Int.{pos, suc_ℤ}
use mpi_to_openshmem.Pwt.WorkQ.{
  WorkQEntry, WorkQ, Heap, update, malloc, free, link_tail, is_zero, workq_add, unlink_head,
  workq_remove, int_max, is_int_max,
}
use mpi_to_openshmem.Pwt.WorkQ.Linked.{
  Entries, first, last, Represents, Linked, Below, Linked-update, Linked-snoc, Below-snoc,
  Below-Apart, last-snoc,
}

module _ {A : Type 0} where
  last-ne-zero :
      (f : ℕ → Option (WorkQEntry A)) (c : ℕ × A) (es : Entries A)
      → Linked f (c ∷ es)
      → last (c ∷ es) ≢ 0
  last-ne-zero f (a, x) [] l = omega arith
  last-ne-zero f (a, x) (d ∷ r) l = last-ne-zero f d r l.3

  first-snoc :
      (q : WorkQ) (n : ℕ) (x : A) (es : Entries A)
      → q.count ≡ pos (length es)
      → q.head ≡ first es
      → (if is_zero q.count then n else q.head) ≡ first (es ++ (n, x) ∷ [])
  unfolding is_zero
  first-snoc q n x [] c e = rw c
  first-snoc q n x (d ∷ r) c e = rw c e

  update_self :
      (f : ℕ → Option (WorkQEntry A)) (p : ℕ) (v : Option (WorkQEntry A)) → update f p v p ≡ v
  update_self f p v = ground arith

  link_tail_lem :
      (h : Heap A) (tail end n : ℕ) (y : A)
      → tail ≡ end
      → end ≢ 0
      → h.cell end ≡ some (record { item = y; next = 0 })
      → link_tail h tail n
        ≡ some (record h { cell = update h.cell end (some (record { item = y; next = n })) })
  unfolding link_tail
  link_tail_lem h tail end n y e ne here =
      subst
        (λ t.
          link_tail h t n
          ≡ some (record h { cell = update h.cell end (some (record { item = y; next = n })) }))
        (sym e) (rw (ne→== _ _ ne) (rw here))

  -- The entry is linked behind the last one, and the list that results is well linked.
  link_tail-Linked :
      (h : Heap A) (tail : ℕ) (es : Entries A) (x : A)
      → tail ≡ last es
      → 0 < h.fresh
      → Below h.fresh es
      → Linked h.cell es
      → (h' : Heap A) × (link_tail (malloc h (record { item = x; next = 0 })).1 tail h.fresh
          ≡ some h')
        × (h'.fresh ≡ h.fresh + 1)
        × Linked h'.cell (es ++ (h.fresh, x) ∷ [])
  unfolding link_tail
  link_tail-Linked h tail [] x e pos_n b l =
      ((malloc h (record { item = x; next = 0 })).1, rw e, refl, (ground arith, pos_n, tt, tt))
  link_tail-Linked h tail (c ∷ es) x e pos_n b l =
      let n = h.fresh in
      let h' = (malloc h (record { item = x; next = 0 })).1 in
      let kept =
        Linked-update h.cell n (some (record { item = x; next = 0 })) (c ∷ es)
          (Below-Apart n (c ∷ es) b) l in
      let (y, here, linked) =
        Linked-snoc h'.cell n x c es pos_n
          (update_self h.cell n (some (record { item = x; next = 0 }))) b kept in
      (
        record h' { cell = update h'.cell (last (c ∷ es)) (some (record { item = y; next = n })) },
        link_tail_lem h' tail (last (c ∷ es)) n y e (last-ne-zero h'.cell c es kept) here,
        refl,
        linked,
      )

  -- Adding an item to a well-formed queue of less than INT_MAX items gives a well-formed queue with the item at its end and
  -- the limit as it was.
  pub workq_add-Represents :
      (h : Heap A) (q : WorkQ) (es : Entries A) (x : A)
      → Represents h q es
      → length es < int_max
      → (h' : Heap A) × (q' : WorkQ) × (workq_add h (some q) (some x) ≡ some (h', some q'))
        × Represents h' q' (es ++ (h.fresh, x) ∷ [])
        × (q'.max ≡ q.max)
  unfolding workq_add
  workq_add-Represents h q es x v few =
      let in_int : is_int_max q.count ≡ false = rw v.counted (grind arith) in
      let (h', e, grown, linked) =
        link_tail-Linked h q.tail es x v.at_tail v.not_null v.unused v.linked in
      let n = h.fresh in
      (
        h',
        record q { count = suc_ℤ q.count; head = if is_zero q.count then n else q.head; tail = n },
        rw (in_int, workq_add) (rw e refl),
        record {
          linked = linked;
          at_head = first-snoc q n x es v.counted v.at_head;
          at_tail = sym (last-snoc n x es);
          counted = rw (v.counted, length-append es ((n, x) ∷ [])) (ap pos (omega arith));
          unused = rw grown (Below-snoc n x es v.unused);
          not_null = omega arith;
        },
        refl,
      )

  unlink_head_lem :
      (q : WorkQ) (a : ℕ) (x : A) (es : Entries A)
      → q.count ≡ pos (suc (length es))
      → q.tail ≡ last ((a, x) ∷ es)
      → let q' = unlink_head q (record { item = x; next = first es }) in
        (q'.head ≡ first es) × (q'.tail ≡ last es) × (q'.count ≡ pos (length es)) × (q'.max ≡ q.max)
  unfolding unlink_head
  unlink_head_lem q a x [] c t = ground arith
  unlink_head_lem q a x (d ∷ r) c t = ground arith

  workq_remove_at :
      (h : Heap A) (q : WorkQ) (e : WorkQEntry A)
      → q.head ≢ 0
      → h.cell q.head ≡ some e
      → workq_remove h (some q) ≡ some (free h q.head, some (unlink_head q e), some e.item)
  unfolding workq_remove
  workq_remove_at h q e ne here = rw (ne→== _ _ ne) (rw here)

  -- Removing takes the item of the first entry, frees the entry, and leaves the others.
  pub workq_remove-Represents :
      (h : Heap A) (q : WorkQ) (a : ℕ) (x : A) (es : Entries A)
      → Represents h q ((a, x) ∷ es)
      → (workq_remove h (some q)
          ≡ some (free h a, some (unlink_head q (record { item = x; next = first es })), some x))
        × Represents (free h a) (unlink_head q (record { item = x; next = first es })) es
        × ((unlink_head q (record { item = x; next = first es })).max ≡ q.max)
  workq_remove-Represents h q a x es v =
      let e : WorkQEntry A = record { item = x; next = first es } in
      let parts = unlink_head_lem q a x es v.counted v.at_tail in
      (
        subst (λ p. workq_remove h (some q) ≡ some (free h p, some (unlink_head q e), some x))
            v.at_head
            (workq_remove_at h q e (omega (arith, v.at_head, v.linked.1))
              (rw v.at_head v.linked.0)),
        record {
          linked = Linked-update h.cell a none es v.linked.2 v.linked.3;
          at_head = parts.0;
          at_tail = parts.1;
          counted = parts.2;
          unused = v.unused.1;
          not_null = v.not_null;
        },
        parts.3,
      )

  -- Nothing is added for a NULL item.
  pub workq_add_null : (h : Heap A) (q : WorkQ) → workq_add h (some q) none ≡ some (h, some q)
  unfolding workq_add
  workq_add_null h q = refl

  -- An empty queue gives NULL and is left as it is.
  pub workq_remove_empty :
      (h : Heap A) (q : WorkQ)
      → Represents {A = A} h q []
      → workq_remove h (some q) ≡ some (h, some q, none)
  unfolding workq_remove
  workq_remove_empty h q v = rw v.at_head
