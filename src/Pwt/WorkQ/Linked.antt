-- ===== src/Pwt/WorkQ/Linked.antt =====
-- When the heap holds a queue with given entries, and what the changes of the heap do to it.
use mpi_to_openshmem.Prelude.{
  ℕ, ◌+◌, ◌<◌, ◌≡◌, ◌≢◌, refl, List, [], ◌∷◌, ◌++◌, Option, some, ne→==, All, length, arith,
}
use mpi_to_openshmem.Prelude.Int.{pos}
use mpi_to_openshmem.Pwt.WorkQ.{WorkQEntry, WorkQ, Heap, update}

-- the addresses of entries with their items
abbrev pub Entries : Type 0 → Type 0
Entries A = List (ℕ × A)

module _ {A : Type 0} where
  abbrev pub first : Entries A → ℕ
  first [] = 0
  first ((a, x) ∷ r) = a

  abbrev pub last : Entries A → ℕ
  last [] = 0
  last ((a, x) ∷ []) = a
  last (c ∷ d ∷ r) = last (d ∷ r)

  abbrev pub items : Entries A → List A
  items [] = []
  items ((a, x) ∷ r) = x ∷ items r

  -- `a` is the address of no entry.
  abbrev pub Apart : ℕ → Entries A → Type 0
  Apart a r = All (λ c. c.0 ≢ a) r

  abbrev pub Below : ℕ → Entries A → Type 0
  Below n r = All (λ c. c.0 < n) r

  -- The entries are allocated at their addresses, which differ, and each points to the next.
  abbrev pub Linked : (ℕ → Option (WorkQEntry A)) → Entries A → Type 0
  Linked f [] = Unit
  Linked f ((a, x) ∷ r) =
      (f a ≡ some (record { item = x; next = first r })) × (0 < a) × Apart a r × Linked f r

  pub record Represents (h : Heap A) (q : WorkQ) (es : Entries A) : Type 0 where
    pub linked : Linked h.cell es
    pub at_head : q.head ≡ first es
    pub at_tail : q.tail ≡ last es
    pub counted : q.count ≡ pos (length es)
    pub unused : Below h.fresh es
    pub not_null : 0 < h.fresh

  pub Linked-update :
      (f : ℕ → Option (WorkQEntry A)) (p : ℕ) (v : Option (WorkQEntry A)) (es : Entries A)
      → Apart p es
      → Linked f es
      → Linked (update f p v) es
  Linked-update f p v [] ap l = tt
  Linked-update f p v ((a, x) ∷ r) ap l = (ground arith, l.1, l.2, Linked-update f p v r ap.1 l.3)

  pub Below-Apart : (n : ℕ) (es : Entries A) → Below n es → Apart n es
  Below-Apart n [] b = tt
  Below-Apart n (c ∷ r) b = (omega arith, Below-Apart n r b.1)

  pub Below-mono : (n : ℕ) (es : Entries A) → Below n es → Below (n + 1) es
  Below-mono n [] b = tt
  Below-mono n (c ∷ r) b = (omega arith, Below-mono n r b.1)

  pub Below-snoc : (n : ℕ) (x : A) (es : Entries A) → Below n es → Below (n + 1) (es ++ (n, x) ∷ [])
  Below-snoc n x [] b = (omega arith, tt)
  Below-snoc n x (c ∷ r) b = (omega arith, Below-snoc n x r b.1)

  Apart-snoc : (a n : ℕ) (x : A) (es : Entries A) → n ≢ a → Apart a es → Apart a (es ++ (n, x) ∷ [])
  Apart-snoc a n x [] ne ap = (ne, tt)
  Apart-snoc a n x (c ∷ r) ne ap = (ap.0, Apart-snoc a n x r ne ap.1)

  pub last-snoc : (n : ℕ) (x : A) (es : Entries A) → last (es ++ (n, x) ∷ []) ≡ n
  last-snoc n x [] = refl
  last-snoc n x (c ∷ []) = refl
  last-snoc n x (c ∷ d ∷ r) = last-snoc n x (d ∷ r)

  last-Apart : (a : ℕ) (e : ℕ × A) (es : Entries A) → Apart a (e ∷ es) → last (e ∷ es) ≢ a
  last-Apart a e [] ap = ap.0
  last-Apart a e (d ∷ r) ap = last-Apart a d r ap.1

  -- The last entry is made to point to the new one at `n`.
  pub Linked-snoc :
      (f : ℕ → Option (WorkQEntry A)) (n : ℕ) (x : A) (e : ℕ × A) (es : Entries A)
      → 0 < n
      → f n ≡ some (record { item = x; next = 0 })
      → Below n (e ∷ es)
      → Linked f (e ∷ es)
      → (y : A) × (f (last (e ∷ es)) ≡ some (record { item = y; next = 0 }))
        × Linked
            (update f (last (e ∷ es)) (some (record { item = y; next = n })))
            ((e ∷ es) ++ (n, x) ∷ [])
  Linked-snoc f n x (a, z) [] pos_n at_n b l =
      (z, l.0, (ground arith, l.1, (omega arith, tt), (ground arith, pos_n, tt, tt)))
  Linked-snoc f n x (a, z) ((a', z') ∷ r) pos_n at_n b l =
      let (y, here, rest) = Linked-snoc f n x (a', z') r pos_n at_n b.1 l.3 in
      (
        y,
        here,
        (
          rw (ne→== _ _ (last-Apart a (a', z') r l.2)) l.0,
          l.1,
          Apart-snoc a n x ((a', z') ∷ r) (omega arith) l.2,
          rest,
        ),
      )
