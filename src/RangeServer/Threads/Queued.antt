-- ===== src/RangeServer/Threads/Queued.antt =====
-- Messages that come in are put on the work queue in order.
use mathlib.Core.Path.{subst}
use mathlib.Core.List.{append-nil, append_assoc}
use mpi_to_openshmem.Prelude.{
  ℕ, ◌+◌, ◌≤◌, ◌≡◌, ◌≢◌, ◌∙◌, sym, ap, refl, List, [], ◌∷◌, ◌++◌, some, length, length-append, All,
  arith,
}
use mpi_to_openshmem.Messages.Packing.{Result, ok, error, fault}
use mpi_to_openshmem.Messages.Transfer.{Received, work, null_work, commit_work, close_work}
use mpi_to_openshmem.RangeServer.Queue.{WorkItem, WorkQueue, Cells, store, range_server_add_work}
use mpi_to_openshmem.RangeServer.Queue.Linked.{
  Apart, Chain, Represents, Preserved, Apart-snoc, add_work_lem,
}
use mpi_to_openshmem.RangeServer.Threads.{
  Work, Receipt, Listened, listening, add_item, listen_once, listen, free,
}

-- The items at the addresses hold those messages.
abbrev pub Holding : Cells Work → List ℕ → List Work → Type 0
Holding c [] [] = Unit
Holding c [] (w ∷ ws) = ⊥
Holding c (a ∷ es) [] = ⊥
Holding c (a ∷ es) (w ∷ ws) =
    ((item : WorkItem Work) × (c a ≡ some item) × (item.message ≡ w)) × Holding c es ws

pub Holding-Preserved :
    (c c' : Cells Work) (es : List ℕ) (ws : List Work)
    → Preserved c c'
    → Holding c es ws
    → Holding c' es ws
Holding-Preserved c c' [] [] p held = tt
Holding-Preserved c c' [] (w ∷ ws) p held = held
Holding-Preserved c c' (a ∷ es) [] p held = held
Holding-Preserved c c' (a ∷ es) (w ∷ ws) p ((item, e, m), held) =
    let (item', e', m') = p a item e in ((item', e', m' ∙ m), Holding-Preserved c c' es ws p held)

-- Cells that differ only at an address that is not in the list.
abbrev pub Elsewhere : ℕ → Cells Work → Cells Work → Type 0
Elsewhere a c c' = (b : ℕ) → a ≢ b → c' b ≡ c b

pub Holding-Elsewhere :
    (a : ℕ) (c c' : Cells Work) (es : List ℕ) (ws : List Work)
    → Elsewhere a c c'
    → Apart a es
    → Holding c es ws
    → Holding c' es ws
Holding-Elsewhere a c c' [] [] same apart held = tt
Holding-Elsewhere a c c' [] (w ∷ ws) same apart held = held
Holding-Elsewhere a c c' (b ∷ es) [] same apart held = held
Holding-Elsewhere a c c' (b ∷ es) (w ∷ ws) same (ne, apart) ((item, e, m), held) =
    ((item, same b ne ∙ e, m), Holding-Elsewhere a c c' es ws same apart held)

Chain-Elsewhere :
    (a : ℕ) (c c' : Cells Work) (n : ℕ) (es : List ℕ)
    → Elsewhere a c c'
    → Apart a es
    → Chain c n es
    → Chain c' n es
Chain-Elsewhere a c c' n [] same apart chain = tt
Chain-Elsewhere a c c' n (b ∷ es) same (ne, apart) ((m, e), nz, apart', chain) =
    ((m, same b ne ∙ e), nz, apart', Chain-Elsewhere a c c' b es same apart chain)

pub Represents-Elsewhere :
    (a : ℕ) (c c' : Cells Work) (q : WorkQueue) (es : List ℕ)
    → Elsewhere a c c'
    → Apart a es
    → Represents c q es
    → Represents c' q es
Represents-Elsewhere a c c' q es same apart v = record {
  chain = Chain-Elsewhere a c c' 0 es same apart v.chain;
  at_head = v.at_head;
  at_tail = v.at_tail;
}

pub free-Elsewhere : (c : Cells Work) (a : ℕ) → Elsewhere a c (free c a)
unfolding free
free-Elsewhere c a b ne = ground arith

store-Elsewhere : (c : Cells Work) (a : ℕ) (i : WorkItem Work) → Elsewhere a c (store c a i)
unfolding store
store-Elsewhere c a i b ne = ground arith

store_here : (c : Cells Work) (a : ℕ) (i : WorkItem Work) → store c a i a ≡ some i
unfolding store
store_here c a i = ground arith

Holding-snoc :
    (c : Cells Work) (es : List ℕ) (ws : List Work) (x : ℕ) (item : WorkItem Work) (w : Work)
    → Holding c es ws
    → c x ≡ some item
    → item.message ≡ w
    → Holding c (es ++ x ∷ []) (ws ++ w ∷ [])
Holding-snoc c [] [] x item w held e m = ((item, e, m), tt)
Holding-snoc c [] (w' ∷ ws) x item w held e m = elim held [ ]
Holding-snoc c (a ∷ es) [] x item w held e m = elim held [ ]
Holding-snoc c (a ∷ es) (w' ∷ ws) x item w (here, held) e m =
    (here, Holding-snoc c es ws x item w held e m)

-- The listener got work, or MDHIM_ERROR.
abbrev pub Arrives : Result Received → Type 0
Arrives error = Unit
Arrives fault = ⊥
Arrives (ok (work r)) = Unit
Arrives (ok close_work) = ⊥
Arrives (ok commit_work) = ⊥
Arrives (ok null_work) = ⊥

-- The messages that came in, in order; the errors are left out.
abbrev pub with_work : Result Received → ℕ → List Work → List Work
with_work (ok (work r)) source ws = (r, source) ∷ ws
with_work other source ws = ws

abbrev pub arrived : List Receipt → List Work
arrived [] = []
arrived (r ∷ rs) = with_work r.received r.source (arrived rs)

-- The items are no NULL, and differ from each other and from those of the list.
abbrev pub Fresh : List ℕ → List Receipt → Type 0
Fresh es [] = Unit
Fresh es (r ∷ rs) =
    (r.item ≢ 0) × Apart r.item es × All (λ (r' : Receipt). r.item ≢ r'.item) rs × Fresh es rs

Fresh-snoc :
    (es : List ℕ) (x : ℕ) (rs : List Receipt)
    → Fresh es rs
    → All (λ (r : Receipt). x ≢ r.item) rs
    → Fresh (es ++ x ∷ []) rs
Fresh-snoc es x [] fresh differ = tt
Fresh-snoc es x (r ∷ rs) (nz, apart, others, fresh) (ne, differ) =
    (nz, Apart-snoc r.item x es apart (λ e. ne (sym e)), others, Fresh-snoc es x rs fresh differ)

-- The work is in the queue, behind what was there.
abbrev pub Queued : Listened → ℕ → List Work → Type 0
Queued l n ws =
    (c : Cells Work) × (q : WorkQueue) × (es : List ℕ) × (l ≡ listening c q)
    × Represents c q es
    × Holding c es ws
    × (length es ≤ n)

add_item_lem :
    (c : Cells Work) (q : WorkQueue) (a : ℕ) (w : Work) (c' : Cells Work) (q' : WorkQueue)
    → range_server_add_work (store c a (record { message = w; next = 0; prev = 0 })) q a
      ≡ some (c', q')
    → add_item c q a w ≡ listening c' q'
unfolding add_item
add_item_lem c q a w c' q' e = rw (e, add_item) refl

add_item-Queued :
    (c : Cells Work) (q : WorkQueue) (es : List ℕ) (ws : List Work) (a : ℕ) (w : Work)
    → Represents c q es
    → Holding c es ws
    → a ≢ 0
    → Apart a es
    → (c' : Cells Work) × (q' : WorkQueue) × (add_item c q a w ≡ listening c' q')
      × Represents c' q' (es ++ a ∷ [])
      × Holding c' (es ++ a ∷ []) (ws ++ w ∷ [])
add_item-Queued c q es ws a w v held nz apart =
    let fresh : WorkItem Work = record { message = w; next = 0; prev = 0 } in
    let c1 = store c a fresh in
    let elsewhere = store-Elsewhere c a fresh in
    let here = store_here c a fresh in
    let (c', q', e, v', kept) =
      add_work_lem c1 q a fresh es (Represents-Elsewhere a c c1 q es elsewhere apart v) here nz
        apart in
    let (item', there, m) = kept a fresh here in
    (
      c',
      q',
      add_item_lem c q a w c' q' e,
      v',
      Holding-snoc c' es ws a item' w
          (Holding-Preserved c1 c' es ws kept (Holding-Elsewhere a c c1 es ws elsewhere apart held))
          there m,
    )

arrived_first :
    (x : Result Received) (source : ℕ) (ws rest : List Work)
    → (ws ++ with_work x source []) ++ rest ≡ ws ++ with_work x source rest
arrived_first (ok (work r)) source ws rest = append_assoc ws ((r, source) ∷ []) rest
arrived_first (ok null_work) source ws rest = ap (λ l. l ++ rest) (append-nil ws)
arrived_first (ok commit_work) source ws rest = ap (λ l. l ++ rest) (append-nil ws)
arrived_first (ok close_work) source ws rest = ap (λ l. l ++ rest) (append-nil ws)
arrived_first error source ws rest = ap (λ l. l ++ rest) (append-nil ws)
arrived_first fault source ws rest = ap (λ l. l ++ rest) (append-nil ws)

listen_once-Queued :
    (x : Result Received) (source a : ℕ) (c : Cells Work) (q : WorkQueue) (es : List ℕ)
    (ws : List Work)
    → Represents c q es
    → Holding c es ws
    → Arrives x
    → a ≢ 0
    → Apart a es
    → (c' : Cells Work) × (q' : WorkQueue) × (es' : List ℕ) × (listen_once c q a source x
        ≡ listening c' q')
      × Represents c' q' es'
      × Holding c' es' (ws ++ with_work x source [])
      × (length es' ≤ length es + 1)
      × ((rs : List Receipt) → Fresh es rs → All (λ (r : Receipt). a ≢ r.item) rs → Fresh es' rs)
unfolding listen_once
listen_once-Queued (ok (work r)) source a c q es ws v held arrives nz apart =
    let (c', q', e, v', held') = add_item-Queued c q es ws a (r, source) v held nz apart in
    (
      c',
      q',
      es ++ a ∷ [],
      e,
      v',
      held',
      omega (arith, length-append es (a ∷ [])),
      λ rs fresh differ. Fresh-snoc es a rs fresh differ,
    )
listen_once-Queued error source a c q es ws v held arrives nz apart =
    (c, q, es, refl, v, rw append-nil held, omega arith, λ rs fresh differ. fresh)
listen_once-Queued (ok null_work) source a c q es ws v held arrives nz apart = elim arrives [ ]
listen_once-Queued (ok commit_work) source a c q es ws v held arrives nz apart = elim arrives [ ]
listen_once-Queued (ok close_work) source a c q es ws v held arrives nz apart = elim arrives [ ]
listen_once-Queued fault source a c q es ws v held arrives nz apart = elim arrives [ ]

listen_first :
    (c : Cells Work) (q : WorkQueue) (r : Receipt) (rs : List Receipt) (c' : Cells Work)
    (q' : WorkQueue)
    → listen_once c q r.item r.source r.received ≡ listening c' q'
    → listen c q (r ∷ rs) ≡ listen c' q' rs
unfolding listen
listen_first c q r rs c' q' e = rw (e, listen) refl

pub listen-Queued :
    (rs : List Receipt) (c : Cells Work) (q : WorkQueue) (es : List ℕ) (ws : List Work)
    → Represents c q es
    → Holding c es ws
    → All (λ (r : Receipt). Arrives r.received) rs
    → Fresh es rs
    → Queued (listen c q rs) (length es + length rs) (ws ++ arrived rs)
unfolding listen
listen-Queued [] c q es ws v held arrive fresh =
    (c, q, es, refl, v, rw append-nil held, omega arith)
listen-Queued (r ∷ rs) c q es ws v held (arrives, arrive) (nz, apart, others, fresh) =
    let (c1, q1, es1, e, v1, held1, len1, still) =
      listen_once-Queued r.received r.source r.item c q es ws v held arrives nz apart in
    let (c2, q2, es2, e2, v2, held2, len2) =
      listen-Queued rs c1 q1 es1 (ws ++ with_work r.received r.source []) v1 held1 arrive
        (still rs fresh others) in
    (
      c2,
      q2,
      es2,
      listen_first c q r rs c1 q1 e ∙ e2,
      v2,
      subst (Holding c2 es2) (arrived_first r.received r.source ws (arrived rs)) held2,
      omega arith,
    )
