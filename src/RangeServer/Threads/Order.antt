-- ===== src/RangeServer/Threads/Order.antt =====
-- Messages are served in the order in which they come in.
use mpi_to_openshmem.Prelude.{
  ℕ, zero, suc, ◌+◌, ◌<◌, ◌≡◌, ◌≢◌, ◌∙◌, refl, false, List, [], ◌∷◌, ◌++◌, Option, none, some, ◌==◌,
  length, All, arith,
}
use mpi_to_openshmem.Uthash.{IntHash}
use mpi_to_openshmem.Floats.{Floats, Bytes}
use mpi_to_openshmem.Partitioner.Alphabet.{MdhimChar}
use mpi_to_openshmem.Partitioner.Stats.{MdhimStat}
use mpi_to_openshmem.RangeServer.Queue.{WorkItem, WorkQueue, Cells, get_work}
use mpi_to_openshmem.RangeServer.Queue.Linked.{Represents, not_null, get_work_empty, get_work_lem}
use mpi_to_openshmem.RangeServer.Records.{StoreCalls, Answer, MdhimServer}
use mpi_to_openshmem.RangeServer.Bulk.{BatchCalls}
use mpi_to_openshmem.RangeServer.Threads.{
  Work, Receipt, listening, listen, free, Outcome, next, done, crash, serve, Drained, emptied,
  ended, broken, spent, answer_first, drain,
}
use mpi_to_openshmem.RangeServer.Threads.Queued.{
  Holding, Arrives, arrived, Fresh, Holding-Preserved, Holding-Elsewhere, Represents-Elsewhere,
  free-Elsewhere, listen-Queued,
}

module _ (h : IntHash MdhimChar) (fl : Floats) (hs : IntHash (MdhimStat fl.Real))
    (store : StoreCalls) (calls : BatchCalls store) (size : ℕ) (raw : Bytes) where
  -- The messages served one after the other, up to one that ends the worker or crashes.
  pub serve_all : MdhimServer h fl hs store → List Work → Drained h fl hs store
  serve_all s [] = emptied s []
  serve_all s (w ∷ ws) = elim (serve h fl hs store calls size raw s w.0 w.1) [
    | crash ↦ broken
    | done ↦ ended []
    | next s' answer ↦ answer_first h fl hs store answer (serve_all s' ws)
  ]

  -- If all is served, the queue is left well-formed and empty.
  abbrev pub LeftEmpty : Drained h fl hs store → Cells Work → WorkQueue → Type 0
  LeftEmpty (emptied s answers) c q = Represents c q []
  LeftEmpty (ended answers) c q = Unit
  LeftEmpty broken c q = Unit
  LeftEmpty spent c q = Unit

  LeftEmpty-answer :
      (answer : Option Answer) (d : Drained h fl hs store) (c : Cells Work) (q : WorkQueue)
      → LeftEmpty d c q
      → LeftEmpty (answer_first h fl hs store answer d) c q
  unfolding answer_first
  LeftEmpty-answer none d c q left = left
  LeftEmpty-answer (some a) (emptied s answers) c q left = left
  LeftEmpty-answer (some a) (ended answers) c q left = tt
  LeftEmpty-answer (some a) broken c q left = tt
  LeftEmpty-answer (some a) spent c q left = tt

  -- The worker, from here on, does what serving the messages one after the other does.
  abbrev Drains : ℕ → Cells Work → WorkQueue → MdhimServer h fl hs store → List Work → Type 0
  Drains n c q s ws =
      (c' : Cells Work) × (q' : WorkQueue) × (drain h fl hs store calls size raw n c q s
        ≡ (serve_all s ws, c', q'))
      × LeftEmpty (serve_all s ws) c' q'

  drain_item :
      (o : Outcome h fl hs store) (n : ℕ) (c c' : Cells Work) (q q' : WorkQueue)
      (s : MdhimServer h fl hs store) (a : ℕ) (item : WorkItem Work) (w : Work) (ws : List Work)
      → serve h fl hs store calls size raw s w.0 w.1 ≡ o
      → get_work c q ≡ some (c', q', a)
      → (a == 0) ≡ false
      → c' a ≡ some item
      → item.message ≡ w
      → ((s' : MdhimServer h fl hs store) → Drains n (free c' a) q' s' ws)
      → Drains (suc n) c q s (w ∷ ws)
  unfolding drain serve_all
  drain_item crash n c c' q q' s a item w ws e taken nz there m rest =
      (c', q', rw (taken, nz, there, m, e, drain, serve_all) refl, rw (e, serve_all) tt)
  drain_item done n c c' q q' s a item w ws e taken nz there m rest =
      (c', q', rw (taken, nz, there, m, e, drain, serve_all) refl, rw (e, serve_all) tt)
  drain_item (next s' answer) n c c' q q' s a item w ws e taken nz there m rest =
      let (c2, q2, f, left) = rest s' in
      (
        c2,
        q2,
        rw (taken, nz, there, m, e, drain, serve_all) (rw f refl),
        rw (e, serve_all) (LeftEmpty-answer answer (serve_all s' ws) c2 q2 left),
      )

  drain_lem :
      (n : ℕ) (c : Cells Work) (q : WorkQueue) (s : MdhimServer h fl hs store) (es : List ℕ)
      (ws : List Work)
      → Represents c q es
      → Holding c es ws
      → length es < n
      → Drains n c q s ws
  unfolding drain serve_all
  drain_lem zero c q s es ws v held enough = absurd (omega arith)
  drain_lem (suc n) c q s [] (w ∷ ws) v held enough = elim held [ ]
  drain_lem (suc n) c q s (a ∷ es) [] v held enough = elim held [ ]
  drain_lem (suc n) c q s [] [] v held enough =
      let e = get_work_empty c q v in (c, q, rw (e, drain) refl, v)
  drain_lem (suc n) c q s (a ∷ es) (w ∷ ws) v ((item, there, m), held) enough =
      let (_, nz, _, _) = v.chain in
      let (c', q', taken, v', kept, apart) = get_work_lem c q a es v in
      let (item', there', m') = kept a item there in
      drain_item (serve h fl hs store calls size raw s w.0 w.1) n c c' q q' s a item' w ws refl
        taken (not_null a nz) there' (m' ∙ m)
        (λ s'.
          drain_lem n (free c' a) q' s' es ws
            (Represents-Elsewhere a c' (free c' a) q' es (free-Elsewhere c' a) apart v')
            (Holding-Elsewhere a c' (free c' a) es ws (free-Elsewhere c' a) apart
              (Holding-Preserved c c' es ws kept held))
            (omega arith))

  answer_first-ne-spent :
      (answer : Option Answer) (d : Drained h fl hs store)
      → d ≢ spent
      → answer_first h fl hs store answer d ≢ spent
  unfolding answer_first
  answer_first-ne-spent none d ne = ne
  answer_first-ne-spent (some a) (emptied s answers) ne = λ e. cc
  answer_first-ne-spent (some a) (ended answers) ne = λ e. cc
  answer_first-ne-spent (some a) broken ne = λ e. cc
  answer_first-ne-spent (some a) spent ne = λ e. ne refl

  abbrev after_one : Outcome h fl hs store → List Work → Drained h fl hs store
  after_one o ws = elim o [
    | crash ↦ broken
    | done ↦ ended []
    | next s' answer ↦ answer_first h fl hs store answer (serve_all s' ws)
  ]

  after_one-ne-spent :
      (o : Outcome h fl hs store) (ws : List Work)
      → ((s' : MdhimServer h fl hs store) → serve_all s' ws ≢ spent)
      → after_one o ws ≢ spent
  after_one-ne-spent crash ws ne = λ e. cc
  after_one-ne-spent done ws ne = λ e. cc
  after_one-ne-spent (next s' answer) ws ne = answer_first-ne-spent answer (serve_all s' ws) (ne s')

  serve_all-ne-spent : (s : MdhimServer h fl hs store) (ws : List Work) → serve_all s ws ≢ spent
  unfolding serve_all
  serve_all-ne-spent s [] = λ e. cc
  serve_all-ne-spent s (w ∷ ws) =
      after_one-ne-spent (serve h fl hs store calls size raw s w.0 w.1) ws
        (λ s'. serve_all-ne-spent s' ws)

  -- From a well-formed work queue whose items hold the given messages, if the listener receives
  -- work or errors, with new items that are not NULL and differ, it goes on listening, and the
  -- worker with more fuel than there were items and receipts does not run out of it: it serves the
  -- messages that were there and then those that came in, in order, each once, as serving one
  -- after the other does, up to one that ends or crashes it, and if there is none such it leaves
  -- the queue well-formed and empty.
  pub listen-drain :
      (rs : List Receipt) (c : Cells Work) (q : WorkQueue) (s : MdhimServer h fl hs store)
      (es : List ℕ) (ws : List Work) (n : ℕ)
      → Represents c q es
      → Holding c es ws
      → All (λ (r : Receipt). Arrives r.received) rs
      → Fresh es rs
      → length es + length rs < n
      → let d = serve_all s (ws ++ arrived rs) in
        (c1 : Cells Work) × (q1 : WorkQueue) × (c2 : Cells Work) × (q2 : WorkQueue) × (listen c q rs
          ≡ listening c1 q1)
        × (drain h fl hs store calls size raw n c1 q1 s ≡ (d, c2, q2))
        × (d ≢ spent)
        × LeftEmpty d c2 q2
  listen-drain rs c q s es ws n v held arrive fresh enough =
      let (c1, q1, es1, e, v1, held1, len1) = listen-Queued rs c q es ws v held arrive fresh in
      let (c2, q2, e2, left) = drain_lem n c1 q1 s es1 (ws ++ arrived rs) v1 held1 (omega arith) in
      (c1, q1, c2, q2, e, e2, serve_all-ne-spent s (ws ++ arrived rs), left)
