-- ===== src/Client/Bulk/Sorted.antt =====
-- Each record is in the message of its range server, in order.
use mathlib.Core.List.{append-nil, append_assoc}
use mpi_to_openshmem.Prelude.{
  ℕ, ◌+◌, ◌-◌, ◌≤◌, ◌≡◌, ◌∙◌, sym, ap, refl, inl, inr, Bool, true, false, ◌&&◌, not, List, [], ◌∷◌,
  ◌++◌, Option, none, some, Bool-cases, ltb, leb, ◌==◌, length, All, if◌then◌else◌, arith,
}
use mpi_to_openshmem.Uthash.{IntHash}
use mpi_to_openshmem.Floats.{Floats}
use mpi_to_openshmem.Partitioner.Alphabet.{MdhimChar}
use mpi_to_openshmem.Partitioner.Servers.{RangesrvInfo}
use mpi_to_openshmem.Partitioner.Stats.{MdhimStat}
use mpi_to_openshmem.Partitioner.Cursor.{Mdhim, get_range_server}
use mpi_to_openshmem.Messages.Types.{Data}
use mpi_to_openshmem.RangeServer.Bulk.{max_bulk_ops}
use mpi_to_openshmem.Client.Bulk.{
  BulkMessage, BulkList, no_messages, add_record, set_place, add_to_list, given, sort_records,
  bulk_messages,
}

-- The server's place is in the array.
abbrev pub Inside : ℕ → Option RangesrvInfo → Type 0
Inside n none = Unit
Inside n (some ri) = (1 ≤ ri.rangesrv_num) × (ri.rangesrv_num ≤ n)

-- The server is this process, or another with the place.
abbrev pub is_own : ℕ → RangesrvInfo → Bool
is_own mdhim_rank ri = ri.rank == mdhim_rank

abbrev pub is_at : ℕ → ℕ → RangesrvInfo → Bool
is_at mdhim_rank i ri = not (ri.rank == mdhim_rank) && (ri.rangesrv_num == i + 1)

module _ {A : Type 0} where
  abbrev seconds : List (ℕ × A) → List A
  seconds [] = []
  seconds ((rank, a) ∷ rest) = a ∷ seconds rest

  -- The message with those records, each given with the rank of its server; NULL if there are none.
  abbrev pub message_of : List (ℕ × A) → Option (BulkMessage A)
  message_of [] = none
  message_of ((rank, a) ∷ rest) = some (record { server_rank = rank; records = a ∷ seconds rest })

  -- Records are added one after the other.
  extend : Option (BulkMessage A) → List (ℕ × A) → Option (BulkMessage A)
  extend o [] = o
  extend o ((rank, a) ∷ rest) = extend (some (add_record o rank a)) rest

  extend-some :
      (m : BulkMessage A) (l : List (ℕ × A))
      → extend (some m) l ≡ some (record m { records = m.records ++ seconds l })
  unfolding extend add_record
  extend-some m [] = ap (λ r. some (record m { records = r })) (sym (append-nil m.records))
  extend-some m ((rank, a) ∷ rest) =
      extend-some (record m { records = m.records ++ a ∷ [] }) rest
      ∙ ap (λ r. some (record m { records = r })) (append_assoc m.records (a ∷ []) (seconds rest))

  extend-none : (l : List (ℕ × A)) → extend none l ≡ message_of l
  unfolding extend add_record
  extend-none [] = refl
  extend-none ((rank, a) ∷ rest) =
      extend-some (record { server_rank = rank; records = a ∷ [] }) rest

  abbrev if_sent : Bool → ℕ × A → List (ℕ × A) → List (ℕ × A)
  if_sent b r rest = if b then r ∷ rest else rest

  set_place_lem :
      (l : BulkList A) (mdhim_rank i : ℕ) (ri : RangesrvInfo) (a : A) (rest : List (ℕ × A))
      → 1 ≤ ri.rangesrv_num
      → (ri.rank == mdhim_rank) ≡ false
      → extend ((set_place l (ri.rangesrv_num - 1) ri.rank a).places i) rest
        ≡ extend (l.places i) (if_sent (is_at mdhim_rank i ri) (ri.rank, a) rest)
  unfolding set_place extend
  set_place_lem l mdhim_rank i ri a rest low there =
      let at = ri.rangesrv_num - 1 in
      elim (Bool-cases (i == at)) [
        | inl same ↦
            let numbered : (ri.rangesrv_num == i + 1) ≡ true = grind arith in
            let e : at ≡ i = grind arith in
            rw (there, same, numbered)
              (ap (λ k. extend (some (add_record (l.places k) ri.rank a)) rest) e)
        | inr apart ↦
            let numbered : (ri.rangesrv_num == i + 1) ≡ false = grind arith in
            rw (there, apart, numbered) refl
      ]

  -- What one record does to every place.
  add_to_list_lem :
      (n mdhim_rank : ℕ) (ri : RangesrvInfo) (a : A) (l : BulkList A)
      → Inside n (some ri)
      → (l' : BulkList A) × (add_to_list n mdhim_rank ri a l ≡ some l')
        × ((i : ℕ) (rest : List (ℕ × A))
            → extend (l'.places i) rest
              ≡ extend (l.places i) (if_sent (is_at mdhim_rank i ri) (ri.rank, a) rest))
        × ((rest : List (ℕ × A))
            → extend l'.own rest ≡ extend l.own (if_sent (is_own mdhim_rank ri) (ri.rank, a) rest))
  unfolding add_to_list set_place extend
  add_to_list_lem n mdhim_rank ri a l (low, high) = elim (Bool-cases (ri.rank == mdhim_rank)) [
    | inl here ↦ (
      record l { own = some (add_record l.own ri.rank a) },
      rw here refl,
      λ i rest. rw here refl,
      λ rest. rw here refl,
    )
    | inr there ↦
        let above : leb 1 ri.rangesrv_num ≡ true = grind arith in
        let below : leb ri.rangesrv_num n ≡ true = grind arith in
        (
          set_place l (ri.rangesrv_num - 1) ri.rank a,
          rw there (rw (above, below) refl),
          λ i rest. set_place_lem l mdhim_rank i ri a rest low there,
          λ rest. rw there refl,
        )
  ]

module _ (h : IntHash MdhimChar) (fl : Floats) (hs : IntHash (MdhimStat fl.Real)) {A : Type 0}
    (key_of : A → Data) (md : Mdhim h.Table hs.Table) where
  -- The records whose range server passes the test, in order, each with the rank of the server.
  pub sent : (RangesrvInfo → Bool) → List A → List (ℕ × A)
  sent test [] = []
  sent test (a ∷ as_) =
      let rest = sent test as_ in
      elim (get_range_server h fl hs md (some (key_of a).bytes) (key_of a).len) [
        | none ↦ rest
        | some none ↦ rest
        | some (some ri) ↦ if test ri then (ri.rank, a) ∷ rest else rest
      ]

  -- The search for the server does not crash, and the server has a place in the array.
  abbrev pub Routed : A → Type 0
  Routed a =
      (o : Option RangesrvInfo) × (get_range_server h fl hs md (some (key_of a).bytes)
          (key_of a).len
        ≡ some o)
      × Inside md.num_rangesrvs o

  abbrev Sorts : ℕ → List A → BulkList A → Type 0
  Sorts mdhim_rank as_ l =
      (l' : BulkList A) × (sort_records h fl hs key_of md mdhim_rank as_ l ≡ some l')
      × ((i : ℕ) → l'.places i ≡ extend (l.places i) (sent (is_at mdhim_rank i) as_))
      × (l'.own ≡ extend l.own (sent (is_own mdhim_rank) as_))

  sort_one :
      (o : Option RangesrvInfo) (mdhim_rank : ℕ) (a : A) (as_ : List A) (l : BulkList A)
      → get_range_server h fl hs md (some (key_of a).bytes) (key_of a).len ≡ some o
      → Inside md.num_rangesrvs o
      → ((l : BulkList A) → Sorts mdhim_rank as_ l)
      → Sorts mdhim_rank (a ∷ as_) l
  unfolding sort_records sent
  sort_one none mdhim_rank a as_ l e inside rest =
      let (l', sorted, places, own) = rest l in
      (l', rw (e, sort_records) sorted, λ i. rw (e, sent) (places i), rw (e, sent) own)
  sort_one (some ri) mdhim_rank a as_ l e inside rest =
      let (l1, added, places1, own1) = add_to_list_lem md.num_rangesrvs mdhim_rank ri a l inside in
      let (l', sorted, places, own) = rest l1 in
      (
        l',
        rw (e, added, sort_records) sorted,
        λ i. rw (e, sent) (places i ∙ places1 i (sent (is_at mdhim_rank i) as_)),
        rw (e, sent) (own ∙ own1 (sent (is_own mdhim_rank) as_)),
      )

  sort_lem :
      (mdhim_rank : ℕ) (as_ : List A) (l : BulkList A) → All Routed as_ → Sorts mdhim_rank as_ l
  unfolding sort_records sent extend
  sort_lem mdhim_rank [] l routed = (l, refl, λ i. refl, refl)
  sort_lem mdhim_rank (a ∷ as_) l ((o, e, inside), routed) =
      sort_one o mdhim_rank a as_ l e inside (λ l'. sort_lem mdhim_rank as_ l' routed)

  -- For at most MAX_BULK_OPS records, each of which has no range server or one whose number is
  -- between 1 and num_rangesrvs, the messages that mdhimBPut, mdhimBGet and mdhimBDelete make are:
  -- at place i all records of the range server number i + 1, in order, if it has another rank; for
  -- the process itself all records of servers with its rank, in order; the message has the rank of
  -- its first record's server, and is NULL where there are no records.
  pub bulk_messages-sent :
      (mdhim_rank : ℕ) (records : List A)
      → length records ≤ max_bulk_ops
      → All Routed records
      → (l : BulkList A) × (bulk_messages h fl hs key_of md mdhim_rank records ≡ some (some l))
        × ((i : ℕ) → l.places i ≡ message_of (sent (is_at mdhim_rank i) records))
        × (l.own ≡ message_of (sent (is_own mdhim_rank) records))
  unfolding bulk_messages given
  bulk_messages-sent mdhim_rank records few routed =
      let (l, sorted, places, own) = sort_lem mdhim_rank records no_messages routed in
      let in_limit : ltb max_bulk_ops (length records) ≡ false = grind arith in
      (
        l,
        rw in_limit (rw sorted refl),
        λ i. places i ∙ extend-none (sent (is_at mdhim_rank i) records),
        own ∙ extend-none (sent (is_own mdhim_rank) records),
      )
