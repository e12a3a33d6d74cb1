-- ===== src/RangeServer/Bulk/Returned.antt =====
-- What a bulk put stores is what a bulk get finds.
use mathlib.Core.Bool.{false≢true}
use mathlib.Core.Path.{subst}
use mpi_to_openshmem.Prelude.{
  ◌+◌, Bool-cases, sym, ℕ, zero, suc, ◌≤◌, ◌<◌, ◌≡◌, ◌≢◌, ◌∙◌, ap, refl, List, [], ◌∷◌, ◌++◌, ◌||◌,
  Bool, true, false, some, inl, inr, ltb, leb, ◌==◌, length, All, if◌then◌else◌, arith,
}
use mpi_to_openshmem.Uthash.{IntHash}
use mpi_to_openshmem.Floats.{Floats, Bytes}
use mpi_to_openshmem.Partitioner.Alphabet.{MdhimChar}
use mpi_to_openshmem.Partitioner.Stats.{MdhimStat}
use mpi_to_openshmem.Partitioner.Cursor.{Mdhim}
use mpi_to_openshmem.Mpi.Datatypes.{i32_mod}
use mpi_to_openshmem.Messages.Types.{Data, Pair, BulkPutMessage, BulkGetMessage}
use mpi_to_openshmem.Messages.Packing.Holds.{Same}
use mpi_to_openshmem.RangeServer.Records.{
  StoreCalls, has_bytes, new_value, MdhimServer, fault, respond, put_stats, data_or_null,
}
use mpi_to_openshmem.RangeServer.Records.Lookup.{Kept, new_value-Kept}
use mpi_to_openshmem.RangeServer.Bulk.{
  max_bulk_ops, BatchCalls, Absent, Latest, Batches, Prepared, new_records, prepare, key_block,
  value_block, made_block, first_frees, second_frees, is_among, frees_again, get_each, freed_twice,
  update_new, put_batch, range_server_bput, respond_records, range_server_bget,
}

abbrev pub keys_of : List Pair → List Data
keys_of [] = []
keys_of (r ∷ rs) = r.key ∷ keys_of rs

-- The keys of any two records are told apart.
abbrev pub Distinct : (Data → Data → Type 0) → List Pair → Type 0
Distinct Apart [] = Unit
Distinct Apart (r ∷ rs) = Absent Apart r.key rs × Distinct Apart rs

module _ (store : StoreCalls) where
  -- What is to be stored of a record.
  abbrev pub new_of : store.Db → Bool → Pair → Data
  new_of db append r = new_value append (store.get db r.key).1 r.value

  -- A value is to be stored that has bytes and a length that is an int.
  abbrev pub Storable : store.Db → Bool → Pair → Type 0
  Storable db append r = let new = new_of db append r in (new.len < i32_mod) × (new.len ≢ 0)

  abbrev pub prepared : store.Db → Bool → List Pair → List Prepared
  prepared db append [] = []
  prepared db append (r ∷ rs) =
      record {
        exists = has_bytes (store.get db r.key).1;
        new = record { key = r.key; value = new_of db append r };
      }
      ∷ prepared db append rs

  -- The answers are those records, each with the value that its put leaves.
  abbrev pub Answered : store.Db → Bool → List Pair → List Pair → Type 0
  Answered db append [] [] = Unit
  Answered db append [] (a ∷ answers) = ⊥
  Answered db append (r ∷ rs) [] = ⊥
  Answered db append (r ∷ rs) (a ∷ answers) =
      (a.key ≡ r.key)
      × Kept append (store.get db r.key).1 r.value a.value
      × Answered db append rs answers

  prepare_lem :
      (db : store.Db) (append : Bool) (rs : List Pair)
      → All (Storable db append) rs
      → prepare store db append rs ≡ some (prepared db append rs)
  unfolding prepare
  prepare_lem db append [] _ = refl
  prepare_lem db append (r ∷ rs) ((fits, _), all) =
      let in_int : leb i32_mod (new_of db append r).len ≡ false = grind arith in
      rw (prepare_lem db append rs all) (rw in_int refl)

  Absent-prepared :
      (Apart : Data → Data → Type 0) (db : store.Db) (append : Bool) (key : Data) (rs : List Pair)
      → Absent Apart key rs
      → Absent Apart key (new_records (prepared db append rs))
  Absent-prepared Apart db append key [] _ = tt
  Absent-prepared Apart db append key (r ∷ rs) (differs, absent) =
      (differs, Absent-prepared Apart db append key rs absent)

  -- The store has every latest value of the records.
  abbrev Finds : (ℕ → Type 0) → (Data → Data → Type 0) → store.Db → List Pair → Type 0
  Finds Readable Apart db records =
      (key value : Data)
      → Latest Apart key value records
      → value.len ≢ 0
      → Readable key.len
      → (value' : Data) × (store.get db key ≡ (0, some value')) × Same value' value

  get_each_lem :
      (Readable : ℕ → Type 0) (Apart : Data → Data → Type 0) (n : ℕ) (raw : Bytes)
      (db db' : store.Db) (append : Bool) (rs : List Pair)
      → length rs ≤ n
      → All (Storable db append) rs
      → Distinct Apart rs
      → All (λ r. Readable r.key.len) rs
      → Finds Readable Apart db' (new_records (prepared db append rs))
      → (answers : List Pair) × (get_each store n raw db' (keys_of rs) 0 ≡ (0, answers))
        × Answered db append rs answers
  unfolding get_each data_or_null
  get_each_lem Readable Apart n raw db db' append [] fits all distinct readable finds =
      ([], refl, tt)
  get_each_lem Readable Apart zero raw db db' append (r ∷ rs) fits all distinct readable finds =
      absurd (omega arith)
  get_each_lem Readable Apart (suc n) raw db db' append (r ∷ rs) fits ((_, some_bytes), all)
        (absent, distinct) (readable, readables) finds =
      let new = new_of db append r in
      let (value, there, same) =
        finds r.key new
          (inl ((refl, λ k b. refl), refl, Absent-prepared Apart db append r.key rs absent))
          some_bytes readable in
      let (answers, e, answered) =
        get_each_lem Readable Apart n raw db db' append rs (omega arith) all distinct readables
          (λ key v latest. finds key v (inr latest)) in
      (
        record { key = r.key; value = value } ∷ answers,
        rw there (rw e refl),
        (refl, new_value-Kept append (store.get db r.key).1 r.value value same, answered),
      )

or_true : (b : Bool) {c : Bool} → c ≡ true → (b || c) ≡ true
or_true true e = refl
or_true false e = e

among_later : (b c : ℕ) (cs : List ℕ) → is_among b cs ≡ true → is_among b (c ∷ cs) ≡ true
among_later b c cs e = or_true (b == c) e

is_among-append : (b : ℕ) (bs cs : List ℕ) → is_among b cs ≡ true → is_among b (bs ++ cs) ≡ true
is_among-append b [] cs e = e
is_among-append b (c ∷ bs) cs e = or_true (b == c) (is_among-append b bs cs e)

frees_again-append :
    (b : ℕ) (bs cs : List ℕ)
    → is_among b bs ≡ true
    → is_among b cs ≡ true
    → frees_again (bs ++ cs) ≡ true
unfolding frees_again
frees_again-append b [] cs e f = absurd (false≢true e)
frees_again-append b (c ∷ bs) cs e f = elim (Bool-cases (b == c)) [
  | inl here ↦
      let same : b ≡ c = grind arith in
      let again : is_among c (bs ++ cs) ≡ true =
        is_among-append c bs cs (subst (λ x. is_among x cs ≡ true) same f) in
      rw again refl
  | inr apart ↦
      let later : is_among b bs ≡ true = rw apart at e in
      or_true (is_among c (bs ++ cs)) (frees_again-append b bs cs later f)
]

-- A value that is appended to an old one and comes from another process is freed by both loops.
first_frees_lem :
    (before after : List Prepared) (p : Prepared) (i : ℕ)
    → p.exists ≡ true
    → is_among (value_block (i + length before)) (first_frees true false i (before ++ p ∷ after))
      ≡ true
unfolding first_frees
first_frees_lem [] after p i e =
    let same : (value_block (i + 0) == value_block i) ≡ true = grind arith in rw e (rw same refl)
first_frees_lem (q ∷ before) after p i e =
    let on : i + suc (length before) ≡ i + 1 + length before = omega arith in
    let rest =
      subst
        (λ k.
          is_among (value_block k) (first_frees true false (i + 1) (before ++ p ∷ after)) ≡ true)
        (sym on) (first_frees_lem before after p (i + 1) e) in
    elim (Bool-cases q.exists) [ inl there ↦ rw there (or_true _ rest) | inr new ↦ rw new rest ]

second_frees_lem :
    (before after : List Prepared) (p : Prepared) (i : ℕ)
    → p.exists ≡ true
    → is_among (value_block (i + length before)) (second_frees true false i (before ++ p ∷ after))
      ≡ true
unfolding second_frees
second_frees_lem [] after p i e =
    let same : (value_block (i + 0) == value_block i) ≡ true = grind arith in
    let tail = second_frees true false (i + 1) after in
    let here : is_among (value_block (i + 0)) (value_block i ∷ tail) ≡ true = rw same refl in
    rw e (
      among_later (value_block (i + 0)) (made_block i) (key_block i ∷ value_block i ∷ tail)
        (among_later (value_block (i + 0)) (key_block i) (value_block i ∷ tail) here))
second_frees_lem (q ∷ before) after p i e =
    let on : i + suc (length before) ≡ i + 1 + length before = omega arith in
    let rest =
      subst
        (λ k.
          is_among (value_block k) (second_frees true false (i + 1) (before ++ p ∷ after)) ≡ true)
        (sym on) (second_frees_lem before after p (i + 1) e) in
    let v = value_block (i + suc (length before)) in
    let tail = second_frees true false (i + 1) (before ++ p ∷ after) in
    elim (Bool-cases q.exists) [
      | inl there ↦ rw there (
          among_later v (made_block i) (key_block i ∷ value_block i ∷ tail) (
            among_later v (key_block i) (value_block i ∷ tail)
              (among_later v (value_block i) tail rest)))
      | inr new ↦ rw new (
          among_later v (key_block i) (value_block i ∷ tail)
            (among_later v (value_block i) tail rest))
    ]

freed_twice_lem :
    (append own : Bool) (ps before after : List Prepared) (p : Prepared)
    → append ≡ true
    → own ≡ false
    → ps ≡ before ++ p ∷ after
    → p.exists ≡ true
    → freed_twice append own ps ≡ true
unfolding freed_twice
freed_twice_lem append own ps before after p f g is e =
    rw (f, g, is, freed_twice)
      (frees_again-append (value_block (0 + length before)) _ _ (first_frees_lem before after p 0 e)
        (second_frees_lem before after p 0 e))

if_same : {A : Type 0} (b : Bool) (a : A) → (if b then a else a) ≡ a
if_same true a = refl
if_same false a = refl

module _ (h : IntHash MdhimChar) (fl : Floats) (hs : IntHash (MdhimStat fl.Real))
    (store : StoreCalls) where
  bput_lem :
      (calls : BatchCalls store) (size : ℕ) (s : MdhimServer h fl hs store) (bim : BulkPutMessage)
      (source : ℕ) (md' : Mdhim h.Table hs.Table) (ps : List Prepared) (db' : store.Db)
      → length bim.records ≤ max_bulk_ops
      → prepare store s.db s.append bim.records ≡ some ps
      → calls.batch_put s.db (new_records ps) ≡ (0, db')
      → update_new h fl hs store s.md ps ≡ some md'
      → freed_twice s.append (s.mdhim_rank == source) ps ≡ false
      → range_server_bput h fl hs store calls size s bim source
        ≡ respond h fl hs store size (record s { db = db'; md = md' }) 0 source
  unfolding range_server_bput put_batch put_stats
  bput_lem calls size s bim source md' ps db' few e taken counts once =
      let in_limit : ltb max_bulk_ops (length bim.records) ≡ false = grind arith in
      rw in_limit (rw e (rw once (rw taken (rw counts refl))))

  bget_lem :
      (size : ℕ) (raw : Bytes) (s : MdhimServer h fl hs store) (bgm : BulkGetMessage) (source : ℕ)
      (keys : List Data) (answers : List Pair)
      → bgm.keys ≡ keys
      → get_each store max_bulk_ops raw s.db keys 0 ≡ (0, answers)
      → range_server_bget h fl hs store size raw s bgm source
        ≡ respond_records h fl hs store size s (0, answers) source
  unfolding range_server_bget
  bget_lem size raw s bgm source keys answers e f =
      ap
        (λ ks.
          respond_records h fl hs store size s (get_each store max_bulk_ops raw s.db ks 0) source)
        e
      ∙ ap (λ p. respond_records h fl hs store size s p source) f

  -- If a batch that the store takes is found under its keys of a length that it can read, with the
  -- last value for each, and leaves the keys that the store tells apart from those, as
  -- ds_leveldb.c over LevelDB does, then for at most MAX_BULK_OPS records with keys of such a
  -- length that it tells apart, values to be stored that have bytes and a length that is an int, a
  -- store that takes the batch, statistics that do not crash, and no block of memory that is freed
  -- twice, range_server_bput answers with 0, and range_server_bget of the same keys after it
  -- answers with 0 and for each key, in order, the key and its new value, or the old value and the
  -- new one behind it where values are appended and the old one has bytes; what is under a key
  -- that is told apart from all of them is as before.
  pub range_server_bput-range_server_bget :
      (calls : BatchCalls store) (batches : Batches store calls) (size size' : ℕ) (raw : Bytes)
      (s : MdhimServer h fl hs store) (bim : BulkPutMessage) (bgm : BulkGetMessage) (other : Data)
      (source source' : ℕ) (md' : Mdhim h.Table hs.Table)
      → let ps = prepared store s.db s.append bim.records in
        length bim.records ≤ max_bulk_ops
        → All (Storable store s.db s.append) bim.records
        → Distinct batches.Apart bim.records
        → All (λ r. batches.Readable r.key.len) bim.records
        → (calls.batch_put s.db (new_records ps)).0 ≡ 0
        → update_new h fl hs store s.md ps ≡ some md'
        → freed_twice s.append (s.mdhim_rank == source) ps ≡ false
        → bgm.keys ≡ keys_of bim.records
        → Absent batches.Apart other bim.records
        → (s' : MdhimServer h fl hs store) × (answers : List Pair) × (range_server_bput h fl hs
              store calls size s bim source
            ≡ respond h fl hs store size s' 0 source)
          × (range_server_bget h fl hs store size' raw s' bgm source'
              ≡ respond_records h fl hs store size' s' (0, answers) source')
          × Answered store s.db s.append bim.records answers
          × (store.get s'.db other ≡ store.get s.db other)
  range_server_bput-range_server_bget calls batches size size' raw s bim bgm other source source'
        md' few storable distinct readable taken counts once asked absent =
      let ps = prepared store s.db s.append bim.records in
      let db' = (calls.batch_put s.db (new_records ps)).1 in
      let s' : MdhimServer h fl hs store = record s { db = db'; md = md' } in
      let (answers, found, answered) =
        get_each_lem store batches.Readable batches.Apart max_bulk_ops raw s.db db' s.append
          bim.records few storable distinct readable
          (λ key value latest some_bytes readable.
            batches.get-batch_put s.db (new_records ps) key value taken latest some_bytes
              readable) in
      (
        s',
        answers,
        bput_lem calls size s bim source md' ps db' few
            (prepare_lem store s.db s.append bim.records storable) (ap (λ c. (c, db')) taken) counts
            once,
        bget_lem size' raw s' bgm source' (keys_of bim.records) answers asked found,
        answered,
        batches.get-batch_put_other s.db (new_records ps) other taken
            (Absent-prepared store batches.Apart s.db s.append other bim.records absent),
      )

  prepared-append :
      (db : store.Db) (append : Bool) (rs rs' : List Pair)
      → prepared store db append (rs ++ rs')
        ≡ prepared store db append rs ++ prepared store db append rs'
  prepared-append db append [] rs' = refl
  prepared-append db append (r ∷ rs) rs' =
      let here : Prepared = record {
        exists = has_bytes (store.get db r.key).1;
        new = record { key = r.key; value = new_of store db append r };
      } in
      ap (◌∷◌ here) (prepared-append db append rs rs')

  -- Where values are appended and the message comes from another rank, the calls of free that
  -- range_server_bput makes for records among which is one whose key has a value with bytes free a
  -- block twice: it ends in a fault, if the values to be stored have bytes and lengths that are
  -- ints.
  pub range_server_bput_freed_twice :
      (calls : BatchCalls store) (size : ℕ) (s : MdhimServer h fl hs store) (bim : BulkPutMessage)
      (source : ℕ) (r : Pair) (before after : List Pair)
      → s.append ≡ true
      → s.mdhim_rank ≢ source
      → bim.records ≡ before ++ r ∷ after
      → has_bytes (store.get s.db r.key).1 ≡ true
      → All (Storable store s.db s.append) bim.records
      → range_server_bput h fl hs store calls size s bim source ≡ fault
  unfolding range_server_bput put_batch
  range_server_bput_freed_twice calls size s bim source r before after appends ne e there storable =
      let from_other : (s.mdhim_rank == source) ≡ false = grind arith in
      let ps = prepared store s.db s.append bim.records in
      let twice =
        freed_twice_lem s.append (s.mdhim_rank == source) ps (prepared store s.db s.append before)
          (prepared store s.db s.append after) _ appends from_other
          (ap (prepared store s.db s.append) e ∙ prepared-append s.db s.append before (r ∷ after))
          there in
      rw (prepare_lem store s.db s.append bim.records storable)
        (rw twice (if_same (ltb max_bulk_ops (length bim.records)) fault))
