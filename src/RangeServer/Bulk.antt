-- ===== src/RangeServer/Bulk.antt =====
-- range_server_bput, range_server_bdel, range_server_bget and range_server_bget_op of
-- mdhimMods/src/range_server.c: a message with many records. Timing, logging and the freeing of memory
-- are left out, but for a double free; malloc finds space.
pub mod Deletes
pub mod Returned
pub mod Walk
mod Tests
use mpi_to_openshmem.Prelude.{
  ◌+◌, ◌*◌, ◌++◌, ℕ, zero, suc, ◌≡◌, ◌≢◌, ◌⊎◌, Bool, false, not, ◌&&◌, ◌||◌, List, [], ◌∷◌, Option,
  none, some, ltb, leb, ◌==◌, length, if◌then◌else◌,
}
use mpi_to_openshmem.Uthash.{IntHash}
use mpi_to_openshmem.Floats.{Floats, Bytes}
use mpi_to_openshmem.Partitioner.Alphabet.{MdhimChar}
use mpi_to_openshmem.Partitioner.Servers.{error_u32}
use mpi_to_openshmem.Partitioner.Stats.{MdhimStat}
use mpi_to_openshmem.Partitioner.Cursor.{Mdhim}
use mpi_to_openshmem.Mpi.Datatypes.{i32_mod}
use mpi_to_openshmem.Messages.Types.{
  Data, Pair, GetMessage, BulkPutMessage, BulkGetMessage, BulkDelMessage, recv_bulk_get,
}
use mpi_to_openshmem.Messages.Packing.Holds.{Same}
use mpi_to_openshmem.RangeServer.Stats.{update_all_stats}
use mpi_to_openshmem.RangeServer.Records.{
  StoreCalls, send_locally_or_remote, has_bytes, new_value, get_next_op, get_prev_op, get_first,
  get_last, MdhimServer, Served, served, fault, respond, put_stats, data_or_null,
}

-- MAX_BULK_OPS
abbrev pub max_bulk_ops : ℕ
max_bulk_ops = 1000000

-- The function pointer batch_put of struct mdhim_store_t.
pub record BatchCalls (store : StoreCalls) : Type 0 where
  pub batch_put : store.Db → List Pair → ℕ × store.Db

-- All records of the list have keys that are told apart from the key.
abbrev pub Absent : (Data → Data → Type 0) → Data → List Pair → Type 0
Absent Apart key [] = Unit
Absent Apart key (r ∷ rs) = Apart key r.key × Absent Apart key rs

-- The last record of the list with the key has the value.
abbrev pub Latest : (Data → Data → Type 0) → Data → Data → List Pair → Type 0
Latest Apart key value [] = ⊥
Latest Apart key value (r ∷ rs) =
    (Same key r.key × (value ≡ r.value) × Absent Apart key rs) ⊎ Latest Apart key value rs

-- What the range server needs of a batch: when it is taken, the last value with bytes that it has for a key is
-- found, and what is under keys that are told apart from those it has stays. DataStore.LevelDb fills it.
pub record Batches (store : StoreCalls) (calls : BatchCalls store) : Type 1 where
  pub Readable : ℕ → Type 0
  pub Apart : Data → Data → Type 0
  pub get-batch_put :
      (db : store.Db) (records : List Pair) (key value : Data)
      → (calls.batch_put db records).0 ≡ 0
      → Latest Apart key value records
      → value.len ≢ 0
      → Readable key.len
      → (value' : Data) × (store.get (calls.batch_put db records).1 key ≡ (0, some value'))
        × Same value' value
  pub get-batch_put_other :
      (db : store.Db) (records : List Pair) (key : Data)
      → (calls.batch_put db records).0 ≡ 0
      → Absent Apart key records
      → store.get (calls.batch_put db records).1 key ≡ store.get db key

-- exists[i], and keys[i] with new_values[i]
pub record Prepared : Type 0 where
  pub exists : Bool
  pub new : Pair

abbrev pub new_records : List Prepared → List Pair
new_records [] = []
new_records (p ∷ ps) = p.new ∷ new_records ps

-- What range_server_bput frees of record `i`: its key, its value, and the value made for it.
abbrev pub key_block : ℕ → ℕ
key_block i = 3 * i

abbrev pub value_block : ℕ → ℕ
value_block i = 3 * i + 1

abbrev made_block : ℕ → ℕ
made_block i = 3 * i + 2

-- The calls of free in the first loop from record `i` on: values[i], once it is appended.
pub first_frees : Bool → Bool → ℕ → List Prepared → List ℕ
first_frees append own i [] = []
first_frees append own i (p ∷ ps) =
    let rest = first_frees append own (i + 1) ps in
    if p.exists && (append && not own) then value_block i ∷ rest else rest

-- The calls of free in the second loop.
pub second_frees : Bool → Bool → ℕ → List Prepared → List ℕ
second_frees append own i [] = []
second_frees append own i (p ∷ ps) =
    let rest = second_frees append own (i + 1) ps in
    let message = if own then rest else key_block i ∷ value_block i ∷ rest in
    if p.exists && append then made_block i ∷ message else message

abbrev pub is_among : ℕ → List ℕ → Bool
is_among b [] = false
is_among b (c ∷ cs) = b == c || is_among b cs

-- A block is freed that was freed before.
pub frees_again : List ℕ → Bool
frees_again [] = false
frees_again (b ∷ bs) = is_among b bs || frees_again bs

unfoldable pub freed_twice : Bool → Bool → List Prepared → Bool
unfolding first_frees second_frees frees_again
freed_twice append own ps =
    frees_again (first_frees append own 0 ps ++ second_frees append own 0 ps)

module _ (store : StoreCalls) where
  -- The first loop of range_server_bput; `none` where a length is no int.
  pub prepare : store.Db → Bool → List Pair → Option (List Prepared)
  prepare db append [] = some []
  prepare db append (r ∷ rs) =
      let old = (store.get db r.key).1 in
      let new = new_value append old r.value in
      let here : Prepared = record {
        exists = has_bytes old;
        new = record { key = r.key; value = new };
      } in
      elim (prepare db append rs) [
        | none ↦ none
        | some ps ↦ if leb i32_mod new.len then none else some (here ∷ ps)
      ]

  -- The loop of range_server_bdel, with the rounds that are left to MAX_BULK_OPS.
  pub del_each : ℕ → store.Db → List Data → ℕ → ℕ × store.Db
  del_each zero db keys error = (error, db)
  del_each (suc n) db [] error = (error, db)
  del_each (suc n) db (k ∷ ks) error =
      let (ret, db') = store.del db k in del_each n db' ks (if ret == 0 then error else ret)

  -- The loop of range_server_bget: keys[i] with values[i], at `raw` if that is NULL or unset.
  pub get_each : ℕ → Bytes → store.Db → List Data → ℕ → ℕ × List Pair
  get_each n raw db [] error = (error, [])
  get_each zero raw db (k ∷ ks) error =
      let (error', rest) = get_each zero raw db ks error in
      (error', record { key = k; value = data_or_null raw none } ∷ rest)
  get_each (suc n) raw db (k ∷ ks) error =
      let (ret, value) = store.get db k in
      let (error', rest) = get_each n raw db ks (if ret == 0 then error else ret) in
      (
        error',
        record {
          key = k;
          value = if ret == 0 then data_or_null raw value else data_or_null raw none;
        }
            ∷ rest,
      )

  -- get_next or get_prev
  abbrev pub Move : Type 0
  Move = store.Db → Data → ℕ × Data × Option Data

  -- The loop of range_server_bget_op after its first round: each record from the key before it.
  pub walk : Move → Bytes → ℕ → store.Db → Data → ℕ × List Pair
  walk move raw zero db key = (0, [])
  walk move raw (suc n) db key =
      let (ret, key', value) = move db key in
      let (error, rest) = walk move raw n db key' in
      if ret == 0
      then (error, record { key = key'; value = data_or_null raw value } ∷ rest)
      else (ret, [])

  -- The loop from its first round, which gets the key itself.
  pub get_from : Move → Bytes → ℕ → store.Db → Data → ℕ × List Pair
  get_from move raw zero db key = (0, [])
  get_from move raw (suc n) db key =
      let (ret, value) = store.get db key in
      let (error, rest) = walk move raw n db key in
      if ret == 0
      then (error, record { key = key; value = data_or_null raw value } ∷ rest)
      else (ret, [])

  -- The loop by the operation. A key of length 0 stands for NULL.
  unfoldable pub get_by_op : Bytes → store.Db → GetMessage → ℕ → ℕ × List Pair
  get_by_op raw db gm op =
      let n = if ltb max_bulk_ops gm.num_records then max_bulk_ops else gm.num_records in
      if n == 0
      then (0, [])
      else if gm.key.len == 0 && (op == get_next_op || op == get_prev_op)
      then (error_u32, [])
      else if op == get_first || op == get_next_op
      then get_from store.get_next raw n db gm.key
      else if op == get_last || op == get_prev_op
      then get_from store.get_prev raw n db gm.key
      else (0, [])

module _ (h : IntHash MdhimChar) (fl : Floats) (hs : IntHash (MdhimStat fl.Real))
    (store : StoreCalls) where
  -- The second loop of range_server_bput after a batch that was taken; `none` is a crash.
  pub update_new : Mdhim h.Table hs.Table → List Prepared → Option (Mdhim h.Table hs.Table)
  update_new md [] = some md
  update_new md (p ∷ ps) =
      let counted = update_all_stats h fl hs md p.new.key.bytes p.new.key.len in
      elim (if p.exists then some md else counted) [ none ↦ none | some md' ↦ update_new md' ps ]

  -- After the first loop, which gives the fourth argument.
  unfoldable pub put_batch :
      BatchCalls store
      → ℕ
      → MdhimServer h fl hs store
      → Option (List Prepared)
      → ℕ
      → Served h fl hs store
  put_batch calls size s none source = fault
  put_batch calls size s (some ps) source =
      let (ret, db) = calls.batch_put s.db (new_records ps) in
      let s' : MdhimServer h fl hs store = record s { db = db } in
      let counted = put_stats h fl hs store size s' (update_new s.md ps) 0 source in
      let as_before = respond h fl hs store size s' ret source in
      let answer = if ret == 0 then counted else as_before in
      if freed_twice s.append (s.mdhim_rank == source) ps then fault else answer

  -- With more than MAX_BULK_OPS records batch_put is given values that are not set.
  unfoldable pub range_server_bput :
      BatchCalls store → ℕ → MdhimServer h fl hs store → BulkPutMessage → ℕ → Served h fl hs store
  range_server_bput calls size s bim source =
      let answer = put_batch calls size s (prepare store s.db s.append bim.records) source in
      if ltb max_bulk_ops (length bim.records) then fault else answer

  unfoldable pub range_server_bdel :
      ℕ → MdhimServer h fl hs store → BulkDelMessage → ℕ → Served h fl hs store
  range_server_bdel size s bdm source =
      let (error, db) = del_each store max_bulk_ops s.db bdm.keys 0 in
      respond h fl hs store size (record s { db = db }) error source

  -- The response that bget and bget_op send.
  unfoldable pub respond_records :
      ℕ → MdhimServer h fl hs store → ℕ × List Pair → ℕ → Served h fl hs store
  respond_records size s (error, records) source = served s (
      send_locally_or_remote s.mdhim_rank source (
        recv_bulk_get
          (record { server_rank = s.mdhim_rank; size = size; error = error; records = records })))

  unfoldable pub range_server_bget :
      ℕ → Bytes → MdhimServer h fl hs store → BulkGetMessage → ℕ → Served h fl hs store
  range_server_bget size raw s bgm source =
      respond_records size s (get_each store max_bulk_ops raw s.db bgm.keys 0) source

  unfoldable pub range_server_bget_op :
      ℕ → Bytes → MdhimServer h fl hs store → GetMessage → ℕ → ℕ → Served h fl hs store
  range_server_bget_op size raw s gm source op =
      respond_records size s (get_by_op store raw s.db gm op) source
