-- ===== src/RangeServer/Records.antt =====
-- range_server_put, range_server_get, range_server_del and range_server_commit of
-- mdhimMods/src/range_server.c, over the data store's function pointers as an interface. Timing, logging
-- and the freeing of memory are left out; malloc finds space.
pub mod Lookup
mod Tests
use mpi_to_openshmem.Prelude.{
  ℕ, ◌+◌, ◌-◌, ◌<◌, ◌≡◌, ◌≢◌, Bool, true, false, ◌&&◌, not, Option, none, some, ltb, leb, ◌==◌,
  if◌then◌else◌,
}
use mpi_to_openshmem.Uthash.{IntHash}
use mpi_to_openshmem.Floats.{Floats, Bytes}
use mpi_to_openshmem.Partitioner.Alphabet.{MdhimChar}
use mpi_to_openshmem.Partitioner.Stats.{MdhimStat}
use mpi_to_openshmem.Partitioner.Cursor.{Mdhim}
use mpi_to_openshmem.Mpi.Datatypes.{i32_mod, write}
use mpi_to_openshmem.Messages.Types.{
  Data, PutMessage, GetMessage, DelMessage, BaseMessage, Response, recv, recv_get,
}
use mpi_to_openshmem.Messages.Packing.Holds.{Same}
use mpi_to_openshmem.RangeServer.Stats.{update_all_stats}

-- The function pointers of struct mdhim_store_t, with return codes (0 is MDHIM_SUCCESS) as 32 bits. What
-- is NULL on return is `none`, and a key of length 0 stands for NULL.
pub record StoreCalls : Type 1 where
  pub Db : Type 0
  pub get : Db → Data → ℕ × Option Data
  pub get_next : Db → Data → ℕ × Data × Option Data
  pub get_prev : Db → Data → ℕ × Data × Option Data
  pub put : Db → Data → Data → ℕ × Db
  pub del : Db → Data → ℕ × Db
  pub commit : Db → ℕ × Db

-- What the range server needs of a store: a value that is put, if it has bytes, is found under its key,
-- and what is under keys that the store tells apart from it stays. DataStore.LevelDb fills it.
-- A length of a key is readable if a comparator of numbers reads no byte past it.
pub record Stores (store : StoreCalls) : Type 1 where
  pub Readable : ℕ → Type 0
  pub Apart : Data → Data → Type 0
  pub get-put :
      (db : store.Db) (key value key' : Data)
      → (store.put db key value).0 ≡ 0
      → value.len ≢ 0
      → Readable key.len
      → Same key' key
      → (value' : Data) × (store.get (store.put db key value).1 key' ≡ (0, some value'))
        × Same value' value
  pub get-put_other :
      (db : store.Db) (key value key' : Data)
      → (store.put db key value).0 ≡ 0
      → Apart key' key
      → store.get (store.put db key value).1 key' ≡ store.get db key'

-- To whom the response goes: to another rank by send_client_response, or to md->receive_msg.
pub data Answer : Type 0 where
  remote : ℕ → Response → Answer
  local : Response → Answer

unfoldable pub send_locally_or_remote : ℕ → ℕ → Response → Answer
send_locally_or_remote rank dest message =
    if rank == dest then local message else remote dest message

-- The operations of messages.h.
abbrev pub get_eq : ℕ
get_eq = 0

abbrev pub get_next_op : ℕ
get_next_op = 1

abbrev pub get_prev_op : ℕ
get_prev_op = 2

abbrev pub get_first : ℕ
get_first = 3

abbrev pub get_last : ℕ
get_last = 4

unfoldable pub has_bytes : Option Data → Bool
has_bytes none = false
has_bytes (some v) = not (v.len == 0)

-- The old value with the new one behind it, or the new one.
unfoldable pub new_value : Bool → Option Data → Data → Data
new_value append none value = value
new_value append (some old) value =
    if append && not (old.len == 0)
    then record { bytes = write old.bytes old.len value.bytes value.len; len = old.len + value.len }
    else value

-- NULL is sent as a value of length 0, at `raw`.
unfoldable pub data_or_null : Bytes → Option Data → Data
data_or_null raw none = record { bytes = raw; len = 0 }
data_or_null raw (some v) = v

module _ (h : IntHash MdhimChar) (fl : Floats) (hs : IntHash (MdhimStat fl.Real))
    (store : StoreCalls) where
  -- struct mdhim_t: `append` is db_value_append == MDHIM_DB_APPEND, and `db` the store's handle.
  pub record MdhimServer : Type 0 where
    pub mdhim_rank : ℕ
    pub append : Bool
    pub md : Mdhim h.Table hs.Table
    pub db : store.Db

  -- The state afterwards and the response; or a crash.
  pub data Served : Type 0 where
    served : MdhimServer → Answer → Served
    fault : Served

  -- The response: `size` is what its field size holds.
  unfoldable pub respond : ℕ → MdhimServer → ℕ → ℕ → Served
  respond size s error source = served s (
      send_locally_or_remote s.mdhim_rank source
        (recv (record { server_rank = s.mdhim_rank; size = size; error = error })))

  -- What update_all_stats gives is the third argument.
  unfoldable pub put_stats : ℕ → MdhimServer → Option (Mdhim h.Table hs.Table) → ℕ → ℕ → Served
  put_stats size s none error source = fault
  put_stats size s (some md) error source = respond size (record s { md = md }) error source

  -- After the put: statistics are kept of new keys.
  unfoldable pub after_put : ℕ → MdhimServer → Data → Bool → ℕ → ℕ → Served
  unfolding put_stats
  after_put size s key exists error source =
      let counted =
        put_stats size s (update_all_stats h fl hs s.md key.bytes key.len) error source in
      let as_before = respond size s error source in
      if not exists && error == 0 then counted else as_before

  unfoldable pub range_server_put : ℕ → MdhimServer → PutMessage → ℕ → Served
  range_server_put size s im source =
      let value = (store.get s.db im.key).1 in
      let new = new_value s.append value im.value in
      let (ret, db) = store.put s.db im.key new in
      let answer = after_put size (record s { db = db }) im.key (has_bytes value) ret source in
      if leb i32_mod new.len then fault else answer

  -- The switch over the operation: the return code, the key and the value.
  unfoldable pub get_record : MdhimServer → GetMessage → ℕ → ℕ × Data × Option Data
  get_record s gm op =
      let unset = record gm.key { len = 0 } in
      let (ret, value) = store.get s.db gm.key in
      if op == get_eq
      then (ret, gm.key, value)
      else if op == get_next_op
      then store.get_next s.db gm.key
      else if op == get_prev_op
      then store.get_prev s.db gm.key
      else if op == get_first
      then store.get_next s.db unset
      else if op == get_last
      then store.get_prev s.db unset
      else (0, gm.key, none)

  unfoldable pub range_server_get : ℕ → Bytes → MdhimServer → GetMessage → ℕ → ℕ → Served
  range_server_get size raw s gm source op =
      let (error, key, value) = get_record s gm op in
      served s (
        send_locally_or_remote s.mdhim_rank source (
          recv_get (record {
            server_rank = s.mdhim_rank;
            size = size;
            error = error;
            key = key;
            value = data_or_null raw value;
          })))

  unfoldable pub range_server_del : ℕ → MdhimServer → DelMessage → ℕ → Served
  range_server_del size s dm source =
      let (ret, db) = store.del s.db dm.key in respond size (record s { db = db }) ret source

  unfoldable pub range_server_commit : ℕ → MdhimServer → BaseMessage → ℕ → Served
  range_server_commit size s im source =
      let (ret, db) = store.commit s.db in respond size (record s { db = db }) ret source
