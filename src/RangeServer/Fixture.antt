-- ===== src/RangeServer/Fixture.antt =====
-- Concrete stores and servers for the tests: ds_leveldb.c over a LevelDB that is a function, and one with two records in order.
use mpi_to_openshmem.Prelude.{
  ℕ, ◌+◌, ◌≡◌, refl, List, [], ◌∷◌, Bool, true, false, Option, none, some, ap, ◌∙◌, ◌==◌,
  if◌then◌else◌, ◌≤◌,
}
use mpi_to_openshmem.Uthash.{IntHash}
use mpi_to_openshmem.Uthash.Assoc.{assoc}
use mpi_to_openshmem.Floats.Whole.{whole}
use mpi_to_openshmem.Partitioner.Alphabet.{MdhimChar}
use mpi_to_openshmem.Partitioner.Keys.{int_key}
use mpi_to_openshmem.Partitioner.Stats.{MdhimStat}
use mpi_to_openshmem.Messages.Types.{Data, Pair}
use mpi_to_openshmem.Messages.Packing.Holds.{Same}
use mpi_to_openshmem.RangeServer.Records.{StoreCalls, Stores, MdhimServer}
use mpi_to_openshmem.RangeServer.Bulk.{BatchCalls, Batches}
use mpi_to_openshmem.DataStore.Compare.Same.{int_compare, int_compare-Same}
use mpi_to_openshmem.DataStore.LevelDb.{
  is_equal, LevelDb, in_turn, leveldb_calls, leveldb_batches, leveldb_calls-Stores,
  leveldb_batches-Batches,
}

abbrev pub same_data : Data → Data → Bool
same_data d e = is_equal (int_compare d e)

pub same_data_lem : (d e : Data) → 4 ≤ e.len → Same d e → same_data d e ≡ true
same_data_lem d e wide same = ap is_equal (int_compare-Same d e wide same)

-- LevelDB as a function from keys, which fails at nothing; its iterators are never valid.
abbrev pub db_put : (Data → Option Data) → Data → Data → Data → Option Data
db_put db key value other = if same_data other key then some value else db other

abbrev pub put_all : (Data → Option Data) → List Pair → Data → Option Data
put_all db [] = db
put_all db (r ∷ rs) = put_all (db_put db r.key r.value) rs

abbrev pub read : Option Data → Bool × Option Data
read v = (false, v)

pub found_if :
    (b : Bool) (v : Data) (w : Option Data)
    → read (if b then some v else w) ≡ (if b then read (some v) else read w)
found_if true v w = refl
found_if false v w = refl

abbrev pub functions : LevelDb int_compare
functions = record {
  Db = Data → Option Data;
  Iterator = Unit;
  put = λ db key value. (false, db_put db key value);
  get = λ db key. (false, db key);
  delete = λ db key. (false, λ other. if same_data other key then none else db other);
  write = λ db records. (false, put_all db records);
  iter_seek_to_first = λ db. tt;
  iter_seek_to_last = λ db. tt;
  iter_seek = λ db key. tt;
  iter_next = λ i. i;
  iter_prev = λ i. i;
  iter_entry = λ i. none;
  get-put = λ db key value other ok. found_if (same_data other key) value (db other);
}

pub put_all_lem :
    (db : Data → Option Data) (records : List Pair) (other : Data)
    → read (put_all db records other) ≡ in_turn int_compare records other (read (db other))
put_all_lem db [] other = refl
put_all_lem db (r ∷ rs) other =
    put_all_lem (db_put db r.key r.value) rs other
    ∙ ap (in_turn int_compare rs other) (found_if (same_data other r.key) r.value (db other))

-- ds_leveldb.c over it.
abbrev pub table : StoreCalls
table = leveldb_calls functions

abbrev pub table-Stores : Stores table
table-Stores = leveldb_calls-Stores functions (λ n. 4 ≤ n) same_data_lem

abbrev pub table_batch : BatchCalls table
table_batch = leveldb_batches functions

abbrev pub table-Batches : Batches table table_batch
table-Batches =
    leveldb_batches-Batches functions (λ n. 4 ≤ n) same_data_lem
      (record { get-write = λ db records other ok. put_all_lem db records other })

abbrev pub chars : IntHash MdhimChar
chars = assoc MdhimChar

abbrev pub stats : IntHash (MdhimStat ℕ)
stats = assoc (MdhimStat ℕ)

abbrev pub key_25 : Data
key_25 = record { bytes = λ i. if i == 0 then 25 else 0; len = 4 }

abbrev pub value_1 : Data
value_1 = record { bytes = λ i. 65 + i; len = 3 }

abbrev pub value_2 : Data
value_2 = record { bytes = λ i. 97 + i; len = 2 }

abbrev pub key_26 : Data
key_26 = record { bytes = λ i. if i == 0 then 26 else 0; len = 4 }

-- The store has the first value; the second is appended.
abbrev pub server : MdhimServer chars whole stats table
server = record {
  mdhim_rank = 0;
  append = true;
  md = record {
    key_type = int_key;
    num_rangesrvs = 1;
    rangesrvs = [];
    stats = [];
    alphabet = [];
    max_recs_per_slice = 10;
  };
  db = λ key. if same_data key key_25 then some value_1 else none;
}

-- A store with the two keys in order, which fails with the code 2.
abbrev pub two_records : StoreCalls
two_records = record {
  Db = List ℕ;
  get = λ db key. if key.len == 0 then (2, none) else (0, some value_1);
  get_next = λ db key.
      if key.len == 0
      then (0, key_25, some value_1)
      else if key.bytes 0 == 25
      then (0, key_26, some value_2)
      else (2, key, none);
  get_prev = λ db key. (2, key, none);
  put = λ db key value. (0, db);
  del = λ db key. (if key.bytes 0 == 25 then 0 else 2, key.bytes 0 ∷ db);
  commit = λ db. (0, db);
}

abbrev pub two_server : MdhimServer chars whole stats two_records
two_server = record { mdhim_rank = 0; append = false; md = server.md; db = [] }
