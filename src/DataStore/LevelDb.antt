-- ===== src/DataStore/LevelDb.antt =====
-- mdhim_leveldb_put, mdhim_leveldb_get and their like of mdhimMods/src/ds_leveldb.c, over the calls of
-- LevelDB, a library. A key of length 0 stands for NULL. What was put has a length that is an int, as
-- mdhim_leveldb_put takes it. Timing, logging and options are left out; malloc finds space.
use mathlib.Core.Path.{subst}
use mpi_to_openshmem.Prelude.{
  ℕ, ◌-◌, ◌≡◌, ◌≢◌, ◌∙◌, sym, inl, inr, arith, ap, refl, Bool, true, false, List, [], ◌∷◌, Option,
  none, some, ◌==◌, if◌then◌else◌,
}
use mpi_to_openshmem.Prelude.Int.{ℤ, pos, u32_mod}
use mpi_to_openshmem.Messages.Types.{Data, Pair}
use mpi_to_openshmem.Messages.Packing.Holds.{Same}
use mpi_to_openshmem.RangeServer.Records.{StoreCalls, Stores}
use mpi_to_openshmem.RangeServer.Bulk.{BatchCalls, Absent, Latest, Batches}

-- MDHIM_DB_ERROR, as 32 bits
abbrev pub db_error : ℕ
db_error = u32_mod - 2

abbrev pub is_equal : ℤ → Bool
is_equal (pos n) = n == 0
is_equal _ = false

-- The calls of LevelDB, with the comparator that the database was opened with. The Bool is whether err is
-- set; leveldb_get gives `none` where there is no record. An iterator that is not valid has no entry.
pub record LevelDb (compare : Data → Data → ℤ) : Type 1 where
  pub Db : Type 0
  pub Iterator : Type 0
  pub put : Db → Data → Data → Bool × Db
  pub get : Db → Data → Bool × Option Data
  pub delete : Db → Data → Bool × Db
  pub write : Db → List Pair → Bool × Db
  pub iter_seek_to_first : Db → Iterator
  pub iter_seek_to_last : Db → Iterator
  pub iter_seek : Db → Data → Iterator
  pub iter_next : Iterator → Iterator
  pub iter_prev : Iterator → Iterator
  pub iter_entry : Iterator → Option Pair
  pub get-put :
      (db : Db) (key value other : Data)
      → (put db key value).0 ≡ false
      → get (put db key value).1 other
        ≡ (if is_equal (compare other key) then (false, some value) else get db other)

-- A batch that is written does what its puts do in turn.
abbrev pub in_turn : (Data → Data → ℤ) → List Pair → Data → Bool × Option Data → Bool × Option Data
in_turn compare [] other found = found
in_turn compare (r ∷ rs) other found =
    in_turn compare rs other
      (if is_equal (compare other r.key) then (false, some r.value) else found)

pub record WritesBatches (compare : Data → Data → ℤ) (level : LevelDb compare) : Type 0 where
  pub get-write :
      (db : level.Db) (records : List Pair) (other : Data)
      → (level.write db records).0 ≡ false
      → level.get (level.write db records).1 other
        ≡ in_turn compare records other (level.get db other)

module _ {compare : Data → Data → ℤ} (level : LevelDb compare) where
  -- Of `err`.
  abbrev pub code : Bool × level.Db → ℕ × level.Db
  code (err, db) = (if err then db_error else 0, db)

  abbrev pub mdhim_leveldb_put : level.Db → Data → Data → ℕ × level.Db
  mdhim_leveldb_put db key value = code (level.put db key value)

  abbrev pub mdhim_leveldb_del : level.Db → Data → ℕ × level.Db
  mdhim_leveldb_del db key = code (level.delete db key)

  abbrev pub mdhim_leveldb_batch_put : level.Db → List Pair → ℕ × level.Db
  mdhim_leveldb_batch_put db records = code (level.write db records)

  -- What leveldb_get gave: a value of length 0 is an error.
  abbrev pub got : Bool × Option Data → ℕ × Option Data
  got (true, _) = (db_error, none)
  got (false, none) = (db_error, none)
  got (false, some value) = if value.len == 0 then (db_error, none) else (0, some value)

  abbrev pub mdhim_leveldb_get : level.Db → Data → ℕ × Option Data
  mdhim_leveldb_get db key = got (level.get db key)

  abbrev entry_or_error : Data → Option Pair → ℕ × Data × Option Data
  entry_or_error key none = (db_error, record { bytes = key.bytes; len = 0 }, none)
  entry_or_error key (some r) = (0, r.key, some r.value)

  -- From the place where the key was sought, one on.
  abbrev moved : Data → (level.Iterator → level.Iterator) → level.Iterator → ℕ × Data × Option Data
  moved key move iter = elim (level.iter_entry iter) [
    | none ↦ entry_or_error key none
    | some r ↦ entry_or_error key (level.iter_entry (move iter))
  ]

  abbrev pub mdhim_leveldb_get_next : level.Db → Data → ℕ × Data × Option Data
  mdhim_leveldb_get_next db key =
      if key.len == 0
      then entry_or_error key (level.iter_entry (level.iter_seek_to_first db))
      else moved key level.iter_next (level.iter_seek db key)

  abbrev pub mdhim_leveldb_get_prev : level.Db → Data → ℕ × Data × Option Data
  mdhim_leveldb_get_prev db key =
      if key.len == 0
      then entry_or_error key (level.iter_entry (level.iter_seek_to_last db))
      else moved key level.iter_prev (level.iter_seek db key)

  -- The function pointers, with mdhim_leveldb_commit, which does nothing.
  abbrev pub leveldb_calls : StoreCalls
  leveldb_calls = record {
    Db = level.Db;
    get = mdhim_leveldb_get;
    get_next = mdhim_leveldb_get_next;
    get_prev = mdhim_leveldb_get_prev;
    put = mdhim_leveldb_put;
    del = mdhim_leveldb_del;
    commit = λ db. (0, db);
  }

  abbrev pub leveldb_batches : BatchCalls leveldb_calls
  leveldb_batches = record { batch_put = mdhim_leveldb_batch_put }

  -- The comparator gives 0 for a key of a length that is readable and itself.
  abbrev pub IsReflexive : (ℕ → Type 0) → Type 0
  IsReflexive Readable = (a b : Data) → Readable b.len → Same a b → is_equal (compare a b) ≡ true

  pub no_err : (r : Bool × level.Db) → (code r).0 ≡ 0 → r.0 ≡ false
  no_err (false, db) e = refl
  no_err (true, db) e = absurd (omega (arith, e))

  pub found_lem : (value : Data) → value.len ≢ 0 → got (false, some value) ≡ (0, some value)
  found_lem value some_bytes = let is : (value.len == 0) ≡ false = grind arith in rw is refl

  -- The operations of ds_leveldb.c over LevelDB are a store as the range server needs it.
  unfoldable pub leveldb_calls-Stores :
      (Readable : ℕ → Type 0) → IsReflexive Readable → Stores leveldb_calls
  leveldb_calls-Stores Readable reflexive = record {
    Readable = Readable;
    Apart = λ a b. is_equal (compare a b) ≡ false;
    get-put = λ db key value key' taken some_bytes readable same.
        let read = level.get-put db key value key' (no_err (level.put db key value) taken) in
        (
          value,
          rw (read, reflexive key' key readable same) (found_lem value some_bytes),
          (refl, λ k b. refl),
        );
    get-put_other = λ db key value key' taken apart.
        let read = level.get-put db key value key' (no_err (level.put db key value) taken) in
        rw (read, apart) refl;
  }

  pub in_turn-Absent :
      (key : Data) (records : List Pair) (found : Bool × Option Data)
      → Absent (λ a b. is_equal (compare a b) ≡ false) key records
      → in_turn compare records key found ≡ found
  in_turn-Absent key [] found absent = refl
  in_turn-Absent key (r ∷ rs) found (apart, absent) = rw apart (in_turn-Absent key rs found absent)

  pub in_turn-Latest :
      (Readable : ℕ → Type 0) (key value : Data) (records : List Pair) (found : Bool × Option Data)
      → IsReflexive Readable
      → Readable key.len
      → Latest (λ a b. is_equal (compare a b) ≡ false) key value records
      → in_turn compare records key found ≡ (false, some value)
  in_turn-Latest Readable key value [] found reflexive readable latest = elim latest [ ]
  in_turn-Latest Readable key value (r ∷ rs) found reflexive readable (inl (same, is, absent)) =
      rw (reflexive key r.key (subst Readable same.0 readable) same)
        (in_turn-Absent key rs (false, some r.value) absent ∙ ap (λ v. (false, some v)) (sym is))
  in_turn-Latest Readable key value (r ∷ rs) found reflexive readable (inr latest) =
      in_turn-Latest Readable key value rs _ reflexive readable latest

  unfoldable pub leveldb_batches-Batches :
      (Readable : ℕ → Type 0)
      → IsReflexive Readable
      → WritesBatches compare level
      → Batches leveldb_calls leveldb_batches
  leveldb_batches-Batches Readable reflexive batches = record {
    Readable = Readable;
    Apart = λ a b. is_equal (compare a b) ≡ false;
    get-batch_put = λ db records key value taken latest some_bytes readable.
        let read = batches.get-write db records key (no_err (level.write db records) taken) in
        (
          value,
          ap got (
                read
                ∙ in_turn-Latest Readable key value records (level.get db key) reflexive readable
                    latest)
              ∙ found_lem value some_bytes,
          (refl, λ k b. refl),
        );
    get-batch_put_other = λ db records key taken absent.
        let read = batches.get-write db records key (no_err (level.write db records) taken) in
        ap got (read ∙ in_turn-Absent key records (level.get db key) absent);
  }
