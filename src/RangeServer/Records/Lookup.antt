-- ===== src/RangeServer/Records/Lookup.antt =====
-- A value that is put is the one that a get finds.
use mpi_to_openshmem.Prelude.{
  ℕ, ◌+◌, ◌<◌, ◌≡◌, ◌≢◌, ◌∙◌, ap, refl, Bool, true, false, Option, none, some, leb, ◌==◌, arith,
}
use mpi_to_openshmem.Uthash.{IntHash}
use mpi_to_openshmem.Floats.{Floats, Bytes}
use mpi_to_openshmem.Partitioner.Alphabet.{MdhimChar}
use mpi_to_openshmem.Partitioner.Stats.{MdhimStat}
use mpi_to_openshmem.Partitioner.Cursor.{Mdhim}
use mpi_to_openshmem.Mpi.Datatypes.{i32_mod}
use mpi_to_openshmem.Mpi.Pack.Sequence.{write-inside, write-below}
use mpi_to_openshmem.Messages.Types.{Data, PutMessage, GetMessage, recv, recv_get}
use mpi_to_openshmem.Messages.Packing.Holds.{Same}
use mpi_to_openshmem.RangeServer.Stats.{update_all_stats}
use mpi_to_openshmem.RangeServer.Records.{
  StoreCalls, Stores, send_locally_or_remote, get_eq, has_bytes, new_value, MdhimServer, served,
  respond, put_stats, after_put, range_server_put, get_record, data_or_null, range_server_get,
}

-- `v` is the new value; or, with the option to append and an old value with bytes, both.
abbrev pub Kept : Bool → Option Data → Data → Data → Type 0
Kept append none new v = Same v new
Kept false (some old) new v = Same v new
Kept true (some old) new v =
    (old.len ≡ 0 → Same v new)
    × (old.len ≢ 0
        → (v.len ≡ old.len + new.len)
          × ((k : ℕ) → k < old.len → v.bytes k ≡ old.bytes k)
          × ((k : ℕ) → k < new.len → v.bytes (old.len + k) ≡ new.bytes k))

pub new_value-Kept :
    (append : Bool) (old : Option Data) (new v : Data)
    → Same v (new_value append old new)
    → Kept append old new v
unfolding new_value
new_value-Kept append none new v same = same
new_value-Kept false (some old) new v same = same
new_value-Kept true (some old) new v same = (
  λ e. (let zero_len : (old.len == 0) ≡ true = grind arith in rw zero_len at same),
  λ ne.
      let some_len : (old.len == 0) ≡ false = grind arith in
      let (len, bytes) = rw some_len at same in
      (
        len,
        (λ k b. bytes k (omega arith) ∙ write-below old.bytes new.bytes old.len new.len k b),
        λ k b.
            bytes (old.len + k) (omega arith)
            ∙ write-inside old.bytes new.bytes old.len new.len k b,
      ),
)

module _ (h : IntHash MdhimChar) (fl : Floats) (hs : IntHash (MdhimStat fl.Real))
    (store : StoreCalls) where
  -- A put that the store takes is answered with 0, and only the store and the statistics change.
  pub put_served :
      (size : ℕ) (s : MdhimServer h fl hs store) (key : Data) (exists : Bool) (source : ℕ)
      (md' : Mdhim h.Table hs.Table)
      → update_all_stats h fl hs s.md key.bytes key.len ≡ some md'
      → (md1 : Mdhim h.Table hs.Table) × (after_put h fl hs store size s key exists 0 source
          ≡ served
              (record s { md = md1 })
              (send_locally_or_remote s.mdhim_rank source
                (recv (record { server_rank = s.mdhim_rank; size = size; error = 0 }))))
  unfolding after_put put_stats respond
  put_served size s key true source md' counts = (s.md, refl)
  put_served size s key false source md' counts = (md', rw counts refl)

  pub put_lem :
      (size : ℕ) (s : MdhimServer h fl hs store) (im : PutMessage) (source : ℕ) (new : Data)
      (ret : ℕ) (db : store.Db)
      → new_value s.append (store.get s.db im.key).1 im.value ≡ new
      → store.put s.db im.key new ≡ (ret, db)
      → new.len < i32_mod
      → range_server_put h fl hs store size s im source
        ≡ after_put h fl hs store size
            (record s { db = db })
            im.key
            (has_bytes (store.get s.db im.key).1)
            ret
            source
  unfolding range_server_put
  put_lem size s im source new ret db e0 e1 fits =
      let in_int : leb i32_mod new.len ≡ false = grind arith in rw (e0, e1) (rw in_int refl)

  pub get_lem :
      (size : ℕ) (raw : Bytes) (s : MdhimServer h fl hs store) (gm : GetMessage) (source : ℕ)
      (value : Data)
      → store.get s.db gm.key ≡ (0, some value)
      → range_server_get h fl hs store size raw s gm source get_eq
        ≡ served s (
            send_locally_or_remote s.mdhim_rank source (
              recv_get (record {
                server_rank = s.mdhim_rank;
                size = size;
                error = 0;
                key = gm.key;
                value = value;
              })))
  unfolding range_server_get get_record data_or_null
  get_lem size raw s gm source value e = rw e refl

  get_record_lem :
      (s' s : MdhimServer h fl hs store) (gm : GetMessage)
      → store.get s'.db gm.key ≡ store.get s.db gm.key
      → get_record h fl hs store s' gm get_eq ≡ get_record h fl hs store s gm get_eq
  unfolding get_record
  get_record_lem s' s gm e = ap (λ (r : ℕ × Option Data). (r.0, gm.key, r.1)) e

  -- If the store keeps what it takes under keys of a length that it can read, and what is under
  -- keys that it tells apart, as ds_leveldb.c over LevelDB does, and takes the put, the key has
  -- such a length, the value to be stored has bytes and a length that is an int, and the
  -- statistics do not crash, range_server_put answers the sender with 0, and range_server_get of
  -- the same key after it answers its sender with 0, the key and the new value, or the old value
  -- and the new one behind it where values are appended and the old one has bytes; what it finds
  -- under a key that is told apart is as before the put.
  pub range_server_put-range_server_get :
      (stores : Stores store) (size size' : ℕ) (raw : Bytes) (s : MdhimServer h fl hs store)
      (im : PutMessage) (gm other : GetMessage) (source source' : ℕ) (md' : Mdhim h.Table hs.Table)
      → let old = (store.get s.db im.key).1 in
        let new = new_value s.append old im.value in
        (store.put s.db im.key new).0 ≡ 0
        → new.len < i32_mod
        → new.len ≢ 0
        → update_all_stats h fl hs s.md im.key.bytes im.key.len ≡ some md'
        → stores.Readable im.key.len
        → Same gm.key im.key
        → stores.Apart other.key im.key
        → (s' : MdhimServer h fl hs store) × (value : Data) × (range_server_put h fl hs store size s
              im source
            ≡ served s' (
                send_locally_or_remote s.mdhim_rank source
                  (recv (record { server_rank = s.mdhim_rank; size = size; error = 0 }))))
          × (range_server_get h fl hs store size' raw s' gm source' get_eq
              ≡ served s' (
                  send_locally_or_remote s.mdhim_rank source' (
                    recv_get (record {
                      server_rank = s.mdhim_rank;
                      size = size';
                      error = 0;
                      key = gm.key;
                      value = value;
                    }))))
          × Kept s.append old im.value value
          × (get_record h fl hs store s' other get_eq ≡ get_record h fl hs store s other get_eq)
  range_server_put-range_server_get stores size size' raw s im gm other source source' md' taken
        fits some_bytes counts readable same differs =
      let old = (store.get s.db im.key).1 in
      let new = new_value s.append old im.value in
      let db' = (store.put s.db im.key new).1 in
      let s1 : MdhimServer h fl hs store = record s { db = db' } in
      let (md1, answered) = put_served size s1 im.key (has_bytes old) source md' counts in
      let (value, is_there, same_value) =
        stores.get-put s.db im.key new gm.key taken some_bytes readable same in
      let s2 : MdhimServer h fl hs store = record s1 { md = md1 } in
      (
        s2,
        value,
        put_lem size s im source new 0 db' refl (ap (λ r. (r, db')) taken) fits ∙ answered,
        get_lem size' raw s2 gm source' value is_there,
        new_value-Kept s.append old im.value value same_value,
        get_record_lem s2 s other (stores.get-put_other s.db im.key new other.key taken differs),
      )
