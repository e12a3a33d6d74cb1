-- ===== src/Client/PutGet.antt =====
-- What mdhimPut stores is what mdhimGet finds, from any process.
use mathlib.Core.Path.{subst}
use mpi_to_openshmem.Prelude.{
  ℕ, ◌+◌, ◌≤◌, ◌<◌, ◌≡◌, ◌≢◌, ◌∙◌, ap, refl, true, false, some, ltb, ◌==◌, arith, sym,
}
use mpi_to_openshmem.Prelude.Int.{u32_mod}
use mpi_to_openshmem.Uthash.{IntHash}
use mpi_to_openshmem.Floats.{Floats, Bytes}
use mpi_to_openshmem.Partitioner.Alphabet.{MdhimChar}
use mpi_to_openshmem.Partitioner.Servers.{RangesrvInfo}
use mpi_to_openshmem.Partitioner.Stats.{MdhimStat}
use mpi_to_openshmem.Partitioner.Cursor.{Mdhim, get_range_server}
use mpi_to_openshmem.Mpi.Datatypes.{i32_mod}
use mpi_to_openshmem.Messages.Types.{
  Data, PutMessage, GetMessage, ReturnMessage, GetReturnMessage, put, get, Response, recv, recv_get,
  max_msg_size,
}
use mpi_to_openshmem.Messages.Packing.Holds.{Same}
use mpi_to_openshmem.RangeServer.Stats.{update_all_stats}
use mpi_to_openshmem.RangeServer.Records.{
  StoreCalls, Stores, send_locally_or_remote, get_eq, has_bytes, new_value, MdhimServer,
  range_server_get,
}
use mpi_to_openshmem.RangeServer.Records.Lookup.{Kept, new_value-Kept, put_served, put_lem, get_lem}
use mpi_to_openshmem.RangeServer.Bulk.{BatchCalls}
use mpi_to_openshmem.RangeServer.Threads.{next, outcome, serve, serve_get}
use mpi_to_openshmem.Client.{
  NetworkCalls, Delivers, Process, World, set_server, returned, with_server, key_data, call_server,
  mdhim_put, mdhim_get,
}
use mpi_to_openshmem.Client.Exchange.{Serves, call_server-Exchanged}
use mpi_to_openshmem.Client.Came.{
  Same-sym, Same-trans, put-IsWork, get-IsWork, came_put, came_get, back_put, back_get,
}

module _ (h : IntHash MdhimChar) (fl : Floats) (hs : IntHash (MdhimStat fl.Real))
    (store : StoreCalls) where
  abbrev new_of : MdhimServer h fl hs store → PutMessage → Data
  new_of s im = new_value s.append (store.get s.db im.key).1 im.value

  -- The server's store takes the value under the key, however they come, the value to be stored has
  -- bytes and fits into an answer with the key, and the statistics do not crash.
  abbrev pub Takes : MdhimServer h fl hs store → Data → Data → Type 0
  Takes s key value =
      (im : PutMessage)
      → Same im.key key
      → Same im.value value
      → ((store.put s.db im.key (new_of s im)).0 ≡ 0)
        × ((new_of s im).len ≢ 0)
        × (48 + (key.len + (new_of s im).len) ≤ max_msg_size)
        × ((md' : Mdhim h.Table hs.Table) × (update_all_stats h fl hs s.md im.key.bytes im.key.len
              ≡ some md'))

  module _ (calls : BatchCalls store) (size : ℕ) (raw : Bytes) where
    -- After the put, and its answer.
    abbrev AfterPut :
        MdhimServer h fl hs store → Data → Data → MdhimServer h fl hs store → Response → Type 0
    AfterPut s key value s' m =
        (im : PutMessage) × Same im.key key
        × Same im.value value
        × (s'.db ≡ (store.put s.db im.key (new_of s im)).1)
        × (s'.mdhim_rank ≡ s.mdhim_rank)
        × (m ≡ recv (record { server_rank = s.mdhim_rank; size = size; error = 0 }))

    put_lem' :
        (s : MdhimServer h fl hs store) (im : PutMessage) (source : ℕ)
        → (store.put s.db im.key (new_of s im)).0 ≡ 0
        → (new_of s im).len < i32_mod
        → (md' : Mdhim h.Table hs.Table)
        → update_all_stats h fl hs s.md im.key.bytes im.key.len ≡ some md'
        → (md1 : Mdhim h.Table hs.Table) × (serve h fl hs store calls size raw s (put im) source
            ≡ next
                (record s { db = (store.put s.db im.key (new_of s im)).1; md = md1 })
                (some (
                  send_locally_or_remote s.mdhim_rank source
                    (recv (record { server_rank = s.mdhim_rank; size = size; error = 0 })))))
    unfolding serve outcome
    put_lem' s im source taken fits md' counts =
        let new = new_of s im in
        let db' = (store.put s.db im.key new).1 in
        let s1 : MdhimServer h fl hs store = record s { db = db' } in
        let (md1, answered) =
          put_served h fl hs store size s1 im.key (has_bytes (store.get s.db im.key).1) source md'
            counts in
        let e =
          put_lem h fl hs store size s im source new 0 db' refl (ap (λ r. (r, db')) taken) fits in
        (md1, ap (outcome h fl hs store) (e ∙ answered))

    get_lem' :
        (s : MdhimServer h fl hs store) (gm : GetMessage) (source : ℕ) (value : Data)
        → gm.op ≡ get_eq
        → gm.num_records ≡ 1
        → store.get s.db gm.key ≡ (0, some value)
        → serve h fl hs store calls size raw s (get gm) source
          ≡ next s (
              some (
                send_locally_or_remote s.mdhim_rank source (
                  recv_get (record {
                    server_rank = s.mdhim_rank;
                    size = size;
                    error = 0;
                    key = gm.key;
                    value = value;
                  }))))
    unfolding serve outcome serve_get
    get_lem' s gm source value op num e =
        let one : ltb 1 gm.num_records ≡ false = grind arith in
        rw one (
          ap (λ o. outcome h fl hs store (range_server_get h fl hs store size raw s gm source o)) op
          ∙ ap (outcome h fl hs store) (get_lem h fl hs store size raw s gm source value e))

    put-Serves :
        (w : World h fl hs store) (rank dest : ℕ) (pm : PutMessage)
        → (w dest).mdhim_rank ≡ dest
        → dest < u32_mod
        → Takes (w dest) pm.key pm.value
        → Serves h fl hs store calls size raw rank dest w
            (put pm)
            (AfterPut (w dest) pm.key pm.value)
    put-Serves w rank dest pm at_dest small takes r' came =
        let s = w dest in
        let (im, is, key, value) = came_put pm r' came in
        let (taken, some_bytes, fits, (md', counts)) = takes im key value in
        let (md1, e) = put_lem' s im rank taken (omega arith) md' counts in
        let m : Response = recv (record { server_rank = s.mdhim_rank; size = size; error = 0 }) in
        (
          record s { db = (store.put s.db im.key (new_of s im)).1; md = md1 },
          m,
          ap (λ r. serve h fl hs store calls size raw s r rank) is
              ∙ e
              ∙ ap
                  (λ d.
                    next (record s { db = (store.put s.db im.key (new_of s im)).1; md = md1 })
                      (some (send_locally_or_remote d rank m)))
                  at_dest,
          (omega arith, omega arith),
          (im, key, value, refl, refl, refl),
        )

    -- The answer to the get.
    abbrev AfterGet :
        MdhimServer h fl hs store → Data → Data → MdhimServer h fl hs store → Response → Type 0
    AfterGet s key new s' m =
        (g : GetReturnMessage) × (m ≡ recv_get g)
        × (g.error ≡ 0)
        × Same g.key key
        × Same g.value new

    get-Serves :
        (stores : Stores store) (s s' : MdhimServer h fl hs store) (w : World h fl hs store)
        (rank dest : ℕ) (gm : GetMessage) (im : PutMessage)
        → w dest ≡ s'
        → s'.mdhim_rank ≡ dest
        → dest < u32_mod
        → gm.op ≡ get_eq
        → gm.num_records ≡ 1
        → Same im.key gm.key
        → s'.db ≡ (store.put s.db im.key (new_of s im)).1
        → (store.put s.db im.key (new_of s im)).0 ≡ 0
        → (new_of s im).len ≢ 0
        → stores.Readable im.key.len
        → 48 + (gm.key.len + (new_of s im).len) ≤ max_msg_size
        → Serves h fl hs store calls size raw rank dest w
            (get gm)
            (AfterGet s' gm.key (new_of s im))
    get-Serves stores s s' w rank dest gm im here at_dest small op one key db taken some_bytes
          readable fits r' came =
        let (gm', is, key', op', one') = came_get gm r' came in
        let new = new_of s im in
        let (value, there, same) =
          stores.get-put s.db im.key new gm'.key taken some_bytes readable
            (Same-trans gm'.key gm.key im.key key' (Same-sym im.key gm.key key)) in
        let g : GetReturnMessage = record {
          server_rank = s'.mdhim_rank;
          size = size;
          error = 0;
          key = gm'.key;
          value = value;
        } in
        let found = ap (λ d. store.get d gm'.key) db ∙ there in
        let e = get_lem' s' gm' rank value (op' ∙ op) (one' ∙ one) found in
        (
          s',
          recv_get g,
          ap (λ y. serve h fl hs store calls size raw y r' rank) here
              ∙ ap (λ r. serve h fl hs store calls size raw s' r rank) is
              ∙ e
              ∙ ap (λ d. next s' (some (send_locally_or_remote d rank (recv_get g)))) at_dest,
          (omega (arith, key'.0, same.0), omega arith, omega arith),
          (g, refl, refl, key', same),
        )

    module _ (net : NetworkCalls) where
      put_call :
          (p : Process h.Table hs.Table) (w : World h fl hs store) (key value : Data)
          (ri : RangesrvInfo)
          → get_range_server h fl hs p.md (some key.bytes) key.len ≡ some (some ri)
          → mdhim_put h fl hs store calls size raw net p w key value
            ≡ call_server h fl hs store calls size raw net p w ri.rank
                (put (record { server_rank = ri.rank; size = size; key = key; value = value }))
      unfolding mdhim_put with_server
      put_call p w key value ri e = rw e refl

      get_call :
          (p : Process h.Table hs.Table) (w : World h fl hs store) (key : Data) (ri : RangesrvInfo)
          → get_range_server h fl hs p.md (some key.bytes) key.len ≡ some (some ri)
          → mdhim_get h fl hs store calls size raw net p w (some key.bytes) key.len get_eq
            ≡ call_server h fl hs store calls size raw net p w ri.rank (
                get (record {
                  server_rank = ri.rank;
                  size = size;
                  op = get_eq;
                  key = key;
                  num_records = 1;
                }))
      unfolding mdhim_get with_server key_data
      get_call p w key ri e = rw e refl

      set_server_here :
          (w : World h fl hs store) (rank : ℕ) (s : MdhimServer h fl hs store)
          → set_server h fl hs store w rank s rank ≡ s
      unfolding set_server
      set_server_here w rank s = let same : (rank == rank) ≡ true = grind arith in rw same refl

      -- If the store keeps what it takes under keys of a length that it can read, as ds_leveldb.c
      -- over LevelDB does, the key has such a length, and the network delivers what can be sent,
      -- two processes find the same range server for the key, which has that rank, a process with
      -- the rank of the server is a range server, the put fits into a message, and the server
      -- takes the value (its store takes it, the value to be stored has bytes and fits into an
      -- answer with the key, and the statistics do not crash), then mdhimPut by the one returns an
      -- answer with error 0, and mdhimGet with MDHIM_GET_EQ by the other after it returns error 0,
      -- the key and the value, or the old value and the value behind it where values are appended
      -- and the old one has bytes; each call goes over the network or to the process's own worker.
      pub mdhim_put-mdhim_get :
          (stores : Stores store) (delivers : Delivers net) (p1 p2 : Process h.Table hs.Table)
          (w : World h fl hs store) (key value : Data) (ri : RangesrvInfo)
          → get_range_server h fl hs p1.md (some key.bytes) key.len ≡ some (some ri)
          → get_range_server h fl hs p2.md (some key.bytes) key.len ≡ some (some ri)
          → (w ri.rank).mdhim_rank ≡ ri.rank
          → ri.rank < u32_mod
          → (p1.mdhim_rank ≡ ri.rank → p1.is_server ≡ true)
          → (p2.mdhim_rank ≡ ri.rank → p2.is_server ≡ true)
          → 48 + (key.len + value.len) ≤ max_msg_size
          → Takes (w ri.rank) key value
          → stores.Readable key.len
          → (w1 : World h fl hs store) × (w2 : World h fl hs store) × (a : ReturnMessage)
            × (g : GetReturnMessage) × (im : PutMessage) × (mdhim_put h fl hs store calls size raw
                  net p1 w key value
                ≡ returned w1 (some (recv a)))
            × (a.error ≡ 0)
            × (mdhim_get h fl hs store calls size raw net p2 w1 (some key.bytes) key.len get_eq
                ≡ returned w2 (some (recv_get g)))
            × (g.error ≡ 0)
            × Same g.key key
            × Same im.key key
            × Same im.value value
            × Kept (w ri.rank).append (store.get (w ri.rank).db im.key).1 im.value g.value
      mdhim_put-mdhim_get stores delivers p1 p2 w key value ri e1 e2 at_dest small own1 own2 fits
            takes readable =
          let dest = ri.rank in
          let s = w dest in
          let pm : PutMessage = record {
            server_rank = dest;
            size = size;
            key = key;
            value = value;
          } in
          let gm : GetMessage = record {
            server_rank = dest;
            size = size;
            op = get_eq;
            key = key;
            num_records = 1;
          } in
          let (s', m, m', called, back, (im, im_key, im_value, db, rank', is)) =
            call_server-Exchanged h fl hs store calls size raw net p1 w dest (put pm)
              (AfterPut s key value) delivers (fits, small) (put-IsWork pm) own1
              (put-Serves w p1.mdhim_rank dest pm at_dest small takes) in
          let (a, is_a, no_error) = back_put m m' _ back is in
          let w1 = set_server h fl hs store w dest s' in
          let (taken, some_bytes, fits', _) = takes im im_key im_value in
          let new = new_of s im in
          let (s2, n, n', called', back', (g0, is_g0, no_error0, key0, value0)) =
            call_server-Exchanged h fl hs store calls size raw net p2 w1 dest (get gm)
              (AfterGet s' key new) delivers (omega arith, small, omega arith, omega arith)
              (get-IsWork gm) own2
              (get-Serves stores s s' w1 p2.mdhim_rank dest gm im (set_server_here w dest s')
                (rank' ∙ at_dest) small refl refl im_key db taken some_bytes
                (subst stores.Readable (sym im_key.0) readable) fits') in
          let (g, is_g, error_g, key_g, value_g) = back_get n n' g0 back' is_g0 in
          (
            w1,
            set_server h fl hs store w1 dest s2,
            a,
            g,
            im,
            put_call p1 w key value ri e1 ∙ called ∙ ap (λ x. returned w1 (some x)) is_a,
            no_error,
            get_call p2 w1 key ri e2
                ∙ called'
                ∙ ap (λ x. returned (set_server h fl hs store w1 dest s2) (some x)) is_g,
            error_g ∙ no_error0,
            Same-trans g.key g0.key key key_g key0,
            im_key,
            im_value,
            new_value-Kept s.append (store.get s.db im.key).1 im.value g.value
                (Same-trans g.value g0.value new value_g value0),
          )
