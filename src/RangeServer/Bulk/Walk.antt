-- ===== src/RangeServer/Bulk/Walk.antt =====
-- Records in order by range_server_bget_op.
use mpi_to_openshmem.Prelude.{
  ℕ, zero, suc, ◌≤◌, ◌≡◌, ◌≢◌, ◌∙◌, sym, ap, refl, List, [], ◌∷◌, Bool, true, false, some, ltb, leb,
  ◌==◌, ◌&&◌, length, take, if◌then◌else◌, arith,
}
use mpi_to_openshmem.Uthash.{IntHash}
use mpi_to_openshmem.Floats.{Floats, Bytes}
use mpi_to_openshmem.Partitioner.Alphabet.{MdhimChar}
use mpi_to_openshmem.Partitioner.Stats.{MdhimStat}
use mpi_to_openshmem.Messages.Types.{Data, Pair, GetMessage, recv_get}
use mpi_to_openshmem.RangeServer.Records.{
  StoreCalls, send_locally_or_remote, get_next_op, get_prev_op, get_first, MdhimServer, served,
  get_record, data_or_null, range_server_get,
}
use mpi_to_openshmem.RangeServer.Bulk.{
  max_bulk_ops, Move, walk, get_from, get_by_op, respond_records, range_server_bget_op,
}

and_false : (b : Bool) → (b && false) ≡ false
and_false true = refl
and_false false = refl

leb_zero : (m : ℕ) → leb 0 m ≡ true
leb_zero m = grind arith

leb-suc : (n m : ℕ) → leb (suc n) (suc m) ≡ leb n m
leb-suc n m = ground arith

leb_none : (n : ℕ) → leb (suc n) 0 ≡ false
leb_none n = grind arith

module _ (store : StoreCalls) where
  -- From the key the moves go through the records and then fail with the code.
  abbrev pub Walks : Move store → store.Db → ℕ → Data → List Pair → Type 0
  Walks move db code key [] = (move db key).0 ≡ code
  Walks move db code key (r ∷ rs) =
      (move db key ≡ (0, r.key, some r.value)) × Walks move db code r.key rs

  ends :
      (move : Move store) (raw : Bytes) (n : ℕ) (db : store.Db) (key : Data) (code : ℕ)
      → (move db key).0 ≡ code
      → code ≢ 0
      → walk store move raw (suc n) db key ≡ (code, [])
  unfolding walk
  ends move raw n db key code e fails =
      let nonzero : ((move db key).0 == 0) ≡ false = grind arith in rw nonzero (ap (λ c. (c, [])) e)

  walk_lem :
      (move : Move store) (raw : Bytes) (n : ℕ) (db : store.Db) (key : Data) (code : ℕ)
      (rs : List Pair)
      → Walks move db code key rs
      → code ≢ 0
      → walk store move raw n db key ≡ (if leb n (length rs) then 0 else code, take n rs)
  unfolding walk data_or_null
  walk_lem move raw zero db key code rs walks fails = rw (leb_zero (length rs)) refl
  walk_lem move raw (suc n) db key code [] walks fails =
      rw (leb_none n) (ends move raw n db key code walks fails)
  walk_lem move raw (suc n) db key code (r ∷ rs) (here, walks) fails = rw (leb-suc n (length rs)) (
      rw here (
        ap (λ (p : ℕ × List Pair). (p.0, r ∷ p.1))
          (walk_lem move raw n db r.key code rs walks fails)))

  get_from_lem :
      (move : Move store) (raw : Bytes) (n : ℕ) (db : store.Db) (code : ℕ) (r : Pair)
      (rs : List Pair)
      → store.get db r.key ≡ (0, some r.value)
      → Walks move db code r.key rs
      → code ≢ 0
      → get_from store move raw (suc n) db r.key
        ≡ (if leb n (length rs) then 0 else code, r ∷ take n rs)
  unfolding get_from data_or_null
  get_from_lem move raw n db code r rs there walks fails = rw there (
      ap (λ (p : ℕ × List Pair). (p.0, r ∷ p.1)) (walk_lem move raw n db r.key code rs walks fails))

  abbrev pub move_of : Bool → Move store
  move_of back = if back then store.get_prev else store.get_next

  abbrev pub op_of : Bool → ℕ
  op_of back = if back then get_prev_op else get_next_op

  by_op :
      (back : Bool) (raw : Bytes) (n : ℕ) (db : store.Db) (gm : GetMessage)
      → gm.key.len ≢ 0
      → gm.num_records ≡ suc n
      → suc n ≤ max_bulk_ops
      → get_by_op store raw db gm (op_of back) ≡ get_from store (move_of back) raw (suc n) db gm.key
  unfolding get_by_op
  by_op back raw n db gm some_key num fits =
      let few : ltb max_bulk_ops (suc n) ≡ false = grind arith in
      let nonzero : (gm.key.len == 0) ≡ false = grind arith in
      let some_left : (suc n == 0) ≡ false = grind arith in
      elim back
        as (λ b.
          get_by_op store raw db gm (op_of b) ≡ get_from store (move_of b) raw (suc n) db gm.key) [
            | true ↦ rw num (rw few (rw (nonzero, some_left) refl))
            | false ↦ rw num (rw few (rw (nonzero, some_left) refl))
          ]

  get_fails :
      (move : Move store) (raw : Bytes) (n : ℕ) (db : store.Db) (key : Data) (code : ℕ)
      → (store.get db key).0 ≡ code
      → code ≢ 0
      → get_from store move raw (suc n) db key ≡ (code, [])
  unfolding get_from
  get_fails move raw n db key code e fails =
      let nonzero : ((store.get db key).0 == 0) ≡ false = grind arith in
      rw nonzero (ap (λ c. (c, [])) e)

  by_first :
      (raw : Bytes) (n : ℕ) (db : store.Db) (gm : GetMessage)
      → gm.num_records ≡ suc n
      → suc n ≤ max_bulk_ops
      → get_by_op store raw db gm get_first ≡ get_from store store.get_next raw (suc n) db gm.key
  unfolding get_by_op
  by_first raw n db gm num fits =
      let few : ltb max_bulk_ops (suc n) ≡ false = grind arith in
      let some_left : (suc n == 0) ≡ false = grind arith in
      rw num (rw few (rw (and_false (gm.key.len == 0), some_left) refl))

-- The key with which range_server_get asks for the first record.
unset_key : (key : Data) → key.len ≡ 0 → Path Data (record key { len = 0 }) key
unset_key key e = ap (λ (l : ℕ). record key { len = l }) (sym e)

module _ (h : IntHash MdhimChar) (fl : Floats) (hs : IntHash (MdhimStat fl.Real))
    (store : StoreCalls) where
  -- For MDHIM_GET_NEXT or MDHIM_GET_PREV, a key with bytes that the store finds, and a number of
  -- records from 1 to MAX_BULK_OPS, if the moves of the store from the key go through a list of
  -- records and then fail with a code that is not 0, range_server_bget_op answers with the key and
  -- as many of the records after it as were asked for or are there, and with 0 if there are enough
  -- of them, and else the code.
  pub range_server_bget_op-Walks :
      (back : Bool) (size : ℕ) (raw : Bytes) (s : MdhimServer h fl hs store) (gm : GetMessage)
      (source n code : ℕ) (value : Data) (rs : List Pair)
      → gm.num_records ≡ suc n
      → suc n ≤ max_bulk_ops
      → gm.key.len ≢ 0
      → store.get s.db gm.key ≡ (0, some value)
      → Walks store (move_of store back) s.db code gm.key rs
      → code ≢ 0
      → range_server_bget_op h fl hs store size raw s gm source (op_of store back)
        ≡ respond_records h fl hs store size s
            (
              if leb n (length rs) then 0 else code,
              record { key = gm.key; value = value } ∷ take n rs,
            )
            source
  unfolding range_server_bget_op
  range_server_bget_op-Walks back size raw s gm source n code value rs num fits some_key there walks
        fails =
      let r : Pair = record { key = gm.key; value = value } in
      rw (by_op store back raw n s.db gm some_key num fits)
        (rw (get_from_lem store (move_of store back) raw n s.db code r rs there walks fails) refl)

  -- For MDHIM_GET_FIRST without a key and a number of records from 1 to MAX_BULK_OPS, if the store
  -- has a first record but fails to get the key of length 0, range_server_bget_op answers with
  -- that failure and no records, while range_server_get answers with 0 and the first record.
  pub range_server_bget_op_first :
      (size : ℕ) (raw : Bytes) (s : MdhimServer h fl hs store) (gm : GetMessage) (source n code : ℕ)
      (first : Pair)
      → gm.num_records ≡ suc n
      → suc n ≤ max_bulk_ops
      → gm.key.len ≡ 0
      → (store.get s.db gm.key).0 ≡ code
      → code ≢ 0
      → store.get_next s.db gm.key ≡ (0, first.key, some first.value)
      → (range_server_bget_op h fl hs store size raw s gm source get_first
          ≡ respond_records h fl hs store size s (code, []) source)
        × (range_server_get h fl hs store size raw s gm source get_first
            ≡ served s (
                send_locally_or_remote s.mdhim_rank source (
                  recv_get (record {
                    server_rank = s.mdhim_rank;
                    size = size;
                    error = 0;
                    key = first.key;
                    value = first.value;
                  }))))
  unfolding range_server_bget_op range_server_get get_record data_or_null
  range_server_bget_op_first size raw s gm source n code first num fits no_key missing fails there =
      (
        rw (by_first store raw n s.db gm num fits)
            (rw (get_fails store store.get_next raw n s.db gm.key code missing fails) refl),
        let asked = ap (λ k. store.get_next s.db k) (unset_key gm.key no_key) ∙ there in
            rw asked refl,
      )
