-- ===== src/Client/Bulk.antt =====
-- mdhimBPut, mdhimBGet and mdhimBDelete of mdhimMods/src/mdhim.c up to the sending: the records are
-- sorted into one bulk message for each range server, and one for this process itself. malloc finds space.
pub mod Sorted
use mpi_to_openshmem.Prelude.{
  ℕ, ◌+◌, ◌-◌, ◌≡◌, Bool, ◌&&◌, not, List, [], ◌∷◌, ◌++◌, Option, none, some, ltb, leb, ◌==◌,
  length, if◌then◌else◌,
}
use mpi_to_openshmem.Uthash.{IntHash}
use mpi_to_openshmem.Floats.{Floats}
use mpi_to_openshmem.Partitioner.Alphabet.{MdhimChar}
use mpi_to_openshmem.Partitioner.Servers.{RangesrvInfo}
use mpi_to_openshmem.Partitioner.Stats.{MdhimStat}
use mpi_to_openshmem.Partitioner.Cursor.{Mdhim, get_range_server}
use mpi_to_openshmem.Messages.Types.{Data, Pair, Request, bulk_put, bulk_get, bulk_del}
use mpi_to_openshmem.RangeServer.Records.{get_eq}
use mpi_to_openshmem.RangeServer.Bulk.{max_bulk_ops}

-- A bulk message while it is filled.
pub record BulkMessage (A : Type 0) : Type 0 where
  pub server_rank : ℕ
  pub records : List A

-- The array with a place for each range server (NULL is `none`), and the message to itself.
pub record BulkList (A : Type 0) : Type 0 where
  pub places : ℕ → Option (BulkMessage A)
  pub own : Option (BulkMessage A)

module _ {A : Type 0} where
  abbrev pub no_messages : BulkList A
  no_messages = record { places = λ i. none; own = none }

  -- A message that is not there yet is made.
  unfoldable pub add_record : Option (BulkMessage A) → ℕ → A → BulkMessage A
  add_record none rank a = record { server_rank = rank; records = a ∷ [] }
  add_record (some m) rank a = record m { records = m.records ++ a ∷ [] }

  unfoldable pub set_place : BulkList A → ℕ → ℕ → A → BulkList A
  set_place l i rank a =
      let m = add_record (l.places i) rank a in
      record l { places = λ j. if j == i then some m else l.places j }

  -- One record whose server is known; `none` is a place outside of the array.
  unfoldable pub add_to_list : ℕ → ℕ → RangesrvInfo → A → BulkList A → Option (BulkList A)
  add_to_list num_rangesrvs mdhim_rank ri a l =
      let place = set_place l (ri.rangesrv_num - 1) ri.rank a in
      if ri.rank == mdhim_rank
      then some (record l { own = some (add_record l.own ri.rank a) })
      else if leb 1 ri.rangesrv_num && leb ri.rangesrv_num num_rangesrvs
      then some place
      else none

unfoldable pub given : {B : Type 0} → Option B → Option (Option B)
given none = none
given (some b) = some (some b)

module _ (h : IntHash MdhimChar) (fl : Floats) (hs : IntHash (MdhimStat fl.Real)) where
  -- The loop over the records: one that has no range server is left out. `none` is a crash.
  pub sort_records :
      {A : Type 0} (key_of : A → Data)
      → Mdhim h.Table hs.Table
      → ℕ
      → List A
      → BulkList A
      → Option (BulkList A)
  sort_records key_of md mdhim_rank [] l = some l
  sort_records key_of md mdhim_rank (a ∷ as_) l =
      elim (get_range_server h fl hs md (some (key_of a).bytes) (key_of a).len) [
        | none ↦ none
        | some none ↦ sort_records key_of md mdhim_rank as_ l
        | some (some ri) ↦ elim (add_to_list md.num_rangesrvs mdhim_rank ri a l) [
          | none ↦ none
          | some l' ↦ sort_records key_of md mdhim_rank as_ l'
        ]
      ]

  -- NULL is returned for too many records: the inner `none`.
  unfoldable pub bulk_messages :
      {A : Type 0} (key_of : A → Data)
      → Mdhim h.Table hs.Table
      → ℕ
      → List A
      → Option (Option (BulkList A))
  bulk_messages key_of md mdhim_rank records =
      let sorted = given (sort_records key_of md mdhim_rank records no_messages) in
      if ltb max_bulk_ops (length records) then some none else sorted

  abbrev key_of_pair : Pair → Data
  key_of_pair r = r.key

  abbrev key_of_key : Data → Data
  key_of_key k = k

  pub bput_messages : Mdhim h.Table hs.Table → ℕ → List Pair → Option (Option (BulkList Pair))
  bput_messages = bulk_messages key_of_pair

  pub bget_messages : Mdhim h.Table hs.Table → ℕ → List Data → Option (Option (BulkList Data))
  bget_messages = bulk_messages key_of_key

  pub bdelete_messages : Mdhim h.Table hs.Table → ℕ → List Data → Option (Option (BulkList Data))
  bdelete_messages = bulk_messages key_of_key

-- The messages as requests; `size` is what the field holds.
unfoldable pub bput_request : ℕ → BulkMessage Pair → Request
bput_request size m =
    bulk_put (record { server_rank = m.server_rank; size = size; records = m.records })

unfoldable pub bget_request : ℕ → BulkMessage Data → Request
bget_request size m =
    bulk_get (record { server_rank = m.server_rank; size = size; op = get_eq; keys = m.records })

unfoldable pub bdelete_request : ℕ → BulkMessage Data → Request
bdelete_request size m =
    bulk_del (record { server_rank = m.server_rank; size = size; keys = m.records })
