-- ===== src/RangeServer/Threads/Tests.antt =====
-- A put and a get come in, with a failed receive between them, and are served.
use mpi_to_openshmem.Prelude.{◌≡◌, ◌≢◌, refl, List, [], ◌∷◌, none, arith}
use mpi_to_openshmem.Floats.Whole.{whole}
use mpi_to_openshmem.Messages.Types.{put, get}
use mpi_to_openshmem.Messages.Packing.{ok, error}
use mpi_to_openshmem.Messages.Transfer.{work}
use mpi_to_openshmem.RangeServer.Queue.{WorkQueue, Cells}
use mpi_to_openshmem.RangeServer.Queue.Linked.{Represents}
use mpi_to_openshmem.RangeServer.Fixture.{table, table_batch, chars, stats, key_25, value_2, server}
use mpi_to_openshmem.RangeServer.Threads.{Work, Receipt, spent, listening, listen, drain}
use mpi_to_openshmem.RangeServer.Threads.Queued.{arrived}
use mpi_to_openshmem.RangeServer.Threads.Order.{serve_all, LeftEmpty, listen-drain}

abbrev put_25 : Receipt
put_25 = record {
  received = ok (work (put (record { server_rank = 0; size = 54; key = key_25; value = value_2 })));
  source = 1;
  item = 100;
}

abbrev nothing : Receipt
nothing = record { received = error; source = 1; item = 200 }

abbrev get_25 : Receipt
get_25 = record {
  received =
      ok
        (work (get (record { server_rank = 0; size = 36; op = 0; key = key_25; num_records = 1 })));
  source = 2;
  item = 300;
}

abbrev receipts : List Receipt
receipts = put_25 ∷ nothing ∷ get_25 ∷ []

abbrev no_cells : Cells Work
no_cells = λ a. none

abbrev no_queue : WorkQueue
no_queue = record { head = 0; tail = 0 }

empty-Represents : Represents no_cells no_queue []
empty-Represents = record { chain = tt; at_head = refl; at_tail = refl }

listen-drain_example :
    let d = serve_all chars whole stats table table_batch 16 (λ k. 0) server (arrived receipts) in
    (c1 : Cells Work) × (q1 : WorkQueue) × (c2 : Cells Work) × (q2 : WorkQueue) × (listen no_cells
        no_queue receipts
      ≡ listening c1 q1)
    × (drain chars whole stats table table_batch 16 (λ k. 0) 5 c1 q1 server ≡ (d, c2, q2))
    × (d ≢ spent)
    × LeftEmpty chars whole stats table table_batch 16 (λ k. 0) d c2 q2
listen-drain_example =
    listen-drain chars whole stats table table_batch 16 (λ k. 0) receipts no_cells no_queue server
      [] [] 5 empty-Represents tt (tt, (tt, (tt, tt)))
      (
        omega arith,
        tt,
        (omega arith, (omega arith, tt)),
        (omega arith, tt, (omega arith, tt), (omega arith, tt, tt, tt)),
      )
      (omega arith)
