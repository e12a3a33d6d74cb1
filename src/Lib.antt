-- ===== src/Lib.antt =====
-- MDHIM and pftool over an MPI layer for OpenSHMEM.
--
-- The repository has three parts. src/ is a layer of MPI calls over OpenSHMEM (mpi_to_openshmem.c).
-- mdhimMods/ is MDHIM, a distributed key-value store on MPI: a client finds, from a key, the slice of the
-- key space it is in and the process that serves the slice (partitioner.c), and sends a message to the
-- range server there (range_server.c), which keeps the records in LevelDB, ordered by the comparators of
-- ds_leveldb.c, and statistics on each slice, by which a cursor finds the next server. pftool-new-test/
-- is a parallel file tool: a manager process keeps work items in queues (workq.c) and gives them to
-- workers (scheduler.c), which ask for room before they send an item (workreq.c).
--
-- Files and code:
--   Prelude          lists over the native numbers, ints and their conversions
--   Uthash           uthash as an interface, IntHash: a library, whose copy in mdhimMods/src/uthash is not
--                    modelled. Uthash.Assoc is one as an association list.
--   Floats           floating point arithmetic as an interface, for the language has none. Floats.Whole
--                    is one of whole numbers.
--   Partitioner      mdhimMods/src/partitioner.c: Alphabet (build_alphabet), Keys (verify_key,
--                    get_str_num, get_byte_num, get_slice_num), Servers (is_range_server,
--                    get_num_range_servers and, from messages.c, get_rangesrvs;
--                    get_range_server_by_slice), Stats (get_next_slice_stat and its like), Cursor
--                    (get_range_server, get_range_server_from_stats)
--   RangeServer      mdhimMods/src/range_server.c: Stats (update_all_stats), Queue
--                    (range_server_add_work, get_work), Records (range_server_put, range_server_get,
--                    range_server_del, range_server_commit, over the data store as an interface), Bulk
--                    (range_server_bput, range_server_bget, range_server_bget_op, range_server_bdel),
--                    Threads (the loops of listener_thread and worker_thread)
--   Client           mdhimMods/src/mdhim.c, client.c and local_client.c: mdhimPut, mdhimGet,
--                    mdhimDelete, mdhimBGetOp and mdhimCommit, each down to the server's operation and
--                    back; Network (Messages.Transfer as the network of the calls); Bulk (how mdhimBPut,
--                    mdhimBGet and mdhimBDelete sort records into messages)
--   Messages         mdhimMods/src/messages.c: Types (the structs), Struct (their bytes), Packing (MPI_Pack
--                    and MPI_Unpack, an interface, and how they are called), Pack (pack_put_message and
--                    its like), Unpack (unpack_put_message and its like), Transfer (send_rangesrv_work,
--                    receive_rangesrv_work, send_client_response, receive_client_response), RoundTrip
--                    (each kind of message packed and unpacked), Layer (the interface over
--                    MPI_Pack and MPI_Unpack of src/mpi_to_openshmem.c)
--   DataStore        mdhimMods/src/ds_leveldb.c: Compare (the comparators of integers, strings and bytes),
--                    LevelDb (mdhim_leveldb_put, mdhim_leveldb_get and their like, over the calls of
--                    LevelDB as an interface), which fills what RangeServer asks of a store
--   Pwt              pftool-new-test/src/pwt: WorkQ (workq.c, a linked list on a heap of entries),
--                    WorkQueues (what the scheduler asks of a queue, an interface, which
--                    WorkQueues.OnHeap fills with WorkQ), Scheduler (scheduler.c and
--                    workreq.c)
--   Mpi              src/mpi_to_openshmem.c: Datatypes (GetNumBytes, CopyMyData), Shmem (the calls of
--                    OpenSHMEM, an interface), Groups (MPI_Group_incl, MPI_Comm_create, MPI_Comm_rank,
--                    MPI_Comm_size), Pack (MPI_Pack, MPI_Unpack), Blocking (MPI_Send, MPI_Recv), Requests
--                    (MPI_Isend, MPI_Irecv, MPI_Test), Allgather (MPI_Allgather), Bcast (MPI_Bcast), Gather (MPI_Gather) and Gatherv
--                    (MPI_Gatherv), each by all processes
--
-- State and operations: a C struct is a record with the fields that the functions read, and an
-- operation takes the state and returns it. Names are the code's in lower case. `none` is NULL where
-- the code returns a pointer; where an operation may fault, by NULL or by an int that overflows, its
-- result is an Option whose `none` is the fault, or a type of its own with a `fault`. A key is its
-- bytes and a length. What other processes report, what malloc's space holds at first and what messages
-- bring are arguments.
--
-- Messages: a message travels as the bytes of its struct, as a 64-bit system lays it out, and then its
-- lengths, keys and values. The fields of type int are numbers; the bytes of pointers and padding are an
-- argument, `rest`, for they are sent and never read. `outbuf` is the space that malloc gives the sender
-- and `raw` what the receiver's space holds at first. The sizes that the functions reckon are numbers,
-- with the faults of a sum that is no int, and malloc of a negative length gives NULL. The calls of
-- MPI_Send are recorded, and what is received is an argument.
--
-- Bounds and fuel: ints are numbers with their wrap-around written out (Prelude.Int, i32_mod). Loops are
-- recursion on the list or number that they go through. workq_del has fuel, one step for each
-- entry and one for the end, which is enough since each step takes an entry off the queue; so has the
-- worker of a range server, for the same reason; the polling of
-- MPI_Send has fuel, one step for each poll, and more than the poll by which the puts are complete is enough.
-- GetNumBytes returns the low 32 bits of the number of bytes, and a copy of a negative number of bytes is
-- a fault; so are an offset of 2^31 or more and a count of items in a work queue that overflows.
-- Allocation succeeds, save in Mpi.Groups, where its failures are arguments.
--
-- A call of the interface: a request goes to its server, is served there with no other request between,
-- and the answer comes back; what waits for ever is a result of its own. The store is an interface too,
-- with what is needed as its laws: a value that is put is found, and what is under keys that the store
-- tells apart stays. DataStore.LevelDb derives them from what LevelDB documents, for a comparator that
-- finds a key of a length that it can read the same as itself. DataStore.Compare.Same shows that of the
-- comparators of strings, bytes and, for keys of 4 or 8 bytes or more, of integers.
--
-- Not modelled: locks, waits on conditions and logging; the start and the end of MDHIM; MPI_Barrier,
-- MPI_Iprobe and the set-up of the MPI layer; the sending of several messages at once and what
-- is made of their answers; the opening and closing of the data store; the comparators of floats; the applications of pftool, which walk file
-- systems; hashUtils.c, whose struct MPID_Hash no file declares; the copies of uthash and Mlog; tests
-- and Makefiles.
pub mod Prelude
pub mod Uthash
pub mod Floats
pub mod Partitioner
pub mod Pwt
pub mod Mpi
pub mod RangeServer
pub mod DataStore
pub mod Messages
pub mod Client
