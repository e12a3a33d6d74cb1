-- ===== src/Messages/Types.antt =====
-- The structs of mdhimMods/src/messages.h. `mtype` is the type of the record; the arrays of a bulk
-- message are a list, and num_records is its length. A length is not negative.
use mpi_to_openshmem.Prelude.{ℕ, List}
use mpi_to_openshmem.Floats.{Bytes}

-- A key or a value: what the pointer points to, and the length. With length 0 the pointer may be NULL.
pub record Data : Type 0 where
  pub bytes : Bytes
  pub len : ℕ

pub record Pair : Type 0 where
  pub key : Data
  pub value : Data

-- struct mdhim_basem_t
pub record BaseMessage : Type 0 where
  pub server_rank : ℕ
  pub size : ℕ

-- struct mdhim_putm_t
pub record PutMessage : Type 0 where
  pub server_rank : ℕ
  pub size : ℕ
  pub key : Data
  pub value : Data

-- struct mdhim_bputm_t
pub record BulkPutMessage : Type 0 where
  pub server_rank : ℕ
  pub size : ℕ
  pub records : List Pair

-- struct mdhim_getm_t
pub record GetMessage : Type 0 where
  pub server_rank : ℕ
  pub size : ℕ
  pub op : ℕ
  pub key : Data
  pub num_records : ℕ

-- struct mdhim_bgetm_t
pub record BulkGetMessage : Type 0 where
  pub server_rank : ℕ
  pub size : ℕ
  pub op : ℕ
  pub keys : List Data

-- struct mdhim_delm_t
pub record DelMessage : Type 0 where
  pub server_rank : ℕ
  pub size : ℕ
  pub key : Data

-- struct mdhim_bdelm_t
pub record BulkDelMessage : Type 0 where
  pub server_rank : ℕ
  pub size : ℕ
  pub keys : List Data

-- struct mdhim_rm_t
pub record ReturnMessage : Type 0 where
  pub server_rank : ℕ
  pub size : ℕ
  pub error : ℕ

-- struct mdhim_getrm_t
pub record GetReturnMessage : Type 0 where
  pub server_rank : ℕ
  pub size : ℕ
  pub error : ℕ
  pub key : Data
  pub value : Data

-- struct mdhim_bgetrm_t, less `next`
pub record BulkGetReturnMessage : Type 0 where
  pub server_rank : ℕ
  pub size : ℕ
  pub error : ℕ
  pub records : List Pair

-- What a client sends, by `mtype`; `other` is a type that is no request.
pub data Request : Type 0 where
  put : PutMessage → Request
  bulk_put : BulkPutMessage → Request
  get : GetMessage → Request
  bulk_get : BulkGetMessage → Request
  del : DelMessage → Request
  bulk_del : BulkDelMessage → Request
  commit : BaseMessage → Request
  close : BaseMessage → Request
  other : BaseMessage → Request

-- What a range server answers; `no_response` is a type that is no answer.
pub data Response : Type 0 where
  recv : ReturnMessage → Response
  recv_get : GetReturnMessage → Response
  recv_bulk_get : BulkGetReturnMessage → Response
  no_response : BaseMessage → Response

abbrev pub mdhim_put : ℕ
mdhim_put = 1

abbrev pub mdhim_bulk_put : ℕ
mdhim_bulk_put = 2

abbrev pub mdhim_get : ℕ
mdhim_get = 3

abbrev pub mdhim_bulk_get : ℕ
mdhim_bulk_get = 4

abbrev pub mdhim_del : ℕ
mdhim_del = 5

abbrev pub mdhim_bulk_del : ℕ
mdhim_bulk_del = 6

abbrev pub mdhim_close : ℕ
mdhim_close = 7

abbrev pub mdhim_recv : ℕ
mdhim_recv = 8

abbrev pub mdhim_recv_get : ℕ
mdhim_recv_get = 9

abbrev pub mdhim_recv_bulk_get : ℕ
mdhim_recv_bulk_get = 10

abbrev pub mdhim_commit : ℕ
mdhim_commit = 11

-- MDHIM_MAX_MSG_SIZE
abbrev pub max_msg_size : ℕ
max_msg_size = 2147483647
