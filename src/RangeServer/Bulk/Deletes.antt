-- ===== src/RangeServer/Bulk/Deletes.antt =====
-- A bulk delete against deletes of single records.
use mpi_to_openshmem.Prelude.{
  ℕ, zero, suc, ◌≤◌, ◌≡◌, ◌∙◌, ap, refl, List, [], ◌∷◌, Option, none, some, Bool-cases, inl, inr,
  ◌==◌, length, if◌then◌else◌, arith,
}
use mpi_to_openshmem.Uthash.{IntHash}
use mpi_to_openshmem.Floats.{Floats}
use mpi_to_openshmem.Partitioner.Alphabet.{MdhimChar}
use mpi_to_openshmem.Partitioner.Stats.{MdhimStat}
use mpi_to_openshmem.Messages.Types.{Data, BulkDelMessage, Response, recv}
use mpi_to_openshmem.RangeServer.Records.{
  StoreCalls, Answer, remote, local, send_locally_or_remote, MdhimServer, served, fault, respond,
  range_server_del,
}
use mpi_to_openshmem.RangeServer.Bulk.{max_bulk_ops, del_each, range_server_bdel}

-- The error of a response, or the one before it where that is 0 or the response has none.
abbrev response_error : Response → ℕ → ℕ
response_error (recv m) error = if m.error == 0 then error else m.error
response_error other error = error

abbrev answer_error : Answer → ℕ → ℕ
answer_error (remote dest response) error = response_error response error
answer_error (local response) error = response_error response error

module _ (h : IntHash MdhimChar) (fl : Floats) (hs : IntHash (MdhimStat fl.Real))
    (store : StoreCalls) where
  -- range_server_del of each key in turn: the server afterwards and the last error that was answered.
  pub dels_in_turn :
      ℕ → MdhimServer h fl hs store → List Data → ℕ → ℕ → Option (MdhimServer h fl hs store × ℕ)
  dels_in_turn size s [] error source = some (s, error)
  dels_in_turn size s (k ∷ ks) error source =
      elim (range_server_del h fl hs store size s
        (record { server_rank = s.mdhim_rank; size = size; key = k }) source) [
          | fault ↦ none
          | served s' answer ↦ dels_in_turn size s' ks (answer_error answer error) source
        ]

  answered :
      (size : ℕ) (s : MdhimServer h fl hs store) (ret error source : ℕ)
      → answer_error
          (send_locally_or_remote s.mdhim_rank source
            (recv (record { server_rank = s.mdhim_rank; size = size; error = ret })))
          error
        ≡ (if ret == 0 then error else ret)
  unfolding send_locally_or_remote
  answered size s ret error source = elim (Bool-cases (s.mdhim_rank == source)) [
    | inl here ↦ rw here refl
    | inr away ↦ rw away refl
  ]

  dels_lem :
      (n size : ℕ) (s : MdhimServer h fl hs store) (keys : List Data) (error source : ℕ)
      → length keys ≤ n
      → dels_in_turn size s keys error source
        ≡ some (
          record s { db = (del_each store n s.db keys error).1 },
          (del_each store n s.db keys error).0,
        )
  unfolding dels_in_turn del_each range_server_del respond
  dels_lem zero size s [] error source fits = refl
  dels_lem (suc n) size s [] error source fits = refl
  dels_lem zero size s (k ∷ ks) error source fits = absurd (omega arith)
  dels_lem (suc n) size s (k ∷ ks) error source fits =
      let (ret, db') = store.del s.db k in
      let s' : MdhimServer h fl hs store = record s { db = db' } in
      ap (λ e. dels_in_turn size s' ks e source) (answered size s' ret error source)
      ∙ dels_lem n size s' ks (if ret == 0 then error else ret) source (omega arith)

  -- For at most MAX_BULK_OPS keys, range_server_bdel leaves the server that range_server_del of
  -- each key in turn leaves, and answers with the last error other than 0 that those answer, or 0
  -- if there is none.
  pub range_server_bdel-dels_in_turn :
      (size : ℕ) (s : MdhimServer h fl hs store) (bdm : BulkDelMessage) (source : ℕ)
      → length bdm.keys ≤ max_bulk_ops
      → (s' : MdhimServer h fl hs store) × (error : ℕ) × (dels_in_turn size s bdm.keys 0 source
          ≡ some (s', error))
        × (range_server_bdel h fl hs store size s bdm source
            ≡ respond h fl hs store size s' error source)
  unfolding range_server_bdel
  range_server_bdel-dels_in_turn size s bdm source fits =
      let n = max_bulk_ops in
      (
        record s { db = (del_each store n s.db bdm.keys 0).1 },
        (del_each store n s.db bdm.keys 0).0,
        dels_lem n size s bdm.keys 0 source fits,
        refl,
      )
