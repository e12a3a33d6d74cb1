-- ===== src/Client/Exchange.antt =====
-- A request to a range server and its answer, over the network or not.
use mathlib.Core.Path.{subst}
use mpi_to_openshmem.Prelude.{
  ℕ, ◌≡◌, ◌≢◌, ◌∙◌, ap, refl, ◌⊎◌, inl, inr, Bool, true, false, ◌&&◌, Option, none, some,
  Bool-cases, ◌==◌, arith,
}
use mpi_to_openshmem.Uthash.{IntHash}
use mpi_to_openshmem.Floats.{Floats, Bytes}
use mpi_to_openshmem.Partitioner.Alphabet.{MdhimChar}
use mpi_to_openshmem.Partitioner.Stats.{MdhimStat}
use mpi_to_openshmem.Messages.Types.{Request, Response, recv, recv_get, recv_bulk_get, no_response}
use mpi_to_openshmem.Messages.Packing.{ok}
use mpi_to_openshmem.Messages.Transfer.{Received, work}
use mpi_to_openshmem.Messages.Transfer.Requests.{Sendable, Delivered}
use mpi_to_openshmem.Messages.Transfer.Responses.{SendableResponse, Answered}
use mpi_to_openshmem.RangeServer.Records.{
  StoreCalls, remote, local, send_locally_or_remote, MdhimServer,
}
use mpi_to_openshmem.RangeServer.Bulk.{BatchCalls}
use mpi_to_openshmem.RangeServer.Threads.{next, serve}
use mpi_to_openshmem.Client.{
  NetworkCalls, Delivers, Process, World, set_server, Called, returned, receive_answer,
  remote_answer, local_answer, at_server, client_call, local_client_call, call_server,
}

-- The request as the server has it: as it was, or as it came over the network.
abbrev pub CameAs : Request → Request → Type 0
CameAs r r' = (r' ≡ r) ⊎ Delivered r (work r')

abbrev pub CameBack : Response → Response → Type 0
CameBack m m' = (m' ≡ m) ⊎ Answered m (some m')

-- What is delivered of the request is work.
abbrev pub IsWork : Request → Type 0
IsWork r = (x : Received) → Delivered r x → (r' : Request) × (x ≡ work r')

Answered-some :
    (m : Response) (o : Option Response) → Answered m o → (m' : Response) × (o ≡ some m')
Answered-some (recv m) (some m') a = (m', refl)
Answered-some (recv_get m) (some m') a = (m', refl)
Answered-some (recv_bulk_get m) (some m') a = (m', refl)
Answered-some (no_response m) (some m') a = (m', refl)
Answered-some (recv m) none a = absurd a
Answered-some (recv_get m) none a = absurd a
Answered-some (recv_bulk_get m) none a = absurd a
Answered-some (no_response m) none a = absurd a

and_not : (a b : Bool) → b ≡ false → (a && b) ≡ false
and_not true b e = e
and_not false b e = refl

to_self : (rank : ℕ) (m : Response) → send_locally_or_remote rank rank m ≡ local m
unfolding send_locally_or_remote
to_self rank m = let same : (rank == rank) ≡ true = grind arith in rw same refl

to_other :
    (rank dest : ℕ) (m : Response)
    → rank ≢ dest
    → send_locally_or_remote dest rank m ≡ remote rank m
unfolding send_locally_or_remote
to_other rank dest m ne = let apart : (dest == rank) ≡ false = grind arith in rw apart refl

module _ (h : IntHash MdhimChar) (fl : Floats) (hs : IntHash (MdhimStat fl.Real))
    (store : StoreCalls) (calls : BatchCalls store) (size : ℕ) (raw : Bytes) where
  -- The server at that rank serves the request, as it may come, with an answer that can be sent.
  abbrev pub Serves :
      ℕ
      → ℕ
      → World h fl hs store
      → Request
      → (MdhimServer h fl hs store → Response → Type 0)
      → Type 0
  Serves rank dest w r P =
      (r' : Request)
      → CameAs r r'
      → (s' : MdhimServer h fl hs store) × (m : Response) × (serve h fl hs store calls size raw
            (w dest) r' rank
          ≡ next s' (some (send_locally_or_remote dest rank m)))
        × SendableResponse m
        × P s' m

module _ (h : IntHash MdhimChar) (fl : Floats) (hs : IntHash (MdhimStat fl.Real))
    (store : StoreCalls) (calls : BatchCalls store) (size : ℕ) (raw : Bytes)
    (net : NetworkCalls) where
  local_lem :
      (rank : ℕ) (w : World h fl hs store) (r : Request) (s' : MdhimServer h fl hs store)
      (m : Response)
      → serve h fl hs store calls size raw (w rank) r rank
        ≡ next s' (some (send_locally_or_remote rank rank m))
      → local_client_call h fl hs store calls size raw net rank w r
        ≡ returned (set_server h fl hs store w rank s') (some m)
  unfolding local_client_call local_answer
  local_lem rank w r s' m e = rw e (rw (to_self rank m) refl)

  at_server_lem :
      (rank dest : ℕ) (w : World h fl hs store) (r : Request) (s' : MdhimServer h fl hs store)
      (m m' : Response)
      → serve h fl hs store calls size raw (w dest) r rank ≡ next s' (some (remote rank m))
      → net.response m ≡ ok (some m')
      → at_server h fl hs store calls size raw net rank dest w (ok (work r))
        ≡ returned (set_server h fl hs store w dest s') (some m')
  unfolding at_server remote_answer receive_answer
  at_server_lem rank dest w r s' m m' e back =
      let same : (rank == rank) ≡ true = grind arith in rw e (rw same (rw back refl))

  client_lem :
      (rank dest : ℕ) (w : World h fl hs store) (r : Request) (x : Received)
      → net.send r ≡ ok tt
      → net.arrives r ≡ ok x
      → client_call h fl hs store calls size raw net rank dest w r
        ≡ at_server h fl hs store calls size raw net rank dest w (ok x)
  unfolding client_call
  client_lem rank dest w r x e f =
      rw (e, client_call) (ap (at_server h fl hs store calls size raw net rank dest w) f)

  abbrev pub Exchanged :
      ℕ
      → World h fl hs store
      → Called h fl hs store
      → (MdhimServer h fl hs store → Response → Type 0)
      → Type 0
  Exchanged dest w called P =
      (s' : MdhimServer h fl hs store) × (m : Response) × (m' : Response) × (called
        ≡ returned (set_server h fl hs store w dest s') (some m'))
      × CameBack m m'
      × P s' m

  remote-Exchanged :
      (rank dest : ℕ) (w : World h fl hs store) (r : Request)
      (P : MdhimServer h fl hs store → Response → Type 0)
      → Delivers net
      → Sendable r
      → IsWork r
      → rank ≢ dest
      → Serves h fl hs store calls size raw rank dest w r P
      → Exchanged dest w (client_call h fl hs store calls size raw net rank dest w r) P
  remote-Exchanged rank dest w r P delivers sendable is_work ne serves =
      let sent = delivers.send_lem r sendable in
      let (x, arrived, delivered) = delivers.arrives_lem r sendable in
      let (r', is) = is_work x delivered in
      let (s', m, e, fits, p) = serves r' (inr (subst (Delivered r) is delivered)) in
      let (o, back, answered) = delivers.response_lem m fits in
      let (m', some_m') = Answered-some m o answered in
      (
        s',
        m,
        m',
        client_lem rank dest w r (work r') sent (arrived ∙ ap (λ y. ok y) is)
            ∙ at_server_lem rank dest w r' s' m m'
                (e ∙ ap (λ a. next s' (some a)) (to_other rank dest m ne))
                (back ∙ ap (λ y. ok y) some_m'),
        inr (subst (Answered m) some_m' answered),
        p,
      )

  local-Exchanged :
      (rank dest : ℕ) (w : World h fl hs store) (r : Request)
      (P : MdhimServer h fl hs store → Response → Type 0)
      → rank ≡ dest
      → Serves h fl hs store calls size raw rank dest w r P
      → Exchanged dest w (local_client_call h fl hs store calls size raw net rank w r) P
  local-Exchanged rank dest w r P here serves =
      let (s', m, e, fits, p) = serves r (inl refl) in
      let at_dest =
        subst
          (λ k.
            serve h fl hs store calls size raw (w dest) r k
            ≡ next s' (some (send_locally_or_remote dest k m)))
          here e in
      (
        s',
        m,
        m,
        ap (λ k. local_client_call h fl hs store calls size raw net k w r) here
            ∙ local_lem dest w r s' m at_dest,
        inl refl,
        p,
      )

  here_or_there :
      (p : Process h.Table hs.Table) (dest : ℕ)
      → (p.mdhim_rank ≡ dest → p.is_server ≡ true)
      → ((p.mdhim_rank ≡ dest) × ((p.is_server && (p.mdhim_rank == dest)) ≡ true))
        ⊎ ((p.mdhim_rank ≢ dest) × ((p.is_server && (p.mdhim_rank == dest)) ≡ false))
  here_or_there p dest own = elim (Bool-cases (p.mdhim_rank == dest)) [
    | inl same ↦ let e : p.mdhim_rank ≡ dest = ground (arith, same) in inl (e, rw (own e) same)
    | inr apart ↦ inr (ground (arith, apart), and_not p.is_server (p.mdhim_rank == dest) apart)
  ]

  -- A served request comes back answered, and only its server has changed.
  pub call_server-Exchanged :
      (p : Process h.Table hs.Table) (w : World h fl hs store) (dest : ℕ) (r : Request)
      (P : MdhimServer h fl hs store → Response → Type 0)
      → Delivers net
      → Sendable r
      → IsWork r
      → (p.mdhim_rank ≡ dest → p.is_server ≡ true)
      → Serves h fl hs store calls size raw p.mdhim_rank dest w r P
      → Exchanged dest w (call_server h fl hs store calls size raw net p w dest r) P
  unfolding call_server
  call_server-Exchanged p w dest r P delivers sendable is_work own serves =
      elim (here_or_there p dest own) [
        | inl (e, here) ↦ rw here (local-Exchanged p.mdhim_rank dest w r P e serves)
        | inr (ne, there) ↦
            rw there (remote-Exchanged p.mdhim_rank dest w r P delivers sendable is_work ne serves)
      ]
