-- ===== src/Client/Came.antt =====
-- Requests and answers of one kind, as they come over the network.
use mathlib.Core.Path.{subst}
use mpi_to_openshmem.Prelude.{◌≡◌, ◌∙◌, sym, refl, inl, inr, some, arith}
use mpi_to_openshmem.Messages.Types.{
  Data, PutMessage, GetMessage, ReturnMessage, GetReturnMessage, Request, put, get, bulk_put,
  bulk_get, del, bulk_del, commit, close, other, Response, recv, recv_get, recv_bulk_get,
  no_response,
}
use mpi_to_openshmem.Messages.Packing.Holds.{Same}
use mpi_to_openshmem.Messages.Transfer.{work, null_work, commit_work, close_work}
use mpi_to_openshmem.Messages.Transfer.Requests.{Delivered}
use mpi_to_openshmem.Messages.Transfer.Responses.{Answered}
use mpi_to_openshmem.Client.Exchange.{CameAs, CameBack, IsWork}

pub Same-sym : (d e : Data) → Same d e → Same e d
Same-sym d e (len, bytes) = (sym len, λ k b. sym (bytes k (omega (arith, len))))

pub Same-trans : (d e f : Data) → Same d e → Same e f → Same d f
Same-trans d e f (len, bytes) (len', bytes') =
    (len ∙ len', λ k b. bytes k (omega (arith, len')) ∙ bytes' k b)

pub put-IsWork : (m : PutMessage) → IsWork (put m)
put-IsWork m (work (put m')) d = (put m', refl)
put-IsWork m (work (bulk_put m')) d = absurd d
put-IsWork m (work (get m')) d = absurd d
put-IsWork m (work (bulk_get m')) d = absurd d
put-IsWork m (work (del m')) d = absurd d
put-IsWork m (work (bulk_del m')) d = absurd d
put-IsWork m (work (commit m')) d = absurd d
put-IsWork m (work (close m')) d = absurd d
put-IsWork m (work (other m')) d = absurd d
put-IsWork m null_work d = absurd d
put-IsWork m commit_work d = absurd d
put-IsWork m close_work d = absurd d

pub get-IsWork : (m : GetMessage) → IsWork (get m)
get-IsWork m (work (get m')) d = (get m', refl)
get-IsWork m (work (put m')) d = absurd d
get-IsWork m (work (bulk_put m')) d = absurd d
get-IsWork m (work (bulk_get m')) d = absurd d
get-IsWork m (work (del m')) d = absurd d
get-IsWork m (work (bulk_del m')) d = absurd d
get-IsWork m (work (commit m')) d = absurd d
get-IsWork m (work (close m')) d = absurd d
get-IsWork m (work (other m')) d = absurd d
get-IsWork m null_work d = absurd d
get-IsWork m commit_work d = absurd d
get-IsWork m close_work d = absurd d

abbrev pub CamePut : PutMessage → Request → Type 0
CamePut m r' = (m' : PutMessage) × (r' ≡ put m') × Same m'.key m.key × Same m'.value m.value

Delivered-put : (m : PutMessage) (r' : Request) → Delivered (put m) (work r') → CamePut m r'
Delivered-put m (put m') d = (m', refl, d.key, d.value)
Delivered-put m (bulk_put m') d = absurd d
Delivered-put m (get m') d = absurd d
Delivered-put m (bulk_get m') d = absurd d
Delivered-put m (del m') d = absurd d
Delivered-put m (bulk_del m') d = absurd d
Delivered-put m (commit m') d = absurd d
Delivered-put m (close m') d = absurd d
Delivered-put m (other m') d = absurd d

pub came_put : (m : PutMessage) (r' : Request) → CameAs (put m) r' → CamePut m r'
came_put m r' (inl e) = (m, e, (refl, λ k b. refl), (refl, λ k b. refl))
came_put m r' (inr d) = Delivered-put m r' d

abbrev pub CameGet : GetMessage → Request → Type 0
CameGet m r' =
    (m' : GetMessage) × (r' ≡ get m')
    × Same m'.key m.key
    × (m'.op ≡ m.op)
    × (m'.num_records ≡ m.num_records)

Delivered-get : (m : GetMessage) (r' : Request) → Delivered (get m) (work r') → CameGet m r'
Delivered-get m (get m') d = (m', refl, d.key, d.op, d.num_records)
Delivered-get m (put m') d = absurd d
Delivered-get m (bulk_put m') d = absurd d
Delivered-get m (bulk_get m') d = absurd d
Delivered-get m (del m') d = absurd d
Delivered-get m (bulk_del m') d = absurd d
Delivered-get m (commit m') d = absurd d
Delivered-get m (close m') d = absurd d
Delivered-get m (other m') d = absurd d

pub came_get : (m : GetMessage) (r' : Request) → CameAs (get m) r' → CameGet m r'
came_get m r' (inl e) = (m, e, (refl, λ k b. refl), refl, refl)
came_get m r' (inr d) = Delivered-get m r' d

-- An answer to a put, or to a get, came back.
pub back_put :
    (m m' : Response) (g : ReturnMessage)
    → CameBack m m'
    → m ≡ recv g
    → (g' : ReturnMessage) × (m' ≡ recv g') × (g'.error ≡ g.error)
back_put m m' g (inl e) is = (g, e ∙ is, refl)
back_put m (recv g') g (inr a) is =
    let a' = subst (λ x. Answered x (some (recv g'))) is a in (g', refl, a'.error)
back_put m (recv_get g') g (inr a) is = absurd (subst (λ x. Answered x (some (recv_get g'))) is a)
back_put m (recv_bulk_get g') g (inr a) is =
    absurd (subst (λ x. Answered x (some (recv_bulk_get g'))) is a)
back_put m (no_response g') g (inr a) is =
    absurd (subst (λ x. Answered x (some (no_response g'))) is a)

pub back_get :
    (m m' : Response) (g : GetReturnMessage)
    → CameBack m m'
    → m ≡ recv_get g
    → (g' : GetReturnMessage) × (m' ≡ recv_get g')
      × (g'.error ≡ g.error)
      × Same g'.key g.key
      × Same g'.value g.value
back_get m m' g (inl e) is = (g, e ∙ is, refl, (refl, λ k b. refl), (refl, λ k b. refl))
back_get m (recv_get g') g (inr a) is =
    let a' = subst (λ x. Answered x (some (recv_get g'))) is a in
    (g', refl, a'.error, a'.key, a'.value)
back_get m (recv g') g (inr a) is = absurd (subst (λ x. Answered x (some (recv g'))) is a)
back_get m (recv_bulk_get g') g (inr a) is =
    absurd (subst (λ x. Answered x (some (recv_bulk_get g'))) is a)
back_get m (no_response g') g (inr a) is =
    absurd (subst (λ x. Answered x (some (no_response g'))) is a)
