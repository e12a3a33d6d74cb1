-- ===== src/Mpi/Pack/Sequence.antt =====
-- Items packed one after another into a symmetric buffer, and unpacked again.
use mpi_to_openshmem.Prelude.{
  ℕ, ◌+◌, ◌-◌, ◌≤◌, ◌<◌, ◌≡◌, ◌∙◌, ap, refl, List, [], ◌∷◌, Option, none, some, arith,
  if◌then◌else◌, ◌==◌,
}
use mpi_to_openshmem.Mpi.Datatypes.{long_num_bytes, i32_mod, write, mpi_success, get_num_bytes_lem}
use mpi_to_openshmem.Mpi.Groups.{Comm}
use mpi_to_openshmem.Mpi.Shmem.{Memory, Shmem, set_buffer}
use mpi_to_openshmem.Mpi.Pack.{
  symmetric, Packed, Unpacked, put_packed, pack_bytes, mpi_pack, sym_inbuf, unpack_bytes,
  mpi_unpack,
}

pub write-inside :
    (to from : ℕ → ℕ) (offset n k : ℕ) → k < n → write to offset from n (offset + k) ≡ from k
unfolding write
write-inside to from offset n k b =
    let back : offset + k - offset ≡ k = omega arith in rw back (ground arith)

pub write-start : (to from : ℕ → ℕ) (n k : ℕ) → k < n → write to 0 from n k ≡ from k
unfolding write
write-start to from n k b = let back : k - 0 ≡ k = omega arith in rw back (ground arith)

pub write-below : (to from : ℕ → ℕ) (offset n k : ℕ) → k < offset → write to offset from n k ≡ to k
unfolding write
write-below to from offset n k b = ground arith

pub set_buffer_self : (m : Memory) (pe a : ℕ) (f : ℕ → ℕ) (k : ℕ) → set_buffer m pe a f pe a k ≡ f k
unfolding set_buffer
set_buffer_self m pe a f k = ground arith

-- What MPI_Pack is given, and MPI_Unpack the first two fields of.
pub record Item : Type 0 where
  pub count : ℕ
  pub datatype : ℕ
  pub bytes : ℕ → ℕ

abbrev pub item_bytes : Item → ℕ
item_bytes x = long_num_bytes x.count x.datatype

unfoldable pub total : List Item → ℕ
total [] = 0
total (x ∷ xs) = item_bytes x + total xs

-- `f` holds the items from byte `position` on.
abbrev pub Holds : (ℕ → ℕ) → List Item → ℕ → Type 0
Holds f [] position = Unit
Holds f (x ∷ xs) position =
    ((k : ℕ) → k < item_bytes x → f (position + k) ≡ x.bytes k)
    × Holds f xs (position + item_bytes x)

-- Each buffer has the bytes of its item.
abbrev pub Agree : List Item → List (ℕ → ℕ) → Type 0
Agree [] outs = outs ≡ []
Agree (x ∷ xs) [] = ⊥
Agree (x ∷ xs) (out ∷ outs) = ((k : ℕ) → k < item_bytes x → out k ≡ x.bytes k) × Agree xs outs

module _ (shmem : Shmem) (my_pe : ℕ) (comm : Comm) (a size : ℕ) where
  -- One MPI_Pack after another into the symmetric buffer `a`; `none` if one is refused.
  pack_next : (Memory → ℕ → Option (Memory × ℕ)) → Option Packed → Option (Memory × ℕ)
  pack_next rest none = none
  pack_next rest (some p) = if p.ret == mpi_success then rest p.memory p.position else none

  pub pack_all : Memory → List Item → ℕ → Option (Memory × ℕ)
  unfolding pack_next
  pack_all m [] position = some (m, position)
  pack_all m (x ∷ xs) position =
      pack_next (λ m' position'. pack_all m' xs position')
        (mpi_pack shmem my_pe m x.bytes x.count x.datatype (symmetric a) size position (some comm))

  -- One MPI_Unpack after another from it, each into the buffer `out`.
  unpack_next : (Memory → ℕ → Option (List (ℕ → ℕ))) → Option Unpacked → Option (List (ℕ → ℕ))
  unpack_next rest none = none
  unpack_next rest (some u) =
      let outs = rest u.memory u.position in
      if u.ret == mpi_success
      then elim outs [ none ↦ none | some outs ↦ some (u.outbuf ∷ outs) ]
      else none

  pub unpack_all : (ℕ → ℕ) → Memory → List Item → ℕ → Option (List (ℕ → ℕ))
  unfolding unpack_next
  unpack_all out m [] position = some []
  unpack_all out m (x ∷ xs) position =
      unpack_next (λ m' position'. unpack_all out m' xs position')
        (mpi_unpack shmem my_pe m (symmetric a) size position out x.count x.datatype (some comm))

  pub mpi_pack_symmetric :
      (m : Memory) (x : Item) (position : ℕ)
      → position + item_bytes x ≤ size
      → size < i32_mod
      → mpi_pack shmem my_pe m x.bytes x.count x.datatype (symmetric a) size position (some comm)
        ≡ some (put_packed shmem my_pe m x.bytes (item_bytes x) (symmetric a) position comm)
  unfolding mpi_pack pack_bytes
  mpi_pack_symmetric m x position fits small =
      rw (get_num_bytes_lem x.count x.datatype (omega arith), mpi_pack) (ground arith)

  pub mpi_unpack_symmetric :
      (m : Memory) (x : Item) (position : ℕ) (out : ℕ → ℕ)
      → position + item_bytes x ≤ size
      → size < i32_mod
      → mpi_unpack shmem my_pe m (symmetric a) size position out x.count x.datatype (some comm)
        ≡ some (record {
          ret = mpi_success;
          memory = m;
          outbuf = shmem.getmem m out a position (item_bytes x) comm.group.rank;
          position = position + item_bytes x;
        })
  unfolding mpi_unpack unpack_bytes sym_inbuf
  mpi_unpack_symmetric m x position out fits small =
      rw (get_num_bytes_lem x.count x.datatype (omega arith), mpi_unpack) (ground arith)

  -- The buffer as the process `rank` has it.
  abbrev here : Memory → ℕ → ℕ
  here m = m comm.group.rank a

  abbrev packed : Memory → Item → ℕ → Memory
  packed m x position =
      shmem.fence (shmem.putmem m a position x.bytes (item_bytes x) comm.group.rank)

  pack_all-Holds :
      (m : Memory) (xs : List Item) (position : ℕ)
      → position + total xs ≤ size
      → size < i32_mod
      → (m' : Memory) × (pack_all m xs position ≡ some (m', position + total xs))
        × Holds (here m') xs position
        × ((k : ℕ) → k < position → here m' k ≡ here m k)
  unfolding pack_all pack_next total put_packed
  pack_all-Holds m [] position fits small =
      (m, ap (λ p. some (m, p)) (omega arith), tt, λ k b. refl)
  pack_all-Holds m (x ∷ xs) position fits small =
      let m1 = packed m x position in
      let n = item_bytes x in
      let (m', e, holds, below) = pack_all-Holds m1 xs (position + n) (omega arith) small in
      let first = mpi_pack_symmetric m x position (omega arith) small in
      (
        m',
        rw first (e ∙ ap (λ p. some (m', p)) (omega arith)),
        (
          λ k b.
              below (position + k) (omega arith)
              ∙ shmem.fence-putmem m a position x.bytes n comm.group.rank comm.group.rank a
                  (position + k)
              ∙ set_buffer_self m comm.group.rank a (write (here m) position x.bytes n)
                  (position + k)
              ∙ write-inside (here m) x.bytes position n k b,
          holds,
        ),
        λ k b.
            below k (omega arith)
            ∙ shmem.fence-putmem m a position x.bytes n comm.group.rank comm.group.rank a k
            ∙ set_buffer_self m comm.group.rank a (write (here m) position x.bytes n) k
            ∙ write-below (here m) x.bytes position n k b,
      )

  unpack_all-Agree :
      (out : ℕ → ℕ) (m : Memory) (xs : List Item) (position : ℕ)
      → position + total xs ≤ size
      → size < i32_mod
      → Holds (here m) xs position
      → (outs : List (ℕ → ℕ)) × (unpack_all out m xs position ≡ some outs) × Agree xs outs
  unfolding unpack_all unpack_next total
  unpack_all-Agree out m [] position fits small holds = ([], refl, refl)
  unpack_all-Agree out m (x ∷ xs) position fits small (held, holds) =
      let n = item_bytes x in
      let (outs, e, agree) = unpack_all-Agree out m xs (position + n) (omega arith) small holds in
      let got = shmem.getmem m out a position n comm.group.rank in
      (
        got ∷ outs,
        rw (mpi_unpack_symmetric m x position out (omega arith) small) (rw e refl),
        (
          λ k b.
              shmem.getmem_lem m out a position n comm.group.rank k
              ∙ write-start out (λ i. here m (position + i)) n k b
              ∙ held k b,
          agree,
        ),
      )

  -- If a list of items fits in a symmetric buffer of less than 2^31 bytes from a position on,
  -- MPI_Pack of one after another succeeds and ends behind the last, and MPI_Unpack in the same
  -- order from the same position gives the bytes of each item.
  pub pack_all-unpack_all :
      (out : ℕ → ℕ) (m : Memory) (xs : List Item) (position : ℕ)
      → position + total xs ≤ size
      → size < i32_mod
      → (m' : Memory) × (outs : List (ℕ → ℕ)) × (pack_all m xs position
          ≡ some (m', position + total xs))
        × (unpack_all out m' xs position ≡ some outs)
        × Agree xs outs
  pack_all-unpack_all out m xs position fits small =
      let (m', e, holds, _) = pack_all-Holds m xs position fits small in
      let (outs, e', agree) = unpack_all-Agree out m' xs position fits small holds in
      (m', outs, e, e', agree)
