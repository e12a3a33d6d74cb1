-- ===== src/Messages/Packing/Holds.antt =====
-- What is packed into a buffer that is large enough, and that it comes out again.
use mpi_to_openshmem.Prelude.{
  ℕ, ◌+◌, ◌≤◌, ◌<◌, ◌≡◌, ◌∙◌, ap, refl, List, [], ◌∷◌, true, false, some, leb, arith,
}
use mpi_to_openshmem.Floats.{Bytes}
use mpi_to_openshmem.Partitioner.Keys.{u32_at}
use mpi_to_openshmem.Mpi.Datatypes.{long_num_bytes, type_size, one_of, mpi_char, mpi_int, i32_mod}
use mpi_to_openshmem.Messages.Types.{Data, max_msg_size}
use mpi_to_openshmem.Messages.Struct.{int_field, u32_at_ext}
use mpi_to_openshmem.Messages.Packing.{
  ok, error, MpiCalls, Packs, Chunk, chars, Cursor, packed, pack_calls, pack_message, pack_sized,
  unpacked, get_bytes, malloc,
}

abbrev pub chunk_bytes : Chunk → ℕ
chunk_bytes c = long_num_bytes c.count c.datatype

unfoldable pub total_bytes : List Chunk → ℕ
total_bytes [] = 0
total_bytes (c ∷ cs) = chunk_bytes c + total_bytes cs

abbrev pub Holds : Bytes → List Chunk → ℕ → Type 0
Holds f [] position = Unit
Holds f (c ∷ cs) position =
    ((k : ℕ) → k < chunk_bytes c → f (position + k) ≡ c.from k)
    × Holds f cs (position + chunk_bytes c)

-- The same length and the same bytes.
abbrev pub Same : Data → Data → Type 0
Same d e = (d.len ≡ e.len) × ((k : ℕ) → k < e.len → d.bytes k ≡ e.bytes k)

-- after `n` bytes, with no error so far
abbrev pub after : ℕ → Cursor
after n = record { mesg_idx = n; return_code = 0 }

pub chars_bytes : (n : ℕ) → long_num_bytes n mpi_char ≡ n
unfolding long_num_bytes type_size one_of
chars_bytes n = omega arith

pub int_one : long_num_bytes 1 mpi_int ≡ 4
unfolding long_num_bytes type_size one_of
int_one = refl

module _ (mpi : MpiCalls) (packs : Packs mpi) (size : ℕ) (small : size < i32_mod) where
  -- From `n` on the buffer holds the chunks, all within the size.
  abbrev pub Ahead : mpi.Buffer → List Chunk → ℕ → Type 0
  Ahead b cs n = Holds (packs.bytes_of b) cs n × (n + total_bytes cs ≤ size)

  pub pack_calls-Holds :
      (b : mpi.Buffer) (cs : List Chunk) (n : ℕ)
      → n + total_bytes cs ≤ size
      → (b' : mpi.Buffer) × (pack_calls mpi size cs b n 0 ≡ ok (b', 0))
        × Holds (packs.bytes_of b') cs n
        × ((k : ℕ) → k < n → packs.bytes_of b' k ≡ packs.bytes_of b k)
  unfolding pack_calls packed total_bytes
  pack_calls-Holds b [] n fits = (b, refl, tt, λ k below. refl)
  pack_calls-Holds b (c ∷ cs) n fits =
      let (b1, e, got, kept) =
        packs.pack-fits b c.from c.count c.datatype size n (omega arith) small in
      let (b2, e', holds, before) = pack_calls-Holds b1 cs (n + chunk_bytes c) (omega arith) in
      (
        b2,
        rw e e',
        (λ k below. before (n + k) (omega arith) ∙ got k below, holds),
        λ k below. before k (omega arith) ∙ kept k below,
      )

  pub pack_message-Holds :
      (b : mpi.Buffer) (cs : List Chunk)
      → total_bytes cs ≤ size
      → (b' : mpi.Buffer) × (pack_message mpi b size cs
          ≡ ok (record { sendbuf = b'; sendsize = size }))
        × Ahead b' cs 0
  unfolding pack_message
  pack_message-Holds b cs fits =
      let (b', e, holds, _) = pack_calls-Holds b cs 0 (omega arith) in
      (b', rw e refl, (holds, omega arith))

  pub get_bytes-Ahead :
      (b : mpi.Buffer) (c : Chunk) (cs : List Chunk) (n : ℕ) (raw : Bytes)
      → Ahead b (c ∷ cs) n
      → (out : Bytes) × (get_bytes mpi b size (after n) raw c.count c.datatype
          ≡ ok (out, after (n + chunk_bytes c)))
        × ((k : ℕ) → k < chunk_bytes c → out k ≡ c.from k)
        × Ahead b cs (n + chunk_bytes c)
  unfolding get_bytes unpacked total_bytes
  get_bytes-Ahead b c cs n raw ((here, rest), fits) =
      let (out, e, got) = packs.unpack-fits b size n raw c.count c.datatype (omega arith) small in
      (out, rw e refl, (λ k below. got k below ∙ here k below), (rest, omega arith))

  -- The struct at the start of a message.
  pub get_struct-Ahead :
      (b : mpi.Buffer) (st : Bytes) (n : ℕ) (cs : List Chunk) (raw : Bytes)
      → Ahead b (chars st n ∷ cs) 0
      → (out : Bytes) × (get_bytes mpi b size (after 0) raw n mpi_char ≡ ok (out, after n))
        × ((k : ℕ) → k < n → out k ≡ st k)
        × Ahead b cs n
  get_struct-Ahead b st n cs raw ahead =
      let (out, e, got, ahead') = get_bytes-Ahead b (chars st n) cs 0 raw ahead in
      let whole' = chars_bytes n in
      let whole : 0 + long_num_bytes n mpi_char ≡ n = omega arith in
      (out, rw whole at e, (λ k below. got k (omega arith)), rw whole at ahead')

  -- The first bytes of it.
  pub get_prefix-Ahead :
      (b : mpi.Buffer) (st : Bytes) (n i : ℕ) (cs : List Chunk) (raw : Bytes)
      → i ≤ n
      → Ahead b (chars st n ∷ cs) 0
      → (out : Bytes) × (get_bytes mpi b size (after 0) raw i mpi_char ≡ ok (out, after i))
        × ((k : ℕ) → k < i → out k ≡ st k)
  unfolding get_bytes unpacked total_bytes
  get_prefix-Ahead b st n i cs raw part ((here, _), fits) =
      let whole = chars_bytes n in
      let first = chars_bytes i in
      let moved : 0 + long_num_bytes i mpi_char ≡ i = omega arith in
      let (out, e, got) = packs.unpack-fits b size 0 raw i mpi_char (omega arith) small in
      (
        out,
        ap (unpacked mpi (after 0)) e ∙ ap (λ i. ok (out, after i)) moved,
        λ k below. got k (omega arith) ∙ here k (omega arith),
      )

-- A call that succeeds, and the calls after it.
pub pack_calls_next :
    (mpi : MpiCalls) (size : ℕ) (c : Chunk) (cs : List Chunk) (b b' : mpi.Buffer) (n n' : ℕ)
    → mpi.pack b c.from c.count c.datatype size n ≡ some (0, b', n')
    → pack_calls mpi size (c ∷ cs) b n 0 ≡ pack_calls mpi size cs b' n' 0
unfolding pack_calls packed
pack_calls_next mpi size c cs b b' n n' e = rw e refl

-- Of a message within the largest size.
pub pack_sized-Ahead :
    (mpi : MpiCalls) (packs : Packs mpi) (size : ℕ) (fits : size ≤ max_msg_size) (b : mpi.Buffer)
    (cs : List Chunk)
    → total_bytes cs ≤ size
    → (b' : mpi.Buffer) × (pack_sized mpi b size cs ≡ ok (record { sendbuf = b'; sendsize = size }))
      × Ahead mpi packs size (omega arith) b' cs 0
unfolding pack_sized
pack_sized-Ahead mpi packs size fits b cs within =
    let (b', e, ahead) = pack_message-Holds mpi packs size (omega arith) b cs within in
    let passes : leb size max_msg_size ≡ true = grind arith in (b', rw passes e, ahead)

pub pack_sized-error :
    (mpi : MpiCalls) (b : mpi.Buffer) (size : ℕ) (cs : List Chunk)
    → max_msg_size < size
    → pack_sized mpi b size cs ≡ error
unfolding pack_sized
pack_sized-error mpi b size cs large =
    let over : leb size max_msg_size ≡ false = grind arith in rw over refl

pub int_field_ext :
    (p q : Bytes) (n offset : ℕ)
    → ((k : ℕ) → k < n → p k ≡ q k)
    → offset + 4 ≤ n
    → int_field p offset ≡ int_field q offset
unfolding int_field
int_field_ext p q n offset same fits =
    u32_at_ext (λ i. p (offset + i)) (λ i. q (offset + i))
      (λ k below. same (offset + k) (omega arith))

-- A field of the struct that was packed, in what was unpacked.
pub field_lem :
    (st p : Bytes) (n offset v : ℕ)
    → ((k : ℕ) → k < n → p k ≡ st k)
    → offset + 4 ≤ n
    → u32_at (λ i. st (offset + i)) ≡ v
    → int_field p offset ≡ v
unfolding int_field
field_lem st p n offset v same fits e = int_field_ext p st n offset same fits ∙ e

pub malloc_lem : (n : ℕ) → n < i32_mod → malloc n ≡ ok tt
unfolding malloc
malloc_lem n below = let plus : leb i32_mod n ≡ false = grind arith in rw plus refl
