-- ===== src/Messages/Struct.antt =====
-- The bytes of a struct with int fields, least byte first.
use mpi_to_openshmem.Prelude.{
  ℕ, ◌+◌, ◌-◌, ◌*◌, ◌/◌, ◌%◌, ◌<◌, ◌≡◌, refl, List, [], ◌∷◌, ◌&&◌, leb, ltb, ◌==◌, if◌then◌else◌,
  arith,
}
use mpi_to_openshmem.Floats.{Bytes}
use mpi_to_openshmem.Partitioner.Keys.{u32_at}

abbrev pub int_byte : ℕ → ℕ → ℕ
int_byte v k =
    if k == 0
    then v % 256
    else if k == 1
    then v / 256 % 256
    else if k == 2
    then v / 65536 % 256
    else v / 16777216 % 256

-- The int fields, with their offsets, over the bytes of the pointers and the padding.
abbrev pub struct_bytes : List (ℕ × ℕ) → Bytes → Bytes
struct_bytes [] rest k = rest k
struct_bytes ((offset, v) ∷ fields) rest k =
    let other = struct_bytes fields rest k in
    if leb offset k && ltb k (offset + 4) then int_byte v (k - offset) else other

unfoldable pub int_field : Bytes → ℕ → ℕ
int_field p offset = u32_at (λ i. p (offset + i))

pub int_bytes_lem :
    (v : ℕ)
    → v < 4294967296
    → int_byte v 0 + 256 * (int_byte v 1 + 256 * (int_byte v 2 + 256 * int_byte v 3)) ≡ v
int_bytes_lem v b = omega arith

pub u32_at_ext : (p q : Bytes) → ((k : ℕ) → k < 4 → p k ≡ q k) → u32_at p ≡ u32_at q
u32_at_ext p q same =
    let e0 = same 0 (omega arith) in
    let e1 = same 1 (omega arith) in
    let e2 = same 2 (omega arith) in let e3 = same 3 (omega arith) in rw (e0, e1, e2, e3) refl
