-- ===== src/Mpi/Blocking/Polling.antt =====
-- The loop that polls, and the numbers that are compared.
use mpi_to_openshmem.Prelude.{
  ℕ, zero, suc, ◌+◌, ◌*◌, ◌≤◌, ◌<◌, ◌≡◌, refl, Bool, true, ◌==◌, some, Bool-cases, inl, inr, arith,
  ◌-◌, ◌%◌, ◌^◌, ◌⊎◌, false, leb, ltb, if◌then◌else◌,
}
use mpi_to_openshmem.Prelude.Int.{u32_mod}
use mpi_to_openshmem.Floats.{Bytes}
use mpi_to_openshmem.Mpi.Datatypes.{one_of, type_size, long_num_bytes, i32_mod}
use mpi_to_openshmem.Mpi.Shmem.{Memory}
use mpi_to_openshmem.Mpi.Blocking.{word, int_bytes, expected_int, wait, as_flag}

pub wait_lem :
    (seen : ℕ → Memory) (is_there : Memory → Bool) (fuel n j : ℕ)
    → j < fuel
    → is_there (seen (n + j)) ≡ true
    → (i : ℕ) × (wait seen is_there fuel n ≡ some i) × (i ≤ n + j)
unfolding wait
wait_lem seen is_there zero n j enough there = absurd (omega arith)
wait_lem seen is_there (suc fuel) n zero enough there =
    let here : n + 0 ≡ n = omega arith in
    let now : is_there (seen n) ≡ true = rw here at there in (n, rw now refl, omega arith)
wait_lem seen is_there (suc fuel) n (suc j) enough there = elim (Bool-cases (is_there (seen n))) [
  | inl now ↦ (n, rw now refl, omega arith)
  | inr later ↦
      let next : n + suc j ≡ suc n + j = omega arith in
      let (i, e, within) = wait_lem seen is_there fuel (suc n) j (omega arith) (rw next at there) in
      (i, rw later e, omega arith)
]

pub word_ext : (w : ℕ) (f g : Bytes) → ((i : ℕ) → i < w → f i ≡ g i) → word w f ≡ word w g
unfolding word
word_ext zero f g same = refl
word_ext (suc w) f g same =
    let first = same 0 (omega arith) in
    let rest =
      word_ext w (λ i. f (suc i)) (λ i. g (suc i)) (λ i below. same (suc i) (omega arith)) in
    rw (first, rest) refl

pub expected_int_small : (d e : ℕ) → expected_int d ≡ some e → e < 100000
unfolding expected_int one_of
expected_int_small d e is = ground arith

pub word-int_bytes : (v : ℕ) → v < 100000 → word 4 (int_bytes v) ≡ v
unfolding word
word-int_bytes v small = omega arith

pub size_within : (count d : ℕ) → 1 ≤ count → type_size d ≤ long_num_bytes count d
unfolding long_num_bytes
size_within zero d one = absurd (omega arith)
size_within (suc c) d one =
    let more : suc c * type_size d ≡ type_size d + c * type_size d = grind arith in
    rw more (omega arith)

if_same : (b : Bool) (a : ℕ) → (if b then a else (if true then a else a)) ≡ a
if_same true a = refl
if_same false a = refl

-- The int that `v` is stored in, if `v` is wider, holds it.
abbrev pub FitsFlag : ℕ → ℕ → Type 0
FitsFlag w v = (w ≤ 4) ⊎ (v < i32_mod) ⊎ ((w ≡ 8) × (n : ℕ) × (n < i32_mod) × (v + suc n ≡ 256 ^ 8))

pub as_flag_lem : (w v : ℕ) → FitsFlag w v → as_flag w v ≡ v
unfolding as_flag
as_flag_lem w v (inl narrow) = (let is : leb w 4 ≡ true = grind arith in rw is refl)
as_flag_lem w v (inr (inl small)) =
    let low : v % u32_mod ≡ v = omega arith in
    let is : ltb v i32_mod ≡ true = grind arith in rw (low, is) (if_same (leb w 4) v)
as_flag_lem w v (inr (inr (wide, n, small, e))) =
    let low : v % u32_mod ≡ u32_mod - 1 - n = omega arith in
    let not_small : ltb (u32_mod - 1 - n) i32_mod ≡ false = grind arith in
    rw (wide, low, not_small) (omega arith)

pub equal_lem : {x y : ℕ} → x ≡ y → (x == y) ≡ true
equal_lem e = grind arith
