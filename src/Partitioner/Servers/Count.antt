-- ===== src/Partitioner/Servers/Count.antt =====
-- How many range servers there are.
use mpi_to_openshmem.Prelude.{
  ℕ, zero, suc, ◌+◌, ◌-◌, ◌*◌, ◌/◌, ◌%◌, ◌≤◌, ◌<◌, ◌≡◌, some, inl, inr, ◌≢◌, ◌==◌, ==→eq, le→ltb,
  Bool-cases, arith,
}
use mathlib.Core.Path.{subst}
use mpi_to_openshmem.Prelude.Int.{u32_mod}
use native.Mathlib.Nat.{div-add-mod', mul-mod_left, mod-eq_of_lt}
use mpi_to_openshmem.Partitioner.Servers.{count_servers, get_num_range_servers}

-- `num` is `i / factor`, rounded up.
pub record IsCeil (factor i num : ℕ) : Type 0 where
  pub covers : i ≤ num * factor
  pub tight : num * factor < i + factor
  pub small : num ≤ i

lt_of_mul_lt : (a b f : ℕ) → a * f < b * f → a < b
lt_of_mul_lt a b f h = grind arith

le_multiple : (f i num : ℕ) → i % f ≡ 0 → num * f < i + f → num * f ≤ i
le_multiple f i num e h =
    let lt : num < i / f + 1 = lt_of_mul_lt num (i / f + 1) f (omega (arith, div-add-mod' i f)) in
    grind (arith, div-add-mod' i f)

step_hit : (f i num : ℕ) → 0 < f → i % f ≡ 0 → IsCeil f i num → IsCeil f (i + 1) (num + 1)
step_hit f i num h e c = omega (arith, le_multiple f i num e c.tight)

step_miss : (f i num : ℕ) → 0 < f → i % f ≢ 0 → IsCeil f i num → IsCeil f (i + 1) num
step_miss f i num h e c = grind (arith, mul-mod_left num f)

count_servers-IsCeil :
    (f n i num j : ℕ)
    → 0 < f
    → i + n ≡ j
    → j < u32_mod
    → IsCeil f i num
    → IsCeil f j (count_servers f n i num)
unfolding count_servers
count_servers-IsCeil f zero i num j h e s c = subst (λ k. IsCeil f k num) (omega arith) c
count_servers-IsCeil f (suc n) i num j h e s c = elim (Bool-cases (i % f == 0)) [
  | inl hit ↦
      rw (hit, mod-eq_of_lt {n = num + 1} {m = u32_mod} (omega (arith, c.small)))
        (count_servers-IsCeil f n (i + 1) (num + 1) j h (omega arith) s
          (step_hit f i num h (==→eq _ _ hit) c))
  | inr miss ↦ rw miss (
      count_servers-IsCeil f n (i + 1) num j h (omega arith) s
        (step_miss f i num h (ground arith) c))
]

-- The number of range servers of a communicator that is larger than the factor.
pub num_servers-IsCeil :
    (f size : ℕ)
    → 0 < f
    → size < u32_mod
    → f ≤ size - 1
    → IsCeil f size (get_num_range_servers f (some size))
unfolding get_num_range_servers
num_servers-IsCeil f size h s le =
    rw (le→ltb f (size - 1) le)
      (count_servers-IsCeil f size 0 0 size h (omega arith) s (omega arith))
