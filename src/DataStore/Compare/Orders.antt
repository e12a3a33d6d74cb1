-- ===== src/DataStore/Compare/Orders.antt =====
-- LevelDB wants of a comparator that it be an order: what holds of those here.
use mpi_to_openshmem.Prelude.{
  ℕ, zero, suc, ◌+◌, ◌%◌, ◌≡◌, ◌≢◌, ◌≤◌, ◌<◌, ◌∙◌, sym, ap, refl, ◌&&◌, not, Option, none, some,
  ltb, ◌==◌, if◌then◌else◌, Bool-cases, inl, inr, arith,
}
use mpi_to_openshmem.Prelude.Int.{ℤ, pos, negsuc}
use mpi_to_openshmem.Floats.{Bytes}
use mpi_to_openshmem.Partitioner.Keys.{u32_at}
use mpi_to_openshmem.DataStore.Compare.{
  minus_one, cmp_numbers, cmp_int_compare, string_loop, char_less, decide_at, cmp_string_compare,
}

-- the result for the two keys the other way round
abbrev pub opposite : ℤ → ℤ
opposite (pos (suc zero)) = minus_one
opposite (negsuc zero) = pos 1
opposite ret = ret

number_less : ℕ → ℕ → ℕ → ℕ → ℤ
number_less alen blen m n =
    if ltb blen alen then pos 1 else if ltb alen blen then minus_one else cmp_numbers m n

number_less-opposite :
    (alen blen m n : ℕ) → number_less blen alen n m ≡ opposite (number_less alen blen m n)
unfolding number_less
number_less-opposite alen blen m n = ground arith

number_less_trans :
    (alen blen clen k m n : ℕ)
    → number_less alen blen k m ≡ minus_one
    → number_less blen clen m n ≡ minus_one
    → number_less alen clen k n ≡ minus_one
unfolding number_less
number_less_trans alen blen clen k m n e f = ground arith

-- What the comparators of numbers come to for two keys that are there.
cmp_int_both :
    (a b : Bytes) (alen blen : ℕ)
    → cmp_int_compare (some a) alen (some b) blen ≡ number_less alen blen (u32_at a) (u32_at b)
unfolding number_less
cmp_int_both a b alen blen = elim (Bool-cases (ltb blen alen)) [
  | inl more ↦ rw more refl
  | inr not_more ↦ elim (Bool-cases (ltb alen blen)) [
    | inl less ↦ rw (not_more, less) refl
    | inr same ↦ rw (not_more, same) refl
  ]
]

-- Exchanging the two keys of cmp_int_compare exchanges less and greater, for all keys, NULL
-- included, and lengths.
pub cmp_int_compare-opposite :
    (a b : Option Bytes) (alen blen : ℕ)
    → cmp_int_compare b blen a alen ≡ opposite (cmp_int_compare a alen b blen)
cmp_int_compare-opposite none none alen blen = refl
cmp_int_compare-opposite none (some b) alen blen = refl
cmp_int_compare-opposite (some a) none alen blen = refl
cmp_int_compare-opposite (some a) (some b) alen blen =
    cmp_int_both b a blen alen
    ∙ number_less-opposite alen blen (u32_at a) (u32_at b)
    ∙ ap opposite (sym (cmp_int_both a b alen blen))

-- A key that cmp_int_compare finds less than a second, which it finds less than a third, it finds
-- less than the third.
pub cmp_int_compare_trans :
    (a b c : Option Bytes) (alen blen clen : ℕ)
    → cmp_int_compare a alen b blen ≡ minus_one
    → cmp_int_compare b blen c clen ≡ minus_one
    → cmp_int_compare a alen c clen ≡ minus_one
cmp_int_compare_trans none none c alen blen clen e f = cc
cmp_int_compare_trans none (some b) none alen blen clen e f = cc
cmp_int_compare_trans none (some b) (some c) alen blen clen e f = refl
cmp_int_compare_trans (some a) none c alen blen clen e f = cc
cmp_int_compare_trans (some a) (some b) none alen blen clen e f = cc
cmp_int_compare_trans (some a) (some b) (some c) alen blen clen e f =
    cmp_int_both a c alen clen
    ∙ number_less_trans alen blen clen (u32_at a) (u32_at b) (u32_at c)
        (sym (cmp_int_both a b alen blen) ∙ e) (sym (cmp_int_both b c blen clen) ∙ f)

string_loop_swap :
    (alen blen : ℕ) (a b : Bytes) (i : ℕ)
    → string_loop blen alen b a i ≡ string_loop alen blen a b i
unfolding string_loop
string_loop_swap zero zero a b i = refl
string_loop_swap zero (suc blen) a b i = refl
string_loop_swap (suc alen) zero a b i = refl
string_loop_swap (suc alen) (suc blen) a b i =
    let rest = string_loop_swap alen blen a b (i + 1) in ground (arith, rest)

-- Where it stops: the characters differ, or both are null, or one string is at its end.
string_loop-stop :
    (alen blen : ℕ) (a b : Bytes) (i : ℕ)
    → let k = string_loop alen blen a b i in
      (i ≤ k)
      × (k ≤ i + alen)
      × (k ≤ i + blen)
      × (k ≢ i + alen → k ≢ i + blen → a k ≡ b k → a k ≡ 0)
unfolding string_loop
string_loop-stop zero blen a b i =
    (omega arith, omega arith, omega arith, λ ne. absurd (ne (omega arith)))
string_loop-stop (suc alen) zero a b i =
    (omega arith, omega arith, omega arith, λ _ ne. absurd (ne (omega arith)))
string_loop-stop (suc alen) (suc blen) a b i =
    let (low, left, right, stop) = string_loop-stop alen blen a b (i + 1) in
    elim (Bool-cases ((a i == b i) && not (a i == 0) && not (b i == 0))) [
      | inl on ↦ rw on (
        omega arith,
        omega arith,
        omega arith,
        λ n m e. stop (λ h. n (omega arith)) (λ h. m (omega arith)) e,
      )
      | inr off ↦ rw off (omega arith, omega arith, omega arith, λ n m e. ground (arith, off))
    ]

char_less_connex : (x y : ℕ) → x < 256 → y < 256 → x ≢ y → char_less x y ≡ not (char_less y x)
unfolding char_less
char_less_connex x y bx by' ne =
    let apart : (x + 128) % 256 ≢ (y + 128) % 256 = λ e. ne (omega arith) in ground arith

decide_at-opposite :
    (alen blen idx x y : ℕ)
    → idx ≤ alen
    → idx ≤ blen
    → x < 256
    → y < 256
    → (idx ≢ alen → idx ≢ blen → x ≡ y → x ≡ 0)
    → decide_at blen alen idx y x ≡ opposite (decide_at alen blen idx x y)
unfolding decide_at
decide_at-opposite alen blen idx x y left right bx by' stop =
    let connex = char_less_connex x y bx by' in ground arith

abbrev pub AreChars : Option Bytes → Type 0
AreChars none = Unit
AreChars (some a) = (i : ℕ) → a i < 256

-- Exchanging the two keys of cmp_string_compare exchanges less and greater, for keys of characters
-- or NULL and all lengths.
pub cmp_string_compare-opposite :
    (a b : Option Bytes) (alen blen : ℕ)
    → AreChars a
    → AreChars b
    → cmp_string_compare b blen a alen ≡ opposite (cmp_string_compare a alen b blen)
unfolding cmp_string_compare
cmp_string_compare-opposite none none alen blen ca cb = refl
cmp_string_compare-opposite none (some b) alen blen ca cb = refl
cmp_string_compare-opposite (some a) none alen blen ca cb = refl
cmp_string_compare-opposite (some a) (some b) alen blen ca cb =
    let k = string_loop alen blen a b 0 in
    let (_, left, right, stop) = string_loop-stop alen blen a b 0 in
    rw (string_loop_swap alen blen a b 0) (
      decide_at-opposite alen blen k (a k) (b k) (omega arith) (omega arith) (ca k) (cb k)
        (λ n m e. stop (λ h. n (omega arith)) (λ h. m (omega arith)) e))
