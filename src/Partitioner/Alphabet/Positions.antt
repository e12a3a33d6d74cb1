-- ===== src/Partitioner/Alphabet/Positions.antt =====
-- What the alphabet holds after `build_alphabet`.
use mpi_to_openshmem.Prelude.{
  ℕ, zero, suc, ◌+◌, ◌-◌, ◌≤◌, ◌≡◌, Option, none, some, ltb, leb, ◌==◌, ◌&&◌, if◌then◌else◌, arith,
}
use mpi_to_openshmem.Uthash.{IntHash}
use mpi_to_openshmem.Partitioner.Alphabet.{MdhimChar, add_char, add_chars, build_alphabet}

-- The entry of the character with code `c`, as the comment in `build_alphabet` lists them.
pub alphabet_entry : ℕ → Option MdhimChar
alphabet_entry c =
    if leb b'0' c && leb c b'9'
    then some (record { id = c; pos = c - b'0' })
    else if leb b'A' c && leb c b'Z'
    then some (record { id = c; pos = c - b'A' + 10 })
    else if leb b'a' c && leb c b'z'
    then some (record { id = c; pos = c - b'a' + 36 })
    else none

module _ (h : IntHash MdhimChar) where
  -- What is found after `n` characters from `i` were added to `t`, numbered from `indx`.
  abbrev added : ℕ → h.Table → ℕ → ℕ → ℕ → Option MdhimChar
  added n t i indx c =
      if leb i c && ltb c (i + n) then some (record { id = c; pos = c - i + indx }) else h.find c t

  find-add_char :
      (t : h.Table) (i indx : ℕ)
      → h.find i t ≡ none
      → (c : ℕ)
      → h.find c (add_char h t i indx)
        ≡ (if i == c then some (record { id = i; pos = indx }) else h.find c t)
  unfolding add_char
  find-add_char t i indx fresh c = h.find-add i (record { id = i; pos = indx }) t c fresh

  find-add_chars :
      (n : ℕ) (t : h.Table) (i indx : ℕ)
      → ((c : ℕ) → i ≤ c → h.find c t ≡ none)
      → (c : ℕ) → h.find c (add_chars h n t i indx).0 ≡ added n t i indx c
  unfolding add_chars
  find-add_chars zero t i indx fresh c = ground arith
  find-add_chars (suc n) t i indx fresh c = ground (
    arith,
    find-add_chars n (add_char h t i indx) (i + 1) (indx + 1) fresh' c,
    find-add_char t i indx (fresh i (omega arith)) c,
  )
    where
      fresh' : (c' : ℕ) → i + 1 ≤ c' → h.find c' (add_char h t i indx) ≡ none
      fresh' c' le =
          ground (arith, find-add_char t i indx (fresh i (omega arith)) c', fresh c' (omega arith))

  abbrev digits : h.Table
  digits = (add_chars h 10 h.null b'0' 0).0

  abbrev upper : h.Table
  upper = (add_chars h 26 digits b'A' 10).0

  find-digits : (c : ℕ) → h.find c digits ≡ added 10 h.null b'0' 0 c
  find-digits c = find-add_chars 10 h.null b'0' 0 (λ c' _. h.find-null c') c

  find-upper : (c : ℕ) → h.find c upper ≡ added 26 digits b'A' 10 c
  find-upper c = find-add_chars 26 digits b'A' 10 fresh c
    where
      fresh : (c' : ℕ) → b'A' ≤ c' → h.find c' digits ≡ none
      fresh c' le = ground (arith, find-digits c', h.find-null c')

  find-lower : (c : ℕ) → h.find c (add_chars h 26 upper b'a' 36).0 ≡ added 26 upper b'a' 36 c
  find-lower c = find-add_chars 26 upper b'a' 36 fresh c
    where
      fresh : (c' : ℕ) → b'a' ≤ c' → h.find c' upper ≡ none
      fresh c' le = ground (arith, find-upper c', find-digits c', h.find-null c')

  -- After build_alphabet on the empty table every code is found as the comment there lists it: 0-9
  -- at 0-9, A-Z at 10-35, a-z at 36-61, and no other code is found.
  pub find-build_alphabet : (c : ℕ) → h.find c (build_alphabet h h.null) ≡ alphabet_entry c
  unfolding build_alphabet alphabet_entry add_chars
  find-build_alphabet c = ground (arith, find-lower c, find-upper c, find-digits c, h.find-null c)
