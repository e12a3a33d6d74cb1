-- ===== src/Partitioner/Alphabet.antt =====
-- The alphabet for string keys (mdhimMods/src/partitioner.c: add_char, build_alphabet), a hash table
-- from the code of a character to its position. The table is the global `mdhim_alphabet`.
pub mod Positions
use mpi_to_openshmem.Prelude.{ℕ, zero, suc, ◌+◌, ◌-◌}
use mpi_to_openshmem.Uthash.{IntHash}

-- struct mdhim_char
pub record MdhimChar : Type 0 where
  pub id : ℕ
  pub pos : ℕ

module _ (h : IntHash MdhimChar) where
  open h use {Table}

  unfoldable pub add_char : Table → ℕ → ℕ → Table
  add_char t id pos = h.add id (record { id = id; pos = pos }) t

  -- for (i = c; i <= last; i++) { add_char(i, indx); indx++; }, with the rounds that are left
  pub add_chars : ℕ → Table → ℕ → ℕ → Table × ℕ
  add_chars zero t i indx = (t, indx)
  add_chars (suc n) t i indx = add_chars n (add_char t i indx) (i + 1) (indx + 1)

  pub build_alphabet : Table → Table
  build_alphabet t =
      let (digits, indx) = add_chars (b'9' + 1 - b'0') t b'0' 0 in
      let (upper, indx') = add_chars (b'Z' + 1 - b'A') digits b'A' indx in
      (add_chars (b'z' + 1 - b'a') upper b'a' indx').0
