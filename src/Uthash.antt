-- ===== src/Uthash.antt =====
-- What the code relies on of uthash (mdhimMods/src/uthash), a library that is not modelled: a hash
-- table from `int` keys, as bit patterns, to structures. `items` is the order of HASH_ITER.
pub mod Assoc
use mpi_to_openshmem.Prelude.{ℕ, ◌≡◌, List, [], ◌∷◌, ◌++◌, Option, none, some, ◌==◌, if◌then◌else◌}

pub record IntHash (V : Type 0) : Type 1 where
  pub Table : Type 0
  pub null : Table
  pub find : ℕ → Table → Option V
  pub add : ℕ → V → Table → Table
  pub del : ℕ → Table → Table
  pub items : Table → List V
  pub find-null : (k : ℕ) → find k null ≡ none
  -- HASH_ADD wants a key that is not in the table.
  pub find-add :
      (k : ℕ) (v : V) (t : Table) (j : ℕ)
      → find k t ≡ none
      → find j (add k v t) ≡ (if k == j then some v else find j t)
  pub find-del :
      (k : ℕ) (t : Table) (j : ℕ) → find j (del k t) ≡ (if k == j then none else find j t)
  pub items-null : items null ≡ []
  -- A new structure goes to the end of the list that HASH_ITER walks.
  pub items-add :
      (k : ℕ) (v : V) (t : Table) → find k t ≡ none → items (add k v t) ≡ items t ++ v ∷ []
