-- ===== src/Uthash/Assoc.antt =====
-- An association list in the order of insertion meets what is asked of the hash table.
use mpi_to_openshmem.Prelude.{
  ℕ, ◌≡◌, refl, ap, List, [], ◌∷◌, ◌++◌, Option, none, some, ◌==◌, if◌then◌else◌, arith,
}
use mpi_to_openshmem.Uthash.{IntHash}

module _ {V : Type 0} where
  abbrev pub find : ℕ → List (ℕ × V) → Option V
  find k [] = none
  find k ((j, v) ∷ t) = if j == k then some v else find k t

  abbrev pub add : ℕ → V → List (ℕ × V) → List (ℕ × V)
  add k v [] = (k, v) ∷ []
  add k v ((j, w) ∷ t) = (j, w) ∷ add k v t

  abbrev pub del : ℕ → List (ℕ × V) → List (ℕ × V)
  del k [] = []
  del k ((j, v) ∷ t) = let rest = del k t in if j == k then rest else (j, v) ∷ rest

  abbrev pub items : List (ℕ × V) → List V
  items [] = []
  items ((j, v) ∷ t) = v ∷ items t

  pub find-add :
      (k : ℕ) (v : V) (t : List (ℕ × V)) (j : ℕ)
      → find k t ≡ none
      → find j (add k v t) ≡ (if k == j then some v else find j t)
  find-add k v [] j h = refl
  find-add k v ((i, w) ∷ t) j h = ground (arith, find-add k v t j)

  pub find-del :
      (k : ℕ) (t : List (ℕ × V)) (j : ℕ) → find j (del k t) ≡ (if k == j then none else find j t)
  find-del k [] j = ground arith
  find-del k ((i, w) ∷ t) j = ground (arith, find-del k t j)

  pub items-add : (k : ℕ) (v : V) (t : List (ℕ × V)) → items (add k v t) ≡ items t ++ v ∷ []
  items-add k v [] = refl
  items-add k v ((j, w) ∷ t) = ap (◌∷◌ w) (items-add k v t)

abbrev pub assoc : (V : Type 0) → IntHash V
assoc V = record {
  Table = List (ℕ × V);
  null = [];
  find = find;
  add = add;
  del = del;
  items = items;
  find-null = λ k. refl;
  find-add = find-add;
  find-del = find-del;
  items-null = refl;
  items-add = λ k v t _. items-add k v t;
}
