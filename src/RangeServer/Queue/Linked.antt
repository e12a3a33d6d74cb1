-- ===== src/RangeServer/Queue/Linked.antt =====
-- The queue as a list of addresses, the next one to be taken first.
use mpi_to_openshmem.Prelude.{
  ℕ, ◌≡◌, ◌≢◌, ◌∙◌, sym, ap, refl, List, [], ◌∷◌, ◌++◌, false, Option, some, Bool-cases, inl, inr,
  ◌==◌, arith,
}
use mpi_to_openshmem.RangeServer.Queue.{
  WorkItem, WorkQueue, Cells, store, link_head, range_server_add_work, unlink_tail, get_work,
}

abbrev pub first : List ℕ → ℕ
first [] = 0
first (a ∷ es) = a

abbrev pub last : List ℕ → ℕ
last [] = 0
last (a ∷ []) = a
last (a ∷ b ∷ es) = last (b ∷ es)

abbrev pub Apart : ℕ → List ℕ → Type 0
Apart a [] = Unit
Apart a (b ∷ es) = (a ≢ b) × Apart a es

pub not_null : (a : ℕ) → a ≢ 0 → (a == 0) ≡ false
not_null a nz = grind arith

Apart-last : (a b : ℕ) (es : List ℕ) → Apart a (b ∷ es) → a ≢ last (b ∷ es)
Apart-last a b [] (ne, _) = ne
Apart-last a b (c ∷ es) (_, apart) = Apart-last a c es apart

pub Apart-snoc : (a x : ℕ) (es : List ℕ) → Apart a es → a ≢ x → Apart a (es ++ x ∷ [])
Apart-snoc a x [] apart ne = (ne, tt)
Apart-snoc a x (b ∷ es) (a_b, apart) ne = (a_b, Apart-snoc a x es apart ne)

last-snoc : (x : ℕ) (es : List ℕ) → last (es ++ x ∷ []) ≡ x
last-snoc x [] = refl
last-snoc x (a ∷ []) = refl
last-snoc x (a ∷ b ∷ es) = last-snoc x (b ∷ es)

module _ {A : Type 0} where
  -- Each item's `prev` is the one after it in the list, and its `next` the one before it, `n` at first.
  abbrev pub Chain : Cells A → ℕ → List ℕ → Type 0
  Chain h n [] = Unit
  Chain h n (a ∷ es) =
      ((m : A) × (h a ≡ some (record { message = m; next = n; prev = first es })))
      × (a ≢ 0)
      × Apart a es
      × Chain h a es

  pub record Represents (h : Cells A) (q : WorkQueue) (es : List ℕ) : Type 0 where
    pub chain : Chain h 0 es
    pub at_head : q.head ≡ last es
    pub at_tail : q.tail ≡ first es

  store_self : (h : Cells A) (a : ℕ) (i : WorkItem A) → store h a i a ≡ some i
  unfolding store
  store_self h a i = ground arith

  store_ne : (h : Cells A) (a : ℕ) (i : WorkItem A) (c : ℕ) → a ≢ c → store h a i c ≡ h c
  unfolding store
  store_ne h a i c ne = ground arith

  pub Chain-store :
      (h : Cells A) (a : ℕ) (i : WorkItem A) (n : ℕ) (es : List ℕ)
      → Apart a es
      → Chain h n es
      → Chain (store h a i) n es
  Chain-store h a i n [] apart chain = tt
  Chain-store h a i n (b ∷ es) (ne, apart) ((m, e), nz, apart', chain) =
      ((m, store_ne h a i b ne ∙ e), nz, apart', Chain-store h a i b es apart chain)

  some-inj : (i j : WorkItem A) → some i ≡ some j → i ≡ j
  some-inj i j e = cc

  -- Every item is still there, with its message.
  abbrev pub Preserved : Cells A → Cells A → Type 0
  Preserved h h' =
      (c : ℕ) (item : WorkItem A)
      → h c ≡ some item
      → (item' : WorkItem A) × (h' c ≡ some item') × (item'.message ≡ item.message)

  Preserved-trans : (h h' h2 : Cells A) → Preserved h h' → Preserved h' h2 → Preserved h h2
  Preserved-trans h h' h2 p p' c item e =
      let (item', e', m') = p c item e in
      let (item2, e2, m2) = p' c item' e' in (item2, e2, m2 ∙ m')

  Preserved-store :
      (h : Cells A) (a : ℕ) (i i' : WorkItem A)
      → h a ≡ some i
      → i'.message ≡ i.message
      → Preserved h (store h a i')
  unfolding store
  Preserved-store h a i i' there same c item e = elim (Bool-cases (c == a)) [
    | inl here ↦
        let at : c ≡ a = ground (arith, here) in
        let found : item ≡ i = some-inj item i (sym e ∙ ap h at ∙ there) in
        (i', rw here refl, same ∙ ap (λ (x : WorkItem A). x.message) (sym found))
    | inr apart ↦ (item, rw apart e, refl)
  ]

  pub get_work_lem :
      (h : Cells A) (q : WorkQueue) (a : ℕ) (es : List ℕ)
      → Represents h q (a ∷ es)
      → (h' : Cells A) × (q' : WorkQueue) × (get_work h q ≡ some (h', q', a))
        × Represents h' q' es
        × Preserved h h'
        × Apart a es
  unfolding get_work unlink_tail
  get_work_lem h q a [] v =
      let ((m, e), nz, _, _) = v.chain in
      let there = not_null a nz in
      let taken : WorkItem A = record { message = m; next = 0; prev = 0 } in
      let emptied : WorkQueue = record { head = 0; tail = 0 } in
      (
        store h a taken,
        emptied,
        rw (v.at_tail, there, e, get_work) (ap (λ t. some (store h t taken, emptied, t)) v.at_tail),
        record { chain = tt; at_head = refl; at_tail = refl },
        Preserved-store h a _ taken e refl,
        tt,
      )
  get_work_lem h q a (b ∷ es) v =
      let ((m, e), nz, (a_b, apart), ((mb, eb), nzb, apartb, chain)) = v.chain in
      let there = not_null a nz in
      let behind = not_null b nzb in
      let before : WorkItem A = record { message = mb; next = 0; prev = first es } in
      let taken : WorkItem A = record { message = m; next = 0; prev = 0 } in
      let h1 = store h b before in
      let left : WorkQueue = record { head = q.head; tail = b } in
      (
        store h1 a taken,
        left,
        rw (v.at_tail, there, e, behind, eb, get_work)
            (ap (λ t. some (store h1 t taken, left, t)) v.at_tail),
        record {
          chain = (
            (mb, store_ne h1 a taken b a_b ∙ store_self h b before),
            nzb,
            apartb,
            Chain-store h1 a taken b es apart (Chain-store h b before b es apartb chain),
          );
          at_head = v.at_head;
          at_tail = refl;
        },
        Preserved-trans h h1 (store h1 a taken) (Preserved-store h b _ before eb refl)
            (Preserved-store h1 a _ taken (store_ne h b before a (λ p. a_b (sym p)) ∙ e) refl),
        (a_b, apart),
      )

  -- Of a well-formed queue that is not empty, get_work takes the oldest item, and the queue of the
  -- others is well-formed, its links both ways included.
  pub get_work-Represents :
      (h : Cells A) (q : WorkQueue) (a : ℕ) (es : List ℕ)
      → Represents h q (a ∷ es)
      → (h' : Cells A) × (q' : WorkQueue) × (get_work h q ≡ some (h', q', a)) × Represents h' q' es
  get_work-Represents h q a es v =
      let (h', q', e, v', _, _) = get_work_lem h q a es v in (h', q', e, v')

  pub get_work_empty :
      (h : Cells A) (q : WorkQueue) → Represents h q [] → get_work h q ≡ some (h, q, 0)
  unfolding get_work
  get_work_empty h q v = rw (v.at_tail, get_work) refl

  -- What adding `x` behind the list does to the cells.
  pub record Added (h h' : Cells A) (x : ℕ) (m : A) (l : ℕ) : Type 0 where
    pub new : h' x ≡ some (record { message = m; next = l; prev = 0 })
    pub old :
        (m' : A) (n p : ℕ)
        → h l ≡ some (record { message = m'; next = n; prev = p })
        → h' l ≡ some (record { message = m'; next = n; prev = x })
    pub kept : (c : ℕ) → c ≢ x → c ≢ l → h' c ≡ h c

  Chain-snoc :
      (h h' : Cells A) (x : ℕ) (m : A) (n a : ℕ) (es : List ℕ)
      → Chain h n (a ∷ es)
      → Apart x (a ∷ es)
      → x ≢ 0
      → Added h h' x m (last (a ∷ es))
      → Chain h' n (a ∷ es ++ x ∷ [])
  Chain-snoc h h' x m n a [] ((ma, e), nz, _, _) (x_a, _) nzx ad =
      ((ma, ad.old ma n 0 e), nz, (λ e. x_a (sym e), tt), ((m, ad.new), nzx, tt, tt))
  Chain-snoc h h' x m n a (b ∷ es) ((ma, e), nz, apart, chain) (x_a, x_es) nzx ad = (
    (ma, ad.kept a (λ e. x_a (sym e)) (Apart-last a b es apart) ∙ e),
    nz,
    Apart-snoc a x (b ∷ es) apart (λ e. x_a (sym e)),
    Chain-snoc h h' x m a b es chain x_es nzx ad,
  )

  Chain-last :
      (h : Cells A) (n a : ℕ) (es : List ℕ)
      → Chain h n (a ∷ es)
      → (it : WorkItem A) × (h (last (a ∷ es)) ≡ some it) × (last (a ∷ es) ≢ 0)
  Chain-last h n a [] ((m, e), nz, _, _) = (_, e, nz)
  Chain-last h n a (b ∷ es) (_, _, _, chain) = Chain-last h a b es chain

  -- the cells and queue, where `t` is the old head
  abbrev with_head : Cells A → ℕ → A → WorkItem A → WorkQueue → ℕ → Option (Cells A × WorkQueue)
  with_head h1 x m linked q' t =
      some (store (store h1 t linked) x (record { message = m; next = t; prev = 0 }), q')

  pub add_work_lem :
      (h : Cells A) (q : WorkQueue) (x : ℕ) (item : WorkItem A) (es : List ℕ)
      → Represents h q es
      → h x ≡ some item
      → x ≢ 0
      → Apart x es
      → (h' : Cells A) × (q' : WorkQueue) × (range_server_add_work h q x ≡ some (h', q'))
        × Represents h' q' (es ++ x ∷ [])
        × Preserved h h'
  unfolding range_server_add_work link_head
  add_work_lem h q x item [] v e nz apart =
      let new : WorkItem A = record { message = item.message; next = 0; prev = 0 } in
      (
        store h x new,
        record { head = x; tail = x },
        rw (e, v.at_head, range_server_add_work) refl,
        record {
          chain = ((item.message, store_self h x new), nz, tt, tt);
          at_head = refl;
          at_tail = refl;
        },
        Preserved-store h x item new e refl,
      )
  add_work_lem h q x item (a ∷ es) v e nz apart =
      let l = last (a ∷ es) in
      let (it, found, l_nz) = Chain-last h 0 a es v.chain in
      let x_l = Apart-last x a es apart in
      let cleared : WorkItem A = record { message = item.message; next = 0; prev = 0 } in
      let new : WorkItem A = record { message = item.message; next = l; prev = 0 } in
      let linked : WorkItem A = record { message = it.message; next = it.next; prev = x } in
      let h1 = store h x cleared in
      let h2 = store h1 l linked in
      let here = store_ne h x cleared l x_l ∙ found in
      let q' : WorkQueue = record { head = x; tail = q.tail } in
      (
        store h2 x new,
        q',
        rw (e, v.at_head, not_null l l_nz, here, range_server_add_work, link_head)
            (ap (with_head h1 x item.message linked q') v.at_head),
        record {
          chain = Chain-snoc h (store h2 x new) x item.message 0 a es v.chain apart nz (record {
            new = store_self h2 x new;
            old = λ m' n p f.
                store_ne h2 x new l x_l
                ∙ store_self h1 l linked
                ∙ ap
                    (λ (i : WorkItem A).
                      some (record { message = i.message; next = i.next; prev = x }))
                    (some-inj it (record { message = m'; next = n; prev = p }) (sym found ∙ f));
            kept = λ c c_x c_l.
                store_ne h2 x new c (λ e. c_x (sym e))
                ∙ store_ne h1 l linked c (λ e. c_l (sym e))
                ∙ store_ne h x cleared c (λ e. c_x (sym e));
          });
          at_head = sym (last-snoc x (a ∷ es));
          at_tail = v.at_tail;
        },
        Preserved-trans h h1 (store h2 x new) (Preserved-store h x item cleared e refl) (
            Preserved-trans h1 h2 (store h2 x new) (Preserved-store h1 l it linked here refl) (
              Preserved-store h2 x cleared new
                (store_ne h1 l linked x (λ p. x_l (sym p)) ∙ store_self h x cleared) refl)),
      )

  -- On a well-formed queue, range_server_add_work of an item that is not in it and whose address
  -- is not NULL makes it the last to be taken, and the queue is well-formed, its links both ways
  -- included.
  pub add_work-Represents :
      (h : Cells A) (q : WorkQueue) (x : ℕ) (item : WorkItem A) (es : List ℕ)
      → Represents h q es
      → h x ≡ some item
      → x ≢ 0
      → Apart x es
      → (h' : Cells A) × (q' : WorkQueue) × (range_server_add_work h q x ≡ some (h', q'))
        × Represents h' q' (es ++ x ∷ [])
  add_work-Represents h q x item es v e nz apart =
      let (h', q', e', v', _) = add_work_lem h q x item es v e nz apart in (h', q', e', v')
