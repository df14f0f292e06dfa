-- ===== src/Trace/Fold/Sorting.antt =====
-- The rows that reach the fold: sorted, cut into batches of one time each, none lost or made up.
use network_enricher.Prelude.{
  ◌≤◌, ◌<◌, ◌≡◌, ◌∙◌, ◌⊎◌, ◌↔◌, inl, inr, List, [], ◌∷◌, Bool-cases, arith, All, All-map, Any,
  or_regroup, or_regroup_back, or_drop, or_add, Time, ltb, ltb→lt, ◌==◌, ==_iff,
}
use network_enricher.Prelude.Sets.{Eq, In}
use network_enricher.Trace.Fold.{Rows, insert_sorted, sort_stable, join_batch, batches}

module _ {R C K : Type 0} ⦃ec : Eq C⦄ ⦃ek : Eq K⦄ (rows : Rows R C K) where
  open rows use {time}

  abbrev pub IsSorted : List R → Type 0
  IsSorted [] = Unit
  IsSorted (x ∷ xs) = All (λ y. time x ≤ time y) xs × IsSorted xs

  All-insert_sorted :
      (P : R → Type 0) (e : R) (xs : List R) → P e → All P xs → All P (insert_sorted rows e xs)
  unfolding insert_sorted
  All-insert_sorted P e [] p h = (p, tt)
  All-insert_sorted P e (x ∷ xs) p h = elim (Bool-cases (ltb (time x) (time e))) [
    | inl k ↦ rw k (h.0, All-insert_sorted P e xs p h.1)
    | inr k ↦ rw k (p, h)
  ]

  All-le_trans :
      (a b : Time) (xs : List R) → a ≤ b → All (λ y. b ≤ time y) xs → All (λ y. a ≤ time y) xs
  All-le_trans a b [] h k = tt
  All-le_trans a b (x ∷ xs) h k = (omega arith, All-le_trans a b xs h k.1)

  insert_sorted-IsSorted : (e : R) (xs : List R) → IsSorted xs → IsSorted (insert_sorted rows e xs)
  unfolding insert_sorted
  insert_sorted-IsSorted e [] s = (tt, tt)
  insert_sorted-IsSorted e (x ∷ xs) s = elim (Bool-cases (ltb (time x) (time e))) [
    | inl k ↦ rw k (
      All-insert_sorted (λ y. time x ≤ time y) e xs (omega (arith, ltb→lt _ _ k)) s.0,
      insert_sorted-IsSorted e xs s.1,
    )
    | inr k ↦
        let le : time e ≤ time x = ground arith in
        rw k ((le, All-le_trans (time e) (time x) xs le s.0), s)
  ]

  pub sort_stable-IsSorted : (es : List R) → IsSorted (sort_stable rows es)
  unfolding sort_stable
  sort_stable-IsSorted [] = tt
  sort_stable-IsSorted (e ∷ es) =
      insert_sorted-IsSorted e (sort_stable rows es) (sort_stable-IsSorted es)

  mem_of_insert_sorted : (a e : R) (xs : List R) → In a (insert_sorted rows e xs) → In a (e ∷ xs)
  unfolding insert_sorted
  mem_of_insert_sorted a e [] i = i
  mem_of_insert_sorted a e (x ∷ xs) i = elim (Bool-cases (ltb (time x) (time e))) [
    | inl k ↦ swap (mem_of_insert_sorted a e xs) (rw k at i)
    | inr k ↦ rw k at i
  ]
    where
      swap :
          (In a (insert_sorted rows e xs) → In a (e ∷ xs))
          → (a ≡ x) ⊎ In a (insert_sorted rows e xs)
          → (a ≡ e) ⊎ ((a ≡ x) ⊎ In a xs)
      swap ih (inl p) = inr (inl p)
      swap ih (inr r) = elim (ih r) [ inl q ↦ inl q | inr q ↦ inr (inr q) ]

  insert_sorted_of_mem : (a e : R) (xs : List R) → In a (e ∷ xs) → In a (insert_sorted rows e xs)
  unfolding insert_sorted
  insert_sorted_of_mem a e [] i = i
  insert_sorted_of_mem a e (x ∷ xs) i = elim (Bool-cases (ltb (time x) (time e))) [
    | inl k ↦ rw k (swap (insert_sorted_of_mem a e xs) i)
    | inr k ↦ rw k i
  ]
    where
      swap :
          ((a ≡ e) ⊎ In a xs → In a (insert_sorted rows e xs))
          → (a ≡ e) ⊎ ((a ≡ x) ⊎ In a xs)
          → (a ≡ x) ⊎ In a (insert_sorted rows e xs)
      swap ih (inl p) = inr (ih (inl p))
      swap ih (inr (inl p)) = inl p
      swap ih (inr (inr r)) = inr (ih (inr r))

  pub mem_of_sort_stable : (a : R) (es : List R) → In a (sort_stable rows es) → In a es
  unfolding sort_stable
  mem_of_sort_stable a [] i = i
  mem_of_sort_stable a (e ∷ es) i = elim (mem_of_insert_sorted a e (sort_stable rows es) i) [
    | inl p ↦ inl p
    | inr r ↦ inr (mem_of_sort_stable a es r)
  ]

  pub sort_stable_of_mem : (a : R) (es : List R) → In a es → In a (sort_stable rows es)
  unfolding sort_stable
  sort_stable_of_mem a (e ∷ es) (inl p) = insert_sorted_of_mem a e (sort_stable rows es) (inl p)
  sort_stable_of_mem a (e ∷ es) (inr i) =
      insert_sorted_of_mem a e (sort_stable rows es) (inr (sort_stable_of_mem a es i))
  sort_stable_of_mem a [] i = i

  -- Batches of one time each, in rising order of time.
  abbrev pub AreBatches : List (List R) → Type 0
  AreBatches [] = Unit
  AreBatches ([] ∷ bs) = ⊥
  AreBatches ((e ∷ b) ∷ bs) =
      All (λ x. time x ≡ time e) b × All (All (λ x. time e < time x)) bs × AreBatches bs

  join_batch-AreBatches :
      (e : R) (bs : List (List R))
      → All (All (λ x. time e ≤ time x)) bs
      → AreBatches bs
      → AreBatches (join_batch rows e bs)
  unfolding join_batch
  join_batch-AreBatches e [] h a = (tt, tt, tt)
  join_batch-AreBatches e ([] ∷ bs) h a = absurd a
  join_batch-AreBatches e ((x ∷ b) ∷ bs) h (same, later, a) = elim (Bool-cases (time x == time e)) [
    | inl k ↦
        let q : time x ≡ time e = (==_iff _ _).0 k in
        rw k (
          (q, All-map (λ y p. p ∙ q) b same),
          All-map (λ c. All-map (λ y p. omega arith) c) bs later,
          a,
        )
    | inr k ↦
        let lt : time e < time x = ground arith in
        rw k (
          tt,
          (
            (lt, All-map (λ y p. omega arith) b same),
            All-map (λ c. All-map (λ y p. omega arith) c) bs later,
          ),
          (same, later, a),
        )
  ]

  mem_of_join_batch :
      (a e : R) (bs : List (List R)) → Any (In a) (join_batch rows e bs) → (a ≡ e) ⊎ Any (In a) bs
  unfolding join_batch
  mem_of_join_batch a e [] i = or_drop i
  mem_of_join_batch a e ([] ∷ bs) i = or_regroup i
  mem_of_join_batch a e ((x ∷ b) ∷ bs) i = elim (Bool-cases (time x == time e)) [
    | inl k ↦ or_regroup (rw k at i)
    | inr k ↦ or_drop (rw k at i)
  ]

  join_batch_of_mem :
      (a e : R) (bs : List (List R)) → (a ≡ e) ⊎ Any (In a) bs → Any (In a) (join_batch rows e bs)
  unfolding join_batch
  join_batch_of_mem a e [] i = or_add i
  join_batch_of_mem a e ([] ∷ bs) i = or_regroup_back i
  join_batch_of_mem a e ((x ∷ b) ∷ bs) i = elim (Bool-cases (time x == time e)) [
    | inl k ↦ rw k (or_regroup_back i)
    | inr k ↦ rw k (or_add i)
  ]

  mem_of_batches : (a : R) (es : List R) → Any (In a) (batches rows es) → In a es
  unfolding batches
  mem_of_batches a [] i = i
  mem_of_batches a (e ∷ es) i = elim (mem_of_join_batch a e (batches rows es) i) [
    | inl p ↦ inl p
    | inr r ↦ inr (mem_of_batches a es r)
  ]

  batches_of_mem : (a : R) (es : List R) → In a es → Any (In a) (batches rows es)
  unfolding batches
  batches_of_mem a [] i = i
  batches_of_mem a (e ∷ es) (inl p) = join_batch_of_mem a e (batches rows es) (inl p)
  batches_of_mem a (e ∷ es) (inr i) =
      join_batch_of_mem a e (batches rows es) (inr (batches_of_mem a es i))

  All-join_batch :
      (P : R → Type 0) (e : R) (bs : List (List R))
      → P e
      → All (All P) bs
      → All (All P) (join_batch rows e bs)
  unfolding join_batch
  All-join_batch P e [] p h = ((p, tt), tt)
  All-join_batch P e ([] ∷ bs) p h = ((p, tt), h.1)
  All-join_batch P e ((x ∷ b) ∷ bs) p h = elim (Bool-cases (time x == time e)) [
    | inl k ↦ rw k ((p, h.0), h.1)
    | inr k ↦ rw k ((p, tt), h)
  ]

  All-batches : (P : R → Type 0) (es : List R) → All P es → All (All P) (batches rows es)
  unfolding batches
  All-batches P [] h = tt
  All-batches P (e ∷ es) h = All-join_batch P e (batches rows es) h.0 (All-batches P es h.1)

  pub batches-AreBatches : (es : List R) → IsSorted es → AreBatches (batches rows es)
  unfolding batches
  batches-AreBatches [] s = tt
  batches-AreBatches (e ∷ es) (le, s) =
      join_batch-AreBatches e (batches rows es) (All-batches (λ x. time e ≤ time x) es le)
        (batches-AreBatches es s)

  -- The batches hold the rows that were given, and no other.
  pub batches-mem :
      (a : R) (es : List R) → Any (In a) (batches rows (sort_stable rows es)) ↔ In a es
  batches-mem a es = (
    λ i. mem_of_sort_stable a es (mem_of_batches a (sort_stable rows es) i),
    λ i. batches_of_mem a (sort_stable rows es) (sort_stable_of_mem a es i),
  )
