-- ===== src/Trace/Fold/Batch.antt =====
-- One round of the batch fold, against what a set of rows says without any order.
use network_enricher.Prelude.{
  ◌+◌, ◌≤◌, ◌<◌, ◌≡◌, ◌⊎◌, inl, inr, refl, sym, ap, ◌∙◌, List, [], ◌∷◌, Bool, Bool-cases, true,
  false, not, some, arith, either, or_regroup, or_regroup_back, Any, Time, Duration,
}
use mathlib.Core.Bool.{false≢true}
use network_enricher.Prelude.Sets.{
  Eq, In, All-mem, All-All-mem, member, collect_sound, collect_complete, collect-Distinct,
  member-filter, filter-Distinct, Distinct, filter, eq_refl,
}
use network_enricher.Trace.Fold.Sorting.{
  AreBatches, batches-mem, batches-AreBatches, sort_stable-IsSorted,
}
use network_enricher.Trace.Fold.{
  Rows, State, open_set, close_set, reopen, apply_batch, batch_time, fold_batches, fold_rows,
  batches, sort_stable,
}

module _ {R C K : Type 0} ⦃ec : Eq C⦄ ⦃ek : Eq K⦄ (rows : Rows R C K) where
  open rows use {time, opens, closes, entity}

  -- Candidate `c` stands after the rows `M`: one of the newest opening rows is of `c`, and every
  -- row that closes the entity of `c` is older.
  pub record Stands (M : R → Type 0) (c : C) : Type 0 where
    pub event : R
    pub recorded : M event
    pub is_open : opens event ≡ some c
    pub newest : (e : R) (c' : C) → M e → opens e ≡ some c' → time e ≤ time event
    pub unclosed : (e : R) → M e → closes e ≡ some (entity c) → time e < time event

  -- The state of the fold says exactly which candidates stand, and until when.
  pub record Means (horizon : Duration) (M : R → Type 0) (st : State C) : Type 0 where
    pub sound : (c : C) → member c st.cands ≡ true → Stands M c
    pub complete : (c : C) → Stands M c → member c st.cands ≡ true
    pub until : (c : C) (s : Stands M c) → st.deadline ≡ time s.event + horizon
    pub distinct : Distinct st.cands

  -- `b` is a batch of the second `t` that comes after the rows `M`.
  module _ (horizon : Duration) (M : R → Type 0) (b : List R) (t : Time)
      (past : (e : R) → M e → time e < t) (same : (e : R) → In e b → time e ≡ t) where
    abbrev Now : R → Type 0
    Now e = M e ⊎ In e b

    closed_now : C → Bool
    closed_now c = member (entity c) (close_set rows b)

    closed_not_stands : (c : C) → closed_now c ≡ true → ¬ Stands Now c
    unfolding closed_now close_set
    closed_not_stands c k s =
        let (e, i, o) = collect_sound closes (entity c) b k in
        let late = s.unclosed e (inr i) o in absurd (omega (arith, same e i, at_most s.recorded))
      where
        at_most : {e : R} → Now e → time e ≤ t
        at_most (inl m) = omega (arith, past _ m)
        at_most (inr i) = omega (arith, same _ i)

    closes_at : (c : C) (e : R) → In e b → closes e ≡ some (entity c) → closed_now c ≡ true
    unfolding closed_now close_set
    closes_at c e i o = collect_complete closes (entity c) e b i o

    opens_at : (c : C) (e : R) → In e b → opens e ≡ some c → member c (open_set rows b) ≡ true
    unfolding open_set
    opens_at c e i o = collect_complete opens c e b i o

    not_opens : open_set rows b ≡ [] → (c : C) (e : R) → In e b → opens e ≡ some c → ⊥
    not_opens none_open c e i o =
        let h : member c [] ≡ true = rw none_open at (opens_at c e i o) in
        absurd (unfold member in ground arith)

    -- No row of the batch opens: the candidates of before, less the closed ones.
    keep_stands : open_set rows b ≡ [] → (c : C) → closed_now c ≡ false → Stands M c → Stands Now c
    keep_stands none_open c k s = record {
      event = s.event;
      recorded = inl s.recorded;
      is_open = s.is_open;
      newest = λ e c' n o.
          either (λ m. s.newest e c' m o) (λ i. absurd (not_opens none_open c' e i o)) n;
      unclosed = λ e n o.
          either (λ m. s.unclosed e m o) (λ i. absurd (false≢true (sym k ∙ closes_at c e i o))) n;
    }

    stands_kept : open_set rows b ≡ [] → (c : C) → Stands Now c → Stands M c
    stands_kept none_open c s = record {
      event = s.event;
      recorded =
          either (λ m. m) (λ i. absurd (not_opens none_open c s.event i s.is_open)) s.recorded;
      is_open = s.is_open;
      newest = λ e c' m o. s.newest e c' (inl m) o;
      unclosed = λ e m o. s.unclosed e (inl m) o;
    }

    -- Some row opens: the candidates of the batch, less the closed ones.
    new_stands : (c : C) → closed_now c ≡ false → member c (open_set rows b) ≡ true → Stands Now c
    unfolding open_set
    new_stands c k h =
        let (e0, i0, o0) = collect_sound opens c b h in
        record {
          event = e0;
          recorded = inr i0;
          is_open = o0;
          newest = λ e c' n o.
              either (λ m. omega (arith, past e m, same e0 i0))
                (λ i. omega (arith, same e i, same e0 i0)) n;
          unclosed = λ e n o.
              either (λ m. omega (arith, past e m, same e0 i0))
                (λ i. absurd (false≢true (sym k ∙ closes_at c e i o))) n;
        }

    stands_new :
        (c d : C)
        → member d (open_set rows b) ≡ true
        → Stands Now c
        → member c (open_set rows b) ≡ true
    unfolding open_set
    stands_new c d h s =
        let (e1, i1, o1) = collect_sound opens d b h in
        let newer = s.newest e1 d (inr i1) o1 in
        either (λ m. absurd (omega (arith, newer, same e1 i1, past s.event m)))
          (λ i. collect_complete opens c s.event b i s.is_open) s.recorded

    stands_time :
        (c d : C) → member d (open_set rows b) ≡ true → (s : Stands Now c) → time s.event ≡ t
    unfolding open_set
    stands_time c d h s =
        let (e1, i1, o1) = collect_sound opens d b h in
        let newer = s.newest e1 d (inr i1) o1 in
        either (λ m. absurd (omega (arith, newer, same e1 i1, past s.event m)))
          (λ i. same s.event i) s.recorded

    -- A candidate of a state that was filtered by the closed ones.
    filtered :
        (cs : List C) (c : C)
        → member c (filter (λ d. not (closed_now d)) cs) ≡ true
        → (member c cs ≡ true) × (closed_now c ≡ false)
    filtered cs c h = ground (arith, member-filter (λ d. not (closed_now d)) c cs)

    unfiltered :
        (cs : List C) (c : C)
        → member c cs ≡ true
        → Stands Now c
        → member c (filter (λ d. not (closed_now d)) cs) ≡ true
    unfiltered cs c h s = elim (Bool-cases (closed_now c)) [
      | inl k ↦ absurd (closed_not_stands c k s)
      | inr k ↦ rw (member-filter (λ d. not (closed_now d)) c cs, h, k)
    ]

    kept_Means :
        (st : State C)
        → open_set rows b ≡ []
        → Means horizon M st
        → Means horizon Now (record st { cands = filter (λ c. not (closed_now c)) st.cands })
    unfolding stands_kept
    kept_Means st none_open h = record {
      sound = λ c k. let (m, o) = filtered st.cands c k in keep_stands none_open c o (h.sound c m);
      complete = λ c s. unfiltered st.cands c (h.complete c (stands_kept none_open c s)) s;
      until = λ c s. h.until c (stands_kept none_open c s);
      distinct = filter-Distinct (λ c. not (closed_now c)) st.cands h.distinct;
    }

    new_Means :
        (d : C)
        → member d (open_set rows b) ≡ true
        → Means horizon Now (record {
          cands = filter (λ c. not (closed_now c)) (open_set rows b);
          deadline = t + horizon;
        })
    new_Means d o = record {
      sound = λ c k. let (m, n) = filtered (open_set rows b) c k in new_stands c n m;
      complete = λ c s. unfiltered (open_set rows b) c (stands_new c d o s) s;
      until = λ c s. rw (stands_time c d o s);
      distinct =
          filter-Distinct (λ c. not (closed_now c)) (open_set rows b)
            (unfold open_set in collect-Distinct opens b);
    }

    apply_batch-Means :
        (st : State C)
        → batch_time rows b ≡ t
        → Means horizon M st
        → Means horizon Now (apply_batch rows horizon st b)
    unfolding apply_batch closed_now reopen
    apply_batch-Means st at h = go (open_set rows b) refl
      where
        go : (o : List C) → open_set rows b ≡ o → Means horizon Now (apply_batch rows horizon st b)
        go [] e = rw (e, reopen) (kept_Means st e h)
        go (d ∷ ds) e =
            let here : member d (open_set rows b) ≡ true = rw e (unfold member in rw (eq_refl d)) in
            rw (e, reopen, at) (rw e at (new_Means d here))

  unfoldable pub Stands-iff :
      (M N : R → Type 0)
      → ((e : R) → M e → N e)
      → ((e : R) → N e → M e)
      → (c : C) → Stands M c
      → Stands N c
  Stands-iff M N to from c s = record {
    event = s.event;
    recorded = to s.event s.recorded;
    is_open = s.is_open;
    newest = λ e c' n o. s.newest e c' (from e n) o;
    unclosed = λ e n o. s.unclosed e (from e n) o;
  }

  pub Means-iff :
      (horizon : Duration) (M N : R → Type 0) (st : State C)
      → ((e : R) → M e → N e)
      → ((e : R) → N e → M e)
      → Means horizon M st
      → Means horizon N st
  unfolding Stands-iff
  Means-iff horizon M N st to from h = record {
    sound = λ c k. Stands-iff M N to from c (h.sound c k);
    complete = λ c s. h.complete c (Stands-iff N M from to c s);
    until = λ c s. h.until c (Stands-iff N M from to c s);
    distinct = h.distinct;
  }

  -- The fold over batches that all come after the rows `M`.
  pub fold_batches-Means :
      (horizon : Duration) (bs : List (List R)) (M : R → Type 0) (st : State C)
      → AreBatches rows bs
      → ((e x : R) → M e → Any (In x) bs → time e < time x)
      → Means horizon M st
      → Means horizon (λ e. M e ⊎ Any (In e) bs) (fold_batches rows horizon st bs)
  unfolding fold_batches
  fold_batches-Means horizon [] M st a past h =
      Means-iff horizon M (λ e. M e ⊎ ⊥) st (λ e m. inl m) (λ e. either (λ m. m) (λ f. absurd f)) h
  fold_batches-Means horizon ([] ∷ bs) M st a past h = absurd a
  fold_batches-Means horizon ((x ∷ b) ∷ bs) M st (same, later, a) past h =
      let same' : (e : R) → In e (x ∷ b) → time e ≡ time x =
        λ e. either (λ p. ap time p) (λ i. All-mem (λ y. time y ≡ time x) b same e i) in
      let M' : R → Type 0 = λ e. M e ⊎ In e (x ∷ b) in
      let st' = apply_batch rows horizon st (x ∷ b) in
      let first : Means horizon M' st' =
        apply_batch-Means horizon M (x ∷ b) (time x) (λ e m. past e x m (inl (inl refl))) same' st
          (unfold batch_time in refl) h in
      Means-iff horizon (λ e. M' e ⊎ Any (In e) bs) (λ e. M e ⊎ Any (In e) ((x ∷ b) ∷ bs))
        (fold_batches rows horizon st' bs) (λ e. or_regroup) (λ e. or_regroup_back)
        (fold_batches-Means horizon bs M' st' a
          (λ e y m i.
            either (λ n. past e y n (inr i))
              (λ n. omega (arith, same' e n, All-All-mem (λ z. time x < time z) bs later y i)) m)
          first)

  -- The state behind the loop, for any list of rows.
  pub fold_rows-Means :
      (horizon : Duration) (f : List R) → Means horizon (λ e. In e f) (fold_rows rows horizon f)
  unfolding fold_rows
  fold_rows-Means horizon f =
      let bs = batches rows (sort_stable rows f) in
      let start : State C = record { cands = []; deadline = 0 } in
      let none_yet : Means horizon (λ e. ⊥) start = record {
        sound = λ c h. absurd (unfold member in ground arith);
        complete = λ c s. absurd s.recorded;
        until = λ c s. absurd s.recorded;
        distinct = tt;
      } in
      Means-iff horizon (λ e. ⊥ ⊎ Any (In e) bs) (λ e. In e f) (fold_batches rows horizon start bs)
        (λ e. either (λ n. absurd n) (λ i. (batches-mem rows e f).0 i))
        (λ e i. inr ((batches-mem rows e f).1 i))
        (fold_batches-Means horizon bs (λ e. ⊥) start
          (batches-AreBatches rows (sort_stable rows f) (sort_stable-IsSorted rows f))
          (λ e x n i. absurd n) none_yet)
