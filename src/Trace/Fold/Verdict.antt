-- ===== src/Trace/Fold/Verdict.antt =====
-- What the state behind the fold says at an instant.
use network_enricher.Prelude.{
  some, ◌+◌, ◌≤◌, ◌<◌, ◌≡◌, ◌≢◌, ◌⊎◌, inl, inr, refl, sym, ap, ◌∙◌, List, [], ◌∷◌, Bool, Bool-cases,
  true, false, arith, Text, Time, Duration, after,
}
use mathlib.Core.Bool.{false≢true}
use network_enricher.Prelude.Sets.{Eq, member, eq_refl, Distinct}
use network_enricher.Trace.Fold.Batch.{Stands, Means, Stands-iff}
use network_enricher.Trace.Fold.{Rows, State}

module _ {R C K : Type 0} ⦃ec : Eq C⦄ ⦃ek : Eq K⦄ (rows : Rows R C K) (t : Time)
    (horizon : Duration) where
  -- Candidate `c` stands after the rows `M`, and its horizon covers the instant `t`.
  pub record InForce (M : R → Type 0) (c : C) : Type 0 where
    pub stands : Stands rows M c
    pub covers : t ≤ rows.time stands.event + horizon

  -- Nothing is in force, or one candidate, or several.
  pub data Verdict (M : R → Type 0) (st : State C) : Type 0 where
    unknown :
        (st.cands ≡ []) ⊎ (after t st.deadline ≡ true) → ((c : C) → ¬ InForce M c) → Verdict M st
    one :
        (c : C)
        → st.cands ≡ c ∷ []
        → after t st.deadline ≡ false
        → InForce M c
        → ((d : C) → InForce M d → d ≡ c)
        → Verdict M st
    several :
        (c d : C) (cs : List C)
        → st.cands ≡ c ∷ d ∷ cs
        → after t st.deadline ≡ false
        → InForce M c
        → InForce M d
        → c ≢ d
        → Verdict M st

  -- A result of the two tests behind the loop, for an order-free reading of the rows.
  abbrev pub Answers : (R → Type 0) → (C → Text) → Text × Bool → Type 0
  Answers M value r =
      ((r ≡ ([], false)) × ((c : C) → ¬ InForce M c))
      ⊎ ((c : C) × (r ≡ (value c, false)) × InForce M c × ((d : C) → InForce M d → d ≡ c))
      ⊎ ((c d : C) × (r ≡ ([], true)) × InForce M c × InForce M d × (c ≢ d))

  pub Means-Verdict : (M : R → Type 0) (st : State C) → Means rows horizon M st → Verdict M st
  unfolding member
  Means-Verdict M st h = elim (Bool-cases (after t st.deadline)) [
    | inl late ↦ unknown (inr late) (λ c f. absurd (ground (arith, h.until c f.stands, f.covers)))
    | inr live ↦ go st.cands refl live
  ]
    where
      in_force : (c : C) → after t st.deadline ≡ false → member c st.cands ≡ true → InForce M c
      in_force c live k = record {
        stands = h.sound c k;
        covers = ground (arith, h.until c (h.sound c k));
      }

      go : (cs : List C) → st.cands ≡ cs → after t st.deadline ≡ false → Verdict M st
      go [] e live = unknown (inl e) (λ c f.
          let m : member c [] ≡ true = rw e at (h.complete c f.stands) in absurd (false≢true m))
      go (c ∷ []) e live = one c e live (in_force c live (rw (e, member, eq_refl c))) (λ d f.
          let m : member d (c ∷ []) ≡ true = rw e at (h.complete d f.stands) in
          ground (arith, m, ec.eq_iff d c))
      go (c ∷ d ∷ cs) e live =
          several c d cs e live (in_force c live (rw (e, member, eq_refl c)))
            (in_force d live (rw e (ground (arith, eq_refl d))))
            (λ p.
              let q : Distinct (c ∷ d ∷ cs) = rw e at h.distinct in
              ground (arith, q.0, ec.eq_iff c d))

  InForce-iff :
      (M N : R → Type 0)
      → ((e : R) → M e → N e)
      → ((e : R) → N e → M e)
      → (c : C) → InForce M c
      → InForce N c
  InForce-iff M N to from c f =
      unfold Stands-iff in
      record { stands = Stands-iff rows M N to from c f.stands; covers = f.covers }

  -- Two sets of rows with the same candidates in force have one answer.
  Answers-agree :
      (M N : R → Type 0) (value : C → Text) (r q : Text × Bool)
      → ((c : C) → InForce M c → InForce N c)
      → ((c : C) → InForce N c → InForce M c)
      → Answers M value r
      → Answers N value q
      → r ≡ q
  Answers-agree M N value r q to from (inl (e, nil)) (inl (e', nil')) = e ∙ sym e'
  Answers-agree M N value r q to from (inl (e, nil)) (inr (inl (c, e', f, u))) =
      absurd (nil c (from c f))
  Answers-agree M N value r q to from (inl (e, nil)) (inr (inr (c, d, e', f, g, n))) =
      absurd (nil c (from c f))
  Answers-agree M N value r q to from (inr (inl (c, e, f, u))) (inl (e', nil')) =
      absurd (nil' c (to c f))
  Answers-agree M N value r q to from (inr (inl (c, e, f, u))) (inr (inl (d, e', g, v))) =
      e ∙ ap (λ x. (value x, false)) (v c (to c f)) ∙ sym e'
  Answers-agree M N value r q to from (inr (inl (c, e, f, u))) (inr (inr (d, d', e', g, g', n))) =
      absurd (n (u d (from d g) ∙ sym (u d' (from d' g'))))
  Answers-agree M N value r q to from (inr (inr (c, d, e, f, g, n))) (inl (e', nil')) =
      absurd (nil' c (to c f))
  Answers-agree M N value r q to from (inr (inr (c, d, e, f, g, n))) (inr (inl (d', e', g', v))) =
      absurd (n (v c (to c f) ∙ sym (v d (to d g))))
  Answers-agree M N value r q to from (inr (inr (c, d, e, f, g, n)))
        (inr (inr (c', d', e', f', g', n'))) =
      e ∙ sym e'

  -- Two sets of rows that hold the same rows have one answer.
  pub Answers-unique :
      (M N : R → Type 0) (value : C → Text) (r q : Text × Bool)
      → ((e : R) → M e → N e)
      → ((e : R) → N e → M e)
      → Answers M value r
      → Answers N value q
      → r ≡ q
  Answers-unique M N value r q to from =
      Answers-agree M N value r q (InForce-iff M N to from) (InForce-iff N M from to)

  -- The rows `N` are those of `M` that are no older than the horizon before the instant: no other
  -- row has a say.
  module _ (M N : R → Type 0) (inside : (e : R) → N e → M e)
      (recent : (e : R) → M e → t ≤ rows.time e + horizon → N e) where
    InForce-recent : (c : C) → InForce M c → InForce N c
    InForce-recent c f = record {
      stands = record {
        event = f.stands.event;
        recorded = recent f.stands.event f.stands.recorded f.covers;
        is_open = f.stands.is_open;
        newest = λ e c' n o. f.stands.newest e c' (inside e n) o;
        unclosed = λ e n o. f.stands.unclosed e (inside e n) o;
      };
      covers = f.covers;
    }

    InForce-widen : (c : C) → InForce N c → InForce M c
    InForce-widen c f = record {
      stands = record {
        event = f.stands.event;
        recorded = inside f.stands.event f.stands.recorded;
        is_open = f.stands.is_open;
        newest = λ e c' m o. newest e c' m o (Bool-cases (after t (rows.time e + horizon)));
        unclosed = λ e m o. unclosed e m o (Bool-cases (after t (rows.time e + horizon)));
      };
      covers = f.covers;
    }
      where
        newest :
            (e : R) (c' : C)
            → M e
            → rows.opens e ≡ some c'
            → (after t (rows.time e + horizon) ≡ true) ⊎ (after t (rows.time e + horizon) ≡ false)
            → rows.time e ≤ rows.time f.stands.event
        newest e c' m o (inl old) = let live = f.covers in ground (arith, live)
        newest e c' m o (inr new) = f.stands.newest e c' (recent e m (ground arith)) o

        unclosed :
            (e : R)
            → M e
            → rows.closes e ≡ some (rows.entity c)
            → (after t (rows.time e + horizon) ≡ true) ⊎ (after t (rows.time e + horizon) ≡ false)
            → rows.time e < rows.time f.stands.event
        unclosed e m o (inl old) = let live = f.covers in ground (arith, live)
        unclosed e m o (inr new) = f.stands.unclosed e (recent e m (ground arith)) o

    pub Answers-recent :
        (value : C → Text) (r q : Text × Bool) → Answers M value r → Answers N value q → r ≡ q
    Answers-recent value r q = Answers-agree M N value r q InForce-recent InForce-widen
