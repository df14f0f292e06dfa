-- ===== src/BatchWriter/Drain.antt =====
-- No row is lost between the buffer of batchwriter.go and ClickHouse, but malformed ones and the
-- oldest over the cap.
use network_enricher.Prelude.{
  ℕ, ◌+◌, ◌-◌, ◌≤◌, ◌<◌, ◌≡◌, refl, sym, ap, ◌∙◌, List, [], ◌++◌, Bool, Bool-cases, arith, length,
  take, length-append, length-drop, length-take, take-append-drop, Time, inl, inr,
}
use network_enricher.Prelude.Sets.{filter}
use network_enricher.BatchWriter.{
  Attempt, BatchWriter, Outcome, send_chunks, requeue_rows, is_held_back, drain,
}
use mathlib.Core.List.{append-nil, append_assoc}
use network_enricher.BatchWriter.Chunks.{
  filter-append, send_chunks_splits, send_chunks_ends, unsent_le, send_chunks_counted,
}

module _ {A : Type 0} (well_formed : A → Bool) where
  -- What a call of `drain` comes to.
  pub record DrainLedger (old arrivals : List A) (w w' : BatchWriter A) (delivered : List A)
      : Type 0 where
    pub dropped : List A
    pub splits :
        filter well_formed (old ++ arrivals)
        ≡ delivered ++ filter well_formed (dropped ++ w'.buffer)
    pub drops : length dropped ≤ length old + length arrivals - w.max_buffer
    -- each row is delivered, buffered, or one more on the counter of dropped rows
    pub conserved :
        length delivered + length w'.buffer + w'.rows_dropped
        ≡ length old + length arrivals + w.rows_dropped
    pub counted : length dropped + w.rows_dropped ≤ w'.rows_dropped
    pub full : 0 < length dropped → length w'.buffer ≡ w.max_buffer

  requeue_rows_lem :
      (w : BatchWriter A) (unsent : List A) (now : Time)
      → let over = length (unsent ++ w.buffer) - w.max_buffer in
        take over (unsent ++ w.buffer) ++ (requeue_rows well_formed w unsent now).buffer
        ≡ unsent ++ w.buffer
  unfolding requeue_rows
  requeue_rows_lem w unsent now = take-append-drop _ (unsent ++ w.buffer)

  requeue_rows-DrainLedger :
      (old arrivals delivered unsent : List A) (w wa : BatchWriter A) (now : Time)
      → filter well_formed old ≡ delivered ++ filter well_formed unsent
      → length unsent ≤ length old
      → wa.buffer ≡ arrivals
      → wa.max_buffer ≡ w.max_buffer
      → length delivered + length unsent + wa.rows_dropped ≡ length old + w.rows_dropped
      → w.rows_dropped ≤ wa.rows_dropped
      → DrainLedger old arrivals w (requeue_rows well_formed wa unsent now) delivered
  unfolding requeue_rows
  requeue_rows-DrainLedger old arrivals delivered unsent w wa now e l b c m g = record {
    dropped = take over queued;
    splits =
        filter-append well_formed old arrivals
        ∙ ap (λ x. x ++ filter well_formed arrivals) e
        ∙ append_assoc delivered (filter well_formed unsent) (filter well_formed arrivals)
        ∙ ap (λ x. delivered ++ x)
            (sym (filter-append well_formed unsent arrivals)
              ∙ ap (λ x. filter well_formed (unsent ++ x)) (sym b)
              ∙ ap (filter well_formed) (sym (requeue_rows_lem wa unsent now)));
    drops =
        let n : length arrivals ≡ length wa.buffer = ap length (sym b) in
        omega (arith, n, length-take over queued, length-append unsent wa.buffer);
    conserved =
        let n : length arrivals ≡ length wa.buffer = ap length (sym b) in
        omega (arith, n, length-drop over queued, length-append unsent wa.buffer);
    counted = omega (arith, length-take over queued);
    full = λ some_dropped. omega (arith, length-take over queued, length-drop over queued);
  }
    where
      queued : List A
      queued = unsent ++ wa.buffer

      over : ℕ
      over = length queued - wa.max_buffer

  all_sent-DrainLedger :
      (old arrivals delivered unsent : List A) (w w' : BatchWriter A)
      → filter well_formed old ≡ delivered ++ filter well_formed unsent
      → unsent ≡ []
      → w'.buffer ≡ arrivals
      → length delivered + length unsent + w'.rows_dropped ≡ length old + w.rows_dropped
      → w.rows_dropped ≤ w'.rows_dropped
      → DrainLedger old arrivals w w' delivered
  unfolding filter
  all_sent-DrainLedger old arrivals delivered unsent w w' e u b m g = record {
    dropped = [];
    splits =
        filter-append well_formed old arrivals
        ∙ ap (λ x. x ++ filter well_formed arrivals)
            (e ∙ ap (λ x. delivered ++ filter well_formed x) u ∙ append-nil delivered)
        ∙ ap (λ x. delivered ++ filter well_formed x) (sym b);
    drops = omega arith;
    conserved =
        let n : length w'.buffer ≡ length arrivals = ap length b in
        let z : length unsent ≡ 0 = ap length u in omega arith;
    counted = omega arith;
    full = λ some_dropped. absurd (omega arith);
  }

  -- In one call of `drain`, ClickHouse takes the oldest well-formed rows, in order, and the buffer
  -- keeps the others ahead of the arrivals, but for rows dropped at the front: no more than the
  -- old rows and the arrivals are over the cap, and only to leave the buffer at its cap. Each row
  -- is delivered, or buffered, or counted as dropped, as are those at the front.
  pub drain-DrainLedger :
      (force : Bool) (now failed_at : Time) (answers : ℕ → Attempt) (arrivals : List A)
      (w : BatchWriter A)
      → 0 < w.max_size
      → DrainLedger w.buffer arrivals w
          (drain well_formed force now failed_at answers arrivals w).0
          (drain well_formed force now failed_at answers arrivals w).1
  unfolding drain
  drain-DrainLedger force now failed_at answers arrivals w p =
      elim (Bool-cases (is_held_back well_formed force now w)) [
        | inl h ↦ rw h (record {
          dropped = [];
          splits = refl;
          drops = omega arith;
          conserved = omega (arith, length-append w.buffer arrivals);
          counted = omega arith;
          full = λ some_dropped. absurd (omega arith);
        })
        | inr h ↦ rw h (elim (Bool-cases o.failed) [
          | inl f ↦ rw f (
              requeue_rows-DrainLedger w.buffer arrivals o.delivered o.unsent w _ failed_at split
                (unsent_le well_formed n w.max_size answers 0 w.buffer) refl refl
                (let k = rows_counted in omega arith) (omega arith))
          | inr f ↦ rw f (
              all_sent-DrainLedger w.buffer arrivals o.delivered o.unsent w _ split
                (send_chunks_ends well_formed n w.max_size answers 0 w.buffer p (omega arith) f)
                refl (let k = rows_counted in omega arith) (omega arith))
        ])
      ]
    where
      n : ℕ
      n = length w.buffer

      o : Outcome A
      o = send_chunks well_formed n w.max_size answers 0 w.buffer

      split : filter well_formed w.buffer ≡ o.delivered ++ filter well_formed o.unsent
      split = send_chunks_splits well_formed n w.max_size answers 0 w.buffer

      rows_counted : length o.delivered + length o.unsent + o.malformed ≡ length w.buffer
      rows_counted = send_chunks_counted well_formed n w.max_size answers 0 w.buffer
