-- ===== src/BatchWriter/Adds.antt =====
-- Add of batchwriter.go, on the books of drain.
use network_enricher.Prelude.{
  ℕ, ◌<◌, ◌≡◌, refl, ap, ◌∙◌, sym, inl, inr, Bool, Bool-cases, false, List, [], ◌∷◌, ◌++◌, length,
  Time, leb, arith, ◌+◌, ◌≤◌, length-append,
}
use mathlib.Core.List.{append_assoc}
use network_enricher.Prelude.Sets.{filter}
use network_enricher.BatchWriter.Drain.{drain-DrainLedger}
use network_enricher.BatchWriter.{Attempt, BatchWriter, requeue_rows, drain, add}

module _ {A : Type 0} (well_formed : A → Bool) where
  -- What an `Add` comes to, with the rows that others add meanwhile.
  pub record AddLedger (row : A) (arrivals : List A) (w w' : BatchWriter A) (delivered : List A)
      : Type 0 where
    pub dropped : List A
    pub splits :
        filter well_formed (w.buffer ++ row ∷ arrivals)
        ≡ delivered ++ filter well_formed (dropped ++ w'.buffer)
    pub conserved :
        length delivered + length w'.buffer + w'.rows_dropped
        ≡ length w.buffer + length (row ∷ arrivals) + w.rows_dropped
    pub counted : length dropped + w.rows_dropped ≤ w'.rows_dropped
    pub full : 0 < length dropped → length w'.buffer ≡ w.max_buffer
    pub size_kept : w'.max_size ≡ w.max_size
    pub cap_kept : w'.max_buffer ≡ w.max_buffer

  drain-frame :
      (now failed_at : Time) (answers : ℕ → Attempt) (arrivals : List A) (w : BatchWriter A)
      → ((drain well_formed false now failed_at answers arrivals w).0.max_size ≡ w.max_size)
        × ((drain well_formed false now failed_at answers arrivals w).0.max_buffer ≡ w.max_buffer)
  unfolding drain requeue_rows
  drain-frame now failed_at answers arrivals w = ground arith

  pub add-AddLedger :
      (now failed_at : Time) (answers : ℕ → Attempt) (arrivals : List A) (row : A)
      (w : BatchWriter A)
      → 0 < w.max_size
      → AddLedger row arrivals w
          (add well_formed now failed_at answers arrivals row w).0
          (add well_formed now failed_at answers arrivals row w).1
  unfolding add
  add-AddLedger now failed_at answers arrivals row w p =
      elim (Bool-cases (leb w.max_size (length (w.buffer ++ row ∷ [])))) [
        | inl k ↦ rw k (
            let d = drain-DrainLedger well_formed false now failed_at answers arrivals w' p in
            let frame = drain-frame now failed_at answers arrivals w' in
            record {
              dropped = d.dropped;
              splits = ap (filter well_formed) (sym behind) ∙ d.splits;
              conserved = let c = d.conserved in omega (arith, one_more);
              counted = d.counted;
              full = d.full;
              size_kept = frame.0;
              cap_kept = frame.1;
            })
        | inr k ↦ rw k (record {
          dropped = [];
          splits = ap (filter well_formed) (sym behind);
          conserved = omega (arith, one_more, length-append w'.buffer arrivals);
          counted = omega arith;
          full = λ some_dropped. absurd (omega arith);
          size_kept = refl;
          cap_kept = refl;
        })
      ]
    where
      w' : BatchWriter A
      w' = record w { buffer = w.buffer ++ row ∷ [] }

      behind : (w.buffer ++ row ∷ []) ++ arrivals ≡ w.buffer ++ row ∷ arrivals
      behind = append_assoc w.buffer (row ∷ []) arrivals

      one_more : length (w.buffer ++ row ∷ []) ≡ length w.buffer + 1
      one_more = length-append w.buffer (row ∷ [])
