-- ===== src/BatchWriter/Chunks.antt =====
-- The loop of `drain` over the chunks, in batchwriter.go: what it delivers, leaves unsent and counts.
use network_enricher.Prelude.{
  ℕ, zero, suc, ◌+◌, ◌≤◌, ◌<◌, ◌≡◌, refl, sym, ap, ◌∙◌, List, [], ◌∷◌, ◌++◌, Bool, Bool-cases, true,
  false, arith, length, take, drop, length-append, length-drop, take-append-drop, inl, inr,
}
use network_enricher.Prelude.Sets.{filter}
use network_enricher.BatchWriter.{Attempt, send_to_clickhouse, send_chunks}
use mathlib.Core.List.{append_assoc}

module _ {A : Type 0} (well_formed : A → Bool) where
  pub filter-append :
      (xs ys : List A)
      → filter well_formed (xs ++ ys) ≡ filter well_formed xs ++ filter well_formed ys
  unfolding filter
  filter-append [] ys = refl
  filter-append (x ∷ xs) ys = elim (Bool-cases (well_formed x)) [
    | inl k ↦ rw k (ap (◌∷◌ x) (filter-append xs ys))
    | inr k ↦ rw k (filter-append xs ys)
  ]

  filter_idem : (xs : List A) → filter well_formed (filter well_formed xs) ≡ filter well_formed xs
  unfolding filter
  filter_idem [] = refl
  filter_idem (x ∷ xs) = elim (Bool-cases (well_formed x)) [
    | inl k ↦ rw k (rw k (ap (◌∷◌ x) (filter_idem xs)))
    | inr k ↦ rw k (filter_idem xs)
  ]

  -- The well-formed rows of a failed chunk are queued again.
  send_to_clickhouse_failed :
      (a : Attempt) (rows : List A)
      → (send_to_clickhouse well_formed a rows).failed ≡ true
      → filter well_formed rows ≡ filter well_formed (send_to_clickhouse well_formed a rows).requeue
  unfolding send_to_clickhouse
  send_to_clickhouse_failed a rows h = ground (arith, filter_idem rows)

  filter_chunks :
      (n : ℕ) (rows : List A)
      → filter well_formed rows
        ≡ filter well_formed (take n rows) ++ filter well_formed (drop n rows)
  filter_chunks n rows =
      ap (filter well_formed) (sym (take-append-drop n rows))
      ∙ filter-append (take n rows) (drop n rows)

  -- Whatever the fuel: the well-formed rows are delivered, in order, up to those left unsent.
  pub send_chunks_splits :
      (fuel max_size : ℕ) (answers : ℕ → Attempt) (k : ℕ) (rows : List A)
      → filter well_formed rows
        ≡ (send_chunks well_formed fuel max_size answers k rows).delivered
          ++ filter well_formed (send_chunks well_formed fuel max_size answers k rows).unsent
  unfolding send_chunks
  send_chunks_splits zero max_size answers k rows = refl
  send_chunks_splits (suc fuel) max_size answers k [] = unfold filter in refl
  send_chunks_splits (suc fuel) max_size answers k (r ∷ rows) =
      let chunk = take max_size (r ∷ rows) in
      let behind = drop max_size (r ∷ rows) in
      let s = send_to_clickhouse well_formed (answers k) chunk in
      elim (Bool-cases s.failed) [
        | inl f ↦ rw f (
            filter_chunks max_size (r ∷ rows)
            ∙ ap (λ x. x ++ filter well_formed behind)
                (send_to_clickhouse_failed (answers k) chunk f)
            ∙ sym (filter-append s.requeue behind))
        | inr f ↦ rw f (
            filter_chunks max_size (r ∷ rows)
            ∙ ap (λ x. filter well_formed chunk ++ x)
                (send_chunks_splits fuel max_size answers (k + 1) behind)
            ∙ sym (append_assoc (filter well_formed chunk) _ _))
      ]

  -- With fuel for every chunk the loop ends with all rows sent, or by a failure.
  pub send_chunks_ends :
      (fuel max_size : ℕ) (answers : ℕ → Attempt) (k : ℕ) (rows : List A)
      → 0 < max_size
      → length rows ≤ fuel
      → (send_chunks well_formed fuel max_size answers k rows).failed ≡ false
      → (send_chunks well_formed fuel max_size answers k rows).unsent ≡ []
  unfolding send_chunks
  send_chunks_ends zero max_size answers k [] p h f = refl
  send_chunks_ends zero max_size answers k (r ∷ rows) p h f = absurd (omega arith)
  send_chunks_ends (suc fuel) max_size answers k [] p h f = refl
  send_chunks_ends (suc fuel) max_size answers k (r ∷ rows) p h f =
      let behind = drop max_size (r ∷ rows) in
      let shorter : length behind ≤ fuel = omega (arith, length-drop max_size (r ∷ rows)) in
      let ih = send_chunks_ends fuel max_size answers (k + 1) behind p shorter in ground (arith, ih)

  pub length-filter_le : (rows : List A) → length (filter well_formed rows) ≤ length rows
  unfolding filter
  length-filter_le [] = omega arith
  length-filter_le (x ∷ rows) = ground (arith, length-filter_le rows)

  requeue_le :
      (a : Attempt) (rows : List A)
      → length (send_to_clickhouse well_formed a rows).requeue ≤ length rows
  unfolding send_to_clickhouse
  requeue_le a rows = ground (arith, length-filter_le rows)

  pub unsent_le :
      (fuel max_size : ℕ) (answers : ℕ → Attempt) (k : ℕ) (rows : List A)
      → length (send_chunks well_formed fuel max_size answers k rows).unsent ≤ length rows
  unfolding send_chunks
  unsent_le zero max_size answers k rows = omega arith
  unsent_le (suc fuel) max_size answers k [] = omega arith
  unsent_le (suc fuel) max_size answers k (r ∷ rows) =
      let chunk = take max_size (r ∷ rows) in
      let behind = drop max_size (r ∷ rows) in
      let s = send_to_clickhouse well_formed (answers k) chunk in
      let halves : length chunk + length behind ≡ length (r ∷ rows) =
        sym (length-append chunk behind) ∙ ap length (take-append-drop max_size (r ∷ rows)) in
      elim (Bool-cases s.failed) [
        | inl f ↦
            rw (f, length-append s.requeue behind)
              (omega (arith, halves, requeue_le (answers k) chunk))
        | inr f ↦ rw f (omega (arith, halves, unsent_le fuel max_size answers (k + 1) behind))
      ]

  -- A chunk that fails is queued again, but for its malformed rows.
  requeue_counted :
      (a : Attempt) (rows : List A)
      → (send_to_clickhouse well_formed a rows).failed ≡ true
      → length (send_to_clickhouse well_formed a rows).requeue
          + (send_to_clickhouse well_formed a rows).malformed
        ≡ length rows
  unfolding send_to_clickhouse
  requeue_counted a rows f = ground (arith, length-filter_le rows)

  taken_counted :
      (a : Attempt) (rows : List A)
      → (send_to_clickhouse well_formed a rows).failed ≡ false
      → length (filter well_formed rows) + (send_to_clickhouse well_formed a rows).malformed
        ≡ length rows
  unfolding send_to_clickhouse
  taken_counted a rows f = ground (arith, length-filter_le rows)

  -- Each row of the loop is delivered, left unsent, or counted as malformed.
  pub send_chunks_counted :
      (fuel max_size : ℕ) (answers : ℕ → Attempt) (k : ℕ) (rows : List A)
      → let o = send_chunks well_formed fuel max_size answers k rows in
        length o.delivered + length o.unsent + o.malformed ≡ length rows
  unfolding send_chunks
  send_chunks_counted zero max_size answers k rows = omega arith
  send_chunks_counted (suc fuel) max_size answers k [] = omega arith
  send_chunks_counted (suc fuel) max_size answers k (r ∷ rows) =
      let chunk = take max_size (r ∷ rows) in
      let behind = drop max_size (r ∷ rows) in
      let s = send_to_clickhouse well_formed (answers k) chunk in
      let later = send_chunks well_formed fuel max_size answers (k + 1) behind in
      let halves : length chunk + length behind ≡ length (r ∷ rows) =
        sym (length-append chunk behind) ∙ ap length (take-append-drop max_size (r ∷ rows)) in
      elim (Bool-cases s.failed) [
        | inl f ↦
            rw (f, length-append s.requeue behind)
              (omega (arith, halves, requeue_counted (answers k) chunk f))
        | inr f ↦
            rw (f, length-append (filter well_formed chunk) later.delivered)
              (let ih = send_chunks_counted fuel max_size answers (k + 1) behind in
                omega (arith, halves, taken_counted (answers k) chunk f, ih))
      ]
