-- ===== src/BatchWriter/FinalDrain.antt =====
-- `FinalDrain` of batchwriter.go, when ClickHouse answers in time.
use network_enricher.Prelude.{
  ℕ, zero, suc, ◌+◌, ◌-◌, ◌≤◌, ◌≡◌, refl, List, [], ◌∷◌, Bool, Bool-cases, true, false, arith,
  length, take, drop, length-append, ◌==◌, inl, inr, ==_iff,
}
use network_enricher.BatchWriter.{
  Attempt, BatchWriter, send_to_clickhouse, send_chunks, is_held_back, drain, Round,
  final_drain_loop, final_drain,
}

module _ {A : Type 0} (well_formed : A → Bool) where
  -- ClickHouse prepares and sends every batch of the attempt.
  unfoldable pub IsUp : Round well_formed → Type 0
  IsUp r = (k : ℕ) → ((r.answers k).prepared ≡ true) × ((r.answers k).sent ≡ true)

  send_to_clickhouse_taken :
      (a : Attempt) (rows : List A)
      → a.prepared ≡ true
      → a.sent ≡ true
      → (send_to_clickhouse well_formed a rows).failed ≡ false
  unfolding send_to_clickhouse
  send_to_clickhouse_taken a rows p s = ground arith

  send_chunks_taken :
      (fuel max_size : ℕ) (answers : ℕ → Attempt) (k : ℕ) (rows : List A)
      → ((i : ℕ) → ((answers i).prepared ≡ true) × ((answers i).sent ≡ true))
      → (send_chunks well_formed fuel max_size answers k rows).failed ≡ false
  unfolding send_chunks
  send_chunks_taken zero max_size answers k rows up = refl
  send_chunks_taken (suc fuel) max_size answers k [] up = refl
  send_chunks_taken (suc fuel) max_size answers k (r ∷ rows) up =
      rw (send_to_clickhouse_taken (answers k) (take max_size (r ∷ rows)) (up k).0 (up k).1)
        (send_chunks_taken fuel max_size answers (k + 1) (drop max_size (r ∷ rows)) up)

  drain_taken :
      (r : Round well_formed) (w : BatchWriter A)
      → IsUp r
      → length (drain well_formed true r.now r.failed_at r.answers [] w).0.buffer ≡ 0
  unfolding drain is_held_back IsUp
  drain_taken r w up = elim (Bool-cases (length w.buffer == 0)) [
    | inl e ↦ rw e (omega (arith, length-append w.buffer [], (==_iff _ _).0 e))
    | inr e ↦ rw (e, send_chunks_taken (length w.buffer) w.max_size r.answers 0 w.buffer up) refl
  ]

  final_drain_loop_taken :
      (n : ℕ) (rounds : ℕ → Round well_formed) (i k : ℕ) (w : BatchWriter A)
      → k ≤ n
      → IsUp (rounds (i + k))
      → length (final_drain_loop well_formed n rounds i w).buffer ≡ 0
  unfolding final_drain_loop
  final_drain_loop_taken zero rounds i k w h up =
      let e : i + k ≡ i = omega arith in drain_taken (rounds i) w (rw e at up)
  final_drain_loop_taken (suc n) rounds i zero w h up =
      let e : i + 0 ≡ i = omega arith in
      let taken = drain_taken (rounds i) w (rw e at up) in rw taken taken
  final_drain_loop_taken (suc n) rounds i (suc k) w h up =
      let e : i + suc k ≡ i + 1 + k = omega arith in
      let r = rounds i in
      let w' = (drain well_formed true r.now r.failed_at r.answers [] w).0 in
      let later = final_drain_loop_taken n rounds (i + 1) k w' (omega arith) (rw e at up) in
      elim (Bool-cases (length w'.buffer == 0)) [
        | inl empty ↦ rw empty ((==_iff _ _).0 empty)
        | inr full ↦ rw full later
      ]

  -- If ClickHouse takes every batch of any one attempt, `FinalDrain` reports that no row is lost.
  pub final_drain_delivers :
      (rounds : ℕ → Round well_formed) (attempts k : ℕ) (w : BatchWriter A)
      → k ≤ attempts - 1
      → IsUp (rounds k)
      → (final_drain well_formed rounds attempts w).1 ≡ 0
  unfolding final_drain
  final_drain_delivers rounds attempts k w h up =
      let e : 0 + k ≡ k = omega arith in
      final_drain_loop_taken (attempts - 1) rounds 0 k w h (rw e up)
