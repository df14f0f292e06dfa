-- ===== src/Worker/Books.antt =====
-- The counters of the worker loop of main.go.
use network_enricher.Prelude.{
  ℕ, ◌+◌, ◌≡◌, refl, inl, inr, arith, Bool, Bool-cases, true, false, Option, none, some, List, [],
  ◌∷◌, Text,
}
use network_enricher.BatchWriter.{BatchWriter}
use network_enricher.Flow.{FlowMessage, FlowRow}
use network_enricher.Dedup.{is_duplicate}
use network_enricher.Worker.{
  Shared, Config, row_of, hand_over, write_flow, after_dedup, handle_flow, handle_message, work,
}

-- Each message that was decoded was a duplicate, or it was written.
pub record IsBalanced {S F : Type 0} (s : Shared S F) : Type 0 where
  pub balance : s.received ≡ s.deduplicated + s.written

module _ {S F I : Type 0} (c : Config S F I) where
  hand_over-counters :
      (row : FlowRow F) (s : Shared S F) (w : Option (BatchWriter (FlowRow F)))
      → ((hand_over c row s w).received ≡ s.received)
        × ((hand_over c row s w).deduplicated ≡ s.deduplicated)
        × ((hand_over c row s w).written ≡ s.written)
  unfolding hand_over
  hand_over-counters row s none = (refl, refl, refl)
  hand_over-counters row s (some w) = (refl, refl, refl)

  write_flow-IsBalanced :
      (m : FlowMessage) (s : Shared S F)
      → s.received ≡ s.deduplicated + s.written + 1
      → IsBalanced (write_flow c m s)
  unfolding write_flow
  write_flow-IsBalanced m s e =
      let (a, b, d) = hand_over-counters (row_of c s.received m) s s.writer in
      record { balance = omega arith }

  after_dedup-IsBalanced :
      (m : FlowMessage) (s : Shared S F) (v : Bool × (ℕ → S))
      → s.received ≡ s.deduplicated + s.written + 1
      → IsBalanced (after_dedup c m s v)
  unfolding after_dedup
  after_dedup-IsBalanced m s (true, shards) e = record { balance = omega arith }
  after_dedup-IsBalanced m s (false, shards) e =
      write_flow-IsBalanced m (record s { shards = shards }) e

  handle_message-IsBalanced :
      (o : Option FlowMessage) (s : Shared S F) → IsBalanced s → IsBalanced (handle_message c o s)
  unfolding handle_message handle_flow
  handle_message-IsBalanced none s b = b
  handle_message-IsBalanced (some m) s b =
      let s' = record s { received = s.received + 1 } in
      let e = b.balance in
      elim (Bool-cases c.dedup_enabled) [
        | inl k ↦ rw k (after_dedup-IsBalanced m s' (is_duplicate c.lru s.shards m) (omega arith))
        | inr k ↦ rw k (write_flow-IsBalanced m s' (omega arith))
      ]

  pub work-IsBalanced :
      (raws : List Text) (s : Shared S F) → IsBalanced s → IsBalanced (work c raws s)
  unfolding work
  work-IsBalanced [] s b = b
  work-IsBalanced (raw ∷ raws) s b =
      work-IsBalanced raws (handle_message c (c.decode raw) s)
        (handle_message-IsBalanced (c.decode raw) s b)
