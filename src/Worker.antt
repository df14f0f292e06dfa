-- ===== src/Worker.antt =====
-- The worker loop of main.go: a message of the queue becomes a row of the batch writer. JSON is an
-- argument. The workers share the deduplication and the writer; a run is one order in which their
-- messages are handled, and the rows that come in while an `Add` is under way are an argument.
pub mod Books
pub mod Mixes
pub mod Ledger
use network_enricher.Prelude.{
  ℕ, ◌+◌, Bool, true, false, Option, none, some, List, [], ◌∷◌, ◌++◌, Text, Time, if◌then◌else◌,
}
use network_enricher.BatchWriter.{BatchWriter, Attempt, add}
use network_enricher.Dedup.{Lru, is_duplicate}
use network_enricher.Flow.{FlowMessage, FlowRow, Tables, enrich, to_flow_row}

-- What the workers share, their counters, and what ClickHouse took of the rows.
pub record Shared (S F : Type 0) : Type 0 where
  pub shards : ℕ → S
  pub writer : Option (BatchWriter (FlowRow F))
  pub delivered : List (FlowRow F)
  pub received : ℕ
  pub deduplicated : ℕ
  pub written : ℕ
  pub threat_src : ℕ
  pub threat_dst : ℕ

-- What the workers find around them: the tables, the clock at an `Add` and after a failed flush in
-- it, ClickHouse's answers, and the rows of other messages that are added during the `Add`, for the
-- n-th message that is decoded.
pub record Config (S F I : Type 0) : Type 0 where
  pub decode : Text → Option FlowMessage
  pub dedup_enabled : Bool
  pub lru : Lru S
  pub zero_coordinate : F
  pub parse_ip : Text → Option I
  pub tables : ℕ → Tables F I
  pub well_formed : FlowRow F → Bool
  pub now : ℕ → Time
  pub failed_at : ℕ → Time
  pub answers : ℕ → ℕ → Attempt
  pub arrivals : ℕ → List (FlowRow F)

abbrev count_if : Bool → ℕ → ℕ
count_if true n = n + 1
count_if false n = n

module _ {S F I : Type 0} (c : Config S F I) where
  -- The row of the n-th message.
  unfoldable pub row_of : ℕ → FlowMessage → FlowRow F
  unfolding to_flow_row enrich
  row_of n m = to_flow_row (enrich c.zero_coordinate c.parse_ip (c.tables n) m)

  -- `if writer != nil`
  unfoldable pub hand_over : FlowRow F → Shared S F → Option (BatchWriter (FlowRow F)) → Shared S F
  hand_over row s none = s
  hand_over row s (some w) =
      let n = s.received in
      let (w', took) =
        add c.well_formed (c.now n) (c.failed_at n) (c.answers n) (c.arrivals n) row w in
      record s { writer = some w'; delivered = s.delivered ++ took }

  unfoldable pub write_flow : FlowMessage → Shared S F → Shared S F
  unfolding hand_over row_of enrich
  write_flow m s =
      let e = enrich c.zero_coordinate c.parse_ip (c.tables s.received) m in
      let s' = hand_over (row_of s.received m) s s.writer in
      record s' {
        written = s'.written + 1;
        threat_src = count_if e.is_threat_src s'.threat_src;
        threat_dst = count_if e.is_threat_dst s'.threat_dst;
      }

  unfoldable pub after_dedup : FlowMessage → Shared S F → Bool × (ℕ → S) → Shared S F
  unfolding write_flow
  after_dedup m s (true, shards) = record s { shards = shards; deduplicated = s.deduplicated + 1 }
  after_dedup m s (false, shards) = write_flow m (record s { shards = shards })

  unfoldable pub handle_flow : FlowMessage → Shared S F → Shared S F
  unfolding after_dedup write_flow is_duplicate
  handle_flow m s =
      if c.dedup_enabled then after_dedup m s (is_duplicate c.lru s.shards m) else write_flow m s

  -- One round of the loop; a message that is no JSON of a flow is skipped.
  unfoldable pub handle_message : Option FlowMessage → Shared S F → Shared S F
  unfolding handle_flow
  handle_message none s = s
  handle_message (some m) s = handle_flow m (record s { received = s.received + 1 })

  unfoldable pub work : List Text → Shared S F → Shared S F
  unfolding handle_message
  work [] s = s
  work (raw ∷ raws) s = work raws (handle_message (c.decode raw) s)
