-- ===== src/Worker/Ledger.antt =====
-- No flow is lost on the way through the worker loop of main.go, but for what the writer drops.
use network_enricher.Prelude.{
  ℕ, ◌+◌, ◌-◌, ◌≤◌, ◌<◌, length, length-append, ◌≡◌, refl, sym, ap, ◌∙◌, subst, inl, inr, arith,
  Bool, Bool-cases, true, false, Option, none, some, List, [], ◌∷◌, ◌++◌, Text, if◌then◌else◌,
}
use mathlib.Core.List.{append-nil}
use network_enricher.Prelude.Sets.{filter}
use network_enricher.LogFile.Lines.{append_assoc, filter-append}
use network_enricher.BatchWriter.Chunks.{length-filter_le}
use network_enricher.BatchWriter.Adds.{AddLedger, add-AddLedger}
use network_enricher.BatchWriter.{BatchWriter, add}
use network_enricher.Flow.{FlowMessage, FlowRow}
use network_enricher.Dedup.{is_duplicate}
use network_enricher.Worker.Books.{IsBalanced, work-IsBalanced}
use network_enricher.Worker.{
  Shared, Config, row_of, hand_over, write_flow, after_dedup, handle_flow, handle_message, work,
}
use network_enricher.Worker.Mixes.{within, Mixes, Mixes-then, Mixes-behind}

module _ {S F I : Type 0} (c : Config S F I) where
  -- The well-formed rows in the order of the messages: a part is settled, delivered or dropped, each
  -- in that order, and behind it are those in the buffer.
  pub record IsAccounted (rows : List (FlowRow F)) (s : Shared S F) : Type 0 where
    pub batch : BatchWriter (FlowRow F)
    pub writes : s.writer ≡ some batch
    pub sized : 0 < batch.max_size
    pub dropped : List (FlowRow F)
    pub settled : List (FlowRow F)
    pub mixes : Mixes s.delivered dropped settled
    pub splits : filter c.well_formed rows ≡ settled ++ filter c.well_formed batch.buffer
    -- each row was delivered, or is buffered, or is one on the counter of dropped rows
    pub conserved : length s.delivered + length batch.buffer + batch.rows_dropped ≡ length rows
    -- the dropped rows are among those counted, and no more than all the rows are over the cap
    pub counted : length dropped ≤ batch.rows_dropped
    pub drops : length dropped ≤ length rows - batch.max_buffer

  -- The books do not depend on the other parts of the state.
  same_books :
      (rows : List (FlowRow F)) (s t : Shared S F)
      → t.writer ≡ s.writer
      → t.delivered ≡ s.delivered
      → IsAccounted rows s
      → IsAccounted rows t
  same_books rows s t e d h = record {
    batch = h.batch;
    writes = e ∙ h.writes;
    sized = h.sized;
    dropped = h.dropped;
    settled = h.settled;
    mixes = rw d h.mixes;
    splits = h.splits;
    conserved = rw d h.conserved;
    counted = h.counted;
    drops = h.drops;
  }

  -- Is the n-th message a duplicate, and the shards after it?
  abbrev pub verdict : FlowMessage → (ℕ → S) → Bool × (ℕ → S)
  verdict m shards = if c.dedup_enabled then is_duplicate c.lru shards m else (false, shards)

  abbrev row_unless : ℕ → FlowMessage → Bool → List (FlowRow F)
  row_unless n m true = []
  row_unless n m false = row_of c n m ∷ c.arrivals n

  -- The rows of the messages that are no duplicates, `n` messages being decoded before, each
  -- followed by those that are added during its `Add`.
  unfoldable pub rows_of : List Text → (ℕ → S) → ℕ → List (FlowRow F)
  rows_of [] shards n = []
  rows_of (raw ∷ raws) shards n = elim (c.decode raw) [
    | none ↦ rows_of raws shards n
    | some m ↦
        row_unless (n + 1) m (verdict m shards).0 ++ rows_of raws (verdict m shards).1 (n + 1)
  ]

  -- Some rows more, and what the `Add` of the first settles.
  module _ (rows : List (FlowRow F)) (row : FlowRow F) (arrivals : List (FlowRow F))
      (w w' : BatchWriter (FlowRow F)) (took settled : List (FlowRow F))
      (l : AddLedger c.well_formed row arrivals w w' took)
      (h : filter c.well_formed rows ≡ settled ++ filter c.well_formed w.buffer) where
    added_splits :
        filter c.well_formed (rows ++ row ∷ arrivals)
        ≡ (settled ++ (took ++ filter c.well_formed l.dropped)) ++ filter c.well_formed w'.buffer
    added_splits =
        let kept = filter c.well_formed in
        filter-append c.well_formed rows (row ∷ arrivals)
        ∙ ap (λ x. x ++ kept (row ∷ arrivals)) h
        ∙ append_assoc settled (kept w.buffer) (kept (row ∷ arrivals))
        ∙ ap (λ x. settled ++ x)
            (sym (filter-append c.well_formed w.buffer (row ∷ arrivals))
              ∙ l.splits
              ∙ ap (λ x. took ++ x) (filter-append c.well_formed l.dropped w'.buffer)
              ∙ sym (append_assoc took (kept l.dropped) (kept w'.buffer)))
        ∙ sym (append_assoc settled (took ++ kept l.dropped) (kept w'.buffer))

  hand_over-IsAccounted :
      (rows : List (FlowRow F)) (row : FlowRow F) (s : Shared S F)
      → IsAccounted rows s
      → IsAccounted (rows ++ row ∷ c.arrivals s.received) (hand_over c row s s.writer)
  unfolding hand_over
  hand_over-IsAccounted rows row s h =
      subst (λ o. IsAccounted (rows ++ row ∷ more) (hand_over c row s o)) (sym h.writes)
        (record {
          batch = r.0;
          writes = refl;
          sized = let e = l.size_kept in let p = h.sized in omega arith;
          dropped = h.dropped ++ gone;
          settled = h.settled ++ (r.1 ++ gone);
          mixes =
              Mixes-then s.delivered h.dropped h.settled r.1 gone (r.1 ++ gone) h.mixes
                (Mixes-behind r.1 gone);
          splits = added_splits rows row more h.batch r.0 r.1 h.settled l h.splits;
          conserved = all_counted;
          counted = let k = l.counted in let b = h.counted in omega (arith, all_dropped, gone_le);
          drops =
              let cap = l.cap_kept in
              rw (cap, all_dropped)
                (within (length l.dropped) (length gone) (length h.dropped) h.batch.rows_dropped
                  r.0.rows_dropped (length rows) (length (rows ++ row ∷ more))
                  (length (s.delivered ++ r.1)) (length r.0.buffer) h.batch.max_buffer l.full
                  gone_le l.counted h.counted h.drops (omega (arith, all_rows)) all_counted);
        })
    where
      n : ℕ
      n = s.received

      more : List (FlowRow F)
      more = c.arrivals n

      r : BatchWriter (FlowRow F) × List (FlowRow F)
      r = add c.well_formed (c.now n) (c.failed_at n) (c.answers n) more row h.batch

      l : AddLedger c.well_formed row more h.batch r.0 r.1
      l =
          add-AddLedger c.well_formed (c.now n) (c.failed_at n) (c.answers n) more row h.batch
            h.sized

      gone : List (FlowRow F)
      gone = filter c.well_formed l.dropped

      gone_le : length gone ≤ length l.dropped
      gone_le = length-filter_le c.well_formed l.dropped

      all_dropped : length (h.dropped ++ gone) ≡ length h.dropped + length gone
      all_dropped = length-append h.dropped gone

      all_rows : length (rows ++ row ∷ more) ≡ length rows + length (row ∷ more)
      all_rows = length-append rows (row ∷ more)

      all_counted :
          length (s.delivered ++ r.1) + length r.0.buffer + r.0.rows_dropped
          ≡ length (rows ++ row ∷ more)
      all_counted =
          let k = l.conserved in
          let b = h.conserved in omega (arith, all_rows, length-append s.delivered r.1)

  after_dedup-IsAccounted :
      (rows : List (FlowRow F)) (m : FlowMessage) (s : Shared S F) (v : Bool × (ℕ → S))
      → IsAccounted rows s
      → IsAccounted (rows ++ row_unless s.received m v.0) (after_dedup c m s v)
  unfolding after_dedup write_flow
  after_dedup-IsAccounted rows m s (true, shards) h =
      subst (λ r. IsAccounted r (after_dedup c m s (true, shards))) (sym (append-nil rows))
        (same_books rows s (record s { shards = shards; deduplicated = s.deduplicated + 1 }) refl
          refl h)
  after_dedup-IsAccounted rows m s (false, shards) h =
      let s' = record s { shards = shards } in
      let k =
        hand_over-IsAccounted rows (row_of c s.received m) s'
          ((same_books rows s (record s { shards = shards }) refl refl h)) in
      same_books (rows ++ row_of c s.received m ∷ c.arrivals s.received)
        (hand_over c (row_of c s.received m) s' s.writer) (write_flow c m s') refl refl k

  hand_over-frame :
      (row : FlowRow F) (s : Shared S F) (w : Option (BatchWriter (FlowRow F)))
      → ((hand_over c row s w).received ≡ s.received) × ((hand_over c row s w).shards ≡ s.shards)
  unfolding hand_over
  hand_over-frame row s none = (refl, refl)
  hand_over-frame row s (some w) = (refl, refl)

  after_dedup-frame :
      (m : FlowMessage) (s : Shared S F) (v : Bool × (ℕ → S))
      → ((after_dedup c m s v).received ≡ s.received) × ((after_dedup c m s v).shards ≡ v.1)
  unfolding after_dedup write_flow
  after_dedup-frame m s (true, shards) = (refl, refl)
  after_dedup-frame m s (false, shards) =
      hand_over-frame (row_of c s.received m) (record s { shards = shards }) s.writer

  handle_flow_lem :
      (m : FlowMessage) (s : Shared S F)
      → handle_flow c m s ≡ after_dedup c m s (verdict m s.shards)
  unfolding handle_flow after_dedup
  handle_flow_lem m s = elim (Bool-cases c.dedup_enabled) [ inl k ↦ rw k refl | inr k ↦ rw k refl ]

  work-IsAccounted :
      (raws : List Text) (rows : List (FlowRow F)) (s : Shared S F)
      → IsAccounted rows s
      → IsAccounted (rows ++ rows_of raws s.shards s.received) (work c raws s)
  unfolding work rows_of handle_message
  work-IsAccounted [] rows s h = subst (λ r. IsAccounted r s) (sym (append-nil rows)) h
  work-IsAccounted (raw ∷ raws) rows s h = go (c.decode raw) (λ r t k. work-IsAccounted raws r t k)
    where
      behind : Option FlowMessage → List (FlowRow F)
      behind o = elim o [
        | none ↦ rows_of raws s.shards s.received
        | some m ↦
            row_unless (s.received + 1) m (verdict m s.shards).0
            ++ rows_of raws (verdict m s.shards).1 (s.received + 1)
      ]

      go :
          (o : Option FlowMessage)
          → ((r : List (FlowRow F)) (t : Shared S F)
              → IsAccounted r t
              → IsAccounted (r ++ rows_of raws t.shards t.received) (work c raws t))
          → IsAccounted (rows ++ behind o) (work c raws (handle_message c o s))
      go none ih = ih rows s h
      go (some m) ih =
          let s' = record s { received = s.received + 1 } in
          let v = verdict m s.shards in
          let t = after_dedup c m s' v in
          let more = row_unless (s.received + 1) m v.0 in
          let frame = after_dedup-frame m s' v in
          let k =
            ih (rows ++ more) t
              (after_dedup-IsAccounted rows m s' v ((same_books rows s s' refl refl h))) in
          rw (handle_flow_lem m s') (
            subst (λ r. IsAccounted r (work c raws t))
              (ap (λ n. (rows ++ more) ++ rows_of raws t.shards n) frame.0
                ∙ ap (λ sh. (rows ++ more) ++ rows_of raws sh (s.received + 1)) frame.1
                ∙ append_assoc rows more (rows_of raws v.1 (s.received + 1)))
              k)

  -- The books of a state stay in order over a run. The rows of the messages that are no duplicates
  -- are accounted for in the order of the messages, each followed by those that came in during its
  -- `Add`: each well-formed one was delivered, or dropped by the writer, or is still in its buffer
  -- behind those. The rows delivered, those in the buffer, and the counter of dropped rows, which
  -- counts the malformed ones too, add up to all rows; and no more well-formed rows are dropped
  -- than all rows are over the cap, so none are before the cap is reached. And each message that was decoded is
  -- counted as a duplicate or as written, never as both.
  pub work_keeps_books :
      (raws : List Text) (rows : List (FlowRow F)) (s : Shared S F)
      → IsAccounted rows s
      → IsBalanced s
      → IsAccounted (rows ++ rows_of raws s.shards s.received) (work c raws s)
        × IsBalanced (work c raws s)
  work_keeps_books raws rows s h b = (work-IsAccounted raws rows s h, work-IsBalanced c raws s b)
