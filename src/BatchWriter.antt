-- ===== src/BatchWriter.antt =====
-- The ClickHouse batch writer of batchwriter.go, over any type of rows. The clock, ClickHouse's
-- answers and the rows that other goroutines add while a batch is being sent are arguments.
pub mod Chunks
pub mod Drain
pub mod FinalDrain
pub mod Adds
use network_enricher.Prelude.{
  ℕ, zero, suc, ◌+◌, ◌-◌, List, [], ◌∷◌, ◌++◌, Bool, true, false, not, ◌&&◌, ◌||◌, length, take,
  drop, Time, Duration, before, leb, ltb, ◌==◌, if◌then◌else◌,
}
use network_enricher.Prelude.Sets.{filter}

-- What one `sendToClickHouse` meets: does `PrepareBatch` succeed, and does `batch.Send`?
pub record Attempt : Type 0 where
  pub prepared : Bool
  pub sent : Bool

pub record BatchWriter (A : Type 0) : Type 0 where
  pub buffer : List A
  pub max_size : ℕ
  pub max_buffer : ℕ
  pub max_age : Duration
  pub retry_after : Time
  -- the counters of metrics.go
  pub rows_written : ℕ
  pub rows_dropped : ℕ

-- The results of `sendToClickHouse`: the rows to queue again, whether it failed, and how many
-- malformed rows it dropped.
pub record Sent (A : Type 0) : Type 0 where
  pub requeue : List A
  pub failed : Bool
  pub malformed : ℕ

-- What the loop of `drain` over the chunks comes to.
pub record Outcome (A : Type 0) : Type 0 where
  pub delivered : List A
  pub unsent : List A
  pub failed : Bool
  pub written : ℕ
  pub malformed : ℕ

module _ {A : Type 0} (well_formed : A → Bool) where
  -- `well_formed r` says that the driver's `batch.Append` takes the row.
  unfoldable pub send_to_clickhouse : Attempt → List A → Sent A
  send_to_clickhouse a rows =
      if not a.prepared
      then record { requeue = rows; failed = true; malformed = 0 }
      else (let appended = filter well_formed rows in
          if a.sent
          then record { requeue = []; failed = false; malformed = length rows - length appended }
          else record {
            requeue = appended;
            failed = true;
            malformed = length rows - length appended;
          })

  -- The loop over the chunks, on fuel: chunk `k` meets the attempt `answers k`.
  unfoldable pub send_chunks : ℕ → ℕ → (ℕ → Attempt) → ℕ → List A → Outcome A
  send_chunks zero max_size answers k rows = record {
    delivered = [];
    unsent = rows;
    failed = false;
    written = 0;
    malformed = 0;
  }
  send_chunks (suc fuel) max_size answers k [] = record {
    delivered = [];
    unsent = [];
    failed = false;
    written = 0;
    malformed = 0;
  }
  send_chunks (suc fuel) max_size answers k (r ∷ rows) =
      let chunk = take max_size (r ∷ rows) in
      let behind = drop max_size (r ∷ rows) in
      let s = send_to_clickhouse (answers k) chunk in
      let later = send_chunks fuel max_size answers (k + 1) behind in
      if s.failed
      then record {
        delivered = [];
        unsent = s.requeue ++ behind;
        failed = true;
        written = 0;
        malformed = s.malformed;
      }
      else record {
        delivered = filter well_formed chunk ++ later.delivered;
        unsent = later.unsent;
        failed = later.failed;
        written = length chunk + later.written;
        malformed = s.malformed + later.malformed;
      }

  -- The locked section after a failure: the unsent rows go ahead of the newer ones, the back-off
  -- starts, and the oldest rows over the cap are dropped.
  unfoldable pub requeue_rows : BatchWriter A → List A → Time → BatchWriter A
  requeue_rows w unsent now =
      let queued = unsent ++ w.buffer in
      let over = length queued - w.max_buffer in
      record w {
        buffer = drop over queued;
        retry_after = now + w.max_age;
        rows_dropped = w.rows_dropped + over;
      }

  unfoldable pub is_held_back : Bool → Time → BatchWriter A → Bool
  is_held_back force now w = length w.buffer == 0 || (not force && before now w.retry_after)

  -- `drain(force)`, called at `now`; `failed_at` is the clock after a failure, and `arrivals` are
  -- the rows that other goroutines add before the call ends. A buffer of n rows has n chunks at
  -- most, so n is fuel enough. The second part is what ClickHouse took.
  unfoldable pub drain :
      Bool → Time → Time → (ℕ → Attempt) → List A → BatchWriter A → BatchWriter A × List A
  drain force now failed_at answers arrivals w =
      if is_held_back force now w
      then (record w { buffer = w.buffer ++ arrivals }, [])
      else (let o = send_chunks (length w.buffer) w.max_size answers 0 w.buffer in
          let w' = record w {
            buffer = arrivals;
            rows_written = w.rows_written + o.written;
            rows_dropped = w.rows_dropped + o.malformed;
          } in
          (if o.failed then requeue_rows w' o.unsent failed_at else w', o.delivered))

  -- `Add`: a full buffer is flushed, unless the back-off holds it; `arrivals` are the rows that
  -- other goroutines add after this one and before the call ends.
  unfoldable pub add :
      Time → Time → (ℕ → Attempt) → List A → A → BatchWriter A → BatchWriter A × List A
  add now failed_at answers arrivals row w =
      let w' = record w { buffer = w.buffer ++ row ∷ [] } in
      if leb w.max_size (length w'.buffer)
      then drain false now failed_at answers arrivals w'
      else (record w' { buffer = w'.buffer ++ arrivals }, [])

  -- What `FinalDrain` meets at attempt `i`.
  pub record Round : Type 0 where
    pub now : Time
    pub failed_at : Time
    pub answers : ℕ → Attempt

  pub final_drain_loop : ℕ → (ℕ → Round) → ℕ → BatchWriter A → BatchWriter A
  final_drain_loop zero rounds i w =
      (drain true (rounds i).now (rounds i).failed_at (rounds i).answers [] w).0
  final_drain_loop (suc n) rounds i w =
      let w' = (drain true (rounds i).now (rounds i).failed_at (rounds i).answers [] w).0 in
      let later = final_drain_loop n rounds (i + 1) w' in
      if length w'.buffer == 0 then w' else later

  pub final_drain : (ℕ → Round) → ℕ → BatchWriter A → BatchWriter A × ℕ
  final_drain rounds attempts w =
      let w' = final_drain_loop (attempts - 1) rounds 0 w in (w', length w'.buffer)
