-- ===== src/Tests/WorkerPath.antt =====
-- A run of the worker loop of main.go.
use network_enricher.Prelude.{
  ℕ, ◌≡◌, text_eq, length, refl, true, false, ◌==◌, if◌then◌else◌, none, some, Option, List, [],
  ◌∷◌, ◌++◌, Text, codes, arith,
}
use network_enricher.Prelude.Sets.{filter}
use network_enricher.Addresses.{Ip}
use network_enricher.BatchWriter.{
  BatchWriter, add, drain, is_held_back, send_chunks, send_to_clickhouse, requeue_rows,
}
use network_enricher.Dedup.{DedupKey, is_duplicate}
use network_enricher.Flow.{FlowMessage, FlowRow, enrich, to_flow_row}
use network_enricher.Tests.FlowPath.{flow, no_ip, tables, one_key}
use network_enricher.Worker.Books.{IsBalanced}
use network_enricher.Worker.Ledger.{IsAccounted, rows_of, work_keeps_books}
use network_enricher.Worker.{
  Shared, Config, work, handle_message, handle_flow, after_dedup, write_flow, hand_over,
}

decode : Text → Option FlowMessage
decode [] = none
decode (c ∷ raw) = some (record flow { src_port = c })

-- A row of another worker, which comes in during the first `Add`. ClickHouse refuses all batches.
abbrev other : FlowRow ℕ
other = to_flow_row (enrich 0 no_ip tables flow)

abbrev config : Config (Option DedupKey) ℕ Ip
config = record {
  decode = decode;
  dedup_enabled = true;
  lru = one_key;
  zero_coordinate = 0;
  parse_ip = no_ip;
  tables = λ n. tables;
  well_formed = λ row. true;
  now = λ n. n;
  failed_at = λ n. n;
  answers = λ n k. record { prepared = true; sent = false };
  arrivals = λ n. if n == 1 then other ∷ [] else [];
}

abbrev batch : BatchWriter (FlowRow ℕ)
batch = record {
  buffer = [];
  max_size = 2;
  max_buffer = 2;
  max_age = 5;
  retry_after = 0;
  rows_written = 0;
  rows_dropped = 0;
}

abbrev start : Shared (Option DedupKey) ℕ
start = record {
  shards = λ i. none;
  writer = some batch;
  delivered = [];
  received = 0;
  deduplicated = 0;
  written = 0;
  threat_src = 0;
  threat_dst = 0;
}

start-IsAccounted : IsAccounted config [] start
unfolding filter
start-IsAccounted = record {
  batch = batch;
  writes = refl;
  sized = omega arith;
  dropped = [];
  settled = [];
  mixes = (refl, refl);
  splits = refl;
  conserved = refl;
  counted = omega arith;
  drops = omega arith;
}

-- A message that is none, one flow twice, and another one.
abbrev raws : List Text
raws = [] ∷ codes "a" ∷ codes "a" ∷ codes "b" ∷ []

work_keeps_books_example :
    IsAccounted config
      ([] ++ rows_of config raws start.shards start.received)
      (work config raws start)
    × IsBalanced (work config raws start)
work_keeps_books_example =
    work_keeps_books config raws [] start start-IsAccounted (record { balance = omega arith })

abbrev books_of : Option (BatchWriter (FlowRow ℕ)) → ℕ × ℕ
books_of none = (0, 0)
books_of (some w) = (length w.buffer, w.rows_dropped)

-- Of the three rows, the writer keeps the two that its cap allows, and counts the third.
kept_and_dropped : books_of (work config raws start).writer ≡ (2, 1)
unfolding work handle_message handle_flow after_dedup write_flow hand_over is_duplicate decode
    text_eq add drain is_held_back send_chunks send_to_clickhouse requeue_rows filter enrich
    to_flow_row
kept_and_dropped = refl
