-- ===== src/DnsStore/Poll.antt =====
-- The poller of dnsstore.go: scan and ingestDNS, over a parser `P` that `newParser` makes. The
-- recovery of a panic is left out, since nothing below panics.
pub mod Files
pub mod Refines
pub mod Parsers
pub mod Upstream
use network_enricher.Prelude.{
  ℕ, ◌+◌, Bool, Option, none, some, List, [], ◌∷◌, Text, text_eq, Time, if◌then◌else◌,
}
use network_enricher.DnsStore.{DnsEvent, DnsKey, DnsBinding, apply_dns, evict_expired}
use network_enricher.DnsStore.Writer.{DnsWriter, add, flush}
use network_enricher.LogFile.{Entry, Polled, scan_appended_dir}

-- The map, the parsers of the files, the writer `s.ch` if there is one, and the counters.
pub record Poller (P : Type 0) : Type 0 where
  pub entries : List (DnsKey × DnsBinding)
  pub parsers : Text → Option P
  pub ch : Option DnsWriter
  pub errors : ℕ
  pub parsed : ℕ

-- `newParser` and its `feed`; where the poller looks; and, for each event in turn, the clock and the
-- order in which Go ranges over the map.
pub record PollConfig (P : Type 0) : Type 0 where
  pub fresh : P
  pub feed : P → Text → P × Option (List DnsEvent)
  pub limit : ℕ
  pub dns_dir : Text
  pub max_size : ℕ
  pub clock : ℕ → Time
  pub order : ℕ → List (DnsKey × DnsBinding) → List (DnsKey × DnsBinding)

-- `if s.ch != nil`
abbrev pub with_writer : (DnsWriter → DnsWriter) → Option DnsWriter → Option DnsWriter
with_writer f none = none
with_writer f (some w) = some (f w)

-- `s.parsers[path]`, made on first sight.
abbrev pub parser_or : {P : Type 0} → P → Option P → P
parser_or fresh none = fresh
parser_or fresh (some p) = p

abbrev pub set_parser : {P : Type 0} → Text → Option P → (Text → Option P) → Text → Option P
set_parser path o parsers q = if text_eq q path then o else parsers q

module _ {P : Type 0} (c : PollConfig P) where
  unfoldable pub ingest_event : DnsEvent → Poller P → Poller P
  unfolding apply_dns add
  ingest_event e p = record p {
    parsed = p.parsed + 1;
    entries = apply_dns (c.clock p.parsed) c.max_size (c.order p.parsed) e p.entries;
    ch = with_writer (λ w. add w e) p.ch;
  }

  unfoldable pub ingest_events : List DnsEvent → Poller P → Poller P
  unfolding ingest_event
  ingest_events [] p = p
  ingest_events (e ∷ es) p = ingest_events es (ingest_event e p)

  unfoldable pub ingest_result : Option (List DnsEvent) → Poller P → Poller P
  unfolding ingest_events
  ingest_result none p = record p { errors = p.errors + 1 }
  ingest_result (some es) p = ingest_events es p

  unfoldable pub ingest_dns : Text → Text → Poller P → Poller P
  unfolding ingest_result text_eq
  ingest_dns path l p =
      let (q, result) = c.feed (parser_or c.fresh (p.parsers path)) l in
      ingest_result result (record p { parsers = set_parser path (some q) p.parsers })

  -- `onTruncate`
  unfoldable pub drop_parser : Text → Poller P → Poller P
  unfolding text_eq
  drop_parser path p = record p { parsers = set_parser path none p.parsers }

  -- `scan`: what the directory holds, whether ClickHouse takes the batch, and the clock at the end.
  unfoldable pub scan : Option (List Entry) → Bool → Time → Polled (Poller P) → Polled (Poller P)
  unfolding scan_appended_dir ingest_dns drop_parser flush evict_expired
  scan entries accepted now p =
      let q = scan_appended_dir c.limit ingest_dns drop_parser c.dns_dir entries p in
      record q {
        state = record q.state {
          ch = with_writer (flush accepted) q.state.ch;
          entries = evict_expired now q.state.entries;
        };
      }
