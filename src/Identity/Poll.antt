-- ===== src/Identity/Poll.antt =====
-- The poller of identity.go: scan, scanDir, ingestNPS and ingestDHCP. The recovery of a panic is
-- left out, since nothing below panics. The two parsers of a line are LogLine's.
pub mod Refines
use network_enricher.Prelude.{ℕ, ◌+◌, Option, none, some, List, Text, Time}
use network_enricher.Identity.{
  DhcpEvent, RadiusEvent, IdentityStore, apply_dhcp, apply_radius, evict_expired,
}
use network_enricher.Identity.Writer.{EventWriter, Answer, add_dhcp, add_radius, flush}
use network_enricher.LogFile.{Entry, Polled, scan_appended_dir}
use network_enricher.LogLine.Dhcp.{DhcpError, parse_dhcp_line}
use network_enricher.LogLine.Nps.{NpsError, parse_nps_line}
use network_enricher.LogLine.{LineOutcome, skipped, malformed, parsed}
use network_enricher.Pseudonym.{Tokenizer}

-- The store, the writer `s.ch` if there is one, and the counters of each source.
pub record Poller : Type 0 where
  pub store : IdentityStore
  pub ch : Option EventWriter
  pub nps_errors : ℕ
  pub nps_parsed : ℕ
  pub dhcp_errors : ℕ
  pub dhcp_parsed : ℕ

-- `if s.ch != nil`
abbrev pub with_writer : (EventWriter → EventWriter) → Option EventWriter → Option EventWriter
with_writer f none = none
with_writer f (some w) = some (f w)

unfoldable pub nps_outcome : LineOutcome RadiusEvent NpsError → Poller → Poller
unfolding apply_radius add_radius
nps_outcome skipped p = p
nps_outcome (malformed x) p = record p { nps_errors = p.nps_errors + 1 }
nps_outcome (parsed e) p = record p {
  nps_parsed = p.nps_parsed + 1;
  store = apply_radius p.store e;
  ch = with_writer (λ w. add_radius w e) p.ch;
}

unfoldable pub dhcp_outcome : LineOutcome DhcpEvent DhcpError → Poller → Poller
unfolding apply_dhcp add_dhcp
dhcp_outcome skipped p = p
dhcp_outcome (malformed x) p = record p { dhcp_errors = p.dhcp_errors + 1 }
dhcp_outcome (parsed e) p = record p {
  dhcp_parsed = p.dhcp_parsed + 1;
  store = apply_dhcp p.store e;
  ch = with_writer (λ w. add_dhcp w e) p.ch;
}

-- Where the poller looks, and what it needs of Go's library.
pub record PollConfig : Type 0 where
  pub limit : ℕ
  pub nps_dir : Text
  pub dhcp_dir : Text
  pub tok : Tokenizer
  pub unmarshal : Text → Option (List (Text × Text))
  pub nps_millis : Text → Option Time
  pub nps_seconds : Text → Option Time
  pub dhcp_time : Text → Option Time

module _ (c : PollConfig) where
  unfoldable pub ingest_nps : Text → Text → Poller → Poller
  unfolding nps_outcome parse_nps_line
  ingest_nps path l p =
      nps_outcome (parse_nps_line c.tok c.unmarshal c.nps_millis c.nps_seconds l) p

  unfoldable pub ingest_dhcp : Text → Text → Poller → Poller
  unfolding dhcp_outcome parse_dhcp_line
  ingest_dhcp path l p = dhcp_outcome (parse_dhcp_line c.tok c.dhcp_time l) p

  -- `onTruncate` is nil.
  unfoldable pub scan_nps : Option (List Entry) → Polled Poller → Polled Poller
  unfolding scan_appended_dir ingest_nps
  scan_nps = scan_appended_dir c.limit ingest_nps (λ path p. p) c.nps_dir

  unfoldable pub scan_dhcp : Option (List Entry) → Polled Poller → Polled Poller
  unfolding scan_appended_dir ingest_dhcp
  scan_dhcp = scan_appended_dir c.limit ingest_dhcp (λ path p. p) c.dhcp_dir

  unfoldable pub finish_scan : Answer → Time → Poller → Poller
  unfolding flush evict_expired
  finish_scan answer now p = record p {
    ch = with_writer (flush answer) p.ch;
    store = evict_expired p.store now;
  }

  -- `scan`: what the two directories hold, how ClickHouse answers, and the clock at the end.
  unfoldable pub scan :
      Option (List Entry) → Option (List Entry) → Answer → Time → Polled Poller → Polled Poller
  unfolding scan_nps scan_dhcp finish_scan
  scan nps dhcp answer now p =
      let q = scan_dhcp dhcp (scan_nps nps p) in record q { state = finish_scan answer now q.state }
