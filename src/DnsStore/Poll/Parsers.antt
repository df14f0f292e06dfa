-- ===== src/DnsStore/Poll/Parsers.antt =====
-- The three ways in which dnsstore.go makes the parser of a file (NewDNSStore, NewDNSStoreTcpdump and
-- NewDNSStoreDnstap), and what holds of every event that a poller reads with one.
use network_enricher.Prelude.{
  ℕ, inl, inr, Bool-cases, false, Option, none, some, List, [], ◌∷◌, ◌++◌, All, Text, text_eq, Time,
}
use network_enricher.Addresses.{Ip}
use network_enricher.Bind.{parse_dns_line}
use network_enricher.DnsStore.{DnsEvent, DnsKey, DnsBinding, dns_max_entries}
use network_enricher.DnsStore.Poll.Files.{events_of, tag, told_events}
use network_enricher.DnsStore.Poll.{PollConfig, parser_or, set_parser}
use network_enricher.Dnstap.{DnstapParser, no_block}
use network_enricher.LogFile.{max_scan_read_bytes}
use network_enricher.LogFile.Feeds.{Feed, line, truncated}
use network_enricher.Tcpdump.{TcpdumpParser}

-- `midnight` is the start of the configured day in the location of the log.
unfoldable pub new_tcpdump_parser : Time → Text → TcpdumpParser
new_tcpdump_parser midnight resolver_ip = record {
  resolver_ip = resolver_ip;
  base_date = midnight;
  have_prev = false;
  prev_tod = 0;
  pending = false;
  pending_time = 0;
}

-- The parser of `newParser`: its first state, and its `feed`.
pub record LineParser (P : Type 0) : Type 0 where
  pub fresh : P
  pub feed : P → Text → P × Option (List DnsEvent)

unfoldable pub bind_parser : (Text → Option Ip) → (Text → Option Time) → LineParser (Unit {0})
unfolding parse_dns_line
bind_parser parse_ip parse_time = record {
  fresh = tt;
  feed = λ p l. (p, parse_dns_line parse_ip parse_time l);
}

unfoldable pub tcpdump_parser :
    (Text → Option Ip) → (Time → Time) → Time → Text → LineParser TcpdumpParser
unfolding new_tcpdump_parser network_enricher.Tcpdump.feed
tcpdump_parser parse_ip next_day midnight resolver_ip = record {
  fresh = new_tcpdump_parser midnight resolver_ip;
  feed = λ p l. network_enricher.Tcpdump.feed parse_ip next_day l p;
}

unfoldable pub dnstap_parser : (Text → Option Ip) → (Text → Option Time) → LineParser DnstapParser
unfolding network_enricher.Dnstap.feed
dnstap_parser parse_ip parse_rfc3339 = record {
  fresh = no_block;
  feed = λ p l. network_enricher.Dnstap.feed parse_ip parse_rfc3339 l p;
}

-- The store of a directory. The clock and the order of ranging over the map are arguments.
unfoldable pub new_dns_store :
    {P : Type 0}
    → LineParser P
    → Text
    → (ℕ → Time)
    → (ℕ → List (DnsKey × DnsBinding) → List (DnsKey × DnsBinding))
    → PollConfig P
new_dns_store parser dns_dir clock order = record {
  fresh = parser.fresh;
  feed = parser.feed;
  limit = max_scan_read_bytes;
  dns_dir = dns_dir;
  max_size = dns_max_entries;
  clock = clock;
  order = order;
}

module _ {P : Type 0} (c : PollConfig P) (Inv : P → Type 0) (Good : DnsEvent → Type 0)
    (first : Inv c.fresh) (keeps : (p : P) (l : Text) → Inv p → Inv (c.feed p l).0)
    (gives : (p : P) (l : Text) → Inv p → All Good (events_of (c.feed p l).1)) where
  -- Each parser that exists is in a good state.
  abbrev pub AllParsers : (Text → Option P) → Type 0
  AllParsers parsers = (path : Text) → Inv (parser_or c.fresh (parsers path))

  All-append-tag :
      (path : Text) (es : List DnsEvent) (rest : List (Text × DnsEvent))
      → All Good es
      → All (λ x. Good x.1) rest
      → All (λ x. Good x.1) (tag path es ++ rest)
  All-append-tag path [] rest h r = r
  All-append-tag path (e ∷ es) rest h r = (h.0, All-append-tag path es rest h.1 r)

  set_parser-AllParsers :
      (path : Text) (o : Option P) (parsers : Text → Option P)
      → Inv (parser_or c.fresh o)
      → AllParsers parsers
      → AllParsers (set_parser path o parsers)
  set_parser-AllParsers path o parsers i h q = elim (Bool-cases (text_eq q path)) [
    | inl k ↦ rw k i
    | inr k ↦ rw k (h q)
  ]

  pub told_events-All :
      (fs : List Feed) (parsers : Text → Option P)
      → AllParsers parsers
      → All (λ x. Good x.1) (told_events c parsers fs)
  told_events-All [] parsers h = tt
  told_events-All (truncated path ∷ fs) parsers h =
      told_events-All fs (set_parser path none parsers)
        (set_parser-AllParsers path none parsers first h)
  told_events-All (line path l ∷ fs) parsers h =
      let p = parser_or c.fresh (parsers path) in
      let r = c.feed p l in
      All-append-tag path (events_of r.1) (told_events c (set_parser path (some r.0) parsers) fs)
        (gives p l (h path))
        (told_events-All fs (set_parser path (some r.0) parsers)
          (set_parser-AllParsers path (some r.0) parsers (keeps p l (h path)) h))
