-- ===== src/Tests/DnsPoll.antt =====
-- A run of the poller of dnsstore.go, over a parser that pairs the lines of a file.
use network_enricher.Prelude.{◌≡◌, true, false, none, some, Option, List, [], ◌∷◌, map, Text, codes}
use network_enricher.DnsStore.Poll.Files.{of_file, file_events}
use network_enricher.DnsStore.Poll.Refines.{apply_all, buffer, scan_events, scan_refines}
use network_enricher.DnsStore.Poll.{Poller, PollConfig, with_writer, scan}
use network_enricher.DnsStore.Writer.{flush}
use network_enricher.DnsStore.{DnsEvent, evict_expired}
use network_enricher.LogFile.Feeds.{dir_feeds}
use network_enricher.LogFile.{Entry, Polled}

abbrev answer : Text → Text → DnsEvent
answer client host = record {
  event_time = 5;
  client_ip = client;
  client_port = 0;
  qname = host;
  qtype = codes "A";
  answer_ip = codes "192.0.2.1";
  ttl = 60;
  ttl_unknown = false;
}

-- The first line of a pair is the client, the second the host.
abbrev pair_lines : Option Text → Text → Option Text × Option (List DnsEvent)
pair_lines none l = (some l, some [])
pair_lines (some client) l = (none, some (answer client l ∷ []))

abbrev config : PollConfig (Option Text)
config = record {
  fresh = none;
  feed = pair_lines;
  limit = 100;
  dns_dir = codes "dns";
  max_size = 8;
  clock = λ n. 6;
  order = λ n es. es;
}

abbrev entry : Text → Text → Entry
entry path content = record {
  is_dir = false;
  path = path;
  look = record { size = some 50; content = some content };
}

-- The first line of `b` comes between the two lines of a pair in `a`.
abbrev files : Option (List Entry)
files = some (entry (codes "a") (codes "c1\n") ∷ entry (codes "b") (codes "c2\n") ∷ [])

abbrev start : Polled (Poller (Option Text))
start = record {
  offsets = λ path. 0;
  state = record {
    entries = [];
    parsers = λ path. none;
    ch = some (record { dns = []; max_buffer = 10 });
    errors = 0;
    parsed = 0;
  };
}

scan_refines_example :
    ((scan config files true 6 start).state.entries
      ≡ evict_expired 6 (
          apply_all config start.state.parsed
            (map (λ x. x.1) (scan_events config files start))
            start.state.entries))
    × ((scan config files true 6 start).state.ch
        ≡ with_writer (flush true) (
            with_writer
              (buffer config (map (λ x. x.1) (scan_events config files start)))
              start.state.ch))
    × ((path : Text)
        → of_file config path (scan_events config files start)
          ≡ file_events config path
              (start.state.parsers path)
              (dir_feeds config.limit config.dns_dir start.offsets files))
scan_refines_example = scan_refines config files true 6 start
