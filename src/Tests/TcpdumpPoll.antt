-- ===== src/Tests/TcpdumpPoll.antt =====
-- A scan of a directory of tcpdump logs, by the poller of dnsstore.go.
use network_enricher.Prelude.{
  ◌≡◌, refl, true, false, none, some, Option, List, [], ◌∷◌, All, map, Text, codes, length,
}
use network_enricher.Addresses.{Ip, v4}
use network_enricher.DnsStore.Poll.Parsers.{new_tcpdump_parser, new_dns_store, tcpdump_parser}
use network_enricher.LogFile.Feeds.{dir_feeds}
use network_enricher.DnsStore.Poll.Refines.{buffer, scan_events}
use network_enricher.DnsStore.Poll.Upstream.{store, scan-Admitted}
use network_enricher.DnsStore.Poll.{Poller, PollConfig, with_writer, scan}
use network_enricher.DnsStore.Writer.{flush}
use network_enricher.LogFile.{Entry, Polled}
use network_enricher.Tcpdump.Clients.{Admitted}
use network_enricher.Tcpdump.{TcpdumpParser}

abbrev read_ip : Text → Option Ip
read_ip s = some (v4 1)

abbrev config : PollConfig TcpdumpParser
config = store read_ip (λ t. t) 0 (codes "10.0.0.53") (codes "dns") (λ n. 6) (λ n es. es)

-- A query of a client, and the resolver's own.
abbrev content : Text
content =
    codes
      "09:15:00.1 IP (tos 0x0, proto UDP (17), length 60)\n    10.0.0.5.500 > 10.0.0.53.53: 7+ A? h. (30)\n09:15:00.2 IP (tos 0x0, proto UDP (17), length 60)\n    10.0.0.53.501 > 192.0.2.1.53: 8+ A? h. (30)\n"

abbrev entries : Option (List Entry)
entries = some (
    record {
      is_dir = false;
      path = codes "dns/log";
      look = record { size = some 300; content = some content };
    }
    ∷ [])

abbrev start : Polled (Poller TcpdumpParser)
start = record {
  offsets = λ path. 0;
  state = record {
    entries = [];
    parsers = λ path. none;
    ch = some (record { dns = []; max_buffer = 10 });
    errors = 0;
    parsed = 0;
  };
}

scan-Admitted_example :
    ((scan config entries true 6 start).state.ch
      ≡ with_writer (flush true) (
          with_writer
            (buffer config (map (λ x. x.1) (scan_events config entries start)))
            start.state.ch))
    × All (λ x. Admitted read_ip (codes "10.0.0.53") x.1) (scan_events config entries start)
unfolding new_tcpdump_parser
scan-Admitted_example =
    scan-Admitted read_ip (λ t. t) 0 (codes "10.0.0.53") (codes "dns") (λ n. 6) (λ n es. es) entries
      true 6 start (λ path. resolver)
  where
    resolver : codes "10.0.0.53" ≡ codes "10.0.0.53"
    resolver = refl

one_client : length (scan_events config entries start) ≡ 1
unfolding dir_feeds new_dns_store tcpdump_parser
one_client = refl
