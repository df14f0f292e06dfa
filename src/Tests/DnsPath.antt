-- ===== src/Tests/DnsPath.antt =====
-- Runs of dnsstore.go, dnstaplog.go, tcpdumplog.go and pseudonym.go.
use network_enricher.Prelude.{
  ◌≤◌, ◌≡◌, ◌⊎◌, refl, true, false, Option, some, List, [], ◌∷◌, ◌++◌, All, Any, drop, length, Text,
  codes, arith, Time,
}
use network_enricher.Addresses.{Ip, v4}
use network_enricher.DnsStore.{DnsEvent, Entry, find, apply_dns, lookup, validity}
use network_enricher.DnsStore.Bound.{IsIteration, apply_dns-bounded}
use network_enricher.DnsStore.Binding.{Agree}
use network_enricher.DnsStore.Commute.{apply_dns_commutes}
use network_enricher.DnsStore.Evidence.{Op, resolve, sweep, run, Resolved, lookup_evidence}
use network_enricher.Dnstap.{DnstapParser, no_block, feed_all}
use network_enricher.Dnstap.Blocks.{AllComplete, events-Complete}
use network_enricher.Dnstap.Resync.{resync}
use network_enricher.Tcpdump.{TcpdumpParser}
use network_enricher.Pseudonym.{normalize_mac}
use network_enricher.Pseudonym.Notations.{IsMac, normalize_mac-IsMac}

abbrev asked : Text → Text → Time → DnsEvent
asked name answer t = record {
  event_time = t;
  client_ip = codes "10.0.0.5";
  client_port = 5000;
  qname = name;
  qtype = codes "A";
  answer_ip = answer;
  ttl = 300;
  ttl_unknown = false;
}

abbrev a1 : Text
a1 = codes "93.184.216.34"

abbrev entry_of : Text → Entry
entry_of answer = (
  record { client_ip = codes "10.0.0.5"; answer_ip = answer },
  record { hostname = codes "old.com"; event_time = 1; deadline = 60000000001 },
)

-- A map that is full at two entries.
abbrev full : List Entry
full = entry_of (codes "1.1.1.1") ∷ entry_of (codes "2.2.2.2") ∷ []

in_order : IsIteration (λ es. es)
in_order = record { met = λ es x i. i; all = λ es. refl }

apply_dns-bounded_example :
    length (apply_dns 5 2 (λ es. es) (asked (codes "example.com") a1 4) full) ≤ 2
apply_dns-bounded_example =
    apply_dns-bounded 5 2 (λ es. es) (asked (codes "example.com") a1 4) full in_order (omega arith)
      (omega arith)

agreeing : Agree (asked (codes "example.com") a1 4) (asked (codes "example.org") a1 4)
unfolding validity
agreeing t h = refl

apply_dns_commutes_example :
    find
      (record { client_ip = codes "10.0.0.5"; answer_ip = a1 })
      (apply_dns 6 4
        (λ es. es)
        (asked (codes "example.org") a1 4)
        (apply_dns 5 4 (λ es. es) (asked (codes "example.com") a1 4) full))
    ≡ find
        (record { client_ip = codes "10.0.0.5"; answer_ip = a1 })
        (apply_dns 6 4
          (λ es. es)
          (asked (codes "example.com") a1 4)
          (apply_dns 5 4 (λ es. es) (asked (codes "example.org") a1 4) full))
apply_dns_commutes_example =
    apply_dns_commutes 5 6 4 (λ es. es) (λ es. es) (asked (codes "example.com") a1 4)
      (asked (codes "example.org") a1 4) (record { client_ip = codes "10.0.0.5"; answer_ip = a1 })
      full agreeing (omega arith)

abbrev history : List Op
history =
    sweep 9
    ∷ resolve 5 (λ es. es) (asked (codes "example.com") a1 4)
    ∷ resolve 3 (λ es. es) (asked (codes "example.org") a1 2)
    ∷ []

lookup_evidence_example :
    (lookup 10 (codes "10.0.0.5") a1 (run 100 history) ≡ [])
    ⊎ Any
        (Resolved 10 (codes "10.0.0.5") a1 (lookup 10 (codes "10.0.0.5") a1 (run 100 history)))
        history
lookup_evidence_example = lookup_evidence 10 (codes "10.0.0.5") a1 100 history

abbrev parse_ip : Text → Option Ip
parse_ip s = some (v4 1572395042)

abbrev parse_rfc3339 : Text → Option Time
parse_rfc3339 s = some 63919600000000000000

-- A response block, in the layout of `dnstap-read -y`.
abbrev block : List Text
block =
    codes "type: MESSAGE"
    ∷ codes "message:"
    ∷ codes "  type: CLIENT_RESPONSE"
    ∷ codes "  response_time: !!timestamp 2026-07-15T08:42:54Z"
    ∷ codes "  query_address: \"10.0.0.5\""
    ∷ codes "  query_port: 5000"
    ∷ codes "  QUESTION_SECTION:"
    ∷ codes "      - 'example.com. IN A'"
    ∷ codes "  ANSWER_SECTION:"
    ∷ codes "      - 'example.com. 300 IN A 93.184.216.34'"
    ∷ codes "---"
    ∷ []

events-Complete_example : All AllComplete (feed_all parse_ip parse_rfc3339 block no_block).1
events-Complete_example = events-Complete parse_ip parse_rfc3339 block no_block

abbrev half_read : DnstapParser
half_read = record no_block { in_block = true; in_literal = true; client_ip = codes "10.0.0.9" }

resync_example :
    ((feed_all parse_ip parse_rfc3339
        ((codes "type:" ++ codes " MESSAGE") ∷ drop 1 block)
        half_read).0
      ≡ (feed_all parse_ip parse_rfc3339
          ((codes "type:" ++ codes " MESSAGE") ∷ drop 1 block)
          no_block).0)
    × (drop 1
          (feed_all parse_ip parse_rfc3339
            ((codes "type:" ++ codes " MESSAGE") ∷ drop 1 block)
            half_read).1
        ≡ drop 1
            (feed_all parse_ip parse_rfc3339
              ((codes "type:" ++ codes " MESSAGE") ∷ drop 1 block)
              no_block).1)
resync_example = resync parse_ip parse_rfc3339 (codes " MESSAGE") (drop 1 block) half_read no_block

abbrev after_header : TcpdumpParser
after_header = record {
  resolver_ip = codes "10.0.0.3";
  base_date = 63919584000000000000;
  have_prev = true;
  prev_tod = 56381068677000;
  pending = true;
  pending_time = 63919640381068677000;
}

abbrev payload : Text
payload = codes "    10.0.0.3.53 > 10.0.0.66.51578: 31291 1/0/0 example.com. A 93.184.216.34 (45)"

normalize_mac-IsMac_example :
    (normalize_mac (codes "AA-BB-CC-DD-EE-FF:MUIC-WiFi") ≡ [])
    ⊎ IsMac (normalize_mac (codes "AA-BB-CC-DD-EE-FF:MUIC-WiFi"))
normalize_mac-IsMac_example = normalize_mac-IsMac (codes "AA-BB-CC-DD-EE-FF:MUIC-WiFi")
