-- ===== src/Tests/BindPath.antt =====
-- Runs of dnslog.go.
use network_enricher.Prelude.{◌≡◌, refl, false, none, some, [], ◌∷◌, Text, codes, trim_space}
use network_enricher.Addresses.{v4}
use network_enricher.Bind.Recorded.{IsOutcome, parse_dns_line-IsOutcome}
use network_enricher.Bind.{parse_dns_line}
use network_enricher.DnsStore.{DnsEvent}

response : Text
response = codes "d t client 10.0.0.5#543 (h): response: H. IN A NOERROR h. 300 IN A 93.184.216.34"

query : Text
query = codes "d t client @0x7f 10.0.0.5#543 (h): query: H. IN A +E (10.0.0.1)"

abbrev asked : Text → DnsEvent
asked qtype = record {
  event_time = 7;
  client_ip = codes "10.0.0.5";
  client_port = 543;
  qname = codes "h";
  qtype = qtype;
  answer_ip = [];
  ttl = 0;
  ttl_unknown = false;
}

query_read : parse_dns_line (λ s. none) (λ s. some 7) query ≡ some (asked (codes "A") ∷ [])
unfolding parse_dns_line query
query_read = refl

response_read :
    parse_dns_line (λ s. some (v4 1)) (λ s. some 7) response
    ≡ some (record (asked (codes "A")) { answer_ip = codes "93.184.216.34"; ttl = 300 } ∷ [])
unfolding parse_dns_line response
response_read = refl

unresolved_read : parse_dns_line (λ s. none) (λ s. some 7) response ≡ some (asked (codes "A") ∷ [])
unfolding parse_dns_line response
unresolved_read = refl

parse_dns_line-IsOutcome_example :
    IsOutcome
      (λ s. some (v4 1))
      (λ s. some 7)
      (trim_space response)
      (parse_dns_line (λ s. some (v4 1)) (λ s. some 7) response)
parse_dns_line-IsOutcome_example =
    parse_dns_line-IsOutcome (λ s. some (v4 1)) (λ s. some 7) response
