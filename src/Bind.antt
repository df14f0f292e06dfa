-- ===== src/Bind.antt =====
-- dnslog.go: the parser of BIND's resolver log. `net.ParseIP` and `time.ParseInLocation` with its
-- layout are arguments. The regular expressions are written out as backtracking matchers, which take
-- the same alternatives first as Go's `regexp`. A result `none` is an error.
pub mod Scanners
pub mod Recorded
use network_enricher.Prelude.{
  ℕ, suc, ◌+◌, ◌^◌, Bool, true, false, not, ◌&&◌, ◌||◌, Option, none, some, List, [], ◌∷◌, take,
  drop, Text, codes, text_eq, is_empty, trim_space, contains, index_byte, parse_uint, Time,
  if◌then◌else◌,
}
use network_enricher.Addresses.{Ip}
use network_enricher.Bind.Scanners.{Prefix, Answer, find_prefix, find_answers}
use network_enricher.DnsStore.{DnsEvent}
use network_enricher.DnsText.{parse_port, family_fits}
use network_enricher.Pseudonym.{normalize_host}

abbrev pub Result : Type 0
Result = Option (List DnsEvent)

-- The client, the port, the normalized name and the type of a line.
pub record Question : Type 0 where
  pub client_ip : Text
  pub client_port : ℕ
  pub qname : Text
  pub qtype : Text

-- `none` for `errMalformedDNS`.
unfoldable pub question_of : Option Prefix → Option Question
unfolding normalize_host parse_port
question_of none = none
question_of (some p) =
    if is_empty (normalize_host p.name)
    then none
    else some (record {
      client_ip = p.client;
      client_port = parse_port p.port;
      qname = normalize_host p.name;
      qtype = p.qtype;
    })

unfoldable pub bare_event : Time → Question → DnsEvent
bare_event ts q = record {
  event_time = ts;
  client_ip = q.client_ip;
  client_port = q.client_port;
  qname = q.qname;
  qtype = q.qtype;
  answer_ip = [];
  ttl = 0;
  ttl_unknown = false;
}

unfoldable pub answered_event : Time → Question → Answer → ℕ → DnsEvent
answered_event ts q a ttl = record {
  event_time = ts;
  client_ip = q.client_ip;
  client_port = q.client_port;
  qname = q.qname;
  qtype = a.rtype;
  answer_ip = a.rdata;
  ttl = ttl;
  ttl_unknown = false;
}

-- A response without an event is recorded as a question.
unfoldable pub or_bare : Time → Question → List DnsEvent → List DnsEvent
unfolding bare_event
or_bare ts q [] = bare_event ts q ∷ []
or_bare ts q (e ∷ es) = e ∷ es

module _ (parse_ip : Text → Option Ip) (parse_time : Text → Option Time) where
  unfoldable pub with_ttl : Time → Question → Answer → Option ℕ → List DnsEvent → List DnsEvent
  unfolding answered_event family_fits
  with_ttl ts q a none rest = rest
  with_ttl ts q a (some ttl) rest =
      if family_fits a.rtype (parse_ip a.rdata) then answered_event ts q a ttl ∷ rest else rest

  unfoldable pub answer_events : Time → Question → List Answer → List DnsEvent
  unfolding with_ttl parse_uint
  answer_events ts q [] = []
  answer_events ts q (a ∷ as') =
      with_ttl ts q a (parse_uint (2 ^ 32) a.ttl) (answer_events ts q as')

  -- The first two words of the line.
  unfoldable pub stamp_of : Text → Option Text
  unfolding index_byte
  stamp_of line = elim (index_byte 32 line) [
    | none ↦ none
    | some i ↦ elim (index_byte 32 (drop (suc i) line)) [
      | none ↦ none
      | some j ↦ some (take (i + 1 + j) line)
    ]
  ]

  unfoldable pub parse_dns_time : Text → Option Time
  unfolding stamp_of
  parse_dns_time line = elim (stamp_of line) [ none ↦ none | some stamp ↦ parse_time stamp ]

  unfoldable pub query_result : Time → Option Question → Result
  unfolding bare_event
  query_result ts none = none
  query_result ts (some q) = some (bare_event ts q ∷ [])

  unfoldable pub response_result : Time → Text → Option Question → Result
  unfolding or_bare answer_events find_answers
  response_result ts line none = none
  response_result ts line (some q) = some (or_bare ts q (answer_events ts q (find_answers line)))

  unfoldable pub timed_result : Text → Bool → Option Time → Result
  unfolding query_result response_result question_of find_prefix
  timed_result line is_response none = none
  timed_result line is_response (some ts) =
      if is_response
      then response_result ts line (question_of (find_prefix (codes "response:") line))
      else query_result ts (question_of (find_prefix (codes "query:") line))

  unfoldable pub parse_dns_line : Text → Result
  unfolding timed_result parse_dns_time contains trim_space
  parse_dns_line raw =
      let line = trim_space raw in
      let is_response = contains line (codes ": response: ") in
      if is_empty line || not (is_response || contains line (codes ": query: "))
      then some []
      else timed_result line is_response (parse_dns_time line)
