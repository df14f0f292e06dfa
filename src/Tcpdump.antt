-- ===== src/Tcpdump.antt =====
-- tcpdumplog.go: the parser of `tcpdump -v` text, as a state machine over lines. `net.ParseIP` and
-- the calendar's next midnight, `AddDate(0, 0, 1)`, are arguments. A result `none` is an error. The
-- two regular expressions are written out as scanners.
pub mod Clients
use network_enricher.Prelude.{
  ℕ, zero, suc, ◌+◌, ◌-◌, ◌*◌, ◌^◌, Bool, true, false, not, ◌&&◌, ◌||◌, Option, none, some, List,
  [], ◌∷◌, ◌++◌, length, take, drop, Text, codes, text_eq, is_empty, trim_left_by, trim_space,
  trim_suffix, has_suffix, contains, index, last_index, index_byte, fields, is_digit, Time,
  Duration, ltb, leb, ◌==◌, if◌then◌else◌,
}
use network_enricher.Addresses.{Ip}
use network_enricher.DnsStore.{DnsEvent, second}
use network_enricher.DnsText.{split_ip_port, family_fits}
use network_enricher.Pseudonym.{normalize_host}

pub record TcpdumpParser : Type 0 where
  pub resolver_ip : Text
  pub base_date : Time
  pub have_prev : Bool
  pub prev_tod : Duration
  pub pending : Bool
  pub pending_time : Time

abbrev pub Result : Type 0
Result = Option (List DnsEvent)

unfoldable pub digits_value : ℕ → Text → ℕ
digits_value acc [] = acc
digits_value acc (c ∷ s) = digits_value (acc * 10 + (c - 48)) s

-- The digits at the front of a text, and the rest.
unfoldable pub span_digits : Text → Text × Text
span_digits [] = ([], [])
span_digits (c ∷ s) =
    let (d, rest) = span_digits s in if is_digit c then (c ∷ d, rest) else ([], c ∷ s)

-- The fraction in nanoseconds: nine digits, filled up with zeros.
unfoldable pub fraction : ℕ → Text → ℕ
fraction zero s = 0
fraction (suc n) [] = 0
fraction (suc n) (c ∷ s) = (c - 48) * 10 ^ n + fraction n s

abbrev two : ℕ → ℕ → ℕ
two a b = (a - 48) * 10 + (b - 48)

unfoldable pub parse_tod : Text → Option Duration
unfolding span_digits fraction
parse_tod (a ∷ b ∷ c1 ∷ c ∷ d ∷ c2 ∷ e ∷ f ∷ dot ∷ rest) =
    let h = two a b in
    let mi = two c d in
    let s = two e f in
    let (frac, behind) = span_digits rest in
    let matches =
      is_digit a
      && is_digit b
      && c1 == 58
      && is_digit c
      && is_digit d
      && c2 == 58
      && is_digit e
      && is_digit f
      && dot == 46
      && not (is_empty frac) in
    if not matches || ltb 23 h || ltb 59 mi || ltb 59 s
    then none
    else some (h * 3600 * second + mi * 60 * second + s * second + fraction 9 frac)
parse_tod _ = none

-- `respCountsRe` at the front of a text: the first count, and what follows the match.
unfoldable pub counts_here : Text → Option (Text × Text)
unfolding span_digits
counts_here s =
    let (an, r1) = span_digits s in
    let (ns, r2) = span_digits (drop 1 r1) in
    let (ar, r3) = span_digits (drop 1 r2) in
    if not (is_empty an)
      && text_eq (take 1 r1) (codes "/")
      && not (is_empty ns)
      && text_eq (take 1 r2) (codes "/")
      && not (is_empty ar)
    then some (an, r3)
    else none

-- The leftmost match.
unfoldable pub find_counts : Text → Option (Text × Text)
unfolding counts_here
find_counts [] = none
find_counts (c ∷ s) =
    let later = find_counts s in elim (counts_here (c ∷ s)) [ none ↦ later | some m ↦ some m ]

abbrev pub cut_at : Option ℕ → Text → Text
cut_at none s = s
cut_at (some i) s = take i s

abbrev keep_piece : Text → List Text → List Text
keep_piece p [] = p ∷ []
keep_piece p (q ∷ qs) = (p ++ q) ∷ qs

-- `strings.Split(s, ", ")`
unfoldable pub split_comma : Text → List Text
split_comma [] = [] ∷ []
split_comma (c ∷ []) = (c ∷ []) ∷ []
split_comma (c ∷ d ∷ s) =
    let behind = split_comma s in
    let on = split_comma (d ∷ s) in
    if c == 44 && d == 32 then [] ∷ behind else keep_piece (c ∷ []) on

unfoldable pub payload_has_query_marker : List Text → Bool
unfolding has_suffix
payload_has_query_marker [] = false
payload_has_query_marker (f ∷ fs) = has_suffix f (codes "?") || payload_has_query_marker fs

abbrev plain_event : Time → Text → ℕ → Text → Text → DnsEvent
plain_event ts client port qname qtype = record {
  event_time = ts;
  client_ip = client;
  client_port = port;
  qname = qname;
  qtype = qtype;
  answer_ip = [];
  ttl = 0;
  ttl_unknown = false;
}

-- The first field that ends in "?", and the one behind it.
unfoldable pub find_question : List Text → Option (Text × Text)
unfolding has_suffix
find_question [] = none
find_question (f ∷ []) = none
find_question (f ∷ g ∷ fs) =
    let later = find_question (g ∷ fs) in if has_suffix f (codes "?") then some (f, g) else later

unfoldable pub query_events : Time → Text → ℕ → Option (Text × Text) → Result
unfolding trim_suffix normalize_host
query_events ts client port none = none
query_events ts client port (some (f, g)) =
    if is_empty (trim_suffix f (codes "?")) || is_empty (normalize_host g)
    then none
    else some (plain_event ts client port (normalize_host g) (trim_suffix f (codes "?")) ∷ [])

unfoldable pub parse_tcpdump_query : Text → Time → Text → ℕ → Result
unfolding fields find_question query_events
parse_tcpdump_query payload ts client port =
    query_events ts client port (find_question (drop 1 (fields payload)))

module _ (parse_ip : Text → Option Ip) where
  -- One resource record: an address, or nothing.
  unfoldable pub record_events : Time → Text → ℕ → Text → List Text → List DnsEvent
  unfolding family_fits
  record_events ts client port qname (owner ∷ typ ∷ rdata ∷ more) =
      if family_fits typ (parse_ip rdata)
      then record (plain_event ts client port qname typ) { answer_ip = rdata; ttl_unknown = true }
        ∷ []
      else []
  record_events ts client port qname _ = []

  unfoldable pub all_records : Time → Text → ℕ → Text → List Text → List DnsEvent
  unfolding record_events fields
  all_records ts client port qname [] = []
  all_records ts client port qname (rr ∷ rrs) =
      record_events ts client port qname (fields rr) ++ all_records ts client port qname rrs

  unfoldable pub or_fallback : DnsEvent → List DnsEvent → List DnsEvent
  or_fallback e [] = e ∷ []
  or_fallback e (x ∷ xs) = x ∷ xs

  unfoldable pub section_events : Time → Text → ℕ → List Text → List Text → Result
  unfolding all_records normalize_host or_fallback
  section_events ts client port rrs (owner ∷ typ ∷ more) =
      if is_empty (normalize_host owner)
      then some []
      else some (
          or_fallback (plain_event ts client port (normalize_host owner) typ)
            (all_records ts client port (normalize_host owner) rrs))
  section_events ts client port rrs _ = some []

  unfoldable pub first_or_empty : List Text → Text
  first_or_empty [] = []
  first_or_empty (x ∷ xs) = x

  unfoldable pub counted_events : Time → Text → ℕ → Option (Text × Text) → Result
  unfolding section_events first_or_empty trim_space split_comma fields digits_value
  counted_events ts client port none = some []
  counted_events ts client port (some m) =
      let answers = trim_space m.1 in
      let rrs = split_comma answers in
      if digits_value 0 m.0 == 0 || is_empty answers
      then some []
      else section_events ts client port rrs (fields (first_or_empty rrs))

  unfoldable pub parse_tcpdump_response : Text → Time → Text → ℕ → Result
  unfolding last_index find_counts counted_events
  parse_tcpdump_response payload ts client port =
      counted_events ts client port (find_counts (cut_at (last_index payload (codes " (")) payload))

  -- The side that is no resolver, and whether the packet is a query.
  unfoldable pub direction : Text → Text × ℕ → Text × ℕ → Option (Bool × (Text × ℕ))
  unfolding payload_has_query_marker fields
  direction payload src dst =
      let marked = payload_has_query_marker (fields payload) in
      if dst.1 == 53 && src.1 == 53
      then (if marked then some (true, src) else some (false, dst))
      else (if dst.1 == 53
          then some (true, src)
          else (if src.1 == 53 then some (false, dst) else none))

  unfoldable pub client_events : Text → Text → Time → Option (Bool × (Text × ℕ)) → Result
  unfolding parse_tcpdump_query parse_tcpdump_response text_eq
  client_events resolver payload ts none = some []
  client_events resolver payload ts (some (is_query, client)) =
      if not (is_empty resolver) && text_eq client.0 resolver
      then some []
      else (if is_query
          then parse_tcpdump_query payload ts client.0 client.1
          else parse_tcpdump_response payload ts client.0 client.1)

  abbrev pub ends : Option (Text × ℕ) → Option (Text × ℕ) → Option ((Text × ℕ) × (Text × ℕ))
  ends none d = none
  ends (some s) none = none
  ends (some s) (some d) = some (s, d)

  unfoldable pub addressed : Text → Text → Text → Time → Option ((Text × ℕ) × (Text × ℕ)) → Result
  unfolding client_events direction
  addressed resolver payload s ts none = some []
  addressed resolver payload s ts (some (src, dst)) =
      client_events resolver payload ts (direction payload src dst)

  unfoldable pub at_colon : Text → Text → Time → ℕ → Option ℕ → Result
  unfolding addressed split_ip_port
  at_colon resolver s ts gt none = some []
  at_colon resolver s ts gt (some colon) =
      addressed resolver (drop (colon + 2) (drop (gt + 3) s)) s ts
        (ends (split_ip_port (take gt s)) (split_ip_port (take colon (drop (gt + 3) s))))

  unfoldable pub at_arrow : Text → Text → Time → Option ℕ → Result
  unfolding at_colon index
  at_arrow resolver s ts none = some []
  at_arrow resolver s ts (some gt) =
      at_colon resolver s ts gt (index (drop (gt + 3) s) (codes ": "))

  unfoldable pub parse_payload : Text → Text → Time → Result
  unfolding at_arrow index
  parse_payload resolver s ts = at_arrow resolver s ts (index s (codes " > "))

  module _ (next_day : Time → Time) where
    -- The state after a header at the time of day `tod`.
    unfoldable pub header : TcpdumpParser → Duration → Bool → TcpdumpParser
    header p tod udp =
        let base =
          if p.have_prev && ltb (12 * 3600 * second) (p.prev_tod - tod)
          then next_day p.base_date
          else p.base_date in
        record p {
          base_date = base;
          prev_tod = tod;
          have_prev = true;
          pending = udp;
          pending_time = if udp then base + tod else p.pending_time;
        }

    abbrev is_blank : ℕ → Bool
    is_blank c = c == 32 || c == 9

    unfoldable pub feed_header : Text → TcpdumpParser → TcpdumpParser
    unfolding header index_byte parse_tod contains
    feed_header line p = elim (parse_tod (cut_at (index_byte 32 line) line)) [
      | none ↦ record p { pending = false }
      | some tod ↦
          header p tod
            (contains line (codes "proto UDP") || contains line (codes "next-header UDP"))
    ]

    unfoldable pub feed : Text → TcpdumpParser → TcpdumpParser × Result
    unfolding feed_header parse_payload trim_left_by
    feed [] p = (p, some [])
    feed (c ∷ line) p =
        if is_blank c
        then (if not p.pending then (p, some []) else (
          record p { pending = false },
          parse_payload p.resolver_ip (trim_left_by is_blank (c ∷ line)) p.pending_time,
        ))
        else (feed_header (c ∷ line) p, some [])
