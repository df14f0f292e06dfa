-- ===== src/Tcpdump/Clients.antt =====
-- Whom tcpdumplog.go attributes a resolution to.
use network_enricher.Prelude.{
  ℕ, ◌≡◌, ◌⊎◌, refl, sym, subst, ◌+◌, Bool, Bool-cases, true, false, not, ◌&&◌, ◌||◌, arith, Option,
  none, some, List, [], ◌∷◌, ◌++◌, All, All-map, Text, codes, text_eq, is_empty, trim_space, fields,
  trim_suffix, trim_left_by, Time, ◌==◌, inl, inr, drop, take, index, last_index,
}
use network_enricher.Addresses.{Ip}
use network_enricher.DnsStore.{DnsEvent}
use network_enricher.DnsText.{split_ip_port, family_fits}
use network_enricher.Pseudonym.{normalize_host}
use network_enricher.Tcpdump.{
  TcpdumpParser, Result, query_events, parse_tcpdump_query, record_events, all_records,
  section_events, parse_tcpdump_response, client_events, parse_payload, feed, find_counts, ends,
  cut_at, find_question, direction, counted_events, digits_value, split_comma, first_or_empty,
  or_fallback, addressed, at_colon, at_arrow,
}

-- Every event of a result.
abbrev pub AllEvents : (DnsEvent → Type 0) → Result → Type 0
AllEvents P none = Unit
AllEvents P (some es) = All P es

-- The client of an event, and its answer: none, or an address of the record's family whose TTL is
-- not known.
pub record IsOf (parse_ip : Text → Option Ip) (client : Text) (e : DnsEvent) : Type 0 where
  pub asked : e.client_ip ≡ client
  pub answered :
      ((e.answer_ip ≡ []) × (e.ttl_unknown ≡ false))
      ⊎ ((family_fits e.qtype (parse_ip e.answer_ip) ≡ true) × (e.ttl_unknown ≡ true))

module _ (parse_ip : Text → Option Ip) where
  query_events-IsOf :
      (ts : Time) (client : Text) (port : ℕ) (o : Option (Text × Text))
      → AllEvents (IsOf parse_ip client) (query_events ts client port o)
  unfolding query_events
  query_events-IsOf ts client port none = tt
  query_events-IsOf ts client port (some (f, g)) =
      elim (Bool-cases (is_empty (trim_suffix f (codes "?")) || is_empty (normalize_host g))) [
        | inl q ↦ rw q tt
        | inr q ↦ rw q (record { asked = refl; answered = inl (refl, refl) }, tt)
      ]

  record_events-IsOf :
      (ts : Time) (client : Text) (port : ℕ) (qname : Text) (fs : List Text)
      → All (IsOf parse_ip client) (record_events parse_ip ts client port qname fs)
  unfolding record_events
  record_events-IsOf ts client port qname [] = tt
  record_events-IsOf ts client port qname (a ∷ []) = tt
  record_events-IsOf ts client port qname (a ∷ b ∷ []) = tt
  record_events-IsOf ts client port qname (owner ∷ typ ∷ rdata ∷ more) =
      elim (Bool-cases (family_fits typ (parse_ip rdata))) [
        | inl q ↦ rw q (record { asked = refl; answered = inr (q, refl) }, tt)
        | inr q ↦ rw q tt
      ]

  append-All :
      (P : DnsEvent → Type 0) (xs ys : List DnsEvent) → All P xs → All P ys → All P (xs ++ ys)
  append-All P [] ys h k = k
  append-All P (x ∷ xs) ys h k = (h.0, append-All P xs ys h.1 k)

  all_records-IsOf :
      (ts : Time) (client : Text) (port : ℕ) (qname : Text) (rrs : List Text)
      → All (IsOf parse_ip client) (all_records parse_ip ts client port qname rrs)
  unfolding all_records
  all_records-IsOf ts client port qname [] = tt
  all_records-IsOf ts client port qname (rr ∷ rrs) =
      append-All (IsOf parse_ip client) (record_events parse_ip ts client port qname (fields rr)) _
        (record_events-IsOf ts client port qname (fields rr))
        (all_records-IsOf ts client port qname rrs)

  or_fallback-All :
      (P : DnsEvent → Type 0) (e : DnsEvent) (es : List DnsEvent)
      → P e
      → All P es
      → All P (or_fallback parse_ip e es)
  unfolding or_fallback
  or_fallback-All P e [] p h = (p, tt)
  or_fallback-All P e (x ∷ es) p h = h

  section_events-IsOf :
      (ts : Time) (client : Text) (port : ℕ) (rrs fs : List Text)
      → AllEvents (IsOf parse_ip client) (section_events parse_ip ts client port rrs fs)
  unfolding section_events
  section_events-IsOf ts client port rrs [] = tt
  section_events-IsOf ts client port rrs (owner ∷ []) = tt
  section_events-IsOf ts client port rrs (owner ∷ typ ∷ more) =
      elim (Bool-cases (is_empty (normalize_host owner))) [
        | inl q ↦ rw q tt
        | inr q ↦ rw q (
            or_fallback-All (IsOf parse_ip client) _ _
              (record { asked = refl; answered = inl (refl, refl) })
              (all_records-IsOf ts client port (normalize_host owner) rrs))
      ]

  response_events-IsOf :
      (ts : Time) (client : Text) (port : ℕ) (o : Option (Text × Text))
      → AllEvents (IsOf parse_ip client) (counted_events parse_ip ts client port o)
  unfolding counted_events
  response_events-IsOf ts client port none = tt
  response_events-IsOf ts client port (some m) =
      let answers = trim_space m.1 in
      elim (Bool-cases (digits_value 0 m.0 == 0 || is_empty answers)) [
        | inl q ↦ rw q tt
        | inr q ↦ rw q (
            section_events-IsOf ts client port (split_comma answers)
              (fields (first_or_empty parse_ip (split_comma answers))))
      ]

  query-IsOf :
      (payload : Text) (ts : Time) (client : Text) (port : ℕ)
      → AllEvents (IsOf parse_ip client) (parse_tcpdump_query payload ts client port)
  unfolding parse_tcpdump_query
  query-IsOf payload ts client port =
      query_events-IsOf ts client port (find_question (drop 1 (fields payload)))

  response-IsOf :
      (payload : Text) (ts : Time) (client : Text) (port : ℕ)
      → AllEvents (IsOf parse_ip client) (parse_tcpdump_response parse_ip payload ts client port)
  unfolding parse_tcpdump_response
  response-IsOf payload ts client port =
      response_events-IsOf ts client port
        (find_counts (cut_at (last_index payload (codes " (")) payload))

-- An event of a capture whose resolver is known has another client.
pub record Admitted (parse_ip : Text → Option Ip) (resolver : Text) (e : DnsEvent) : Type 0 where
  pub foreign : (is_empty resolver ≡ true) ⊎ (text_eq e.client_ip resolver ≡ false)
  pub answered :
      ((e.answer_ip ≡ []) × (e.ttl_unknown ≡ false))
      ⊎ ((family_fits e.qtype (parse_ip e.answer_ip) ≡ true) × (e.ttl_unknown ≡ true))

module _ (parse_ip : Text → Option Ip) (resolver : Text) where
  admit :
      (client : Text) (r : Result)
      → (is_empty resolver ≡ true) ⊎ (text_eq client resolver ≡ false)
      → AllEvents (IsOf parse_ip client) r
      → AllEvents (Admitted parse_ip resolver) r
  admit client none f h = tt
  admit client (some es) f h =
      All-map
        (λ e i. record {
          foreign =
              subst (λ c. (is_empty resolver ≡ true) ⊎ (text_eq c resolver ≡ false)) (sym i.asked)
                f;
          answered = i.answered;
        })
        es h

  client_events-Admitted :
      (payload : Text) (ts : Time) (o : Option (Bool × (Text × ℕ)))
      → AllEvents (Admitted parse_ip resolver) (client_events parse_ip resolver payload ts o)
  unfolding client_events
  client_events-Admitted payload ts none = tt
  client_events-Admitted payload ts (some (is_query, client)) =
      elim (Bool-cases (not (is_empty resolver) && text_eq client.0 resolver)) [
        | inl q ↦ rw q tt
        | inr q ↦ rw q (elim (Bool-cases is_query) [
          | inl r ↦
              rw r
                (admit client.0 _ (ground arith) (query-IsOf parse_ip payload ts client.0 client.1))
          | inr r ↦ rw r (
              admit client.0 _ (ground arith) (response-IsOf parse_ip payload ts client.0 client.1))
        ])
      ]

  addressed-Admitted :
      (payload s : Text) (ts : Time) (o : Option ((Text × ℕ) × (Text × ℕ)))
      → AllEvents (Admitted parse_ip resolver) (addressed parse_ip resolver payload s ts o)
  unfolding addressed
  addressed-Admitted payload s ts none = tt
  addressed-Admitted payload s ts (some (src, dst)) =
      client_events-Admitted payload ts (direction parse_ip payload src dst)

  at_colon-Admitted :
      (s : Text) (ts : Time) (gt : ℕ) (o : Option ℕ)
      → AllEvents (Admitted parse_ip resolver) (at_colon parse_ip resolver s ts gt o)
  unfolding at_colon
  at_colon-Admitted s ts gt none = tt
  at_colon-Admitted s ts gt (some colon) =
      addressed-Admitted (drop (colon + 2) (drop (gt + 3) s)) s ts
        (ends parse_ip (split_ip_port (take gt s)) (split_ip_port (take colon (drop (gt + 3) s))))

  at_arrow-Admitted :
      (s : Text) (ts : Time) (o : Option ℕ)
      → AllEvents (Admitted parse_ip resolver) (at_arrow parse_ip resolver s ts o)
  unfolding at_arrow
  at_arrow-Admitted s ts none = tt
  at_arrow-Admitted s ts (some gt) =
      at_colon-Admitted s ts gt (index (drop (gt + 3) s) (codes ": "))

  parse_payload-Admitted :
      (s : Text) (ts : Time)
      → AllEvents (Admitted parse_ip resolver) (parse_payload parse_ip resolver s ts)
  unfolding parse_payload
  parse_payload-Admitted s ts = at_arrow-Admitted s ts (index s (codes " > "))

-- Whatever the line and the state of the parser: no event is emitted whose client is the configured
-- resolver, and every answer is an address of the record's family, whose TTL is marked as unknown.
pub feed-Admitted :
    (parse_ip : Text → Option Ip) (next_day : Time → Time) (line : Text) (p : TcpdumpParser)
    → AllEvents (Admitted parse_ip p.resolver_ip) (feed parse_ip next_day line p).1
unfolding feed
feed-Admitted parse_ip next_day [] p = tt
feed-Admitted parse_ip next_day (c ∷ line) p = elim (Bool-cases (c == 32 || c == 9)) [
  | inl q ↦ rw q (elim (Bool-cases (not p.pending)) [
    | inl r ↦ rw r tt
    | inr r ↦ rw r (
        parse_payload-Admitted parse_ip p.resolver_ip (trim_left_by (λ b. b == 32 || b == 9) line)
          p.pending_time)
  ])
  | inr q ↦ rw q tt
]
