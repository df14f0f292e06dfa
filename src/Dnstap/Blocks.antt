-- ===== src/Dnstap/Blocks.antt =====
-- The events of dnstaplog.go are complete.
use network_enricher.Prelude.{
  ◌≡◌, refl, Bool-cases, false, not, ◌&&◌, ◌||◌, arith, Option, none, some, List, [], ◌∷◌, All,
  Text, codes, text_eq, is_empty, has_prefix, Time, is_zero, ◌==◌, inl, inr, map,
}
use network_enricher.Addresses.{Ip}
use network_enricher.DnsStore.{DnsEvent}
use network_enricher.Dnstap.{
  DnstapParser, DnstapAnswer, question_event, answer_event, response_events, block_events, flush,
  feed_structural, feed, feed_all,
}

-- The event has an instant, a client and a name, and a known TTL.
pub record Complete (e : DnsEvent) : Type 0 where
  pub timed : is_zero e.event_time ≡ false
  pub client : is_empty e.client_ip ≡ false
  pub named : is_empty e.qname ≡ false
  pub known : e.ttl_unknown ≡ false

abbrev pub AllComplete : Option (List DnsEvent) → Type 0
AllComplete none = Unit
AllComplete (some es) = All Complete es

module _ (p : DnstapParser) (c : Complete (question_event p)) where
  answers-Complete : (as' : List DnstapAnswer) → All Complete (map (answer_event p) as')
  unfolding answer_event question_event
  answers-Complete [] = tt
  answers-Complete (a ∷ as') = (
    record { timed = c.timed; client = c.client; named = c.named; known = refl },
    answers-Complete as',
  )

  response-Complete : (as' : List DnstapAnswer) → All Complete (response_events p as')
  unfolding response_events
  response-Complete [] = (c, tt)
  response-Complete (a ∷ as') = answers-Complete (a ∷ as')

whole :
    (p : DnstapParser)
    → (is_zero p.event_time || is_empty p.client_ip || is_empty p.qname) ≡ false
    → Complete (question_event p)
unfolding question_event
whole p r = record {
  timed = ground arith;
  client = ground arith;
  named = ground arith;
  known = refl;
}

block_events-Complete : (p : DnstapParser) → AllComplete (block_events p)
unfolding block_events
block_events-Complete p =
    elim (Bool-cases (
      not (text_eq p.kind (codes "CLIENT_QUERY"))
      && not (text_eq p.kind (codes "CLIENT_RESPONSE")))) [
        | inl q ↦ rw q tt
        | inr q ↦
            rw q
              (elim (Bool-cases
                (is_zero p.event_time || is_empty p.client_ip || is_empty p.qname)) [
                  | inl r ↦ rw r tt
                  | inr r ↦ rw r (elim (Bool-cases (text_eq p.kind (codes "CLIENT_QUERY"))) [
                    | inl t ↦ rw t (whole p r, tt)
                    | inr t ↦ rw t (response-Complete p (whole p r) p.answers)
                  ])
                ])
      ]

flush-Complete : (p : DnstapParser) → AllComplete (flush p).1
unfolding flush
flush-Complete p = elim (Bool-cases (not p.in_block)) [
  | inl q ↦ rw q tt
  | inr q ↦ rw q (block_events-Complete p)
]

module _ (parse_ip : Text → Option Ip) (parse_rfc3339 : Text → Option Time) where
  structural-Complete :
      (line : Text) (p : DnstapParser)
      → AllComplete (feed_structural parse_ip parse_rfc3339 line p).1
  unfolding feed_structural
  structural-Complete line p =
      let p' = record p { in_literal = false } in
      elim (Bool-cases (text_eq line (codes "---"))) [
        | inl q ↦ rw q (flush-Complete p')
        | inr q ↦ rw q (elim (Bool-cases (has_prefix line (codes "type:"))) [
          | inl r ↦ rw r (flush-Complete p')
          | inr r ↦ rw r tt
        ])
      ]

  feed-Complete :
      (line : Text) (p : DnstapParser) → AllComplete (feed parse_ip parse_rfc3339 line p).1
  unfolding feed
  feed-Complete [] p = tt
  feed-Complete (c ∷ line) p = elim (Bool-cases (c == 32 || c == 9)) [
    | inl q ↦ rw q tt
    | inr q ↦ rw q (structural-Complete (c ∷ line) p)
  ]

  -- Whatever the lines of a file and the state that the parser starts in, every event that it emits
  -- has an instant other than zero, a client, a name, and a known TTL.
  pub events-Complete :
      (lines : List Text) (p : DnstapParser)
      → All AllComplete (feed_all parse_ip parse_rfc3339 lines p).1
  unfolding feed_all
  events-Complete [] p = tt
  events-Complete (l ∷ ls) p =
      (feed-Complete l p, events-Complete ls (feed parse_ip parse_rfc3339 l p).0)
