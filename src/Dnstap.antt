-- ===== src/Dnstap.antt =====
-- dnstaplog.go: the parser of `dnstap-read -y` text as a state machine over lines. `net.ParseIP` and
-- `time.Parse(time.RFC3339, _)` are arguments. A result `none` is the error of a malformed block.
pub mod Blocks
pub mod Resync
use network_enricher.Prelude.{
  ℕ, ◌^◌, Bool, true, false, not, ◌&&◌, ◌||◌, Option, none, some, List, [], ◌∷◌, ◌++◌, length, map,
  take, drop, suc, Text, codes, text_eq, is_empty, is_space, trim_left_by, trim_byte, trim_space,
  trim_prefix, has_prefix, index_byte, fields, parse_uint, Time, is_zero, ◌==◌, if◌then◌else◌,
}
use network_enricher.Addresses.{Ip}
use network_enricher.DnsStore.{DnsEvent}
use network_enricher.DnsText.{parse_port, family_fits}
use network_enricher.Pseudonym.{normalize_host}

pub data Section : Type 0 where
  sect_none sect_question sect_answer : Section

pub record DnstapAnswer : Type 0 where
  pub qtype : Text
  pub answer_ip : Text
  pub ttl : ℕ

pub record DnstapParser : Type 0 where
  pub in_block : Bool
  pub in_literal : Bool
  pub kind : Text
  pub section : Section
  pub event_time : Time
  pub client_ip : Text
  pub client_port : ℕ
  pub qname : Text
  pub qtype : Text
  pub answers : List DnstapAnswer

-- `begin`
abbrev pub fresh_block : DnstapParser
fresh_block = record {
  in_block = true;
  in_literal = false;
  kind = [];
  section = sect_none;
  event_time = 0;
  client_ip = [];
  client_port = 0;
  qname = [];
  qtype = [];
  answers = [];
}

-- `reset`, and the parser that newDnstapDNSParser makes.
abbrev pub no_block : DnstapParser
no_block = record fresh_block { in_block = false }

unfoldable pub question_event : DnstapParser → DnsEvent
question_event p = record {
  event_time = p.event_time;
  client_ip = p.client_ip;
  client_port = p.client_port;
  qname = p.qname;
  qtype = p.qtype;
  answer_ip = [];
  ttl = 0;
  ttl_unknown = false;
}

unfoldable pub answer_event : DnstapParser → DnstapAnswer → DnsEvent
answer_event p a = record {
  event_time = p.event_time;
  client_ip = p.client_ip;
  client_port = p.client_port;
  qname = p.qname;
  qtype = a.qtype;
  answer_ip = a.answer_ip;
  ttl = a.ttl;
  ttl_unknown = false;
}

-- The events of a response: one for each answer, or the fallback.
unfoldable pub response_events : DnstapParser → List DnstapAnswer → List DnsEvent
unfolding question_event answer_event
response_events p [] = question_event p ∷ []
response_events p (a ∷ as') = map (answer_event p) (a ∷ as')

unfoldable pub block_events : DnstapParser → Option (List DnsEvent)
unfolding question_event response_events text_eq
block_events p =
    if not (text_eq p.kind (codes "CLIENT_QUERY")) && not (text_eq p.kind (codes "CLIENT_RESPONSE"))
    then some []
    else (if is_zero p.event_time || is_empty p.client_ip || is_empty p.qname
        then none
        else (if text_eq p.kind (codes "CLIENT_QUERY")
            then some (question_event p ∷ [])
            else some (response_events p p.answers)))

-- `flush`: the state afterwards, and the result.
unfoldable pub flush : DnstapParser → DnstapParser × Option (List DnsEvent)
unfolding block_events
flush p = if not p.in_block then (p, some []) else (no_block, block_events p)

abbrev key_value : Text → Option ℕ → Text × Text
key_value s none = (s, [])
key_value s (some i) = (take i s, trim_space (drop (suc i) s))

unfoldable pub split_dnstap_field : Text → Text × Text
unfolding index_byte trim_space
split_dnstap_field s = key_value s (index_byte 58 s)

abbrev last_or : Text → List Text → Text
last_or d [] = d
last_or d (f ∷ fs) = last_or f fs

unfoldable pub parse_question : Text → DnstapParser → DnstapParser
unfolding fields normalize_host
parse_question item p = elim (fields item) [
  | [] ↦ p
  | f0 ∷ rest ↦ elim rest [
    | [] ↦ p
    | f1 ∷ more ↦ record p { qname = normalize_host f0; qtype = last_or f1 more }
  ]
]

module _ (parse_ip : Text → Option Ip) (parse_rfc3339 : Text → Option Time) where
  -- The record of an item with fields owner, TTL, class, type, data.
  unfoldable pub answer_record : Text → Text → Text → Option DnstapAnswer
  unfolding parse_uint family_fits
  answer_record ttl typ rdata = elim (parse_uint (2 ^ 32) ttl) [
    | none ↦ none
    | some n ↦
        if family_fits typ (parse_ip rdata)
        then some (record { qtype = typ; answer_ip = rdata; ttl = n })
        else none
  ]

  unfoldable pub answer_of_fields : List Text → Option DnstapAnswer
  unfolding answer_record
  answer_of_fields (owner ∷ ttl ∷ class ∷ typ ∷ rdata ∷ more) = answer_record ttl typ rdata
  answer_of_fields _ = none

  abbrev with_answer : Option DnstapAnswer → DnstapParser → DnstapParser
  with_answer none p = p
  with_answer (some a) p = record p { answers = p.answers ++ a ∷ [] }

  unfoldable pub parse_answer : Text → DnstapParser → DnstapParser
  unfolding answer_of_fields fields
  parse_answer item p = with_answer (answer_of_fields (fields item)) p

  unfoldable pub parse_timestamp : Text → DnstapParser → DnstapParser
  unfolding trim_space trim_prefix
  parse_timestamp val p =
      elim (parse_rfc3339 (trim_space (trim_prefix val (codes "!!timestamp")))) [
        | none ↦ p
        | some t ↦ record p { event_time = t }
      ]

  unfoldable pub parse_item : Text → DnstapParser → DnstapParser
  unfolding parse_question parse_answer
  parse_item item p = elim (p.section) [
    | sect_question ↦ parse_question item p
    | sect_answer ↦ parse_answer item p
    | sect_none ↦ p
  ]

  -- The switch over the key of a line that is no list item.
  unfoldable pub parse_key : Text → Text → DnstapParser → DnstapParser
  unfolding parse_timestamp parse_port trim_byte text_eq
  parse_key key val p =
      if text_eq key (codes "type")
      then record p { kind = val }
      else (if text_eq key (codes "query_time") || text_eq key (codes "response_time")
          then parse_timestamp val p
          else (if text_eq key (codes "query_address")
              then record p { client_ip = trim_byte 34 val }
              else (if text_eq key (codes "query_port")
                  then record p { client_port = parse_port val }
                  else (if text_eq key (codes "query_message")
                        || text_eq key (codes "response_message")
                      then (if text_eq val (codes "|") then record p { in_literal = true } else p)
                      else (if text_eq key (codes "QUESTION_SECTION")
                          then record p { section = sect_question }
                          else (if text_eq key (codes "ANSWER_SECTION")
                              then record p { section = sect_answer }
                              else p))))))

  abbrev blank : ℕ → Bool
  blank c = c == 32 || c == 9

  unfoldable pub feed_indented : Text → DnstapParser → DnstapParser
  unfolding parse_item parse_key split_dnstap_field trim_left_by has_prefix trim_byte trim_prefix
  feed_indented line p =
      let content = trim_left_by blank line in
      let (key, val) = split_dnstap_field content in
      if not p.in_block || p.in_literal
      then p
      else (if has_prefix content (codes "- ")
          then parse_item (trim_byte 39 (trim_prefix content (codes "- "))) p
          else parse_key key val (record p { section = sect_none }))

  unfoldable pub feed_structural : Text → DnstapParser → DnstapParser × Option (List DnsEvent)
  unfolding flush has_prefix text_eq
  feed_structural line p0 =
      let p = record p0 { in_literal = false } in
      if text_eq line (codes "---")
      then flush p
      else (if has_prefix line (codes "type:") then (fresh_block, (flush p).1) else (p, some []))

  unfoldable pub feed : Text → DnstapParser → DnstapParser × Option (List DnsEvent)
  unfolding feed_indented feed_structural
  feed [] p = (p, some [])
  feed (c ∷ line) p =
      if blank c then (feed_indented (c ∷ line) p, some []) else feed_structural (c ∷ line) p

  -- The lines of a file in order, with the results of all calls.
  unfoldable pub feed_all : List Text → DnstapParser → DnstapParser × List (Option (List DnsEvent))
  unfolding feed
  feed_all [] p = (p, [])
  feed_all (l ∷ ls) p = let (p', r) = feed l p in let (q, rs) = feed_all ls p' in (q, r ∷ rs)
