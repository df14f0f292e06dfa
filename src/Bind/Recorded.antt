-- ===== src/Bind/Recorded.antt =====
-- What parseDNSLine of dnslog.go records of a line.
use network_enricher.Prelude.{
  ℕ, ◌^◌, ◌≡◌, ◌⊎◌, refl, sym, subst, inl, inr, arith, Bool, Bool-cases, true, false, not, ◌||◌,
  ◌&&◌, Option, none, some, some_inj, List, [], ◌∷◌, All, Text, codes, is_empty, contains,
  trim_space, parse_uint, Time, if◌then◌else◌,
}
use network_enricher.Addresses.{Ip}
use network_enricher.Bind.Scanners.{Prefix, Answer, find_prefix, find_answers}
use network_enricher.Bind.{
  Question, question_of, bare_event, answered_event, or_bare, with_ttl, answer_events, query_result,
  response_result, timed_result, parse_dns_time, parse_dns_line,
}
use network_enricher.DnsStore.{DnsEvent}
use network_enricher.DnsText.{family_fits, parse_port}
use network_enricher.Pseudonym.{normalize_host}

module _ (parse_ip : Text → Option Ip) (parse_time : Text → Option Time) where
  -- An event at the time `ts` of the question `q`: its name is not empty, its TTL is known, and it
  -- is a bare question, or its answer is an address of the family of its type.
  pub record IsRecord (ts : Time) (q : Question) (e : DnsEvent) : Type 0 where
    pub timed : e.event_time ≡ ts
    pub asked_by : e.client_ip ≡ q.client_ip
    pub from_port : e.client_port ≡ q.client_port
    pub same_name : e.qname ≡ q.qname
    pub named : is_empty e.qname ≡ false
    pub ttl_is_known : e.ttl_unknown ≡ false
    pub answered :
        ((e.answer_ip ≡ []) × (e.qtype ≡ q.qtype))
        ⊎ (family_fits e.qtype (parse_ip e.answer_ip) ≡ true)

  -- A query or a response.
  abbrev pub is_ours : Text → Bool
  is_ours line =
      not (is_empty line)
      && (contains line (codes ": response: ") || contains line (codes ": query: "))

  abbrev pub asked_in : Bool → Text → Option Question
  asked_in true line = question_of (find_prefix (codes "response:") line)
  asked_in false line = question_of (find_prefix (codes "query:") line)

  abbrev pub question_in : Text → Option Question
  question_in line = asked_in (contains line (codes ": response: ")) line

  -- A line that is none of ours gives no event. One of ours is malformed exactly if its time or its
  -- question cannot be read, and gives one event at least otherwise, all of them of that question
  -- at that time.
  pub data IsOutcome (line : Text) : Option (List DnsEvent) → Type 0 where
    foreign : is_ours line ≡ false → IsOutcome line (some [])
    malformed :
        is_ours line ≡ true
        → (parse_dns_time parse_ip parse_time line ≡ none) ⊎ (question_in line ≡ none)
        → IsOutcome line none
    recorded :
        (ts : Time) (q : Question) (e : DnsEvent) (es : List DnsEvent)
        → is_ours line ≡ true
        → parse_dns_time parse_ip parse_time line ≡ some ts
        → question_in line ≡ some q
        → All (IsRecord ts q) (e ∷ es)
        → IsOutcome line (some (e ∷ es))

  bare-IsRecord :
      (ts : Time) (q : Question) → is_empty q.qname ≡ false → IsRecord ts q (bare_event ts q)
  unfolding bare_event
  bare-IsRecord ts q h = record {
    timed = refl;
    asked_by = refl;
    from_port = refl;
    same_name = refl;
    named = h;
    ttl_is_known = refl;
    answered = inl (refl, refl);
  }

  question_of_named :
      (p : Option Prefix) (q : Question) → question_of p ≡ some q → is_empty q.qname ≡ false
  unfolding question_of
  question_of_named none q h = cc
  question_of_named (some p) q h = elim (Bool-cases (is_empty (normalize_host p.name))) [
    | inl k ↦ let e : none ≡ some q = rw (question_of, k) at h in cc
    | inr k ↦ named k (rw (question_of, k) at h)
  ]
    where
      named :
          is_empty (normalize_host p.name) ≡ false
          → some (record {
            client_ip = p.client;
            client_port = parse_port p.port;
            qname = normalize_host p.name;
            qtype = p.qtype;
          })
            ≡ some q
          → is_empty q.qname ≡ false
      named k e = let n = some_inj e in rw (← n) k

  with_ttl-IsRecord :
      (ts : Time) (q : Question) (a : Answer) (ttl : Option ℕ) (rest : List DnsEvent)
      → is_empty q.qname ≡ false
      → All (IsRecord ts q) rest
      → All (IsRecord ts q) (with_ttl parse_ip parse_time ts q a ttl rest)
  unfolding with_ttl answered_event
  with_ttl-IsRecord ts q a none rest h r = r
  with_ttl-IsRecord ts q a (some ttl) rest h r =
      elim (Bool-cases (family_fits a.rtype (parse_ip a.rdata))) [
        | inr k ↦ rw k r
        | inl k ↦ rw k (
          record {
            timed = refl;
            asked_by = refl;
            from_port = refl;
            same_name = refl;
            named = h;
            ttl_is_known = refl;
            answered = inr k;
          },
          r,
        )
      ]

  answer_events-IsRecord :
      (ts : Time) (q : Question) (as' : List Answer)
      → is_empty q.qname ≡ false
      → All (IsRecord ts q) (answer_events parse_ip parse_time ts q as')
  unfolding answer_events
  answer_events-IsRecord ts q [] h = tt
  answer_events-IsRecord ts q (a ∷ as') h =
      with_ttl-IsRecord ts q a (parse_uint (2 ^ 32) a.ttl)
        (answer_events parse_ip parse_time ts q as') h (answer_events-IsRecord ts q as' h)

  asked_in_named :
      (b : Bool) (line : Text) (q : Question) → asked_in b line ≡ some q → is_empty q.qname ≡ false
  asked_in_named true line q = question_of_named (find_prefix (codes "response:") line) q
  asked_in_named false line q = question_of_named (find_prefix (codes "query:") line) q

  -- A line of ours whose time and question are read.
  module _ (line : Text) (ts : Time) (q : Question) (ours : is_ours line ≡ true)
      (timed : parse_dns_time parse_ip parse_time line ≡ some ts)
      (asked : question_in line ≡ some q) where
    named : is_empty q.qname ≡ false
    named = asked_in_named (contains line (codes ": response: ")) line q asked

    or_bare-IsOutcome :
        (es : List DnsEvent) → All (IsRecord ts q) es → IsOutcome line (some (or_bare ts q es))
    unfolding or_bare
    or_bare-IsOutcome [] r =
        recorded ts q (bare_event ts q) [] ours timed asked (bare-IsRecord ts q named, tt)
    or_bare-IsOutcome (e ∷ es) r = recorded ts q e es ours timed asked r

    asked-IsOutcome :
        (b : Bool)
        → IsOutcome line (
            if b
            then response_result parse_ip parse_time ts line (some q)
            else query_result parse_ip parse_time ts (some q))
    unfolding response_result query_result
    asked-IsOutcome true =
        or_bare-IsOutcome (answer_events parse_ip parse_time ts q (find_answers line))
          (answer_events-IsRecord ts q (find_answers line) named)
    asked-IsOutcome false =
        recorded ts q (bare_event ts q) [] ours timed asked (bare-IsRecord ts q named, tt)

  timed_result_lem :
      (b : Bool) (line : Text) (ts : Time)
      → timed_result parse_ip parse_time line b (some ts) ≡ (
          if b
          then response_result parse_ip parse_time ts line (asked_in b line)
          else query_result parse_ip parse_time ts (asked_in b line))
  unfolding timed_result
  timed_result_lem true line ts = refl
  timed_result_lem false line ts = refl

  timed-IsOutcome :
      (line : Text) (o : Option Time)
      → is_ours line ≡ true
      → parse_dns_time parse_ip parse_time line ≡ o
      → IsOutcome line
          (timed_result parse_ip parse_time line (contains line (codes ": response: ")) o)
  unfolding timed_result
  timed-IsOutcome line none ours e = malformed ours (inl e)
  timed-IsOutcome line (some ts) ours e =
      subst (IsOutcome line) (sym (timed_result_lem response line ts)) (go (question_in line) refl)
    where
      response : Bool
      response = contains line (codes ": response: ")

      go :
          (q : Option Question)
          → question_in line ≡ q
          → IsOutcome line (
              if response
              then response_result parse_ip parse_time ts line q
              else query_result parse_ip parse_time ts q)
      go none k = none_asked response (malformed ours (inr k))
        where
          none_asked :
              (b : Bool)
              → IsOutcome line none
              → IsOutcome line (
                  if b
                  then response_result parse_ip parse_time ts line none
                  else query_result parse_ip parse_time ts none)
          none_asked true i = i
          none_asked false i = i
      go (some q) k = asked-IsOutcome line ts q ours e k response

  -- Whatever the line: it is none of ours, or malformed for a reason, or recorded.
  pub parse_dns_line-IsOutcome :
      (raw : Text) → IsOutcome (trim_space raw) (parse_dns_line parse_ip parse_time raw)
  unfolding parse_dns_line
  parse_dns_line-IsOutcome raw = go (trim_space raw)
    where
      go :
          (line : Text)
          → IsOutcome line (
              if is_empty line
                || not (contains line (codes ": response: ") || contains line (codes ": query: "))
              then some []
              else timed_result parse_ip parse_time line
                  (contains line (codes ": response: "))
                  (parse_dns_time parse_ip parse_time line))
      go line = elim (Bool-cases (is_ours line)) [
        | inl k ↦
            (let f : (is_empty line
                    || not
                        (contains line (codes ": response: ") || contains line (codes ": query: ")))
                  ≡ false =
                ground (arith, k) in
              rw f (timed-IsOutcome line (parse_dns_time parse_ip parse_time line) k refl))
        | inr k ↦
            (let f : (is_empty line
                    || not
                        (contains line (codes ": response: ") || contains line (codes ": query: ")))
                  ≡ true =
                ground (arith, k) in
              rw f (foreign k))
      ]
