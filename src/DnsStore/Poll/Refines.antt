-- ===== src/DnsStore/Poll/Refines.antt =====
-- A scan of dnsstore.go applies and stores the events that its files give.
use network_enricher.Prelude.{
  ℕ, suc, length, length-append, ◌+◌, ◌≡◌, refl, sym, ap, ◌∙◌, subst, Bool, arith, Option, none,
  some, List, [], ◌∷◌, ◌++◌, map, Text, Time,
}
use network_enricher.DnsStore.{DnsEvent, DnsKey, DnsBinding, apply_dns, evict_expired}
use network_enricher.DnsStore.Poll.{
  Poller, PollConfig, with_writer, parser_or, set_parser, ingest_event, ingest_events,
  ingest_result, ingest_dns, drop_parser, scan,
}
use network_enricher.DnsStore.Writer.{DnsWriter, add, flush}
use network_enricher.LogFile.Feeds.{
  Feed, line, truncated, feed_all, dir_feeds, scan_appended_dir-feeds,
}
use network_enricher.LogFile.Lines.{append_assoc, append_nil}
use network_enricher.LogFile.{Entry, Polled}
use network_enricher.DnsStore.Poll.Files.{
  events_of, tag, told_events, file_events, of_file, file_isolated,
}

module _ {P : Type 0} (c : PollConfig P) where
  -- The entries after the events, in turn.
  abbrev pub apply_all : ℕ → List DnsEvent → List (DnsKey × DnsBinding) → List (DnsKey × DnsBinding)
  apply_all n [] es = es
  apply_all n (e ∷ rest) es =
      apply_all (n + 1) rest (apply_dns (c.clock n) c.max_size (c.order n) e es)

  abbrev pub buffer : List DnsEvent → DnsWriter → DnsWriter
  buffer es w = record w { dns = w.dns ++ es }

  -- What a sequence of events does to the poller.
  pub record Ingested (p q : Poller P) (es : List DnsEvent) : Type 0 where
    pub entries : q.entries ≡ apply_all p.parsed es p.entries
    pub parsed : q.parsed ≡ p.parsed + length es
    pub ch : q.ch ≡ with_writer (buffer es) p.ch

  apply_all-append :
      (n : ℕ) (xs ys : List DnsEvent) (es : List (DnsKey × DnsBinding))
      → apply_all n (xs ++ ys) es ≡ apply_all (n + length xs) ys (apply_all n xs es)
  apply_all-append n [] ys es = let e : n + 0 ≡ n = omega arith in rw e refl
  apply_all-append n (x ∷ xs) ys es =
      let e : n + suc (length xs) ≡ n + 1 + length xs = omega arith in
      rw e (apply_all-append (n + 1) xs ys (apply_dns (c.clock n) c.max_size (c.order n) x es))

  with_writer-append :
      (xs ys : List DnsEvent) (ch : Option DnsWriter)
      → with_writer (buffer ys) (with_writer (buffer xs) ch) ≡ with_writer (buffer (xs ++ ys)) ch
  with_writer-append xs ys none = refl
  with_writer-append xs ys (some w) =
      ap (λ d. some (record w { dns = d })) (append_assoc w.dns xs ys)

  with_writer-nothing : (ch : Option DnsWriter) → ch ≡ with_writer (buffer []) ch
  with_writer-nothing none = refl
  with_writer-nothing (some w) = ap (λ d. some (record w { dns = d })) (sym (append_nil w.dns))

  Ingested-then :
      (p q r : Poller P) (xs ys : List DnsEvent)
      → Ingested p q xs
      → Ingested q r ys
      → Ingested p r (xs ++ ys)
  Ingested-then p q r xs ys i j = record {
    entries =
        j.entries
        ∙ ap (apply_all q.parsed ys) i.entries
        ∙ ap (λ n. apply_all n ys (apply_all p.parsed xs p.entries)) i.parsed
        ∙ sym (apply_all-append p.parsed xs ys p.entries);
    parsed = let l = length-append xs ys in let a = i.parsed in let b = j.parsed in omega arith;
    ch = j.ch ∙ ap (with_writer (buffer ys)) i.ch ∙ with_writer-append xs ys p.ch;
  }

  Ingested-nothing :
      (p q : Poller P) → q.entries ≡ p.entries → q.parsed ≡ p.parsed → q.ch ≡ p.ch → Ingested p q []
  Ingested-nothing p q e n w = record {
    entries = e;
    parsed = omega arith;
    ch = w ∙ with_writer-nothing p.ch;
  }

  ingest_events-Ingested :
      (es : List DnsEvent) (p : Poller P) → Ingested p (ingest_events c es p) es
  unfolding ingest_events ingest_event add
  ingest_events-Ingested [] p = Ingested-nothing p p refl refl refl
  ingest_events-Ingested (e ∷ es) p =
      Ingested-then p (ingest_event c e p) (ingest_events c es (ingest_event c e p)) (e ∷ []) es
        (record { entries = refl; parsed = refl; ch = refl })
        (ingest_events-Ingested es (ingest_event c e p))

  ingest_result-Ingested :
      (o : Option (List DnsEvent)) (p : Poller P) → Ingested p (ingest_result c o p) (events_of o)
  unfolding ingest_result
  ingest_result-Ingested none p =
      Ingested-nothing p (record p { errors = p.errors + 1 }) refl refl refl
  ingest_result-Ingested (some es) p = ingest_events-Ingested es p

  parsers-ingest_events :
      (es : List DnsEvent) (p : Poller P) → (ingest_events c es p).parsers ≡ p.parsers
  unfolding ingest_events ingest_event
  parsers-ingest_events [] p = refl
  parsers-ingest_events (e ∷ es) p = parsers-ingest_events es (ingest_event c e p)

  parsers-ingest_result :
      (o : Option (List DnsEvent)) (p : Poller P) → (ingest_result c o p).parsers ≡ p.parsers
  unfolding ingest_result
  parsers-ingest_result none p = refl
  parsers-ingest_result (some es) p = parsers-ingest_events es p

  untag :
      (path : Text) (es : List DnsEvent) (rest : List (Text × DnsEvent))
      → map (λ x. x.1) (tag path es ++ rest) ≡ es ++ map (λ x. x.1) rest
  untag path [] rest = refl
  untag path (e ∷ es) rest = ap (◌∷◌ e) (untag path es rest)

  feeds-Ingested :
      (fs : List Feed) (p : Poller P)
      → Ingested p
          (feed_all (ingest_dns c) (drop_parser c) fs p)
          (map (λ x. x.1) (told_events c p.parsers fs))
  unfolding ingest_dns drop_parser
  feeds-Ingested [] p = Ingested-nothing p p refl refl refl
  feeds-Ingested (truncated path ∷ fs) p =
      let k = feeds-Ingested fs (drop_parser c path p) in
      record { entries = k.entries; parsed = k.parsed; ch = k.ch }
  feeds-Ingested (line path l ∷ fs) p =
      subst (Ingested p (feed_all (ingest_dns c) (drop_parser c) fs r))
        (sym (untag path (events_of result.1) (told_events c parsers fs)))
        (Ingested-then p r (feed_all (ingest_dns c) (drop_parser c) fs r) (events_of result.1)
          (map (λ x. x.1) (told_events c parsers fs))
          (record { entries = first.entries; parsed = first.parsed; ch = first.ch })
          (subst
            (λ ps.
              Ingested r (feed_all (ingest_dns c) (drop_parser c) fs r)
                (map (λ x. x.1) (told_events c ps fs)))
            (parsers-ingest_result result.1 q) (feeds-Ingested fs r)))
    where
      result : P × Option (List DnsEvent)
      result = c.feed (parser_or c.fresh (p.parsers path)) l

      parsers : Text → Option P
      parsers = set_parser path (some result.0) p.parsers

      q : Poller P
      q = record p { parsers = parsers }

      r : Poller P
      r = ingest_result c result.1 q

      first : Ingested q r (events_of result.1)
      first = ingest_result-Ingested result.1 q

  -- The events of the lines that the directory gives to a scan, each with the path of its file.
  abbrev pub scan_events : Option (List Entry) → Polled (Poller P) → List (Text × DnsEvent)
  scan_events entries p =
      told_events c p.state.parsers (dir_feeds c.limit c.dns_dir p.offsets entries)

  -- A scan applies the events of its lines to the map, one by one, and then evicts; the writer gets
  -- the same events and is flushed. The events that come from one file are those that its own lines
  -- give to its own parser, which starts afresh when the file is truncated.
  pub scan_refines :
      (entries : Option (List Entry)) (accepted : Bool) (now : Time) (p : Polled (Poller P))
      → ((scan c entries accepted now p).state.entries
          ≡ evict_expired now
              (apply_all p.state.parsed (map (λ x. x.1) (scan_events entries p)) p.state.entries))
        × ((scan c entries accepted now p).state.ch
            ≡ with_writer
                (flush accepted)
                (with_writer (buffer (map (λ x. x.1) (scan_events entries p))) p.state.ch))
        × ((path : Text)
            → of_file c path (scan_events entries p)
              ≡ file_events c path
                  (p.state.parsers path)
                  (dir_feeds c.limit c.dns_dir p.offsets entries))
  unfolding scan
  scan_refines entries accepted now p =
      let e = scan_appended_dir-feeds (ingest_dns c) (drop_parser c) c.limit c.dns_dir entries p in
      let fs = dir_feeds c.limit c.dns_dir p.offsets entries in
      let k = feeds-Ingested fs p.state in
      (
        ap (λ s. evict_expired now s.entries) e ∙ ap (evict_expired now) k.entries,
        ap (λ s. with_writer (flush accepted) s.ch) e ∙ ap (with_writer (flush accepted)) k.ch,
        λ path. file_isolated c path p.state.parsers fs,
      )
