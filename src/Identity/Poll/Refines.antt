-- ===== src/Identity/Poll/Refines.antt =====
-- A scan of identity.go is a run of the operations of the store.
use network_enricher.Prelude.{
  ℕ, ◌≡◌, refl, sym, ap, ◌∙◌, Option, none, some, List, [], ◌∷◌, ◌++◌, map, Text, Time,
}
use network_enricher.Identity.{
  DhcpEvent, RadiusEvent, IdentityStore, Op, dhcp, radius, evict, step, run,
}
use network_enricher.Identity.Poll.{
  Poller, PollConfig, with_writer, nps_outcome, dhcp_outcome, ingest_nps, ingest_dhcp, scan_nps,
  scan_dhcp, finish_scan, scan,
}
use network_enricher.Identity.Writer.{EventWriter, Answer, add_dhcp, add_radius, flush}
use network_enricher.LogFile.Feeds.{
  Feed, line, truncated, feed_all, dir_feeds, scan_appended_dir-feeds,
}
use network_enricher.LogFile.Lines.{append_assoc, append_nil}
use network_enricher.LogFile.{Entry, Polled}
use network_enricher.LogLine.Dhcp.{DhcpError, parse_dhcp_line}
use network_enricher.LogLine.Nps.{NpsError, parse_nps_line}
use network_enricher.LogLine.{LineOutcome, skipped, malformed, parsed}

module _ {E X : Type 0} where
  abbrev cons_parsed : LineOutcome E X → List E → List E
  cons_parsed skipped es = es
  cons_parsed (malformed x) es = es
  cons_parsed (parsed e) es = e ∷ es

  -- The events of the lines that a scan hands over.
  abbrev pub parsed_events : (Text → LineOutcome E X) → List Feed → List E
  parsed_events parse [] = []
  parsed_events parse (line path l ∷ fs) = cons_parsed (parse l) (parsed_events parse fs)
  parsed_events parse (truncated path ∷ fs) = parsed_events parse fs

abbrev pub buffer_radius : List RadiusEvent → EventWriter → EventWriter
buffer_radius es w = record w { radius = w.radius ++ es }

abbrev pub buffer_dhcp : List DhcpEvent → EventWriter → EventWriter
buffer_dhcp es w = record w { dhcp = w.dhcp ++ es }

with_writer-same :
    (f : EventWriter → EventWriter) (ch : Option EventWriter)
    → ((w : EventWriter) → f w ≡ w)
    → ch ≡ with_writer f ch
with_writer-same f none h = refl
with_writer-same f (some w) h = ap some (sym (h w))

with_writer-with_writer :
    (f g h : EventWriter → EventWriter) (ch : Option EventWriter)
    → ((w : EventWriter) → g (f w) ≡ h w)
    → with_writer g (with_writer f ch) ≡ with_writer h ch
with_writer-with_writer f g h none e = refl
with_writer-with_writer f g h (some w) e = ap some (e w)

run-append : (s : IdentityStore) (xs ys : List Op) → run s (xs ++ ys) ≡ run (run s xs) ys
unfolding run
run-append s [] ys = refl
run-append s (x ∷ xs) ys = run-append (step s x) xs ys

-- The store and the writer after a sequence of operations.
pub record Ingested (p q : Poller) (ops : List Op) (add : EventWriter → EventWriter) : Type 0 where
  pub store : q.store ≡ run p.store ops
  pub ch : q.ch ≡ with_writer add p.ch

Ingested-then :
    (p q r : Poller) (ops more : List Op) (f g h : EventWriter → EventWriter)
    → ((w : EventWriter) → g (f w) ≡ h w)
    → Ingested p q ops f
    → Ingested q r more g
    → Ingested p r (ops ++ more) h
Ingested-then p q r ops more f g h e i j = record {
  store = j.store ∙ ap (λ s. run s more) i.store ∙ sym (run-append p.store ops more);
  ch = j.ch ∙ ap (with_writer g) i.ch ∙ with_writer-with_writer f g h p.ch e;
}

-- One of the two sources: its parser, its handler, and what an event is to the store and to the
-- writer.
module _ {E X : Type 0} (parse : Text → LineOutcome E X)
    (ingest : LineOutcome E X → Poller → Poller) (op : E → Op)
    (buffer : List E → EventWriter → EventWriter)
    (one : (o : LineOutcome E X) (p : Poller)
      → Ingested p (ingest o p) (map op (cons_parsed o [])) (buffer (cons_parsed o [])))
    (nothing : (w : EventWriter) → buffer [] w ≡ w)
    (more : (es fs : List E) (w : EventWriter)
      → buffer fs (buffer es w) ≡ buffer (es ++ fs) w) where
  feeds-Ingested :
      (fs : List Feed) (p : Poller)
      → Ingested p
          (feed_all (λ path l. ingest (parse l)) (λ path s. s) fs p)
          (map op (parsed_events parse fs))
          (buffer (parsed_events parse fs))
  unfolding run
  feeds-Ingested [] p = record { store = refl; ch = with_writer-same (buffer []) p.ch nothing }
  feeds-Ingested (truncated path ∷ fs) p = feeds-Ingested fs p
  feeds-Ingested (line path l ∷ fs) p =
      go (parse l) (one (parse l) p) (feeds-Ingested fs (ingest (parse l) p))
    where
      es : List E
      es = parsed_events parse fs

      after : Poller → Poller
      after q = feed_all (λ path l. ingest (parse l)) (λ path s. s) fs q

      go :
          (o : LineOutcome E X)
          → Ingested p (ingest o p) (map op (cons_parsed o [])) (buffer (cons_parsed o []))
          → Ingested (ingest o p) (after (ingest o p)) (map op es) (buffer es)
          → Ingested p (after (ingest o p)) (map op (cons_parsed o es)) (buffer (cons_parsed o es))
      go skipped i j =
          Ingested-then p (ingest skipped p) (after (ingest skipped p)) [] (map op es) (buffer [])
            (buffer es) (buffer es) (more [] es) i j
      go (malformed x) i j =
          Ingested-then p (ingest (malformed x) p) (after (ingest (malformed x) p)) [] (map op es)
            (buffer []) (buffer es) (buffer es) (more [] es) i j
      go (parsed e) i j =
          Ingested-then p (ingest (parsed e) p) (after (ingest (parsed e) p)) (op e ∷ [])
            (map op es) (buffer (e ∷ [])) (buffer es) (buffer (e ∷ es)) (more (e ∷ []) es) i j

radius_nothing : (w : EventWriter) → buffer_radius [] w ≡ w
radius_nothing w = ap (λ r. record w { radius = r }) (append_nil w.radius)

dhcp_nothing : (w : EventWriter) → buffer_dhcp [] w ≡ w
dhcp_nothing w = ap (λ r. record w { dhcp = r }) (append_nil w.dhcp)

radius_one :
    (o : LineOutcome RadiusEvent NpsError) (p : Poller)
    → Ingested p
        (nps_outcome o p)
        (map radius (cons_parsed o []))
        (buffer_radius (cons_parsed o []))
unfolding nps_outcome run step add_radius
radius_one skipped p = record {
  store = refl;
  ch = with_writer-same (buffer_radius []) p.ch radius_nothing;
}
radius_one (malformed x) p = record {
  store = refl;
  ch = with_writer-same (buffer_radius []) p.ch radius_nothing;
}
radius_one (parsed e) p = record { store = refl; ch = refl }

dhcp_one :
    (o : LineOutcome DhcpEvent DhcpError) (p : Poller)
    → Ingested p (dhcp_outcome o p) (map dhcp (cons_parsed o [])) (buffer_dhcp (cons_parsed o []))
unfolding dhcp_outcome run step add_dhcp
dhcp_one skipped p = record {
  store = refl;
  ch = with_writer-same (buffer_dhcp []) p.ch dhcp_nothing;
}
dhcp_one (malformed x) p = record {
  store = refl;
  ch = with_writer-same (buffer_dhcp []) p.ch dhcp_nothing;
}
dhcp_one (parsed e) p = record { store = refl; ch = refl }

module _ (c : PollConfig) where
  abbrev pub nps_parser : Text → LineOutcome RadiusEvent NpsError
  nps_parser = parse_nps_line c.tok c.unmarshal c.nps_millis c.nps_seconds

  abbrev pub dhcp_parser : Text → LineOutcome DhcpEvent DhcpError
  dhcp_parser = parse_dhcp_line c.tok c.dhcp_time

  -- The events of the lines that the two directories give to a scan.
  abbrev pub nps_events : (Text → ℕ) → Option (List Entry) → List RadiusEvent
  nps_events offsets entries =
      parsed_events nps_parser (dir_feeds c.limit c.nps_dir offsets entries)

  abbrev pub dhcp_events : (Text → ℕ) → Option (List Entry) → List DhcpEvent
  dhcp_events offsets entries =
      parsed_events dhcp_parser (dir_feeds c.limit c.dhcp_dir offsets entries)

  scan_nps-Ingested :
      (entries : Option (List Entry)) (p : Polled Poller)
      → Ingested p.state
          (scan_nps c entries p).state
          (map radius (nps_events p.offsets entries))
          (buffer_radius (nps_events p.offsets entries))
  unfolding scan_nps ingest_nps
  scan_nps-Ingested entries p =
      rw (scan_appended_dir-feeds (ingest_nps c) (λ path s. s) c.limit c.nps_dir entries p) (
        feeds-Ingested nps_parser nps_outcome radius buffer_radius radius_one radius_nothing
          (λ es fs w. ap (λ r. record w { radius = r }) (append_assoc w.radius es fs))
          (dir_feeds c.limit c.nps_dir p.offsets entries) p.state)

  scan_dhcp-Ingested :
      (entries : Option (List Entry)) (p : Polled Poller)
      → Ingested p.state
          (scan_dhcp c entries p).state
          (map dhcp (dhcp_events p.offsets entries))
          (buffer_dhcp (dhcp_events p.offsets entries))
  unfolding scan_dhcp ingest_dhcp
  scan_dhcp-Ingested entries p =
      rw (scan_appended_dir-feeds (ingest_dhcp c) (λ path s. s) c.limit c.dhcp_dir entries p) (
        feeds-Ingested dhcp_parser dhcp_outcome dhcp buffer_dhcp dhcp_one dhcp_nothing
          (λ es fs w. ap (λ r. record w { dhcp = r }) (append_assoc w.dhcp es fs))
          (dir_feeds c.limit c.dhcp_dir p.offsets entries) p.state)

  -- A scan runs on the live store the session events of the NPS lines that it reads, then the lease
  -- events of the DHCP lines, each in the order of the lines, and an eviction. The writer, if there
  -- is one, gets the same events behind those that it holds, and is flushed once.
  pub scan-Ingested :
      (nps dhcp_entries : Option (List Entry)) (answer : Answer) (now : Time) (p : Polled Poller)
      → Ingested p.state
          (scan c nps dhcp_entries answer now p).state
          (map radius (nps_events p.offsets nps)
            ++ (map dhcp (dhcp_events (scan_nps c nps p).offsets dhcp_entries) ++ (evict now ∷ [])))
          (λ w. flush answer (
            buffer_dhcp
              (dhcp_events (scan_nps c nps p).offsets dhcp_entries)
              (buffer_radius (nps_events p.offsets nps) w)))
  unfolding scan finish_scan run step
  scan-Ingested nps dhcp_entries answer now p =
      let q = scan_nps c nps p in
      let r = scan_dhcp c dhcp_entries q in
      let rs = nps_events p.offsets nps in
      let ds = dhcp_events q.offsets dhcp_entries in
      Ingested-then p.state q.state (finish_scan c answer now r.state) (map radius rs)
        (map dhcp ds ++ (evict now ∷ [])) (buffer_radius rs) (λ w. flush answer (buffer_dhcp ds w))
        (λ w. flush answer (buffer_dhcp ds (buffer_radius rs w))) (λ w. refl)
        (scan_nps-Ingested nps p)
        (Ingested-then q.state r.state (finish_scan c answer now r.state) (map dhcp ds)
          (evict now ∷ []) (buffer_dhcp ds) (flush answer) (λ w. flush answer (buffer_dhcp ds w))
          (λ w. refl) (scan_dhcp-Ingested dhcp_entries q) (record { store = refl; ch = refl }))
