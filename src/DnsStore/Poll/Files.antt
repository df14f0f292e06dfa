-- ===== src/DnsStore/Poll/Files.antt =====
-- The files that the poller of dnsstore.go follows do not disturb each other.
use network_enricher.Prelude.{
  ◌≡◌, refl, sym, ap, ◌∙◌, inl, inr, Bool-cases, false, Option, none, some, List, [], ◌∷◌, ◌++◌,
  map, Text, text_eq, text_eq_iff, text_eq_refl, if◌then◌else◌,
}
use network_enricher.Prelude.Sets.{filter}
use network_enricher.DnsStore.{DnsEvent}
use network_enricher.DnsStore.Poll.{PollConfig, parser_or, set_parser}
use network_enricher.LogFile.Feeds.{Feed, line, truncated}

abbrev pub events_of : Option (List DnsEvent) → List DnsEvent
events_of none = []
events_of (some es) = es

-- The events of one file, each with the path of its file.
abbrev pub tag : Text → List DnsEvent → List (Text × DnsEvent)
tag path es = map (λ e. (path, e)) es

module _ {P : Type 0} (c : PollConfig P) where
  -- The events of all files in the order of their lines.
  abbrev pub told_events : (Text → Option P) → List Feed → List (Text × DnsEvent)
  told_events parsers [] = []
  told_events parsers (line path l ∷ fs) =
      let (q, result) = c.feed (parser_or c.fresh (parsers path)) l in
      tag path (events_of result) ++ told_events (set_parser path (some q) parsers) fs
  told_events parsers (truncated path ∷ fs) = told_events (set_parser path none parsers) fs

  -- One file alone: its parser goes from line to line, and starts afresh when it is truncated.
  abbrev pub file_events : Text → Option P → List Feed → List DnsEvent
  file_events path o [] = []
  file_events path o (line q l ∷ fs) =
      let (p, result) = c.feed (parser_or c.fresh o) l in
      let mine = events_of result ++ file_events path (some p) fs in
      let others = file_events path o fs in if text_eq path q then mine else others
  file_events path o (truncated q ∷ fs) =
      let mine = file_events path none fs in
      let others = file_events path o fs in if text_eq path q then mine else others

  abbrev pub of_file : Text → List (Text × DnsEvent) → List DnsEvent
  of_file path es = map (λ x. x.1) (filter (λ x. text_eq path x.0) es)

  of_file-append :
      (path : Text) (xs ys : List (Text × DnsEvent))
      → of_file path (xs ++ ys) ≡ of_file path xs ++ of_file path ys
  unfolding filter
  of_file-append path [] ys = refl
  of_file-append path ((q, e) ∷ xs) ys = elim (Bool-cases (text_eq path q)) [
    | inl k ↦ rw (k, of_file-append path xs ys) refl
    | inr k ↦ rw (k, of_file-append path xs ys) refl
  ]

  of_file-tag_same : (path : Text) (es : List DnsEvent) → of_file path (tag path es) ≡ es
  unfolding filter
  of_file-tag_same path [] = refl
  of_file-tag_same path (e ∷ es) = rw (text_eq_refl path, of_file-tag_same path es) refl

  of_file-tag_other :
      (path q : Text) (es : List DnsEvent) → text_eq path q ≡ false → of_file path (tag q es) ≡ []
  unfolding filter
  of_file-tag_other path q [] k = refl
  of_file-tag_other path q (e ∷ es) k = rw (k, of_file-tag_other path q es k) refl

  -- The events that come from one file, among those of all files, are those that this file alone
  -- gives: however the lines of other files are mixed in between, and whichever are truncated.
  pub file_isolated :
      (path : Text) (parsers : Text → Option P) (fs : List Feed)
      → of_file path (told_events parsers fs) ≡ file_events path (parsers path) fs
  unfolding filter
  file_isolated path parsers [] = refl
  file_isolated path parsers (line q l ∷ fs) =
      let r = c.feed (parser_or c.fresh (parsers q)) l in
      let later = told_events (set_parser q (some r.0) parsers) fs in
      let ih = file_isolated path (set_parser q (some r.0) parsers) fs in
      of_file-append path (tag q (events_of r.1)) later
      ∙ ap (λ x. of_file path (tag q (events_of r.1)) ++ x) ih
      ∙ elim (Bool-cases (text_eq path q)) [
        | inl k ↦
            (let e : q ≡ path = sym ((text_eq_iff path q).0 k) in
              rw e (
                rw (text_eq_refl path) (
                  ap
                    (λ x.
                      x
                      ++ file_events path (some (c.feed (parser_or c.fresh (parsers path)) l).0) fs)
                    (of_file-tag_same path
                      (events_of (c.feed (parser_or c.fresh (parsers path)) l).1)))))
        | inr k ↦ rw (k, of_file-tag_other path q (events_of r.1) k) refl
      ]
  file_isolated path parsers (truncated q ∷ fs) =
      file_isolated path (set_parser q none parsers) fs
      ∙ elim (Bool-cases (text_eq path q)) [ inl k ↦ rw k refl | inr k ↦ rw k refl ]
