-- ===== src/LogFile/Feeds.antt =====
-- What a scan of filepoller.go tells its caller, as one sequence: each handler is a fold over it.
use network_enricher.Prelude.{
  ℕ, ◌≡◌, refl, sym, ap, ◌∙◌, inl, inr, Bool-cases, Option, none, some, List, [], ◌∷◌, ◌++◌, Text,
  text_eq, is_empty, if◌then◌else◌,
}
use network_enricher.LogFile.{
  Look, Read, Entry, Polled, read_appended_file, handle_all, scan_file, scan_entries,
  scan_appended_dir,
}

-- A call of `handle` or of `onTruncate`.
pub data Feed : Type 0 where
  line : Text → Text → Feed
  truncated : Text → Feed

abbrev line_feeds : Text → List Text → List Feed
line_feeds path [] = []
line_feeds path (l ∷ ls) = line path l ∷ line_feeds path ls

abbrev pub read_feeds : Text → Read → List Feed
read_feeds path r =
    if r.truncated then truncated path ∷ line_feeds path r.lines else line_feeds path r.lines

module _ (limit : ℕ) where
  -- The calls of one scan, for the offsets in front of it.
  unfoldable pub entry_feeds : (Text → ℕ) → List Entry → List Feed
  unfolding read_appended_file text_eq
  entry_feeds offsets [] = []
  entry_feeds offsets (e ∷ es) =
      let r = read_appended_file limit (offsets e.path) e.look in
      let rest = entry_feeds (λ q. if text_eq q e.path then r.offset else offsets q) es in
      let skipped = entry_feeds offsets es in
      if e.is_dir then skipped else read_feeds e.path r ++ rest

  unfoldable pub dir_feeds : Text → (Text → ℕ) → Option (List Entry) → List Feed
  unfolding entry_feeds
  dir_feeds dir offsets none = []
  dir_feeds dir offsets (some es) = if is_empty dir then [] else entry_feeds offsets es

module _ {S : Type 0} (handle : Text → Text → S → S) (on_truncate : Text → S → S) where
  abbrev pub feed_step : Feed → S → S
  feed_step (line path l) s = handle path l s
  feed_step (truncated path) s = on_truncate path s

  abbrev pub feed_all : List Feed → S → S
  feed_all [] s = s
  feed_all (f ∷ fs) s = feed_all fs (feed_step f s)

  feed_all-append :
      (fs gs : List Feed) (s : S) → feed_all (fs ++ gs) s ≡ feed_all gs (feed_all fs s)
  feed_all-append [] gs s = refl
  feed_all-append (f ∷ fs) gs s = feed_all-append fs gs (feed_step f s)

  handle_all-feeds :
      (limit : ℕ) (path : Text) (ls : List Text) (s : S)
      → handle_all limit handle on_truncate path ls s ≡ feed_all (line_feeds path ls) s
  unfolding handle_all
  handle_all-feeds limit path [] s = refl
  handle_all-feeds limit path (l ∷ ls) s = handle_all-feeds limit path ls (handle path l s)

  scan_file-feeds :
      (limit : ℕ) (path : Text) (look : Look) (p : Polled S)
      → (scan_file limit handle on_truncate path look p).state
        ≡ feed_all (read_feeds path (read_appended_file limit (p.offsets path) look)) p.state
  unfolding scan_file
  scan_file-feeds limit path look p = go (read_appended_file limit (p.offsets path) look)
    where
      go :
          (r : Read)
          → handle_all limit handle on_truncate path r.lines
              (if r.truncated then on_truncate path p.state else p.state)
            ≡ feed_all (read_feeds path r) p.state
      go r = elim (Bool-cases r.truncated) [
        | inl k ↦ rw k (handle_all-feeds limit path r.lines (on_truncate path p.state))
        | inr k ↦ rw k (handle_all-feeds limit path r.lines p.state)
      ]

  scan_entries-feeds :
      (limit : ℕ) (es : List Entry) (p : Polled S)
      → (scan_entries limit handle on_truncate es p).state
        ≡ feed_all (entry_feeds limit p.offsets es) p.state
  unfolding scan_entries entry_feeds scan_file
  scan_entries-feeds limit [] p = refl
  scan_entries-feeds limit (e ∷ es) p = elim (Bool-cases e.is_dir) [
    | inl k ↦ rw k (scan_entries-feeds limit es p)
    | inr k ↦
        (let r = read_appended_file limit (p.offsets e.path) e.look in
          let q = scan_file limit handle on_truncate e.path e.look p in
          let later = entry_feeds limit q.offsets es in
          rw k (
            scan_entries-feeds limit es q
            ∙ ap (feed_all later) (scan_file-feeds limit e.path e.look p)
            ∙ sym (feed_all-append (read_feeds e.path r) later p.state)))
  ]

  -- A scan of a directory changes the caller's state by the calls of its entries, one after the
  -- other.
  pub scan_appended_dir-feeds :
      (limit : ℕ) (dir : Text) (entries : Option (List Entry)) (p : Polled S)
      → (scan_appended_dir limit handle on_truncate dir entries p).state
        ≡ feed_all (dir_feeds limit dir p.offsets entries) p.state
  unfolding scan_appended_dir dir_feeds
  scan_appended_dir-feeds limit dir none p = refl
  scan_appended_dir-feeds limit dir (some es) p = elim (Bool-cases (is_empty dir)) [
    | inl k ↦ rw k refl
    | inr k ↦ rw k (scan_entries-feeds limit es p)
  ]
