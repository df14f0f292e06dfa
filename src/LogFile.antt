-- ===== src/LogFile.antt =====
-- filepoller.go: the lines that a scan of a log directory reads for the first time.
pub mod Lines
pub mod Tail
pub mod Progress
pub mod RoundTrip
pub mod Feeds
use network_enricher.Prelude.{
  ℕ, suc, ◌+◌, Bool, true, false, not, Option, none, some, List, [], ◌∷◌, map, take, drop, Text,
  is_empty, text_eq, trim_right_by, last_index_byte, split_byte, ltb, ◌==◌, if◌then◌else◌,
}
use network_enricher.Prelude.Sets.{filter}

-- What `os.Stat` and then `os.Open` and `io.ReadAll` see of a file, `none` for an error. The file
-- may grow in between.
pub record Look : Type 0 where
  pub size : Option ℕ
  pub content : Option Text

-- What one call of readAppendedFile does: the offset it leaves, whether it calls `onTruncate`, and
-- the lines that it hands over after that.
pub record Read : Type 0 where
  pub offset : ℕ
  pub truncated : Bool
  pub lines : List Text

unfoldable pub lines_of : Text → List Text
unfolding filter trim_right_by split_byte
lines_of part =
    filter (λ line. not (is_empty line)) (map (trim_right_by (λ c. c == 13)) (split_byte 10 part))

unfoldable pub complete_lines : ℕ → Bool → Text → Option ℕ → ℕ → Read
unfolding lines_of
complete_lines stored truncated chunk none off = record {
  offset = stored;
  truncated = truncated;
  lines = [];
}
complete_lines stored truncated chunk (some nl) off = record {
  offset = off + suc nl;
  truncated = truncated;
  lines = lines_of (take (suc nl) chunk);
}

-- `maxScanReadBytes`
abbrev pub max_scan_read_bytes : ℕ
max_scan_read_bytes = 8388608

module _ (limit : ℕ) where
  -- From `os.Open` on.
  unfoldable pub read_tail : ℕ → ℕ → Bool → Option Text → Read
  unfolding complete_lines last_index_byte
  read_tail stored off truncated none = record {
    offset = stored;
    truncated = truncated;
    lines = [];
  }
  read_tail stored off truncated (some content) =
      let chunk = take limit (drop off content) in
      complete_lines stored truncated chunk (last_index_byte 10 chunk) off

  unfoldable pub read_from : ℕ → ℕ → Bool → ℕ → Option Text → Read
  unfolding read_tail
  read_from stored off truncated size content =
      if size == off
      then record { offset = stored; truncated = truncated; lines = [] }
      else read_tail stored off truncated content

  -- `stored` is `offsets[path]`, which is 0 for a path that is not there.
  unfoldable pub read_sized : ℕ → Option ℕ → Option Text → Read
  unfolding read_from
  read_sized stored none content = record { offset = stored; truncated = false; lines = [] }
  read_sized stored (some size) content =
      if ltb size stored
      then read_from stored 0 true size content
      else read_from stored stored false size content

  unfoldable pub read_appended_file : ℕ → Look → Read
  unfolding read_sized
  read_appended_file stored look = read_sized stored look.size look.content

-- An entry of `os.ReadDir`, and what the scan sees of its file.
pub record Entry : Type 0 where
  pub is_dir : Bool
  pub path : Text
  pub look : Look

-- The offsets of all paths, and the caller's state.
pub record Polled (S : Type 0) : Type 0 where
  pub offsets : Text → ℕ
  pub state : S

-- `handle` and `onTruncate` change a state of the caller.
module _ {S : Type 0} (limit : ℕ) (handle : Text → Text → S → S) (on_truncate : Text → S → S) where
  unfoldable pub handle_all : Text → List Text → S → S
  handle_all path [] s = s
  handle_all path (line ∷ lines) s = handle_all path lines (handle path line s)

  unfoldable pub scan_file : Text → Look → Polled S → Polled S
  unfolding handle_all read_appended_file text_eq
  scan_file path look p =
      let r = read_appended_file limit (p.offsets path) look in
      record {
        offsets = λ q. if text_eq q path then r.offset else p.offsets q;
        state = handle_all path r.lines (if r.truncated then on_truncate path p.state else p.state);
      }

  unfoldable pub scan_entries : List Entry → Polled S → Polled S
  unfolding scan_file
  scan_entries [] p = p
  scan_entries (e ∷ es) p = scan_entries es (if e.is_dir then p else scan_file e.path e.look p)

  -- `none` stands for the error of `os.ReadDir`.
  unfoldable pub scan_appended_dir : Text → Option (List Entry) → Polled S → Polled S
  unfolding scan_entries
  scan_appended_dir dir none p = p
  scan_appended_dir dir (some entries) p = if is_empty dir then p else scan_entries entries p
