-- ===== src/Tests/LogPath.antt =====
-- Runs of the poller of log files, and of the parser of DHCP lines.
use network_enricher.Prelude.{
  ◌≡◌, refl, Bool, true, false, some, List, [], ◌∷◌, ◌++◌, map, drop, take, length, All, arith,
  Text, codes, trim_right_by, trim_left_by, trim_space,
}
use network_enricher.LogFile.{lines_of, read_appended_file}
use network_enricher.LogFile.Tail.{
  IsFollowed, IsRestart, nothing-IsFollowed, still, read_appended_file-IsFollowed,
  read_appended_file-restarts, emptied_file_is_skipped,
}
use network_enricher.LogFile.Progress.{scans, IsAtEnd, small-HasShortLines, scans_reach_end}
use network_enricher.LogFile.RoundTrip.{IsLine, written, scans-written}
use network_enricher.LogLine.Dhcp.{parse_dhcp_line}
use network_enricher.LogLine.Printed.{PrintedRow, assign, cells, printed, parse_dhcp_line-printed}
use network_enricher.LogLine.{parsed}
use network_enricher.Prelude.Splits.{IsFree}
use network_enricher.Pseudonym.{Tokenizer}

abbrev log : Text
log = codes "a\r\nb\nc"

first_read : (read_appended_file 100 0 (still log)).lines ≡ codes "a" ∷ codes "b" ∷ []
unfolding read_appended_file
first_read = refl

read_appended_file-IsFollowed_example :
    IsFollowed
      (codes "a\n" ++ codes "b\n")
      (read_appended_file 100 0
        (record { size = some 3; content = some (codes "a\n" ++ codes "b\n") })).offset
      ([]
        ++ (read_appended_file 100 0
            (record { size = some 3; content = some (codes "a\n" ++ codes "b\n") })).lines)
read_appended_file-IsFollowed_example =
    read_appended_file-IsFollowed 100 (codes "a\n") (codes "b\n") 3 0 []
      (nothing-IsFollowed (codes "a\n")) (omega arith)

read_appended_file-restarts_example :
    ((read_appended_file 100 9 (record { size = some 6; content = some log })).truncated ≡ true)
    × IsRestart 100 log 9
        (read_appended_file 100 9 (record { size = some 6; content = some log })).offset
        (read_appended_file 100 9 (record { size = some 6; content = some log })).lines
read_appended_file-restarts_example =
    read_appended_file-restarts 100 log 6 9 (omega arith) (omega arith)

emptied_file_is_skipped_example :
    ((read_appended_file 100 3 (still [])).truncated ≡ true)
    × ((read_appended_file 100 3 (still [])).offset ≡ 3)
    × ((read_appended_file 100 3 (still log)).lines
        ≡ (read_appended_file 100 0 (still (drop 3 log))).lines)
emptied_file_is_skipped_example = emptied_file_is_skipped 100 log 3 (omega arith) (omega arith)

abbrev two_lines : List (Text × Bool)
two_lines = (codes "a", true) ∷ (codes "bc", false) ∷ []

scans_reach_end_example :
    IsAtEnd 100 log (scans 100 log (length log) 0 []).0
    × ((scans 100 log (length log) 0 []).1
        ≡ lines_of (take (scans 100 log (length log) 0 []).0 log))
scans_reach_end_example = scans_reach_end 100 log (small-HasShortLines 100 log (omega arith))

-- Three bytes a scan are enough for the lines of this file.
by_three : (scans 3 (codes "a\r\nbc\n") 6 0 []).1 ≡ codes "a" ∷ codes "bc" ∷ []
unfolding scans
by_three = refl

two_lines-IsLine : All (λ l. IsLine l.0) two_lines
unfolding trim_right_by trim_left_by
two_lines-IsLine = (
  record { some_text = refl; one_line = ((λ e. absurd (omega arith)), tt); no_return = refl },
  (
    record {
      some_text = refl;
      one_line = ((λ e. absurd (omega arith)), ((λ e. absurd (omega arith)), tt));
      no_return = refl;
    },
    tt,
  ),
)

scans-written_example :
    (scans 100 (written two_lines) (length (written two_lines)) 0 []).1 ≡ map (λ l. l.0) two_lines
unfolding written
scans-written_example =
    scans-written 100 two_lines two_lines-IsLine
      (small-HasShortLines 100 (written two_lines) (omega arith))

abbrev tokens : Tokenizer
tokens = record { mac_token = λ mac. mac; user_token = λ user. user; host_token = λ host. host }

abbrev lease_row : PrintedRow
lease_row = record {
  change = assign;
  date = codes "07/08/26";
  clock = codes "09:15:00";
  description = codes "Assign";
  ip = codes " 10.0.0.5";
  host = codes "laptop";
  mac = codes "AABBCC";
  more = [] ∷ codes "0" ∷ [];
}

cells-IsFree : All (IsFree 44) (cells lease_row)
cells-IsFree = ground arith

parse_dhcp_line-printed_example :
    parse_dhcp_line tokens (λ s. some 7) (printed lease_row)
    ≡ parsed (record {
      event_time = 7;
      event_id = 10;
      ip = codes "10.0.0.5";
      mac_token = codes "AABBCC";
      host_token = codes "laptop";
    })
unfolding printed trim_space trim_right_by trim_left_by
parse_dhcp_line-printed_example =
    parse_dhcp_line-printed tokens (λ s. some 7) lease_row 7 cells-IsFree refl refl
