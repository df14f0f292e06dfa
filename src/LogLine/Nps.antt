-- ===== src/LogLine/Nps.antt =====
-- parseNPSLine of npslog.go. `xml.Unmarshal` into a dtsEvent is an argument, the names and texts of
-- its elements in order, and `time.ParseInLocation` with each of the two layouts.
use network_enricher.Prelude.{
  ◌-◌, ◌%◌, ◌||◌, Option, none, some, List, [], ◌∷◌, Text, codes, text_eq, is_empty, trim_space,
  Time, if◌then◌else◌,
}
use network_enricher.DnsStore.{second}
use network_enricher.Identity.{RadiusEvent}
use network_enricher.LogLine.{LineOutcome, skipped, malformed, parsed}
use network_enricher.Pseudonym.{Tokenizer}

pub data NpsError : Type 0 where
  not_xml : NpsError
  invalid_timestamp : NpsError

-- `fields[name]`: the last element of a name counts, and an absent one reads as empty.
unfoldable pub field_of : Text → Text → List (Text × Text) → Text
unfolding text_eq trim_space
field_of value name [] = value
field_of value name ((n, v) ∷ fs) =
    field_of (if text_eq n name then trim_space v else value) name fs

unfoldable pub acct_status_name : Text → Text
unfolding trim_space text_eq
acct_status_name raw =
    let v = trim_space raw in
    if text_eq v (codes "1") || text_eq v (codes "Start")
    then codes "Start"
    else if text_eq v (codes "2") || text_eq v (codes "Stop")
    then codes "Stop"
    else if text_eq v (codes "3")
        || text_eq v (codes "Interim-Update")
        || text_eq v (codes "InterimUpdate")
    then codes "Interim-Update"
    else []

-- `t.Truncate(time.Second)`
abbrev pub truncate : Time → Time
truncate t = t - t % second

abbrev pub first_parsed : Option Time → Option Time → Option Time
first_parsed none o = o
first_parsed (some t) o = some t

abbrev pub truncated : Option Time → Option Time
truncated none = none
truncated (some t) = some (truncate t)

module _ (tok : Tokenizer) (unmarshal : Text → Option (List (Text × Text)))
    (parse_millis parse_seconds : Text → Option Time) where
  unfoldable pub parse_dts_time : Text → Option Time
  unfolding trim_space
  parse_dts_time raw =
      let v = trim_space raw in
      if is_empty v then none else truncated (first_parsed (parse_millis v) (parse_seconds v))

  unfoldable pub nps_event :
      Text → List (Text × Text) → Option Time → LineOutcome RadiusEvent NpsError
  unfolding field_of
  nps_event status fs none = malformed invalid_timestamp
  nps_event status fs (some ts) = parsed (record {
    event_time = ts;
    acct_status = status;
    session_id = field_of [] (codes "Acct-Session-Id") fs;
    user_token = tok.user_token (field_of [] (codes "User-Name") fs);
    mac_token = tok.mac_token (field_of [] (codes "Calling-Station-Id") fs);
    nas_ip = field_of [] (codes "NAS-IP-Address") fs;
  })

  unfoldable pub nps_fields : Option (List (Text × Text)) → LineOutcome RadiusEvent NpsError
  unfolding nps_event parse_dts_time acct_status_name field_of
  nps_fields none = malformed not_xml
  nps_fields (some fs) =
      let status = acct_status_name (field_of [] (codes "Acct-Status-Type") fs) in
      if is_empty status
      then skipped
      else nps_event status fs (
          first_parsed (parse_dts_time (field_of [] (codes "Timestamp") fs))
            (parse_dts_time (field_of [] (codes "Event-Timestamp") fs)))

  unfoldable pub parse_nps_line : Text → LineOutcome RadiusEvent NpsError
  unfolding nps_fields trim_space
  parse_nps_line raw =
      let line = trim_space raw in if is_empty line then skipped else nps_fields (unmarshal line)
