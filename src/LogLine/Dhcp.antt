-- ===== src/LogLine/Dhcp.antt =====
-- parseDHCPLine of dhcplog.go. `time.ParseInLocation` with the layout and the location is an
-- argument.
use network_enricher.Prelude.{
  ℕ, zero, suc, ◌+◌, ◌-◌, ◌^◌, ◌%◌, Bool, false, not, ◌||◌, Option, none, some, List, [], ◌∷◌, ◌++◌,
  length, Text, codes, is_empty, trim_space, split_byte, parse_uint, Time, ltb, ◌==◌, if◌then◌else◌,
}
use network_enricher.Prelude.Int.{ℤ, pos, negsuc}
use network_enricher.Identity.{DhcpEvent}
use network_enricher.LogLine.{LineOutcome, skipped, malformed, parsed}
use network_enricher.Pseudonym.{Tokenizer}

pub data DhcpError : Type 0 where
  short_dhcp_row : DhcpError
  invalid_timestamp : DhcpError

abbrev negative : Option ℕ → Option ℤ
negative none = none
negative (some zero) = some (pos 0)
negative (some (suc n)) = some (negsuc n)

abbrev positive : Option ℕ → Option ℤ
positive none = none
positive (some n) = some (pos n)

-- `strconv.Atoi` of 64 bits: a sign or none, and digits; `none` is an error.
unfoldable pub atoi : Text → Option ℤ
unfolding parse_uint
atoi [] = none
atoi (c ∷ s) =
    if c == 45
    then negative (parse_uint (2 ^ 63 + 1) s)
    else if c == 43
    then positive (parse_uint (2 ^ 63) s)
    else positive (parse_uint (2 ^ 63) (c ∷ s))

-- `id != 10 && id != 11 && id != 12`, negated.
unfoldable pub is_lease_change : ℤ → Bool
is_lease_change (pos n) = n == 10 || n == 11 || n == 12
is_lease_change (negsuc n) = false

-- `uint16(id)`
unfoldable pub uint16 : ℤ → ℕ
uint16 (pos n) = n % 2 ^ 16
uint16 (negsuc n) = (2 ^ 16 - 1) - n % 2 ^ 16

-- `fields[i]`, of a slice that is long enough.
unfoldable pub column : ℕ → List Text → Text
column i [] = []
column zero (f ∷ fs) = f
column (suc i) (f ∷ fs) = column i fs

module _ (tok : Tokenizer) (parse_time : Text → Option Time) where
  unfoldable pub dhcp_event : ℤ → List Text → Option Time → LineOutcome DhcpEvent DhcpError
  unfolding column uint16
  dhcp_event id fs none = malformed invalid_timestamp
  dhcp_event id fs (some ts) = parsed (record {
    event_time = ts;
    event_id = uint16 id;
    ip = trim_space (column 4 fs);
    mac_token = tok.mac_token (column 6 fs);
    host_token = tok.host_token (column 5 fs);
  })

  unfoldable pub dhcp_row : ℤ → List Text → LineOutcome DhcpEvent DhcpError
  unfolding dhcp_event is_lease_change trim_space column
  dhcp_row id fs =
      if not (is_lease_change id)
      then skipped
      else if ltb (length fs) 7
      then malformed short_dhcp_row
      else dhcp_event id fs
          (parse_time (trim_space (column 1 fs) ++ codes " " ++ trim_space (column 2 fs)))

  unfoldable pub dhcp_numbered : List Text → Option ℤ → LineOutcome DhcpEvent DhcpError
  unfolding dhcp_row
  dhcp_numbered fs none = skipped
  dhcp_numbered fs (some id) = dhcp_row id fs

  unfoldable pub parse_dhcp_line : Text → LineOutcome DhcpEvent DhcpError
  unfolding dhcp_numbered trim_space split_byte atoi column
  parse_dhcp_line raw =
      let line = trim_space raw in
      let fs = split_byte 44 line in
      if is_empty line then skipped else dhcp_numbered fs (atoi (trim_space (column 0 fs)))
