-- ===== src/DnsText.antt =====
-- What the DNS parsers share: ports, endpoints, and the check of an answered address. `net.ParseIP`
-- is an argument.
use network_enricher.Prelude.{
  ℕ, suc, ◌^◌, Bool, false, Option, none, some, take, drop, Text, codes, text_eq, parse_uint,
  last_index_byte,
}
use network_enricher.Addresses.{Ip, v4, v6}

-- `strconv.ParseUint(s, 10, 16)`
unfoldable pub parse_uint16 : Text → Option ℕ
unfolding parse_uint
parse_uint16 = parse_uint (2 ^ 16)

unfoldable pub port_or_zero : Option ℕ → ℕ
port_or_zero none = 0
port_or_zero (some p) = p

unfoldable pub parse_port : Text → ℕ
unfolding parse_uint16 port_or_zero
parse_port s = port_or_zero (parse_uint16 s)

abbrev endpoint : Text → Option ℕ → Option (Text × ℕ)
endpoint ip none = none
endpoint ip (some p) = some (ip, p)

unfoldable pub split_ip_port : Text → Option (Text × ℕ)
unfolding last_index_byte parse_uint16
split_ip_port s = elim (last_index_byte 46 s) [
  | none ↦ none
  | some i ↦ endpoint (take i s) (parse_uint16 (drop (suc i) s))
]

-- Is the record of the type "A" or "AAAA", and the address of that family?
unfoldable pub family_fits : Text → Option Ip → Bool
unfolding text_eq
family_fits typ none = false
family_fits typ (some (v4 n)) = text_eq typ (codes "A")
family_fits typ (some (v6 n)) = text_eq typ (codes "AAAA")
