-- ===== src/Trace/Query.antt =====
-- The parameterized queries of cmd/trace/main.go: the SQL, with `?` for each argument, and the
-- arguments.
pub mod Placeholders
use network_enricher.Prelude.{
  ℕ, Bool, true, false, not, Option, none, some, List, [], ◌∷◌, ◌++◌, Text, codes, is_empty, Time,
  if◌then◌else◌,
}
use network_enricher.Prelude.Int.{ℤ}
use network_enricher.Trace.Filter.{Filter, Destination}

pub data Arg : Type 0 where
  time_arg : Time → Arg
  text_arg : Text → Arg
  texts_arg : List Text → Arg
  asns_arg : List ℕ → Arg
  limit_arg : ℤ → Arg

pub record Query : Type 0 where
  pub sql : Text
  pub args : List Arg

-- A piece of SQL with its arguments; `WriteString` and `append` go together.
infixr 5 ◌then_write◌
unfoldable pub ◌then_write◌ : Query → Query → Query
a then_write b = record { sql = a.sql ++ b.sql; args = a.args ++ b.args }

abbrev pub nothing : Query
nothing = record { sql = []; args = [] }

abbrev pub no_asns : List ℕ → Bool
no_asns [] = true
no_asns (a ∷ as') = false

abbrev flows_head : Text
flows_head =
    codes
      "SELECT timestamp, src_ip, src_port, dst_ip, dst_port, protocol, bytes,\n       dst_asn, dst_org, exporter_ip, tenant_name\nFROM flows\nWHERE timestamp BETWEEN ? AND ?"

abbrev dns_head : Text
dns_head =
    codes
      "SELECT client_ip, qname, answer_ip, count() AS resolutions,\n       min(event_time) AS first_seen, max(event_time) AS last_seen\nFROM dns_events FINAL\nWHERE event_time BETWEEN ? AND ?"

module _ (f : Filter) where
  -- The predicate on the destination; `none` is the error that none is set.
  unfoldable pub destination_piece : Option Query
  destination_piece =
      if not (no_asns f.destination.dst_asns)
      then some (record {
        sql = codes "\n  AND dst_asn IN (?)";
        args = asns_arg f.destination.dst_asns ∷ [];
      })
      else if not (is_empty f.destination.dst_org)
      then some (record {
        sql = codes "\n  AND positionCaseInsensitive(dst_org, ?) > 0";
        args = text_arg f.destination.dst_org ∷ [];
      })
      else if not (is_empty f.destination.dst_ip)
      then some
          (record { sql = codes "\n  AND dst_ip = ?"; args = text_arg f.destination.dst_ip ∷ [] })
      else none

  unfoldable pub source_piece : Query
  source_piece =
      if not (is_empty f.src_ip)
      then record { sql = codes "\n  AND src_ip = ?"; args = text_arg f.src_ip ∷ [] }
      else nothing

  abbrev window_args : List Arg
  window_args = time_arg f.from ∷ time_arg f.to ∷ []

  abbrev pub flows_open : Query
  flows_open = record { sql = flows_head; args = window_args }

  abbrev pub flows_close : Query
  flows_close = record {
    sql = codes "\nORDER BY timestamp\nLIMIT ?";
    args = limit_arg f.limit ∷ [];
  }

  unfoldable pub around_piece : Query → Query
  unfolding ◌then_write◌ source_piece
  around_piece p = flows_open then_write p then_write source_piece then_write flows_close

  unfoldable pub build_query : Option Query
  unfolding destination_piece around_piece
  build_query = elim destination_piece [ none ↦ none | some p ↦ some (around_piece p) ]

  unfoldable pub resolved_piece : Query
  resolved_piece =
      if not (is_empty f.destination.qname)
      then record {
        sql = codes "\n  AND (qname = ? OR endsWith(qname, ?))";
        args = text_arg f.destination.qname ∷ text_arg (codes "." ++ f.destination.qname) ∷ [];
      }
      else record { sql = codes "\n  AND answer_ip = ?"; args = text_arg f.destination.dst_ip ∷ [] }

  abbrev pub dns_open : Query
  dns_open = record { sql = dns_head; args = window_args }

  abbrev pub dns_close : Query
  dns_close = record {
    sql = codes "\nGROUP BY client_ip, qname, answer_ip\nORDER BY client_ip, last_seen\nLIMIT ?";
    args = limit_arg f.limit ∷ [];
  }

  unfoldable pub build_dns_query : Query
  unfolding ◌then_write◌ resolved_piece
  build_dns_query = dns_open then_write resolved_piece then_write dns_close

unfoldable pub build_dhcp_query : List Text → Time → Time → Query
build_dhcp_query ips from to = record {
  sql =
      codes
        "SELECT event_time, event_id, ip, mac_token\nFROM identity_dhcp_events FINAL\nWHERE ip IN (?) AND event_time BETWEEN ? AND ?\nORDER BY ip, event_time, event_id, mac_token, host_token";
  args = texts_arg ips ∷ time_arg from ∷ time_arg to ∷ [];
}

unfoldable pub build_radius_query : List Text → Time → Time → Query
build_radius_query mac_tokens from to = record {
  sql =
      codes
        "SELECT event_time, acct_status, session_id, user_token, mac_token\nFROM identity_radius_events FINAL\nWHERE mac_token IN (?) AND event_time BETWEEN ? AND ?\nORDER BY mac_token, event_time, session_id, acct_status, user_token, nas_ip";
  args = texts_arg mac_tokens ∷ time_arg from ∷ time_arg to ∷ [];
}
