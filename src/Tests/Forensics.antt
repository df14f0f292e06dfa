-- ===== src/Tests/Forensics.antt =====
-- Runs of cmd/trace/main.go.
use network_enricher.Prelude.{◌≡◌, refl, true, false, some, List, [], ◌∷◌, map, arith, Text, codes}
use network_enricher.Prelude.Int.{pos}
use network_enricher.Trace.Accepted.{IsAccepted, build_filter-IsAccepted}
use network_enricher.Trace.Filter.{Flags, Filter, pass, build_filter}
use network_enricher.Trace.Join.{DhcpRow, RadiusRow}
use network_enricher.Trace.Query.{build_query, build_dns_query}
use network_enricher.Trace.Query.Placeholders.{sql_of, sql_has_no_value}
use network_enricher.Trace.Who.Attribution.{Serves, attributed, run_who_attributes}
use network_enricher.Trace.Who.{Resolution, ClickHouse, run_who}

abbrev dhcp_log : List DhcpRow
dhcp_log = record { time = 50; event_id = 10; ip = codes "10.0.0.5"; mac_token = codes "m1" } ∷ []

abbrev radius_log : List RadiusRow
radius_log =
    record {
      time = 60;
      acct_status = codes "Start";
      session_id = codes "s1";
      user_token = codes "u1";
      mac_token = codes "m1";
    }
    ∷ []

abbrev resolution : Resolution
resolution = record {
  client_ip = codes "10.0.0.5";
  qname = codes "example.com";
  answer_ip = codes "192.0.2.1";
  resolutions = 2;
  first_seen = 90;
  last_seen = 110;
}

abbrev to_name : Text → Filter
to_name qname = record {
  from = 80;
  to = 120;
  destination = record { dst_asns = []; dst_org = []; dst_ip = []; qname = qname };
  src_ip = [];
  limit = pos 10;
  who = true;
}

abbrev db : ClickHouse
db = record {
  dns = λ q. some (resolution ∷ []);
  dhcp = λ q. some dhcp_log;
  radius = λ q. some radius_log;
}

db-Serves : Serves db dhcp_log radius_log
db-Serves = record {
  dhcp = λ ips from to. (dhcp_log, refl, record { sound = λ e i. i; complete = λ e i k l u. i });
  radius =
      λ macs from to. (radius_log, refl, record { sound = λ e i. i; complete = λ e i k l u. i });
}

run_who_attributes_example :
    run_who 100 100 db (to_name (codes "example.com"))
    ≡ some (map (attributed 100 100 dhcp_log radius_log) (resolution ∷ []))
run_who_attributes_example =
    run_who_attributes 100 100 db (to_name (codes "example.com")) dhcp_log radius_log db-Serves
      (resolution ∷ []) refl ((omega arith, omega arith), tt)

sql_has_no_value_example :
    (sql_of (build_query (to_name (codes "a.test")))
      ≡ sql_of (build_query (to_name (codes "'; --"))))
    × ((build_dns_query (to_name (codes "a.test"))).sql
        ≡ (build_dns_query (to_name (codes "'; --"))).sql)
sql_has_no_value_example =
    sql_has_no_value (to_name (codes "a.test")) (to_name (codes "'; --"))
      (refl, refl, refl, refl, refl)

abbrev flags : Flags
flags = record {
  who = true;
  qname = codes "Example.com.";
  service = [];
  dst_asn = 0;
  dst_org = [];
  dst_ip = [];
  around = codes "noon";
  window = pos 40;
  from = [];
  to = [];
  src_ip = [];
  limit = pos 10;
}

flags_accepted :
    build_filter (λ s. false) (λ layout s. some 100) flags ≡ pass (to_name (codes "example.com"))
unfolding build_filter
flags_accepted = refl

build_filter-IsAccepted_example : IsAccepted (pos 40) (to_name (codes "example.com"))
build_filter-IsAccepted_example =
    build_filter-IsAccepted (λ s. false) (λ layout s. some 100) flags
      (to_name (codes "example.com")) flags_accepted
