-- ===== src/Tests/IdentityPoll.antt =====
-- A run of the poller of identity.go.
use network_enricher.Prelude.{false, none, some, Option, List, [], ◌∷◌, ◌++◌, map, Text, codes}
use network_enricher.Identity.Poll.Refines.{
  Ingested, nps_events, dhcp_events, buffer_dhcp, buffer_radius, scan-Ingested,
}
use network_enricher.Identity.Poll.{Poller, PollConfig, scan, scan_nps}
use network_enricher.Identity.Writer.{Answer, flush}
use network_enricher.Identity.{dhcp, radius, evict, new_identity_store}
use network_enricher.LogFile.{Entry, Polled}

abbrev config : PollConfig
config = record {
  limit = 200;
  nps_dir = codes "nps";
  dhcp_dir = codes "dhcp";
  tok = record { mac_token = λ mac. mac; user_token = λ user. user; host_token = λ host. host };
  unmarshal = λ s. some (
      (codes "Acct-Status-Type", codes "1")
      ∷ (codes "Timestamp", codes "now")
      ∷ (codes "Calling-Station-Id", codes "m1")
      ∷ (codes "User-Name", codes "u1")
      ∷ []);
  nps_millis = λ s. some 1000000000;
  nps_seconds = λ s. none;
  dhcp_time = λ s. some 7;
}

abbrev file : Text → Text → Option (List Entry)
file path content = some (
    record {
      is_dir = false;
      path = path;
      look = record { size = some 100; content = some content };
    }
    ∷ [])

abbrev dhcp_file : Option (List Entry)
dhcp_file =
    file (codes "dhcp/log")
      (codes "ID,Date,Time\r\n10,07/08/26,09:15:00,Assign,10.0.0.5,laptop,m1\r\n")

abbrev nps_file : Option (List Entry)
nps_file = file (codes "nps/log") (codes "<Event/>\n")

abbrev start : Polled Poller
start = record {
  offsets = λ path. 0;
  state = record {
    store = new_identity_store 1000000000 1000000000;
    ch = some (record { dhcp = []; radius = []; max_buffer = 10 });
    nps_errors = 0;
    nps_parsed = 0;
    dhcp_errors = 0;
    dhcp_parsed = 0;
  };
}

abbrev refused : Answer
refused = record { dhcp_ok = false; radius_ok = false }

scan-Ingested_example :
    Ingested start.state
      (scan config nps_file dhcp_file refused 8 start).state
      (map radius (nps_events config start.offsets nps_file)
        ++ (map dhcp (dhcp_events config (scan_nps config nps_file start).offsets dhcp_file)
            ++ (evict 8 ∷ [])))
      (λ w. flush refused (
        buffer_dhcp
          (dhcp_events config (scan_nps config nps_file start).offsets dhcp_file)
          (buffer_radius (nps_events config start.offsets nps_file) w)))
scan-Ingested_example = scan-Ingested config nps_file dhcp_file refused 8 start
