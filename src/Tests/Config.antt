-- ===== src/Tests/Config.antt =====
-- Runs of threat.go and identity_config.go.
use network_enricher.Prelude.{
  ◌≡◌, refl, true, false, none, some, List, [], ◌∷◌, Text, codes, text_eq,
}
use network_enricher.Threat.{lookup, refresh}
use network_enricher.Threat.Feed.{last_label, refresh-lookup}
use network_enricher.IdentityMode.Start.{
  Environment, disabled, start_identity, IsStart, start_identity-IsStart,
}

abbrev feed : List Text
feed = codes "# first,row" ∷ codes "1.2.3.4,443,2026-07-01,Emotet" ∷ [] ∷ codes "1.2.3.4,443" ∷ []

last_row_wins : lookup (codes "1.2.3.4") (refresh false feed []) ≡ some (codes "botnet_c2")
unfolding lookup refresh text_eq
last_row_wins = refl

refresh-lookup_example :
    (lookup (codes "1.2.3.4") (refresh false feed []) ≡ last_label (codes "1.2.3.4") feed)
    × (lookup (codes "1.2.3.4") (refresh true feed []) ≡ lookup (codes "1.2.3.4") [])
refresh-lookup_example = refresh-lookup (codes "1.2.3.4") feed []

-- A key file that cannot be loaded, and a DHCP directory.
abbrev no_key : Environment Text
no_key = record {
  key_file = codes "/run/key";
  nps_dir = [];
  dhcp_dir = codes "/logs/dhcp";
  upstream_anonymized = codes "TRUE";
  load_key = λ file. none;
  load_location = λ zone. some zone;
  nps_log_tz = [];
  dhcp_log_tz = codes "Asia/Bangkok";
  log_tz = [];
}

not_started : start_identity no_key ≡ disabled
unfolding start_identity text_eq
not_started = refl

start_identity-IsStart_example : IsStart no_key (start_identity no_key)
start_identity-IsStart_example = start_identity-IsStart no_key
