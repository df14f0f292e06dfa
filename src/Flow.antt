-- ===== src/Flow.antt =====
-- The flow messages of main.go, their enrichment, and the rows of batchwriter.go. Coordinates are
-- of any type `F`; a table that is not configured is `none`. An address is parsed by `parse_ip`,
-- Go's `net.ParseIP`.
pub mod Enrichment
use network_enricher.Prelude.{
  ℕ, ◌+◌, ◌-◌, ◌*◌, ◌%◌, ◌^◌, Bool, true, false, ◌||◌, not, Option, none, some, [], ◌∷◌, Text,
  is_empty, Time, ltb, ◌==◌, if◌then◌else◌,
}

pub record FlowMessage : Type 0 where
  pub flow_type : Text
  pub time_flow_start_ns : ℕ
  pub time_flow_end_ns : ℕ
  pub time_received_ns : ℕ
  pub src_addr : Text
  pub dst_addr : Text
  pub src_port : ℕ
  pub dst_port : ℕ
  pub proto : Text
  pub bytes : ℕ
  pub packets : ℕ
  pub sampling_rate : ℕ
  pub sampler_address : Text
  pub next_hop : Text
  pub src_as : ℕ
  pub dst_as : ℕ
  pub tcp_flags : ℕ
  pub in_if : ℕ
  pub out_if : ℕ
  pub sequence_num : ℕ
  pub etype : Text
  pub src_vlan : ℕ
  pub dst_vlan : ℕ
  pub forwarding_status : ℕ
  pub ip_tos : ℕ
  pub ip_ttl : ℕ
  pub observation_domain_id : ℕ

pub record GeoData (F : Type 0) : Type 0 where
  pub country_code : Text
  pub city : Text
  pub lat : F
  pub lon : F
  pub asn : ℕ
  pub org_name : Text

pub record EnrichedFlow (F : Type 0) : Type 0 where
  pub message : FlowMessage
  pub src_geo : GeoData F
  pub dst_geo : GeoData F
  pub tenant_id : ℕ
  pub tenant_name : Text
  pub dst_tenant_id : ℕ
  pub dst_tenant_name : Text
  pub src_mac_token : Text
  pub src_user_token : Text
  pub dst_mac_token : Text
  pub dst_user_token : Text
  pub src_hostname : Text
  pub dst_hostname : Text
  pub is_threat_src : Bool
  pub is_threat_dst : Bool
  pub threat_label : Text
  pub is_sampled : Bool
  pub expanded_bytes : ℕ
  pub expanded_packets : ℕ

-- The lookups of the five tables.
pub record Tables (F I : Type 0) : Type 0 where
  pub geo : Option (Option I → GeoData F)
  pub tenant : Option (Option I → ℕ × Text)
  pub threat : Option (Text → Option Text)
  pub identity : Option (Text → Text × Text)
  pub dns : Option (Text → Text → Text)

-- The counters of metrics.go that `enrich` moves.
pub record TagCounts : Type 0 where
  pub identity_hits : ℕ
  pub identity_misses : ℕ
  pub dns_hits : ℕ
  pub dns_misses : ℕ

abbrev pub is_hit : Option Text → Bool
is_hit none = false
is_hit (some l) = true

-- The label of the destination counts only if the source gave none, or an empty one.
unfoldable pub label_of : Option Text → Option Text → Text
label_of none none = []
label_of none (some d) = d
label_of (some s) none = s
label_of (some s) (some d) = if is_empty s then d else s

unfoldable pub expand : ℕ → ℕ → ℕ
expand rate n = if ltb 1 rate then (n * rate) % 2 ^ 64 else 0

module _ {F I : Type 0} (zero_float : F) (parse_ip : Text → Option I) where
  abbrev pub zero_geo : GeoData F
  zero_geo = record {
    country_code = [];
    city = [];
    lat = zero_float;
    lon = zero_float;
    asn = 0;
    org_name = [];
  }

  unfoldable pub geo_of : Tables F I → Text → GeoData F
  geo_of t addr = elim (t.geo) [ none ↦ zero_geo | some look ↦ look (parse_ip addr) ]

  unfoldable pub tenant_of : Tables F I → Text → ℕ × Text
  tenant_of t addr = elim (t.tenant) [ none ↦ (0, []) | some look ↦ look (parse_ip addr) ]

  unfoldable pub tokens_of : Tables F I → Text → Text × Text
  tokens_of t addr = elim (t.identity) [ none ↦ ([], []) | some look ↦ look addr ]

  unfoldable pub hostname_of : Tables F I → Text → Text → Text
  hostname_of t client answer = elim (t.dns) [ none ↦ [] | some look ↦ look client answer ]

  unfoldable pub threat_of : Tables F I → Text → Option Text
  threat_of t addr = elim (t.threat) [ none ↦ none | some look ↦ look addr ]

  unfoldable pub count_tags : Tables F I → FlowMessage → TagCounts → TagCounts
  unfolding tokens_of hostname_of
  count_tags t m c =
      let who =
        not (is_empty (tokens_of t m.src_addr).0) || not (is_empty (tokens_of t m.dst_addr).0) in
      let what =
        not (is_empty (hostname_of t m.dst_addr m.src_addr))
        || not (is_empty (hostname_of t m.src_addr m.dst_addr)) in
      let c' : TagCounts = elim (t.identity) [
        | none ↦ c
        | some look ↦
            if who
            then record c { identity_hits = c.identity_hits + 1 }
            else record c { identity_misses = c.identity_misses + 1 }
      ] in
      elim (t.dns) [
        | none ↦ c'
        | some look ↦
            if what
            then record c' { dns_hits = c'.dns_hits + 1 }
            else record c' { dns_misses = c'.dns_misses + 1 }
      ]

  unfoldable pub enrich : Tables F I → FlowMessage → EnrichedFlow F
  unfolding geo_of tenant_of tokens_of hostname_of threat_of label_of expand
  enrich t m = record {
    message = m;
    src_geo = geo_of t m.src_addr;
    dst_geo = geo_of t m.dst_addr;
    tenant_id = (tenant_of t m.src_addr).0;
    tenant_name = (tenant_of t m.src_addr).1;
    dst_tenant_id = (tenant_of t m.dst_addr).0;
    dst_tenant_name = (tenant_of t m.dst_addr).1;
    src_mac_token = (tokens_of t m.src_addr).0;
    src_user_token = (tokens_of t m.src_addr).1;
    dst_mac_token = (tokens_of t m.dst_addr).0;
    dst_user_token = (tokens_of t m.dst_addr).1;
    src_hostname = hostname_of t m.dst_addr m.src_addr;
    dst_hostname = hostname_of t m.src_addr m.dst_addr;
    is_threat_src = is_hit (threat_of t m.src_addr);
    is_threat_dst = is_hit (threat_of t m.dst_addr);
    threat_label = label_of (threat_of t m.src_addr) (threat_of t m.dst_addr);
    is_sampled = ltb 1 m.sampling_rate;
    expanded_bytes = expand m.sampling_rate m.bytes;
    expanded_packets = expand m.sampling_rate m.packets;
  }

pub record FlowRow (F : Type 0) : Type 0 where
  pub timestamp : Time
  pub tenant_id : ℕ
  pub tenant_name : Text
  pub dst_tenant_id : ℕ
  pub dst_tenant_name : Text
  pub src_mac_token : Text
  pub src_user_token : Text
  pub dst_mac_token : Text
  pub dst_user_token : Text
  pub src_hostname : Text
  pub dst_hostname : Text
  pub src_ip : Text
  pub dst_ip : Text
  pub src_port : ℕ
  pub dst_port : ℕ
  pub protocol : Text
  pub bytes : ℕ
  pub packets : ℕ
  pub src_country : Text
  pub src_city : Text
  pub src_lat : F
  pub src_lon : F
  pub src_asn : ℕ
  pub src_org : Text
  pub dst_country : Text
  pub dst_city : Text
  pub dst_lat : F
  pub dst_lon : F
  pub dst_asn : ℕ
  pub dst_org : Text
  pub is_threat_src : ℕ
  pub is_threat_dst : ℕ
  pub threat_label : Text
  pub is_sampled : ℕ
  pub sampling_rate : ℕ
  pub expanded_bytes : ℕ
  pub expanded_packets : ℕ
  pub exporter_ip : Text
  pub flow_type : Text

abbrev pub bit : Bool → ℕ
bit false = 0
bit true = 1

-- The Unix epoch, from the zero time.
abbrev pub unix_epoch : Time
unix_epoch = 62135596800000000000

-- `time.Unix(0, int64(ns))`: from 2^63 on the conversion is negative.
unfoldable pub unix_nanos : ℕ → Time
unix_nanos ns = if ltb ns (2 ^ 63) then unix_epoch + ns else unix_epoch - (2 ^ 64 - ns)

unfoldable pub to_flow_row : {F : Type 0} → EnrichedFlow F → FlowRow F
unfolding unix_nanos
to_flow_row e = record {
  timestamp =
      if e.message.time_flow_start_ns == 0
      then unix_nanos e.message.time_received_ns
      else unix_nanos e.message.time_flow_start_ns;
  tenant_id = e.tenant_id;
  tenant_name = e.tenant_name;
  dst_tenant_id = e.dst_tenant_id;
  dst_tenant_name = e.dst_tenant_name;
  src_mac_token = e.src_mac_token;
  src_user_token = e.src_user_token;
  dst_mac_token = e.dst_mac_token;
  dst_user_token = e.dst_user_token;
  src_hostname = e.src_hostname;
  dst_hostname = e.dst_hostname;
  src_ip = e.message.src_addr;
  dst_ip = e.message.dst_addr;
  src_port = e.message.src_port;
  dst_port = e.message.dst_port;
  protocol = e.message.proto;
  bytes = e.message.bytes;
  packets = e.message.packets;
  src_country = e.src_geo.country_code;
  src_city = e.src_geo.city;
  src_lat = e.src_geo.lat;
  src_lon = e.src_geo.lon;
  src_asn = e.src_geo.asn;
  src_org = e.src_geo.org_name;
  dst_country = e.dst_geo.country_code;
  dst_city = e.dst_geo.city;
  dst_lat = e.dst_geo.lat;
  dst_lon = e.dst_geo.lon;
  dst_asn = e.dst_geo.asn;
  dst_org = e.dst_geo.org_name;
  is_threat_src = bit e.is_threat_src;
  is_threat_dst = bit e.is_threat_dst;
  threat_label = e.threat_label;
  is_sampled = bit e.is_sampled;
  sampling_rate = e.message.sampling_rate;
  expanded_bytes = e.expanded_bytes;
  expanded_packets = e.expanded_packets;
  exporter_ip = e.message.sampler_address;
  flow_type = e.message.flow_type;
}
