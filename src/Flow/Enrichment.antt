-- ===== src/Flow/Enrichment.antt =====
-- How the two directions of a conversation are enriched, in main.go, and stored, in
-- batchwriter.go.
use network_enricher.Prelude.{
  ◌*◌, ◌^◌, ℕ, ◌≤◌, ◌<◌, ◌≡◌, refl, false, ◌||◌, ◌⊎◌, inl, inr, Bool-cases, Option, none, some, [],
  Text, arith, ltb,
}
use network_enricher.Flow.{
  GeoData, tenant_of, tokens_of, hostname_of, geo_of, bit, FlowMessage, Tables, FlowRow, enrich,
  threat_of, label_of, expand, is_hit, to_flow_row,
}

-- The message of the return half: source and destination are exchanged.
unfoldable pub reply : FlowMessage → FlowMessage
reply m = record m {
  src_addr = m.dst_addr;
  dst_addr = m.src_addr;
  src_port = m.dst_port;
  dst_port = m.src_port;
  src_as = m.dst_as;
  dst_as = m.src_as;
  src_vlan = m.dst_vlan;
  dst_vlan = m.src_vlan;
}

-- What a stored row tells of one end of the flow.
pub record End (F : Type 0) : Type 0 where
  pub address : Text
  pub port : ℕ
  pub tenant : ℕ × Text
  pub tokens : Text × Text
  pub hostname : Text
  pub geo : GeoData F
  pub is_threat : ℕ

abbrev pub source_end : {F : Type 0} → FlowRow F → End F
source_end r = record {
  address = r.src_ip;
  port = r.src_port;
  tenant = (r.tenant_id, r.tenant_name);
  tokens = (r.src_mac_token, r.src_user_token);
  hostname = r.src_hostname;
  geo = record {
    country_code = r.src_country;
    city = r.src_city;
    lat = r.src_lat;
    lon = r.src_lon;
    asn = r.src_asn;
    org_name = r.src_org;
  };
  is_threat = r.is_threat_src;
}

abbrev pub destination_end : {F : Type 0} → FlowRow F → End F
destination_end r = record {
  address = r.dst_ip;
  port = r.dst_port;
  tenant = (r.dst_tenant_id, r.dst_tenant_name);
  tokens = (r.dst_mac_token, r.dst_user_token);
  hostname = r.dst_hostname;
  geo = record {
    country_code = r.dst_country;
    city = r.dst_city;
    lat = r.dst_lat;
    lon = r.dst_lon;
    asn = r.dst_asn;
    org_name = r.dst_org;
  };
  is_threat = r.is_threat_dst;
}

-- The row without what it tells of the ends.
abbrev pub without_ends : {F : Type 0} → F → FlowRow F → FlowRow F
without_ends zero_float r = record r {
  tenant_id = 0;
  tenant_name = [];
  dst_tenant_id = 0;
  dst_tenant_name = [];
  src_mac_token = [];
  src_user_token = [];
  dst_mac_token = [];
  dst_user_token = [];
  src_hostname = [];
  dst_hostname = [];
  src_ip = [];
  dst_ip = [];
  src_port = 0;
  dst_port = 0;
  src_country = [];
  src_city = [];
  src_lat = zero_float;
  src_lon = zero_float;
  src_asn = 0;
  src_org = [];
  dst_country = [];
  dst_city = [];
  dst_lat = zero_float;
  dst_lon = zero_float;
  dst_asn = 0;
  dst_org = [];
  is_threat_src = 0;
  is_threat_dst = 0;
  threat_label = [];
}

module _ {F I : Type 0} (zero_float : F) (parse_ip : Text → Option I) (t : Tables F I) where
  -- What the tables say of the end at an address, in a flow with the other end at `peer`. The
  -- hostname is the one that the peer resolved to the address.
  abbrev pub end_at : Text → ℕ → Text → End F
  end_at address port peer = record {
    address = address;
    port = port;
    tenant = tenant_of zero_float parse_ip t address;
    tokens = tokens_of zero_float parse_ip t address;
    hostname = hostname_of zero_float parse_ip t peer address;
    geo = geo_of zero_float parse_ip t address;
    is_threat = bit (is_hit (threat_of zero_float parse_ip t address));
  }

  -- The stored rows of a message and of its return half tell what the tables say of each end, and
  -- differ in nothing but the roles of the ends and the label.
  pub record Mirrors (m : FlowMessage) (r r' : FlowRow F) : Type 0 where
    pub source : source_end r ≡ end_at m.src_addr m.src_port m.dst_addr
    pub destination : destination_end r ≡ end_at m.dst_addr m.dst_port m.src_addr
    pub reply_source : source_end r' ≡ destination_end r
    pub reply_destination : destination_end r' ≡ source_end r
    pub rest : without_ends zero_float r' ≡ without_ends zero_float r
    pub label : (r'.threat_label ≡ r.threat_label) ⊎ ((r.is_threat_src ≡ 1) × (r.is_threat_dst ≡ 1))

  label_of_swapped :
      (s d : Option Text)
      → (label_of d s ≡ label_of s d) ⊎ ((bit (is_hit s) ≡ 1) × (bit (is_hit d) ≡ 1))
  unfolding label_of
  label_of_swapped none none = inl refl
  label_of_swapped none (some d) = inl refl
  label_of_swapped (some s) none = inl refl
  label_of_swapped (some s) (some d) = inr (refl, refl)

  -- The rows stored for a flow and for its return half tell of each end what the tables say of its
  -- address: tenant, device, user, hostname, place, network and threat flag, whichever tables are
  -- configured. The two rows tell the same of each end and agree in all else, but for the threat
  -- label, which may differ if both ends are threats.
  pub reply-Mirrors :
      (m : FlowMessage)
      → Mirrors m
          (to_flow_row (enrich zero_float parse_ip t m))
          (to_flow_row (enrich zero_float parse_ip t (reply m)))
  unfolding to_flow_row enrich reply tenant_of tokens_of hostname_of geo_of
  reply-Mirrors m = record {
    source = refl;
    destination = refl;
    reply_source = refl;
    reply_destination = refl;
    rest = refl;
    label =
        label_of_swapped (threat_of zero_float parse_ip t m.src_addr)
          (threat_of zero_float parse_ip t m.dst_addr);
  }

  label_of_none : (s d : Option Text) → (is_hit s || is_hit d) ≡ false → label_of s d ≡ []
  unfolding label_of
  label_of_none none none h = refl
  label_of_none none (some d) h = absurd (ground arith)
  label_of_none (some s) d h = absurd (ground arith)

  -- A stored row with neither threat flag has an empty threat label.
  unflagged_has_no_label :
      (m : FlowMessage)
      → (to_flow_row (enrich zero_float parse_ip t m)).is_threat_src ≡ 0
      → (to_flow_row (enrich zero_float parse_ip t m)).is_threat_dst ≡ 0
      → (to_flow_row (enrich zero_float parse_ip t m)).threat_label ≡ []
  unfolding to_flow_row enrich
  unflagged_has_no_label m s d =
      label_of_none (threat_of zero_float parse_ip t m.src_addr)
        (threat_of zero_float parse_ip t m.dst_addr) (ground arith)

  -- For a sampled flow whose product of bytes and rate fits 64 bits, the row says that it is
  -- sampled, keeps the raw count, and its expanded count is the raw count times the rate; for a
  -- rate of 0 or 1 the row says that it is not sampled, and its expanded count is 0.
  pub expansion_exact :
      (m : FlowMessage)
      → m.bytes * m.sampling_rate < 2 ^ 64
      → let r = to_flow_row (enrich zero_float parse_ip t m) in
        (r.bytes ≡ m.bytes)
        × (((1 < m.sampling_rate)
              × (r.is_sampled ≡ 1)
              × (r.expanded_bytes ≡ r.bytes * r.sampling_rate))
            ⊎ ((m.sampling_rate ≤ 1) × (r.is_sampled ≡ 0) × (r.expanded_bytes ≡ 0)))
  unfolding to_flow_row enrich expand
  expansion_exact m h = elim (Bool-cases (ltb 1 m.sampling_rate)) [
    | inl k ↦ rw k (refl, inl (ground arith, refl, omega arith))
    | inr k ↦ rw k (refl, inr (ground arith, refl, refl))
  ]
