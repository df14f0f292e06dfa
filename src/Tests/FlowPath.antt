-- ===== src/Tests/FlowPath.antt =====
-- Runs of batchwriter.go, main.go, tenant.go, geoip.go and dedup.go.
use network_enricher.Prelude.{
  ℕ, ◌*◌, ◌≤◌, ◌<◌, ◌≡◌, ◌↔◌, ◌⊎◌, refl, inl, inr, Bool, true, false, ◌&&◌, ◌||◌, Option, none,
  some, List, [], ◌∷◌, Text, codes, text_eq, text_eq_refl, arith, ltb, ◌==◌,
}
use network_enricher.Prelude.Sets.{In}
use network_enricher.Addresses.{Ip, v4, Network, covers}
use network_enricher.BatchWriter.{Attempt, BatchWriter, Round, drain, final_drain}
use network_enricher.BatchWriter.Drain.{DrainLedger, drain-DrainLedger}
use network_enricher.BatchWriter.FinalDrain.{IsUp, final_drain_delivers}
use network_enricher.Flow.{FlowMessage, Tables, enrich, to_flow_row}
use network_enricher.Flow.Enrichment.{reply, Mirrors, reply-Mirrors, expansion_exact}
use network_enricher.Geo.{is_private}
use network_enricher.Geo.Ranges.{within, is_private_intervals}
use network_enricher.Tenant.{TenantEntry, TenantConfig, entries_of, load, lookup}
use network_enricher.Tenant.Specific.{IsContaining, MostSpecific, lookup-MostSpecific}
use network_enricher.Dedup.{DedupKey, Lru, is_duplicate}
use network_enricher.Dedup.Shards.{FindsLast, repeat_is_duplicate}

-- Rows are numbers here, and 0 is malformed.
abbrev well_formed : ℕ → Bool
well_formed r = ltb 0 r

abbrev writer : BatchWriter ℕ
writer = record {
  buffer = 1 ∷ 0 ∷ 2 ∷ 3 ∷ [];
  max_size = 2;
  max_buffer = 2;
  max_age = 5;
  retry_after = 0;
  rows_written = 0;
  rows_dropped = 0;
}

-- The second chunk is refused.
abbrev first_only : ℕ → Attempt
first_only k = record { prepared = true; sent = k == 0 }

drain-DrainLedger_example :
    DrainLedger well_formed
      (1 ∷ 0 ∷ 2 ∷ 3 ∷ [])
      (4 ∷ [])
      writer
      (drain well_formed false 10 11 first_only (4 ∷ []) writer).0
      (drain well_formed false 10 11 first_only (4 ∷ []) writer).1
drain-DrainLedger_example =
    drain-DrainLedger well_formed false 10 11 first_only (4 ∷ []) writer (omega arith)

-- ClickHouse comes back at the second attempt.
abbrev rounds : ℕ → Round well_formed
rounds i = record {
  now = i;
  failed_at = i;
  answers = λ k. record { prepared = true; sent = i == 1 };
}

IsUp-at_one : IsUp well_formed (rounds 1)
unfolding IsUp
IsUp-at_one k = (refl, refl)

final_drain_delivers_example : (final_drain well_formed rounds 5 writer).1 ≡ 0
final_drain_delivers_example =
    final_drain_delivers well_formed rounds 5 1 writer (omega arith) IsUp-at_one

abbrev pub flow : FlowMessage
flow = record {
  flow_type = codes "SFLOW_5";
  time_flow_start_ns = 7;
  time_flow_end_ns = 8;
  time_received_ns = 9;
  src_addr = codes "10.0.0.5";
  dst_addr = codes "93.184.216.34";
  src_port = 5000;
  dst_port = 443;
  proto = codes "TCP";
  bytes = 100;
  packets = 2;
  sampling_rate = 10;
  sampler_address = codes "10.0.0.1";
  next_hop = [];
  src_as = 0;
  dst_as = 0;
  tcp_flags = 0;
  in_if = 1;
  out_if = 2;
  sequence_num = 3;
  etype = codes "IPv4";
  src_vlan = 0;
  dst_vlan = 0;
  forwarding_status = 0;
  ip_tos = 0;
  ip_ttl = 64;
  observation_domain_id = 0;
}

abbrev pub no_ip : Text → Option Ip
no_ip s = none

-- Tenants and threats are configured, and no address is a threat.
abbrev pub tables : Tables ℕ Ip
tables = record {
  geo = none;
  tenant = some (λ a. (7, codes "lab"));
  threat = some (λ a. none);
  identity = some (λ a. (a, codes "u"));
  dns = some (λ client answer. answer);
}

reply-Mirrors_example :
    Mirrors 0 no_ip tables flow
      (to_flow_row (enrich 0 no_ip tables flow))
      (to_flow_row (enrich 0 no_ip tables (reply flow)))
reply-Mirrors_example = reply-Mirrors 0 no_ip tables flow

no_flags :
    ((to_flow_row (enrich 0 no_ip tables flow)).is_threat_src ≡ 0)
    × ((to_flow_row (enrich 0 no_ip tables flow)).is_threat_dst ≡ 0)
unfolding to_flow_row enrich
no_flags = (refl, refl)

abbrev RowOfFlow : Type 0
RowOfFlow =
    let r = to_flow_row (enrich 0 no_ip tables flow) in
    (r.bytes ≡ 100)
    × (((1 < 10) × (r.is_sampled ≡ 1) × (r.expanded_bytes ≡ r.bytes * r.sampling_rate))
        ⊎ ((10 ≤ 1) × (r.is_sampled ≡ 0) × (r.expanded_bytes ≡ 0)))

expansion_exact_example : RowOfFlow
expansion_exact_example = expansion_exact 0 no_ip tables flow (omega arith)

is_private_intervals_example : (is_private (v4 167772165) ≡ true) ↔ (
    (within 167772160 184549375 167772165
      || within 2130706432 2147483647 167772165
      || within 2851995648 2852061183 167772165
      || within 2886729728 2887778303 167772165
      || within 3232235520 3232301055 167772165)
    ≡ true)
is_private_intervals_example = is_private_intervals 167772165

-- 10.0.0.0/8 of one tenant, and 10.0.0.0/24 of another.
abbrev campus : Network
campus = record { base = v4 167772160; ones = 8 }

abbrev lab : Network
lab = record { base = v4 167772160; ones = 24 }

abbrev config : List TenantConfig
config =
    record { id = 1; name = codes "campus"; subnets = some campus ∷ none ∷ [] }
    ∷ record { id = 2; name = codes "lab"; subnets = some lab ∷ [] }
    ∷ []

abbrev listed : List TenantEntry
listed =
    record { network = campus; id = 1; name = codes "campus" }
    ∷ record { network = lab; id = 2; name = codes "lab" }
    ∷ []

loaded : load config ≡ listed
unfolding load entries_of
loaded = refl

abbrev trie : Ip → Option (List TenantEntry)
trie a = some listed

trie_holds : IsContaining (load config) listed (v4 167772165)
unfolding load entries_of covers
trie_holds = record { sound = sound; complete = λ e i k. (e, i, refl) }
  where
    sound : (e : TenantEntry) → In e listed → In e listed × (covers e.network (v4 167772165) ≡ true)
    sound e (inl p) = (inl p, rw p refl)
    sound e (inr (inl p)) = (inr (inl p), rw p refl)
    sound e (inr (inr f)) = absurd f

lookup-MostSpecific_example :
    MostSpecific (load config) (v4 167772165) (lookup trie (some (v4 167772165)))
    ⊎ ((lookup trie (some (v4 167772165)) ≡ (0, []))
        × ((e : TenantEntry) → In e (load config) → covers e.network (v4 167772165) ≡ false))
lookup-MostSpecific_example = lookup-MostSpecific trie config (v4 167772165) listed refl trie_holds

-- An LRU of capacity one, which never expires.
abbrev pub same_key : DedupKey → DedupKey → Bool
same_key k l =
    text_eq k.src_addr l.src_addr
    && text_eq k.dst_addr l.dst_addr
    && k.src_port == l.src_port
    && k.dst_port == l.dst_port
    && text_eq k.proto l.proto
    && text_eq k.exporter l.exporter
    && text_eq k.flow_type l.flow_type

abbrev pub holds : Option DedupKey → DedupKey → Bool
holds none k = false
holds (some l) k = same_key l k

abbrev pub one_key : Lru (Option DedupKey)
one_key = record { get = λ s k. (holds s k, s); add = λ s k. some k }

one_key-FindsLast : FindsLast one_key
one_key-FindsLast = record {
  added = λ s k. ground (
    arith,
    text_eq_refl k.src_addr,
    text_eq_refl k.dst_addr,
    text_eq_refl k.proto,
    text_eq_refl k.exporter,
    text_eq_refl k.flow_type,
  );
  found = λ s k h. h;
}

repeat_is_duplicate_example :
    (is_duplicate one_key (is_duplicate one_key (λ i. none) flow).1 (record flow { bytes = 3 })).0
    ≡ true
repeat_is_duplicate_example =
    repeat_is_duplicate one_key (λ i. none) flow (record flow { bytes = 3 }) one_key-FindsLast refl
