-- ===== src/Dedup.antt =====
-- dedup.go. The expirable LRU of a shard is an argument: its state, `Get` and `Add`.
pub mod Shards
use Prim.Native.Nat.{bit_xor, bit_and}
use network_enricher.Prelude.{
  ℕ, ◌-◌, ◌*◌, ◌/◌, ◌%◌, ◌^◌, max, Bool, true, false, List, [], ◌∷◌, Text, ◌==◌, if◌then◌else◌,
}
use network_enricher.Flow.{FlowMessage}

abbrev pub dedup_shards : ℕ
dedup_shards = 16

pub record DedupKey : Type 0 where
  pub src_addr : Text
  pub dst_addr : Text
  pub src_port : ℕ
  pub dst_port : ℕ
  pub proto : Text
  pub exporter : Text
  pub flow_type : Text

abbrev pub key_of : FlowMessage → DedupKey
key_of m = record {
  src_addr = m.src_addr;
  dst_addr = m.dst_addr;
  src_port = m.src_port;
  dst_port = m.dst_port;
  proto = m.proto;
  exporter = m.sampler_address;
  flow_type = m.flow_type;
}

abbrev pub prime64 : ℕ
prime64 = 1099511628211

abbrev pub offset64 : ℕ
offset64 = 14695981039346656037

-- One byte, or one port, of FNV-1a on 64 bits.
unfoldable pub fnv_step : ℕ → ℕ → ℕ
fnv_step h b = (bit_xor h b * prime64) % 2 ^ 64

unfoldable pub fnv_string : ℕ → Text → ℕ
unfolding fnv_step
fnv_string h [] = h
fnv_string h (c ∷ s) = fnv_string (fnv_step h c) s

unfoldable pub shard_index : DedupKey → ℕ
unfolding fnv_string fnv_step
shard_index k =
    let h1 = fnv_string offset64 k.src_addr in
    let h2 = fnv_string h1 k.dst_addr in
    let h3 = fnv_string h2 k.proto in
    let h4 = fnv_string h3 k.exporter in
    let h5 = fnv_string h4 k.flow_type in fnv_step (fnv_step h5 k.src_port) k.dst_port

unfoldable pub shard_of : DedupKey → ℕ
unfolding shard_index
shard_of k = bit_and (shard_index k) (dedup_shards - 1)

-- The capacity of each shard.
unfoldable pub per_shard : ℕ → ℕ
per_shard size = max (size / dedup_shards) 1

-- The library's LRU: a state, the lookup, which may move the key to the front, and the addition.
pub record Lru (S : Type 0) : Type 0 where
  pub get : S → DedupKey → Bool × S
  pub add : S → DedupKey → S

module _ {S : Type 0} (lru : Lru S) where
  unfoldable pub set_shard : (ℕ → S) → ℕ → S → ℕ → S
  set_shard shards i s j = if j == i then s else shards j

  unfoldable pub visit : (ℕ → S) → DedupKey → Bool × (ℕ → S)
  unfolding set_shard shard_of
  visit shards k =
      let i = shard_of k in
      let (seen, s) = lru.get (shards i) k in
      if seen then (true, set_shard shards i s) else (false, set_shard shards i (lru.add s k))

  unfoldable pub is_duplicate : (ℕ → S) → FlowMessage → Bool × (ℕ → S)
  unfolding visit
  is_duplicate shards m = visit shards (key_of m)
