-- ===== src/DnsStore.antt =====
-- The store of dnsstore.go. The map is an association list with one entry for a key. Go ranges over
-- a map in any order, so the order that `selectEvictions` meets is an argument.
pub mod Bound
pub mod Victims
pub mod Binding
pub mod Commute
pub mod Evidence
pub mod Heap
pub mod Writer
pub mod Poll
use network_enricher.Prelude.{
  ℕ, zero, suc, ◌+◌, ◌-◌, ◌*◌, ◌/◌, ◌^◌, max, min, Bool, true, false, not, ◌&&◌, ◌||◌, Option, none,
  some, List, [], ◌∷◌, ◌++◌, length, take, map, Text, text_eq, text_lt, is_empty, Time, Duration,
  before, after, ltb, leb, ◌==◌, if◌then◌else◌,
}
use network_enricher.DnsStore.Heap.{VictimHeap, Victim, push, replace_root}

-- DnsEvent of dnslog.go.
pub record DnsEvent : Type 0 where
  pub event_time : Time
  pub client_ip : Text
  pub client_port : ℕ
  pub qname : Text
  pub qtype : Text
  pub answer_ip : Text
  pub ttl : ℕ
  pub ttl_unknown : Bool

pub record DnsKey : Type 0 where
  pub client_ip : Text
  pub answer_ip : Text

pub record DnsBinding : Type 0 where
  pub hostname : Text
  pub event_time : Time
  pub deadline : Time

abbrev pub Entry : Type 0
Entry = DnsKey × DnsBinding

abbrev pub second : Duration
second = 1000000000

abbrev pub dns_min_ttl : Duration
dns_min_ttl = 60 * second

abbrev pub dns_max_ttl : Duration
dns_max_ttl = 3600 * second

abbrev pub dns_default_unknown_ttl : Duration
dns_default_unknown_ttl = 600 * second

abbrev pub dns_max_entries : ℕ
dns_max_entries = 2 ^ 20

unfoldable pub key_eq : DnsKey → DnsKey → Bool
key_eq k l = text_eq k.client_ip l.client_ip && text_eq k.answer_ip l.answer_ip

-- `entries[k]`
unfoldable pub find : DnsKey → List Entry → Option DnsBinding
unfolding key_eq
find k [] = none
find k ((l, b) ∷ es) = if key_eq k l then some b else find k es

-- `delete(entries, k)`
unfoldable pub remove : DnsKey → List Entry → List Entry
unfolding key_eq
remove k [] = []
remove k ((l, b) ∷ es) = let rest = remove k es in if key_eq k l then rest else (l, b) ∷ rest

-- `entries[k] = b`
unfoldable pub store : DnsKey → DnsBinding → List Entry → List Entry
unfolding remove
store k b es = (k, b) ∷ remove k es

unfoldable pub told : Time → Option DnsBinding → Text
told now none = []
told now (some b) = if after now b.deadline then [] else b.hostname

unfoldable pub lookup : Time → Text → Text → List Entry → Text
unfolding find told
lookup now client answer es =
    if is_empty client || is_empty answer
    then []
    else told now (find (record { client_ip = client; answer_ip = answer }) es)

-- The validity of an answer: the TTL, or the default for an unknown one, in the band.
unfoldable pub validity : DnsEvent → Duration
validity e =
    max dns_min_ttl
      (min dns_max_ttl (if e.ttl_unknown then dns_default_unknown_ttl else e.ttl * second))

unfoldable pub shed_of : ℕ → ℕ
shed_of max_size = max 1 (max_size / 16)

-- The loop of `selectEvictions`: the expired keys, and the heap.
unfoldable pub sort_out :
    Time → ℕ → List Entry → List DnsKey → VictimHeap DnsKey → List DnsKey × VictimHeap DnsKey
sort_out now shed [] expired heap = (expired, heap)
sort_out now shed ((k, b) ∷ es) expired heap =
    let v : Victim DnsKey = record { key = k; deadline = b.deadline } in
    if after now b.deadline
    then sort_out now shed es (expired ++ k ∷ []) heap
    else (if ltb (length heap) shed
        then sort_out now shed es expired (push v heap)
        else sort_out now shed es expired (replace_root v heap))

unfoldable pub select_evictions : Time → ℕ → List Entry → List DnsKey
unfolding sort_out shed_of
select_evictions now max_size order =
    let (expired, heap) = sort_out now (shed_of max_size) order [] [] in
    expired ++ map (λ v. v.key) (take (shed_of max_size - length expired) heap)

unfoldable pub remove_all : List DnsKey → List Entry → List Entry
unfolding remove
remove_all [] es = es
remove_all (k ∷ ks) es = remove_all ks (remove k es)

-- The guard of the write.
unfoldable pub supersedes : DnsEvent → DnsBinding → Bool
supersedes e b =
    not (before e.event_time b.event_time)
    && not (e.event_time == b.event_time && not (text_lt b.hostname e.qname))

unfoldable pub key_of : DnsEvent → DnsKey
key_of e = record { client_ip = e.client_ip; answer_ip = e.answer_ip }

unfoldable pub binding_of : DnsEvent → DnsBinding
unfolding validity
binding_of e = record {
  hostname = e.qname;
  event_time = e.event_time;
  deadline = e.event_time + validity e;
}

-- The locked write, by what the key is bound to.
unfoldable pub place : DnsEvent → Option DnsBinding → List Entry → List Entry
unfolding store supersedes key_of binding_of
place e none es = store (key_of e) (binding_of e) es
place e (some b) es = if supersedes e b then store (key_of e) (binding_of e) es else es

unfoldable pub write : DnsEvent → List Entry → List Entry
unfolding find place key_of
write e es = place e (find (key_of e) es) es

unfoldable pub is_absent : DnsKey → List Entry → Bool
unfolding find
is_absent k es = elim (find k es) [ none ↦ true | some b ↦ false ]

-- `applyDNS`: `order` gives the order in which Go ranges over the entries.
unfoldable pub apply_dns : Time → ℕ → (List Entry → List Entry) → DnsEvent → List Entry → List Entry
unfolding is_absent select_evictions remove_all write key_of
apply_dns now max_size order e es =
    if is_empty e.answer_ip || is_empty e.qname
    then es
    else (if is_absent (key_of e) es && leb max_size (length es)
        then write e (remove_all (select_evictions now max_size (order es)) es)
        else write e es)

-- `evictExpired`
unfoldable pub evict_expired : Time → List Entry → List Entry
evict_expired now [] = []
evict_expired now ((k, b) ∷ es) =
    let rest = evict_expired now es in if after now b.deadline then rest else (k, b) ∷ rest
