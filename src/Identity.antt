-- ===== src/Identity.antt =====
-- The live identity view of identity.go: which device holds a lease, and which user authenticated
-- that device. A map of the store is a function from its keys, so that a sweep over its entries is
-- a change at each key. Locks are left out: each operation below holds the lock from end to end.
pub mod Leases
pub mod Sessions
pub mod Evidence
pub mod Writer
pub mod Poll
mod Tests
use network_enricher.Prelude.{
  ℕ, ◌+◌, List, [], ◌∷◌, Bool, true, false, not, ◌&&◌, ◌||◌, Option, none, some, Text, codes,
  text_eq, is_empty, Time, Duration, before, after, ◌==◌, if◌then◌else◌,
}

-- dhcplog.go
pub record DhcpEvent : Type 0 where
  pub event_time : Time
  pub event_id : ℕ
  pub ip : Text
  pub mac_token : Text
  pub host_token : Text

-- npslog.go
pub record RadiusEvent : Type 0 where
  pub event_time : Time
  pub acct_status : Text
  pub session_id : Text
  pub user_token : Text
  pub mac_token : Text
  pub nas_ip : Text

pub record IpBinding : Type 0 where
  pub mac_token : Text
  pub event_time : Time
  pub deadline : Time
  pub closed : Bool

pub record MacBinding : Type 0 where
  pub user_token : Text
  pub session_id : Text
  pub event_time : Time
  pub deadline : Time
  pub closed : Bool

pub record IdentityStore : Type 0 where
  pub ip_state : Text → Option IpBinding
  pub mac_state : Text → Option MacBinding
  pub max_lease : Duration
  pub max_session : Duration

-- `NewIdentityStore`, as far as the maps and the bounds go.
pub new_identity_store : Duration → Duration → IdentityStore
new_identity_store max_lease max_session = record {
  ip_state = λ _. none;
  mac_state = λ _. none;
  max_lease = max_lease;
  max_session = max_session;
}

-- `m[k] = v`, with `none` for an absent key.
abbrev pub update : {V : Type 0} → (Text → Option V) → Text → Option V → Text → Option V
update m k v j = if text_eq k j then v else m j

abbrev pub is_assign : ℕ → Bool
is_assign id = id == 10 || id == 11

-- `Lookup`: an absent, closed or overdue lease reads as no device, and so with the session.
pub lookup : IdentityStore → Text → Time → Text × Text
lookup s ip now = elim (s.ip_state ip) [
  | none ↦ ([], [])
  | some ib ↦
      if ib.closed || after now ib.deadline then ([], []) else elim (s.mac_state ib.mac_token) [
        | none ↦ (ib.mac_token, [])
        | some mb ↦
            if mb.closed || after now mb.deadline
            then (ib.mac_token, [])
            else (ib.mac_token, mb.user_token)
      ]
]

abbrev lease : DhcpEvent → Duration → Bool → IpBinding
lease e max_lease closed = record {
  mac_token = e.mac_token;
  event_time = e.event_time;
  deadline = e.event_time + max_lease;
  closed = closed;
}

-- The guard of `case 10, 11`: the assign is older than what the address holds.
assign_is_stale : Option IpBinding → DhcpEvent → Bool
assign_is_stale none e = false
assign_is_stale (some b) e =
    if b.closed && text_eq b.mac_token e.mac_token
    then not (after e.event_time b.event_time)
    else before e.event_time b.event_time

-- The guard of `case 12`.
release_applies : Option IpBinding → DhcpEvent → Bool
release_applies none e = false
release_applies (some b) e =
    text_eq b.mac_token e.mac_token && not (before e.event_time b.event_time)

-- The `switch` of `applyDHCP`: what `s.ipState[e.IP]` is after the event.
pub lease_step : Duration → Option IpBinding → DhcpEvent → Option IpBinding
unfolding assign_is_stale release_applies
lease_step max_lease b e =
    if is_assign e.event_id
    then if assign_is_stale b e then b else some (lease e max_lease false)
    else if e.event_id == 12
    then if release_applies b e then some (lease e max_lease true) else b
    else b

pub apply_dhcp : IdentityStore → DhcpEvent → IdentityStore
apply_dhcp s e =
    if is_empty e.mac_token
    then s
    else record s { ip_state = update s.ip_state e.ip (lease_step s.max_lease (s.ip_state e.ip) e) }

abbrev session : RadiusEvent → Duration → Bool → MacBinding
session e max_session closed = record {
  user_token = e.user_token;
  session_id = e.session_id;
  event_time = e.event_time;
  deadline = e.event_time + max_session;
  closed = closed;
}

abbrev pub is_open : Text → Bool
is_open status = text_eq status (codes "Start") || text_eq status (codes "Interim-Update")

abbrev pub is_stop : Text → Bool
is_stop status = text_eq status (codes "Stop")

-- The guard of `case "Start", "Interim-Update"`.
open_is_stale : Option MacBinding → RadiusEvent → Bool
open_is_stale none e = false
open_is_stale (some b) e =
    if b.closed && text_eq b.session_id e.session_id
    then not (after e.event_time b.event_time)
    else if text_eq b.session_id e.session_id
    then before e.event_time b.event_time
    else before e.event_time b.event_time

-- The guard of `case "Stop"`.
stop_applies : Option MacBinding → RadiusEvent → Bool
stop_applies none e = false
stop_applies (some b) e =
    text_eq b.session_id e.session_id && not (before e.event_time b.event_time)

-- The `switch` of `applyRADIUS`: what `s.macState[e.MACToken]` is after the event.
pub session_step : Duration → Option MacBinding → RadiusEvent → Option MacBinding
unfolding open_is_stale stop_applies
session_step max_session b e =
    if is_open e.acct_status
    then if open_is_stale b e then b else some (session e max_session false)
    else if is_stop e.acct_status
    then if stop_applies b e then some (session e max_session true) else b
    else b

pub apply_radius : IdentityStore → RadiusEvent → IdentityStore
apply_radius s e = if is_empty e.mac_token then s else record s {
  mac_state =
      update s.mac_state e.mac_token (session_step s.max_session (s.mac_state e.mac_token) e);
}

abbrev unless_overdue_ip : Time → Option IpBinding → Option IpBinding
unless_overdue_ip now none = none
unless_overdue_ip now (some b) = if after now b.deadline then none else some b

abbrev unless_overdue_mac : Time → Option MacBinding → Option MacBinding
unless_overdue_mac now none = none
unless_overdue_mac now (some b) = if after now b.deadline then none else some b

pub evict_expired : IdentityStore → Time → IdentityStore
evict_expired s now = record s {
  ip_state = λ ip. unless_overdue_ip now (s.ip_state ip);
  mac_state = λ mac. unless_overdue_mac now (s.mac_state mac);
}

-- What the poller does to the two maps, one call at a time.
pub data Op : Type 0 where
  dhcp : DhcpEvent → Op
  radius : RadiusEvent → Op
  evict : Time → Op

pub step : IdentityStore → Op → IdentityStore
step s (dhcp e) = apply_dhcp s e
step s (radius e) = apply_radius s e
step s (evict now) = evict_expired s now

pub run : IdentityStore → List Op → IdentityStore
run s [] = s
run s (op ∷ ops) = run (step s op) ops
