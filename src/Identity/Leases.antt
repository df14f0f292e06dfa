-- ===== src/Identity/Leases.antt =====
-- applyDHCP of identity.go: how the events of one address order themselves.
use network_enricher.Prelude.{
  ◌+◌, ◌≤◌, ◌<◌, ◌≡◌, ◌≢◌, ◌⊎◌, inl, inr, refl, List, [], ◌∷◌, Bool-cases, true, false, Option,
  none, some, arith, All, Text, text_eq, is_empty, text_eq_iff, text_eq_refl, Time, Duration,
  if◌then◌else◌,
}
use network_enricher.Identity.{
  Op, dhcp, radius, evict, step, run, lookup, evict_expired, apply_radius, DhcpEvent, IpBinding,
  IdentityStore, lease, lease_step, is_assign, apply_dhcp, unless_overdue_ip,
}

-- Reading one address after an event: the others keep what they hold.
pub ip_state-apply_dhcp :
    (s : IdentityStore) (e : DhcpEvent) (ip : Text)
    → (apply_dhcp s e).ip_state ip ≡ (
        if is_empty e.mac_token
        then s.ip_state ip
        else if text_eq e.ip ip
        then lease_step s.max_lease (s.ip_state ip) e
        else s.ip_state ip)
unfolding apply_dhcp
ip_state-apply_dhcp s e ip = ground (arith, text_eq_iff e.ip ip)

pub max_lease-apply_dhcp :
    (s : IdentityStore) (e : DhcpEvent) → (apply_dhcp s e).max_lease ≡ s.max_lease
unfolding apply_dhcp
max_lease-apply_dhcp s e = ground arith

-- A handover in one second: the device `rel.mac_token` gives the address up and another takes it.
pub record IsHandover (s : IdentityStore) (b : IpBinding) (rel asg : DhcpEvent) : Type 0 where
  pub held : s.ip_state asg.ip ≡ some b
  pub holder : b.mac_token ≡ rel.mac_token
  pub not_newer : b.event_time ≤ asg.event_time
  pub releases : rel.event_id ≡ 12
  pub assigns : is_assign asg.event_id ≡ true
  pub same_ip : rel.ip ≡ asg.ip
  pub same_time : rel.event_time ≡ asg.event_time
  pub other_device : asg.mac_token ≢ rel.mac_token
  pub rel_known : is_empty rel.mac_token ≡ false
  pub asg_known : is_empty asg.mac_token ≡ false

lease_step_handover :
    (m : Duration) (b : IpBinding) (rel asg : DhcpEvent)
    → b.mac_token ≡ rel.mac_token
    → b.event_time ≤ asg.event_time
    → rel.event_id ≡ 12
    → is_assign asg.event_id ≡ true
    → rel.event_time ≡ asg.event_time
    → asg.mac_token ≢ rel.mac_token
    → (lease_step m (lease_step m (some b) rel) asg ≡ some (lease asg m false))
      × (lease_step m (lease_step m (some b) asg) rel ≡ some (lease asg m false))
unfolding lease_step
lease_step_handover m b rel asg h1 h2 h3 h4 h5 h6 = ground (
  arith,
  text_eq_iff b.mac_token rel.mac_token,
  text_eq_iff b.mac_token asg.mac_token,
  text_eq_iff rel.mac_token asg.mac_token,
  text_eq_iff asg.mac_token rel.mac_token,
)

-- A release of one device and an assign to another in the same second, on an address that the
-- first device holds by an event that is not newer, end with the second device leased, whichever
-- of the two events arrives first.
pub handover_converges :
    (s : IdentityStore) (b : IpBinding) (rel asg : DhcpEvent)
    → IsHandover s b rel asg
    → ((apply_dhcp (apply_dhcp s rel) asg).ip_state asg.ip ≡ some (lease asg s.max_lease false))
      × ((apply_dhcp (apply_dhcp s asg) rel).ip_state asg.ip ≡ some (lease asg s.max_lease false))
handover_converges s b rel asg h =
    let steps =
      lease_step_handover s.max_lease b rel asg h.holder h.not_newer h.releases h.assigns
        h.same_time h.other_device in
    ground (
      arith,
      steps,
      ip_state-apply_dhcp (apply_dhcp s rel) asg asg.ip,
      ip_state-apply_dhcp (apply_dhcp s asg) rel asg.ip,
      ip_state-apply_dhcp s rel asg.ip,
      ip_state-apply_dhcp s asg asg.ip,
      max_lease-apply_dhcp s rel,
      max_lease-apply_dhcp s asg,
      text_eq_iff rel.ip asg.ip,
      text_eq_iff asg.ip asg.ip,
    )

-- Before or at the second of a tombstone `b`, and of its device if in that second.
abbrev pub IsLate : IpBinding → DhcpEvent → Type 0
IsLate b e =
    (e.event_time < b.event_time) ⊎ ((e.event_time ≡ b.event_time) × (e.mac_token ≡ b.mac_token))

-- Late events at the address; any at other addresses; sweeps by a clock that `now` has reached.
abbrev pub IsReplay : Text → IpBinding → Time → Op → Type 0
IsReplay ip b now (dhcp e) = e.ip ≡ ip → IsLate b e
IsReplay ip b now (radius e) = Unit
IsReplay ip b now (evict t) = t ≤ now

abbrev IsDead : Time → Option IpBinding → Type 0
IsDead now none = Unit
IsDead now (some c) = c.deadline < now

-- What the address holds is the tombstone, or nothing that can be read at `now`.
abbrev Rests : IpBinding → Time → Option IpBinding → Type 0
Rests b now o = (o ≡ some b) ⊎ ((b.deadline < now) × IsDead now o)

lease_step_late :
    (m : Duration) (b : IpBinding) (e : DhcpEvent)
    → b.closed ≡ true
    → m + b.event_time ≡ b.deadline
    → IsLate b e
    → lease_step m (some b) e ≡ some b
unfolding lease_step
lease_step_late m b e c d l = ground (arith, text_eq_iff b.mac_token e.mac_token)

lease_step-IsDead :
    (m : Duration) (o : Option IpBinding) (b : IpBinding) (e : DhcpEvent) (now : Time)
    → m + b.event_time ≡ b.deadline
    → b.deadline < now
    → IsLate b e
    → IsDead now o
    → IsDead now (lease_step m o e)
unfolding lease_step
lease_step-IsDead m none b e now d h l x = ground arith
lease_step-IsDead m (some c) b e now d h l x = ground arith

lease_step-Rests :
    (m : Duration) (b : IpBinding) (now : Time) (o : Option IpBinding) (e : DhcpEvent)
    → b.closed ≡ true
    → m + b.event_time ≡ b.deadline
    → IsLate b e
    → Rests b now o
    → Rests b now (lease_step m o e)
lease_step-Rests m b now o e c d l (inl x) = inl (rw x (lease_step_late m b e c d l))
lease_step-Rests m b now o e c d l (inr x) = inr (x.0, lease_step-IsDead m o b e now d x.0 l x.1)

evict-Rests :
    (b : IpBinding) (now t : Time) (o : Option IpBinding)
    → t ≤ now
    → Rests b now o
    → Rests b now (unless_overdue_ip t o)
evict-Rests b now t none h x = ground arith
evict-Rests b now t (some c) h x = ground arith

step-Rests :
    (ip : Text) (b : IpBinding) (now : Time) (s : IdentityStore) (op : Op)
    → b.closed ≡ true
    → s.max_lease + b.event_time ≡ b.deadline
    → IsReplay ip b now op
    → Rests b now (s.ip_state ip)
    → Rests b now ((step s op).ip_state ip) × ((step s op).max_lease ≡ s.max_lease)
unfolding step
step-Rests ip b now s (dhcp e) c d r x = (
  rw (ip_state-apply_dhcp s e ip) (elim (Bool-cases (is_empty e.mac_token)) [
    | inl e0 ↦ rw e0 x
    | inr e0 ↦ rw e0 (elim (Bool-cases (text_eq e.ip ip)) [
      | inl here ↦ rw here (
          lease_step-Rests s.max_lease b now (s.ip_state ip) e c d
            (r ((text_eq_iff e.ip ip).0 here)) x)
      | inr there ↦ rw there x
    ])
  ]),
  max_lease-apply_dhcp s e,
)
step-Rests ip b now s (radius e) c d r x = unfold apply_radius in ground arith
step-Rests ip b now s (evict t) c d r x =
    unfold evict_expired in (evict-Rests b now t (s.ip_state ip) r x, refl)

run-Rests :
    (ip : Text) (b : IpBinding) (now : Time) (ops : List Op) (s : IdentityStore)
    → b.closed ≡ true
    → s.max_lease + b.event_time ≡ b.deadline
    → All (IsReplay ip b now) ops
    → Rests b now (s.ip_state ip)
    → Rests b now ((run s ops).ip_state ip)
unfolding run
run-Rests ip b now [] s c d r x = x
run-Rests ip b now (op ∷ ops) s c d (r, rs) x =
    let (x', m) = step-Rests ip b now s op c d r x in
    run-Rests ip b now ops (step s op) c (rw m d) rs x'

lookup-Rests :
    (ip : Text) (b : IpBinding) (now : Time) (s : IdentityStore)
    → b.closed ≡ true
    → Rests b now (s.ip_state ip)
    → lookup s ip now ≡ ([], [])
unfolding lookup
lookup-Rests ip b now s c x = ground arith

-- Once a release has left the tombstone `b` at an address, no replay of late events (older than
-- the release, or of its second and device), mixed in any way with events of other addresses,
-- RADIUS events and sweeps by clocks up to `now`, makes the address resolve at `now` again:
-- neither while the tombstone stands nor after a sweep has removed it.
pub tombstone_holds :
    (s : IdentityStore) (ip : Text) (b : IpBinding) (now : Time) (ops : List Op)
    → s.ip_state ip ≡ some b
    → b.closed ≡ true
    → s.max_lease + b.event_time ≡ b.deadline
    → All (IsReplay ip b now) ops
    → lookup (run s ops) ip now ≡ ([], [])
tombstone_holds s ip b now ops held c d r =
    lookup-Rests ip b now (run s ops) c (run-Rests ip b now ops s c d r (inl held))

-- An event with no lease to close leaves no tombstone: a release that arrives before the older
-- assign of its own lease has no effect, and the device is read at the address until the assign's
-- deadline.
pub release_before_assign :
    (s : IdentityStore) (rel asg : DhcpEvent) (now : Time)
    → s.ip_state asg.ip ≡ none
    → rel.ip ≡ asg.ip
    → rel.mac_token ≡ asg.mac_token
    → is_empty asg.mac_token ≡ false
    → rel.event_id ≡ 12
    → is_assign asg.event_id ≡ true
    → asg.event_time < rel.event_time
    → now ≤ asg.event_time + s.max_lease
    → (lookup (apply_dhcp (apply_dhcp s rel) asg) asg.ip now).0 ≡ asg.mac_token
unfolding lookup
release_before_assign s rel asg now h0 h1 h2 h3 h4 h5 h6 h7 =
    let first = ip_state-apply_dhcp s rel asg.ip in
    let second = ip_state-apply_dhcp (apply_dhcp s rel) asg asg.ip in
    let kept : (apply_dhcp s rel).ip_state asg.ip ≡ none = unfold lease_step in ground arith in
    let leased : (apply_dhcp (apply_dhcp s rel) asg).ip_state asg.ip
        ≡ some (lease asg s.max_lease false) =
      unfold lease_step in
      ground (arith, kept, second, max_lease-apply_dhcp s rel, text_eq_refl asg.ip) in
    ground (arith, leased)
