-- ===== src/Identity/Sessions.antt =====
-- applyRADIUS of identity.go: how the events of one device order themselves.
use network_enricher.Prelude.{
  ◌+◌, ◌≤◌, ◌<◌, ◌≡◌, ◌≢◌, ◌⊎◌, inl, inr, refl, List, [], ◌∷◌, Bool-cases, true, false, Option,
  none, some, arith, All, Text, codes, text_eq, is_empty, text_eq_iff, Time, Duration,
  if◌then◌else◌,
}
use network_enricher.Identity.{
  Op, dhcp, radius, evict, step, run, lookup, evict_expired, apply_dhcp, RadiusEvent, MacBinding,
  IdentityStore, session, session_step, is_open, is_stop, apply_radius, unless_overdue_mac,
}

-- Reading one device after an event: the others keep what they hold.
pub mac_state-apply_radius :
    (s : IdentityStore) (e : RadiusEvent) (mac : Text)
    → (apply_radius s e).mac_state mac ≡ (
        if is_empty e.mac_token
        then s.mac_state mac
        else if text_eq e.mac_token mac
        then session_step s.max_session (s.mac_state mac) e
        else s.mac_state mac)
unfolding apply_radius
mac_state-apply_radius s e mac = ground (arith, text_eq_iff e.mac_token mac)

pub max_session-apply_radius :
    (s : IdentityStore) (e : RadiusEvent) → (apply_radius s e).max_session ≡ s.max_session
unfolding apply_radius
max_session-apply_radius s e = ground arith

-- A handover in one second: the session `stop.session_id` ends and another of the device begins.
pub record IsHandover (s : IdentityStore) (b : MacBinding) (stop start : RadiusEvent) : Type 0 where
  pub held : s.mac_state start.mac_token ≡ some b
  pub holder : b.session_id ≡ stop.session_id
  pub not_newer : b.event_time ≤ start.event_time
  pub stops : is_stop stop.acct_status ≡ true
  pub starts : is_open start.acct_status ≡ true
  pub same_device : stop.mac_token ≡ start.mac_token
  pub same_time : stop.event_time ≡ start.event_time
  pub other_session : start.session_id ≢ stop.session_id
  pub known : is_empty start.mac_token ≡ false

stop-not_open : (status : Text) → is_stop status ≡ true → is_open status ≡ false
unfolding text_eq
stop-not_open status h = rw ((text_eq_iff status (codes "Stop")).0 h)

session_step_handover :
    (m : Duration) (b : MacBinding) (stop start : RadiusEvent)
    → b.session_id ≡ stop.session_id
    → b.event_time ≤ start.event_time
    → is_stop stop.acct_status ≡ true
    → is_open start.acct_status ≡ true
    → stop.event_time ≡ start.event_time
    → start.session_id ≢ stop.session_id
    → (session_step m (session_step m (some b) stop) start ≡ some (session start m false))
      × (session_step m (session_step m (some b) start) stop ≡ some (session start m false))
unfolding session_step
session_step_handover m b stop start h1 h2 h3 h5 h6 h7 = ground (
  arith,
  text_eq_iff b.session_id stop.session_id,
  text_eq_iff b.session_id start.session_id,
  text_eq_iff stop.session_id start.session_id,
  text_eq_iff start.session_id stop.session_id,
  stop-not_open stop.acct_status,
)

-- A Stop of one session and a Start or Interim-Update of another in the same second, on a device
-- that the first session holds by an event that is not newer, end with the second session open,
-- whichever of the two events arrives first.
session_handover_converges :
    (s : IdentityStore) (b : MacBinding) (stop start : RadiusEvent)
    → IsHandover s b stop start
    → ((apply_radius (apply_radius s stop) start).mac_state start.mac_token
        ≡ some (session start s.max_session false))
      × ((apply_radius (apply_radius s start) stop).mac_state start.mac_token
          ≡ some (session start s.max_session false))
session_handover_converges s b stop start h =
    let steps =
      session_step_handover s.max_session b stop start h.holder h.not_newer h.stops h.starts
        h.same_time h.other_session in
    let mac = start.mac_token in
    ground (
      arith,
      steps,
      mac_state-apply_radius (apply_radius s stop) start mac,
      mac_state-apply_radius (apply_radius s start) stop mac,
      mac_state-apply_radius s stop mac,
      mac_state-apply_radius s start mac,
      max_session-apply_radius s stop,
      max_session-apply_radius s start,
      text_eq_iff stop.mac_token mac,
      text_eq_iff mac mac,
    )

-- Before or at the second of a tombstone `b`, and of its session if in that second.
abbrev pub IsLate : MacBinding → RadiusEvent → Type 0
IsLate b e =
    (e.event_time < b.event_time)
    ⊎ ((e.event_time ≡ b.event_time)
        × (e.session_id ≡ b.session_id)
        × (e.user_token ≡ b.user_token))

-- Late events of the device; any of other devices; sweeps by a clock that `now` has reached.
abbrev pub IsReplay : Text → MacBinding → Time → Op → Type 0
IsReplay mac b now (dhcp e) = Unit
IsReplay mac b now (radius e) = e.mac_token ≡ mac → IsLate b e
IsReplay mac b now (evict t) = t ≤ now

abbrev IsDead : Time → Option MacBinding → Type 0
IsDead now none = Unit
IsDead now (some c) = c.deadline < now

-- What the device holds is the tombstone, or nothing that can be read at `now`.
abbrev Rests : MacBinding → Time → Option MacBinding → Type 0
Rests b now o = (o ≡ some b) ⊎ ((b.deadline < now) × IsDead now o)

session_step_late :
    (m : Duration) (b : MacBinding) (e : RadiusEvent)
    → b.closed ≡ true
    → m + b.event_time ≡ b.deadline
    → IsLate b e
    → session_step m (some b) e ≡ some b
unfolding session_step
session_step_late m b e c d l = ground (arith, text_eq_iff b.session_id e.session_id)

session_step-IsDead :
    (m : Duration) (o : Option MacBinding) (b : MacBinding) (e : RadiusEvent) (now : Time)
    → m + b.event_time ≡ b.deadline
    → b.deadline < now
    → IsLate b e
    → IsDead now o
    → IsDead now (session_step m o e)
unfolding session_step
session_step-IsDead m none b e now d h l x = ground arith
session_step-IsDead m (some c) b e now d h l x = ground arith

session_step-Rests :
    (m : Duration) (b : MacBinding) (now : Time) (o : Option MacBinding) (e : RadiusEvent)
    → b.closed ≡ true
    → m + b.event_time ≡ b.deadline
    → IsLate b e
    → Rests b now o
    → Rests b now (session_step m o e)
session_step-Rests m b now o e c d l (inl x) = inl (rw x (session_step_late m b e c d l))
session_step-Rests m b now o e c d l (inr x) =
    inr (x.0, session_step-IsDead m o b e now d x.0 l x.1)

evict-Rests :
    (b : MacBinding) (now t : Time) (o : Option MacBinding)
    → t ≤ now
    → Rests b now o
    → Rests b now (unless_overdue_mac t o)
evict-Rests b now t none h x = ground arith
evict-Rests b now t (some c) h x = ground arith

step-Rests :
    (mac : Text) (b : MacBinding) (now : Time) (s : IdentityStore) (op : Op)
    → b.closed ≡ true
    → s.max_session + b.event_time ≡ b.deadline
    → IsReplay mac b now op
    → Rests b now (s.mac_state mac)
    → Rests b now ((step s op).mac_state mac) × ((step s op).max_session ≡ s.max_session)
unfolding step
step-Rests mac b now s (radius e) c d r x = (
  rw (mac_state-apply_radius s e mac) (elim (Bool-cases (is_empty e.mac_token)) [
    | inl e0 ↦ rw e0 x
    | inr e0 ↦ rw e0 (elim (Bool-cases (text_eq e.mac_token mac)) [
      | inl here ↦ rw here (
          session_step-Rests s.max_session b now (s.mac_state mac) e c d
            (r ((text_eq_iff e.mac_token mac).0 here)) x)
      | inr there ↦ rw there x
    ])
  ]),
  max_session-apply_radius s e,
)
step-Rests mac b now s (dhcp e) c d r x = unfold apply_dhcp in ground arith
step-Rests mac b now s (evict t) c d r x =
    unfold evict_expired in (evict-Rests b now t (s.mac_state mac) r x, refl)

run-Rests :
    (mac : Text) (b : MacBinding) (now : Time) (ops : List Op) (s : IdentityStore)
    → b.closed ≡ true
    → s.max_session + b.event_time ≡ b.deadline
    → All (IsReplay mac b now) ops
    → Rests b now (s.mac_state mac)
    → Rests b now ((run s ops).mac_state mac)
unfolding run
run-Rests mac b now [] s c d r x = x
run-Rests mac b now (op ∷ ops) s c d (r, rs) x =
    let (x', m) = step-Rests mac b now s op c d r x in
    run-Rests mac b now ops (step s op) c (rw m d) rs x'

lookup-Rests :
    (mac : Text) (b : MacBinding) (now : Time) (s : IdentityStore) (ip : Text)
    → b.closed ≡ true
    → Rests b now (s.mac_state mac)
    → (lookup s ip now).0 ≡ mac
    → (lookup s ip now).1 ≡ []
unfolding lookup
lookup-Rests mac b now s ip c x h = ground arith

-- Once a Stop has left the tombstone `b` on a device, no replay of late events (older than the
-- Stop, or of its second, session and user), mixed in any way with events of other devices, DHCP
-- events and sweeps by clocks up to `now`, makes an address of the device resolve to a user at
-- `now` again, wherever the device roams.
pub stopped_session_holds :
    (s : IdentityStore) (mac ip : Text) (b : MacBinding) (now : Time) (ops : List Op)
    → s.mac_state mac ≡ some b
    → b.closed ≡ true
    → s.max_session + b.event_time ≡ b.deadline
    → All (IsReplay mac b now) ops
    → (lookup (run s ops) ip now).0 ≡ mac
    → (lookup (run s ops) ip now).1 ≡ []
stopped_session_holds s mac ip b now ops held c d r =
    lookup-Rests mac b now (run s ops) ip c (run-Rests mac b now ops s c d r (inl held))
