-- ===== src/Identity/Evidence.antt =====
-- Where the tokens that `Lookup` of identity.go returns come from.
use network_enricher.Prelude.{
  ◌+◌, ◌≤◌, ◌≡◌, ◌∙◌, ◌≢◌, inl, inr, refl, List, [], ◌∷◌, Bool-cases, Option-cases, true, false,
  Option, none, some, arith, Any, Text, text_eq, is_empty, text_eq_iff, Time, Duration, ltb, ◌==◌,
}
use network_enricher.Identity.{
  Op, dhcp, radius, evict, step, run, lookup, evict_expired, apply_dhcp, apply_radius, DhcpEvent,
  RadiusEvent, IpBinding, MacBinding, IdentityStore, lease_step, session_step, is_assign, is_open,
  assign_is_stale, release_applies, open_is_stale, stop_applies, is_stop, unless_overdue_ip,
  unless_overdue_mac, new_identity_store,
}
use network_enricher.Identity.Leases.{ip_state-apply_dhcp, max_lease-apply_dhcp}
use network_enricher.Identity.Sessions.{mac_state-apply_radius, max_session-apply_radius}

abbrev pub In : Op → List Op → Type 0
In op ops = Any (λ o. op ≡ o) ops

-- An assign or renew of the history that leased `ip` to `mac`, and whose horizon is `until`.
pub record LeasedBy (ops : List Op) (m : Duration) (ip mac : Text) (until : Time) : Type 0 where
  pub event : DhcpEvent
  pub recorded : In (dhcp event) ops
  pub assigns : is_assign event.event_id ≡ true
  pub at_ip : event.ip ≡ ip
  pub of_mac : event.mac_token ≡ mac
  pub horizon : event.event_time + m ≡ until

-- A Start or Interim-Update of the history that gave `mac` to `user`.
pub record OpenedBy (ops : List Op) (m : Duration) (mac user : Text) (until : Time) : Type 0 where
  pub event : RadiusEvent
  pub recorded : In (radius event) ops
  pub opens : is_open event.acct_status ≡ true
  pub of_mac : event.mac_token ≡ mac
  pub of_user : event.user_token ≡ user
  pub horizon : event.event_time + m ≡ until

mac_state-apply_dhcp :
    (s : IdentityStore) (e : DhcpEvent) → (apply_dhcp s e).mac_state ≡ s.mac_state
unfolding apply_dhcp
mac_state-apply_dhcp s e = elim (Bool-cases (is_empty e.mac_token)) [ inl x ↦ rw x | inr x ↦ rw x ]

ip_state-apply_radius :
    (s : IdentityStore) (e : RadiusEvent) → (apply_radius s e).ip_state ≡ s.ip_state
unfolding apply_radius
ip_state-apply_radius s e = elim (Bool-cases (is_empty e.mac_token)) [ inl x ↦ rw x | inr x ↦ rw x ]

module _ (ops : List Op) (ml ms : Duration) where
  abbrev IsLeased : Text → Option IpBinding → Type 0
  IsLeased ip none = Unit
  IsLeased ip (some b) = b.closed ≡ false → LeasedBy ops ml ip b.mac_token b.deadline

  abbrev IsOpened : Text → Option MacBinding → Type 0
  IsOpened mac none = Unit
  IsOpened mac (some b) = b.closed ≡ false → OpenedBy ops ms mac b.user_token b.deadline

  record IsFounded (s : IdentityStore) : Type 0 where
    lease_bound : s.max_lease ≡ ml
    session_bound : s.max_session ≡ ms
    leased : (ip : Text) → IsLeased ip (s.ip_state ip)
    opened : (mac : Text) → IsOpened mac (s.mac_state mac)

  lease_step-IsLeased :
      (o : Option IpBinding) (e : DhcpEvent)
      → In (dhcp e) ops
      → IsLeased e.ip o
      → IsLeased e.ip (lease_step ml o e)
  unfolding lease_step
  lease_step-IsLeased o e i h = elim (Bool-cases (is_assign e.event_id)) [
    | inl a ↦ rw a (elim (Bool-cases (assign_is_stale o e)) [
      | inl t ↦ rw t h
      | inr f ↦ rw f (λ _. record {
        event = e;
        recorded = i;
        assigns = a;
        at_ip = refl;
        of_mac = refl;
        horizon = refl;
      })
    ])
    | inr a ↦ rw a (elim (Bool-cases (e.event_id == 12)) [
      | inl r ↦
          rw r (elim (Bool-cases (release_applies o e)) [ inl t ↦ rw t (λ c. cc) | inr f ↦ rw f h ])
      | inr r ↦ rw r h
    ])
  ]

  session_step-IsOpened :
      (o : Option MacBinding) (e : RadiusEvent)
      → In (radius e) ops
      → IsOpened e.mac_token o
      → IsOpened e.mac_token (session_step ms o e)
  unfolding session_step
  session_step-IsOpened o e i h = elim (Bool-cases (is_open e.acct_status)) [
    | inl a ↦ rw a (elim (Bool-cases (open_is_stale o e)) [
      | inl t ↦ rw t h
      | inr f ↦ rw f (λ _. record {
        event = e;
        recorded = i;
        opens = a;
        of_mac = refl;
        of_user = refl;
        horizon = refl;
      })
    ])
    | inr a ↦ rw a (elim (Bool-cases (is_stop e.acct_status)) [
      | inl r ↦
          rw r (elim (Bool-cases (stop_applies o e)) [ inl t ↦ rw t (λ c. cc) | inr f ↦ rw f h ])
      | inr r ↦ rw r h
    ])
  ]

  evict-IsLeased :
      (ip : Text) (t : Time) (o : Option IpBinding)
      → IsLeased ip o
      → IsLeased ip (unless_overdue_ip t o)
  evict-IsLeased ip t none h = tt
  evict-IsLeased ip t (some b) h = elim (Bool-cases (ltb b.deadline t)) [
    | inl x ↦ rw x tt
    | inr x ↦ rw x h
  ]

  evict-IsOpened :
      (mac : Text) (t : Time) (o : Option MacBinding)
      → IsOpened mac o
      → IsOpened mac (unless_overdue_mac t o)
  evict-IsOpened mac t none h = tt
  evict-IsOpened mac t (some b) h = elim (Bool-cases (ltb b.deadline t)) [
    | inl x ↦ rw x tt
    | inr x ↦ rw x h
  ]

  apply_dhcp-IsLeased :
      (s : IdentityStore) (e : DhcpEvent) (ip : Text)
      → In (dhcp e) ops
      → IsFounded s
      → IsLeased ip ((apply_dhcp s e).ip_state ip)
  apply_dhcp-IsLeased s e ip i f =
      rw (ip_state-apply_dhcp s e ip, f.lease_bound)
        (elim (Bool-cases (is_empty e.mac_token)) [
          | inl e0 ↦ rw e0 (f.leased ip)
          | inr e0 ↦ rw e0 (elim (Bool-cases (text_eq e.ip ip)) [
            | inl here ↦ rw here (
                rw (← (text_eq_iff e.ip ip).0 here)
                  (lease_step-IsLeased (s.ip_state e.ip) e i (f.leased e.ip)))
            | inr there ↦ rw there (f.leased ip)
          ])
        ])

  apply_radius-IsOpened :
      (s : IdentityStore) (e : RadiusEvent) (mac : Text)
      → In (radius e) ops
      → IsFounded s
      → IsOpened mac ((apply_radius s e).mac_state mac)
  apply_radius-IsOpened s e mac i f =
      rw (mac_state-apply_radius s e mac, f.session_bound)
        (elim (Bool-cases (is_empty e.mac_token)) [
          | inl e0 ↦ rw e0 (f.opened mac)
          | inr e0 ↦ rw e0 (elim (Bool-cases (text_eq e.mac_token mac)) [
            | inl here ↦ rw here (
                rw (← (text_eq_iff e.mac_token mac).0 here)
                  (session_step-IsOpened (s.mac_state e.mac_token) e i (f.opened e.mac_token)))
            | inr there ↦ rw there (f.opened mac)
          ])
        ])

  step-IsFounded : (s : IdentityStore) (op : Op) → In op ops → IsFounded s → IsFounded (step s op)
  unfolding step
  step-IsFounded s (dhcp e) i f = record {
    lease_bound = max_lease-apply_dhcp s e ∙ f.lease_bound;
    session_bound = unfold apply_dhcp in ground (arith, f.session_bound);
    leased = λ ip. apply_dhcp-IsLeased s e ip i f;
    opened = λ mac. rw (mac_state-apply_dhcp s e) (f.opened mac);
  }
  step-IsFounded s (radius e) i f = record {
    lease_bound = unfold apply_radius in ground (arith, f.lease_bound);
    session_bound = max_session-apply_radius s e ∙ f.session_bound;
    leased = λ ip. rw (ip_state-apply_radius s e) (f.leased ip);
    opened = λ mac. apply_radius-IsOpened s e mac i f;
  }
  step-IsFounded s (evict t) i f =
      unfold evict_expired in
      record {
        lease_bound = f.lease_bound;
        session_bound = f.session_bound;
        leased = λ ip. evict-IsLeased ip t (s.ip_state ip) (f.leased ip);
        opened = λ mac. evict-IsOpened mac t (s.mac_state mac) (f.opened mac);
      }

  run-IsFounded :
      (rest : List Op) (s : IdentityStore)
      → ((op : Op) → In op rest → In op ops)
      → IsFounded s
      → IsFounded (run s rest)
  unfolding run
  run-IsFounded [] s sub f = f
  run-IsFounded (op ∷ rest) s sub f =
      run-IsFounded rest (step s op) (λ o i. sub o (inr i))
        (step-IsFounded s op (sub op (inl refl)) f)

  new-IsFounded : IsFounded (new_identity_store ml ms)
  unfolding new_identity_store
  new-IsFounded = record {
    lease_bound = refl;
    session_bound = refl;
    leased = λ _. tt;
    opened = λ _. tt;
  }

-- What `lookup` reads at an address, by the two maps.
lookup-device :
    (s : IdentityStore) (ip : Text) (now : Time)
    → (lookup s ip now).0 ≢ []
    → (b : IpBinding) × (s.ip_state ip ≡ some b)
      × (b.closed ≡ false)
      × (now ≤ b.deadline)
      × ((lookup s ip now).0 ≡ b.mac_token)
unfolding lookup
lookup-device s ip now h = elim (Option-cases (s.ip_state ip)) [
  | inl e ↦ absurd (h (rw (e, lookup)))
  | inr (b, e) ↦ (b, e, ground arith, ground arith, ground arith)
]

lookup-user :
    (s : IdentityStore) (ip : Text) (now : Time)
    → (lookup s ip now).1 ≢ []
    → (b : MacBinding) × (s.mac_state (lookup s ip now).0 ≡ some b)
      × (b.closed ≡ false)
      × (now ≤ b.deadline)
      × ((lookup s ip now).1 ≡ b.user_token)
unfolding lookup
lookup-user s ip now h = elim (Option-cases (s.mac_state (lookup s ip now).0)) [
  | inl e ↦ absurd (h (ground arith))
  | inr (b, e) ↦ (b, e, ground arith, ground arith, ground arith)
]

module _ (ops : List Op) (ml ms : Duration) (ip : Text) (now : Time) where
  abbrev final : IdentityStore
  final = run (new_identity_store ml ms) ops

  final-IsFounded : IsFounded ops ml ms final
  final-IsFounded =
      run-IsFounded ops ml ms ops (new_identity_store ml ms) (λ _ i. i) (new-IsFounded ops ml ms)

  -- A device that `Lookup` names, after any history of events and sweeps from an empty store, was
  -- leased that address by an assign or renew of the history whose trust horizon, its time plus
  -- the maximal lease, has not passed.
  pub device_evidence :
      (lookup final ip now).0 ≢ []
      → (until : Time) × LeasedBy ops ml ip (lookup final ip now).0 until × (now ≤ until)
  device_evidence h =
      let (b, held, live, fresh, named) = lookup-device final ip now h in
      let leased : IsLeased ops ml ms ip (some b) = rw held at ((final-IsFounded).leased ip) in
      (b.deadline, rw named (leased live), fresh)

  -- A user that `Lookup` names, after any such history, was reported for the named device by a
  -- Start or Interim-Update of the history whose time plus the maximal session has not passed.
  pub user_evidence :
      (lookup final ip now).1 ≢ []
      → (until : Time) × OpenedBy ops ms (lookup final ip now).0 (lookup final ip now).1 until
        × (now ≤ until)
  user_evidence h =
      let (b, held, live, fresh, named) = lookup-user final ip now h in
      let mac = (lookup final ip now).0 in
      let opened : IsOpened ops ml ms mac (some b) = rw held at ((final-IsFounded).opened mac) in
      (b.deadline, rw named (opened live), fresh)
