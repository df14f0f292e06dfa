-- ===== src/LogLine/Recorded.antt =====
-- What the parsers of dhcplog.go and npslog.go let through.
use network_enricher.Prelude.{
  ℕ, ◌%◌, ◌≡◌, ◌⊎◌, refl, inl, inr, Bool, Bool-cases, true, false, not, ◌||◌, arith, Option, none,
  some, List, [], ◌++◌, length, Text, codes, text_eq, is_empty, trim_space, split_byte, Time, ltb,
  ◌==◌, if◌then◌else◌,
}
use network_enricher.Prelude.Int.{ℤ, pos, negsuc}
use network_enricher.DnsStore.{second}
use network_enricher.Identity.{DhcpEvent, RadiusEvent, is_assign, is_open, is_stop}
use network_enricher.LogLine.{LineOutcome, skipped, malformed, parsed}
use network_enricher.LogLine.Dhcp.{
  short_dhcp_row, DhcpError, atoi, is_lease_change, column, uint16, dhcp_event, dhcp_row,
  dhcp_numbered, parse_dhcp_line,
}
use network_enricher.LogLine.Nps.{
  field_of, acct_status_name, parse_dts_time, first_parsed, truncated, nps_event, nps_fields,
  parse_nps_line,
}
use network_enricher.Pseudonym.{Tokenizer}

abbrev IsTracked : Text → Type 0
IsTracked s = (is_open s ≡ true) ⊎ (is_stop s ≡ true)

status_chosen :
    (a b c : Bool)
    → is_empty (
        if a
        then codes "Start"
        else if b
        then codes "Stop"
        else if c
        then codes "Interim-Update"
        else [])
      ≡ false
    → IsTracked (
        if a
        then codes "Start"
        else if b
        then codes "Stop"
        else if c
        then codes "Interim-Update"
        else [])
unfolding text_eq
status_chosen true b c h = inl refl
status_chosen false true c h = inr refl
status_chosen false false true h = inl refl
status_chosen false false false h = cc

acct_status_name-IsTracked :
    (v : Text) → is_empty (acct_status_name v) ≡ false → IsTracked (acct_status_name v)
unfolding acct_status_name text_eq
acct_status_name-IsTracked v h =
    let t = trim_space v in
    status_chosen (text_eq t (codes "1") || text_eq t (codes "Start"))
      (text_eq t (codes "2") || text_eq t (codes "Stop"))
      (text_eq t (codes "3")
        || text_eq t (codes "Interim-Update")
        || text_eq t (codes "InterimUpdate"))
      h

-- The event of the outcome satisfies the predicate.
abbrev pub OnParsed : {E X : Type 0} → (E → Type 0) → LineOutcome E X → Type 0
OnParsed P skipped = Unit
OnParsed P (malformed x) = Unit
OnParsed P (parsed e) = P e

OnParsed-if :
    {E X : Type 0} (P : E → Type 0) (b : Bool) (x y : LineOutcome E X)
    → OnParsed P x
    → (b ≡ false → OnParsed P y)
    → OnParsed P (if b then x else y)
OnParsed-if P true x y p q = p
OnParsed-if P false x y p q = q refl

abbrev pub IsLeaseChange : DhcpEvent → Type 0
IsLeaseChange e = (is_assign e.event_id ≡ true) ⊎ (e.event_id ≡ 12)

abbrev pub IsSessionChange : RadiusEvent → Type 0
IsSessionChange e =
    ((is_open e.acct_status ≡ true) ⊎ (is_stop e.acct_status ≡ true)) × (e.event_time % second ≡ 0)

module _ (tok : Tokenizer) (parse_time : Text → Option Time) where
  dhcp_event-IsLeaseChange :
      (n : ℕ) (fs : List Text) (t : Option Time)
      → is_lease_change (pos n) ≡ true
      → OnParsed IsLeaseChange (dhcp_event tok parse_time (pos n) fs t)
  unfolding dhcp_event is_lease_change uint16
  dhcp_event-IsLeaseChange n fs none h = tt
  dhcp_event-IsLeaseChange n fs (some t) h = elim (Bool-cases (n == 12)) [
    | inl k ↦ inr (ground (arith, k))
    | inr k ↦ inl (ground (arith, h, k))
  ]

  dhcp_row-IsLeaseChange :
      (id : ℤ) (fs : List Text) → OnParsed IsLeaseChange (dhcp_row tok parse_time id fs)
  unfolding dhcp_row is_lease_change
  dhcp_row-IsLeaseChange (negsuc n) fs = tt
  dhcp_row-IsLeaseChange (pos n) fs =
      OnParsed-if IsLeaseChange (not (is_lease_change (pos n))) skipped
        (if ltb (length fs) 7 then malformed short_dhcp_row else event) tt
        (λ k.
          OnParsed-if IsLeaseChange (ltb (length fs) 7) (malformed short_dhcp_row) event tt (λ j.
            dhcp_event-IsLeaseChange n fs
              (parse_time (trim_space (column 1 fs) ++ codes " " ++ trim_space (column 2 fs)))
              (ground (arith, k))))
    where
      event : LineOutcome DhcpEvent DhcpError
      event =
          dhcp_event tok parse_time (pos n) fs
            (parse_time (trim_space (column 1 fs) ++ codes " " ++ trim_space (column 2 fs)))

  -- Whatever the line: an event that parseDHCPLine gives is one that applyDHCP acts on, an assign,
  -- a renewal or a release.
  parse_dhcp_line-IsLeaseChange :
      (line : Text) → OnParsed IsLeaseChange (parse_dhcp_line tok parse_time line)
  unfolding parse_dhcp_line dhcp_numbered
  parse_dhcp_line-IsLeaseChange line =
      let fs = split_byte 44 (trim_space line) in
      OnParsed-if IsLeaseChange (is_empty (trim_space line)) skipped
        (dhcp_numbered tok parse_time fs (atoi (trim_space (column 0 fs)))) tt
        (λ k. numbered fs (atoi (trim_space (column 0 fs))))
    where
      numbered :
          (fs : List Text) (id : Option ℤ)
          → OnParsed IsLeaseChange (dhcp_numbered tok parse_time fs id)
      numbered fs none = tt
      numbered fs (some id) = dhcp_row-IsLeaseChange id fs

module _ (tok : Tokenizer) (unmarshal : Text → Option (List (Text × Text)))
    (parse_millis parse_seconds : Text → Option Time) where
  abbrev IsWhole : Option Time → Type 0
  IsWhole none = Unit
  IsWhole (some t) = t % second ≡ 0

  parse_dts_time-IsWhole :
      (v : Text) → IsWhole (parse_dts_time tok unmarshal parse_millis parse_seconds v)
  unfolding parse_dts_time
  parse_dts_time-IsWhole v =
      go (is_empty (trim_space v)) (parse_millis (trim_space v)) (parse_seconds (trim_space v))
    where
      go :
          (b : Bool) (o q : Option Time)
          → IsWhole (if b then none else truncated (first_parsed o q))
      go true o q = tt
      go false none none = tt
      go false none (some t) = omega arith
      go false (some t) q = omega arith

  nps_event-IsSessionChange :
      (status : Text) (fs : List (Text × Text)) (o q : Option Time)
      → IsTracked status
      → IsWhole o
      → IsWhole q
      → OnParsed IsSessionChange
          (nps_event tok unmarshal parse_millis parse_seconds status fs (first_parsed o q))
  unfolding nps_event
  nps_event-IsSessionChange status fs none none h a b = tt
  nps_event-IsSessionChange status fs none (some t) h a b = (h, b)
  nps_event-IsSessionChange status fs (some t) q h a b = (h, a)

  -- Whatever the line: a record that parseNPSLine gives starts, refreshes or ends a session, and
  -- its time is a whole second.
  parse_nps_line-IsSessionChange :
      (line : Text)
      → OnParsed IsSessionChange (parse_nps_line tok unmarshal parse_millis parse_seconds line)
  unfolding parse_nps_line nps_fields
  parse_nps_line-IsSessionChange line =
      OnParsed-if IsSessionChange (is_empty (trim_space line)) skipped
        (nps_fields tok unmarshal parse_millis parse_seconds (unmarshal (trim_space line))) tt
        (λ k. fielded (unmarshal (trim_space line)))
    where
      dts : Text → Option Time
      dts = parse_dts_time tok unmarshal parse_millis parse_seconds

      fielded :
          (o : Option (List (Text × Text)))
          → OnParsed IsSessionChange (nps_fields tok unmarshal parse_millis parse_seconds o)
      fielded none = tt
      fielded (some fs) =
          let status = acct_status_name (field_of [] (codes "Acct-Status-Type") fs) in
          let stamp = field_of [] (codes "Timestamp") fs in
          let event = field_of [] (codes "Event-Timestamp") fs in
          OnParsed-if IsSessionChange (is_empty status) skipped
            (nps_event tok unmarshal parse_millis parse_seconds status fs
              (first_parsed (dts stamp) (dts event)))
            tt
            (λ k.
              nps_event-IsSessionChange status fs (dts stamp) (dts event)
                (acct_status_name-IsTracked (field_of [] (codes "Acct-Status-Type") fs) k)
                (parse_dts_time-IsWhole stamp) (parse_dts_time-IsWhole event))
