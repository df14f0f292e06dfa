-- ===== src/Trace/Join.antt =====
-- dhcpBindingAt and radiusBindingAt of cmd/trace/identity_join.go.
pub mod Answers
use network_enricher.Prelude.{
  ℕ, List, [], ◌∷◌, Bool, true, false, not, ◌&&◌, ◌||◌, Option, none, some, length, Text, codes,
  text_eq, text_eq_iff, is_empty, Time, Duration, after, ltb, ◌==◌, if◌then◌else◌, ◌≡◌, ◌↔◌, arith,
}
use network_enricher.Prelude.Sets.{Eq, text_has_eq, collect, filter}
use network_enricher.Trace.Fold.{Rows, State, fold_rows}

-- dhcpEvent
pub record DhcpRow : Type 0 where
  pub time : Time
  pub event_id : ℕ
  pub ip : Text
  pub mac_token : Text

-- radiusEvent
pub record RadiusRow : Type 0 where
  pub time : Time
  pub acct_status : Text
  pub session_id : Text
  pub user_token : Text
  pub mac_token : Text

pub record RadiusCand : Type 0 where
  pub session_id : Text
  pub user_token : Text

abbrev pub cand_eq : RadiusCand → RadiusCand → Bool
cand_eq a b = text_eq a.session_id b.session_id && text_eq a.user_token b.user_token

pub cand_eq_iff : (a b : RadiusCand) → (cand_eq a b ≡ true) ↔ (a ≡ b)
cand_eq_iff a b =
    ground (arith, text_eq_iff a.session_id b.session_id, text_eq_iff a.user_token b.user_token)

instance abbrev pub cand_has_eq : Eq RadiusCand
cand_has_eq = record { eq = cand_eq; eq_iff = cand_eq_iff }

-- The two `switch`es on a row of the inner loop.
unfoldable pub dhcp_opens : DhcpRow → Option Text
dhcp_opens e = if e.event_id == 10 || e.event_id == 11 then some e.mac_token else none

unfoldable pub dhcp_closes : DhcpRow → Option Text
dhcp_closes e =
    if e.event_id == 10 || e.event_id == 11
    then none
    else if e.event_id == 12
    then some e.mac_token
    else none

abbrev pub dhcp_rows : Rows DhcpRow Text Text
dhcp_rows = record {
  time = λ e. e.time;
  opens = dhcp_opens;
  closes = dhcp_closes;
  entity = λ mac. mac;
}

unfoldable pub radius_opens : RadiusRow → Option RadiusCand
radius_opens e =
    if text_eq e.acct_status (codes "Start") || text_eq e.acct_status (codes "Interim-Update")
    then some (record { session_id = e.session_id; user_token = e.user_token })
    else none

unfoldable pub radius_closes : RadiusRow → Option Text
radius_closes e =
    if text_eq e.acct_status (codes "Start") || text_eq e.acct_status (codes "Interim-Update")
    then none
    else if text_eq e.acct_status (codes "Stop")
    then some e.session_id
    else none

abbrev pub radius_rows : Rows RadiusRow RadiusCand Text
radius_rows = record {
  time = λ e. e.time;
  opens = radius_opens;
  closes = radius_closes;
  entity = λ c. c.session_id;
}

-- The filters in front of the sort.
unfoldable pub dhcp_counts : Text → Time → DhcpRow → Bool
dhcp_counts ip t e = text_eq e.ip ip && not (is_empty e.mac_token) && not (after e.time t)

unfoldable pub radius_counts : Text → Time → RadiusRow → Bool
radius_counts mac t e =
    text_eq e.mac_token mac && not (is_empty e.mac_token) && not (after e.time t)

-- The result at the end: the token, and whether the evidence is ambiguous.
unfoldable pub dhcp_result : List Text → Bool → Text × Bool
dhcp_result [] late = ([], false)
dhcp_result (c ∷ cs) late =
    if late then ([], false) else if ltb 1 (length (c ∷ cs)) then ([], true) else (c, false)

unfoldable pub dhcp_binding_at : List DhcpRow → Text → Time → Duration → Text × Bool
dhcp_binding_at events ip t max_lease =
    let st = fold_rows dhcp_rows max_lease (filter (dhcp_counts ip t) events) in
    dhcp_result st.cands (after t st.deadline)

-- `user` is the token of the candidate that the loop reads last.
unfoldable pub last_user : Text → List RadiusCand → Text
last_user user [] = user
last_user user (c ∷ cs) = last_user c.user_token cs

unfoldable pub radius_result : List RadiusCand → Bool → Text × Bool
radius_result cands late =
    if length cands == 0 || late
    then ([], false)
    else if ltb 1 (length (collect {A = Text} (λ c. some c.session_id) cands))
        || ltb 1 (length (collect {A = Text} (λ c. some c.user_token) cands))
    then ([], true)
    else (last_user [] cands, false)

unfoldable pub radius_binding_at : List RadiusRow → Text → Time → Duration → Text × Bool
radius_binding_at events mac t max_session =
    let st = fold_rows radius_rows max_session (filter (radius_counts mac t) events) in
    radius_result st.cands (after t st.deadline)
