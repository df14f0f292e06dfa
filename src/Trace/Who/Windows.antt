-- ===== src/Trace/Who/Windows.antt =====
-- The windows of the queries of runWho, in cmd/trace/main.go, lose no evidence.
use network_enricher.Prelude.{
  ◌+◌, ◌-◌, ◌≤◌, ◌≡◌, sym, subst, true, arith, List, Text, text_eq_iff, Time, Duration,
}
use network_enricher.Prelude.Sets.{In, text_has_eq}
use network_enricher.Trace.Fold.Verdict.{Answers-recent}
use network_enricher.Trace.Join.{
  DhcpRow, RadiusRow, cand_has_eq, dhcp_rows, radius_rows, dhcp_counts, radius_counts,
  dhcp_binding_at, radius_binding_at,
}
use network_enricher.Trace.Join.Answers.{
  DhcpEvidence, RadiusEvidence, dhcp_binding_at-Answers, radius_rows-Answers,
}

-- The rows are those of the stored ones that have one of the keys and a time within the bounds.
pub record IsWindow (A : Type 0) (key : A → Text) (time : A → Time) (keys : List Text)
    (from to : Time) (stored rows : List A) : Type 0 where
  pub sound : (e : A) → In e rows → In e stored
  pub complete : (e : A) → In e stored → In (key e) keys → from ≤ time e → time e ≤ to → In e rows

dhcp_counted :
    (ip : Text) (t : Time) (e : DhcpRow) → dhcp_counts ip t e ≡ true → (e.ip ≡ ip) × (e.time ≤ t)
unfolding dhcp_counts
dhcp_counted ip t e h = let k = (text_eq_iff e.ip ip).0 in (ground (arith, k), ground arith)

radius_counted :
    (mac : Text) (t : Time) (e : RadiusRow)
    → radius_counts mac t e ≡ true
    → (e.mac_token ≡ mac) × (e.time ≤ t)
unfolding radius_counts
radius_counted mac t e h =
    let k = (text_eq_iff e.mac_token mac).0 in (ground (arith, k), ground arith)

module _ (keys : List Text) (from to t : Time) (horizon : Duration) (k : Text) (i : In k keys)
    (p : from ≤ t) (q : t ≤ to) where
  pub dhcp_window :
      (stored rows : List DhcpRow)
      → IsWindow DhcpRow (λ e. e.ip) (λ e. e.time) keys (from - horizon) to stored rows
      → dhcp_binding_at rows k t horizon ≡ dhcp_binding_at stored k t horizon
  dhcp_window stored rows w = sym (
      Answers-recent dhcp_rows t horizon (DhcpEvidence stored k t) (DhcpEvidence rows k t)
        (λ e m. (w.sound e m.0, m.1)) recent (λ c. c) (dhcp_binding_at stored k t horizon)
        (dhcp_binding_at rows k t horizon) (dhcp_binding_at-Answers stored k t horizon)
        (dhcp_binding_at-Answers rows k t horizon))
    where
      recent :
          (e : DhcpRow) → DhcpEvidence stored k t e → t ≤ e.time + horizon → DhcpEvidence rows k t e
      recent e m l =
          let (s, o) = dhcp_counted k t e m.1 in
          (w.complete e m.0 (subst (λ x. In x keys) (sym s) i) (omega arith) (omega arith), m.1)

  pub radius_window :
      (stored rows : List RadiusRow)
      → IsWindow RadiusRow (λ e. e.mac_token) (λ e. e.time) keys (from - horizon) to stored rows
      → radius_binding_at rows k t horizon ≡ radius_binding_at stored k t horizon
  radius_window stored rows w = sym (
      Answers-recent radius_rows t horizon (RadiusEvidence stored k t) (RadiusEvidence rows k t)
        (λ e m. (w.sound e m.0, m.1)) recent (λ c. c.user_token)
        (radius_binding_at stored k t horizon) (radius_binding_at rows k t horizon)
        (radius_rows-Answers stored k t horizon) (radius_rows-Answers rows k t horizon))
    where
      recent :
          (e : RadiusRow)
          → RadiusEvidence stored k t e
          → t ≤ e.time + horizon
          → RadiusEvidence rows k t e
      recent e m l =
          let (s, o) = radius_counted k t e m.1 in
          (w.complete e m.0 (subst (λ x. In x keys) (sym s) i) (omega arith) (omega arith), m.1)
