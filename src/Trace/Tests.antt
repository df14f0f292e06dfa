-- ===== src/Trace/Tests.antt =====
-- Runs of the forensic join at concrete rows.
use network_enricher.Prelude.{
  ℕ, ◌≡◌, ◌↔◌, refl, inl, inr, either, List, [], ◌∷◌, true, false, Text, codes, text_eq, Time,
}
use network_enricher.Prelude.Sets.{text_has_eq, collect, filter, member, put}
use network_enricher.Trace.Fold.Verdict.{Answers}
use network_enricher.Trace.Fold.{
  insert_sorted, sort_stable, join_batch, batches, open_set, close_set, batch_time, reopen,
  apply_batch, fold_batches, fold_rows,
}
use network_enricher.Trace.Join.{
  dhcp_opens, dhcp_closes, radius_opens, radius_closes, dhcp_counts, radius_counts, dhcp_result,
  last_user, radius_result, DhcpRow, RadiusRow, cand_has_eq, dhcp_rows, radius_rows,
  dhcp_binding_at, radius_binding_at,
}
use network_enricher.Trace.Join.Answers.{
  DhcpEvidence, RadiusEvidence, IsUserless, dhcp_binding_at-Answers, radius_binding_at-Answers,
  dhcp_binding_at_order_free,
}

program : Unit {0}
unfolding insert_sorted sort_stable join_batch batches open_set close_set batch_time reopen
    apply_batch fold_batches fold_rows dhcp_opens dhcp_closes radius_opens radius_closes dhcp_counts
    radius_counts dhcp_result last_user radius_result dhcp_binding_at radius_binding_at collect
    filter member put text_eq
program = tt

abbrev ip : Text
ip = codes "10.0.0.5"

abbrev lease_row : ℕ → Text → Time → DhcpRow
lease_row id mac t = record { time = t; event_id = id; ip = ip; mac_token = mac }

abbrev session_row : Text → Text → Text → Time → RadiusRow
session_row status session user t = record {
  time = t;
  acct_status = status;
  session_id = session;
  user_token = user;
  mac_token = codes "m1";
}

-- A release and two assigns of one second, with a row of the past.
abbrev same_second : List DhcpRow
same_second =
    lease_row 10 (codes "m1") 5
    ∷ lease_row 12 (codes "m1") 9
    ∷ lease_row 10 (codes "m2") 9
    ∷ lease_row 11 (codes "m3") 9
    ∷ []

abbrev released : List DhcpRow
released = lease_row 12 (codes "m3") 11 ∷ same_second

several : dhcp_binding_at same_second ip 10 100 ≡ ([], true)
unfolding program
several = refl

-- A release leaves one of them, whose lease runs from the second of its assign.
one_left : dhcp_binding_at released ip 109 100 ≡ (codes "m2", false)
unfolding program
one_left = refl

ran_out : dhcp_binding_at released ip 110 100 ≡ ([], false)
unfolding program
ran_out = refl

abbrev sessions : List RadiusRow
sessions =
    session_row (codes "Start") (codes "s1") (codes "u1") 3
    ∷ session_row (codes "Stop") (codes "s1") (codes "u1") 8
    ∷ session_row (codes "Interim-Update") (codes "s2") (codes "u2") 8
    ∷ []

user_two : radius_binding_at sessions (codes "m1") 20 100 ≡ (codes "u2", false)
unfolding program
user_two = refl

dhcp_binding_at-Answers_example :
    Answers dhcp_rows 10 100
      (DhcpEvidence same_second ip 10)
      (λ c. c)
      (dhcp_binding_at same_second ip 10 100)
dhcp_binding_at-Answers_example = dhcp_binding_at-Answers same_second ip 10 100

radius_binding_at-Answers_example :
    Answers radius_rows 20 100
      (RadiusEvidence sessions (codes "m1") 20)
      (λ c. c.user_token)
      (radius_binding_at sessions (codes "m1") 20 100)
    × ((radius_binding_at sessions (codes "m1") 20 100 ≡ ([], false))
        ↔ IsUserless sessions (codes "m1") 20 100)
radius_binding_at-Answers_example = radius_binding_at-Answers sessions (codes "m1") 20 100

abbrev two_rows : List DhcpRow
two_rows = lease_row 10 (codes "m1") 5 ∷ lease_row 12 (codes "m1") 5 ∷ []

abbrev two_rows_replayed : List DhcpRow
two_rows_replayed = lease_row 12 (codes "m1") 5 ∷ two_rows

dhcp_binding_at_order_free_example :
    dhcp_binding_at two_rows ip 10 100 ≡ dhcp_binding_at two_rows_replayed ip 10 100
dhcp_binding_at_order_free_example =
    dhcp_binding_at_order_free two_rows two_rows_replayed ip 10 100 (λ e i. inr i)
      (λ e. either (λ p. inr (inl p)) (λ i. i))

abbrev two_sessions : List RadiusRow
two_sessions =
    session_row (codes "Start") (codes "s1") (codes "u1") 3
    ∷ session_row (codes "Start") (codes "s2") (codes "u2") 3
    ∷ []

abbrev two_sessions_replayed : List RadiusRow
two_sessions_replayed = session_row (codes "Start") (codes "s2") (codes "u2") 3 ∷ two_sessions
