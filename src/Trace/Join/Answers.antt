-- ===== src/Trace/Join/Answers.antt =====
-- What dhcpBindingAt and radiusBindingAt of cmd/trace/identity_join.go answer, read off the set of
-- the stored events.
use network_enricher.Prelude.{
  ◌≡◌, ◌≢◌, ◌<◌, ◌⊎◌, ◌↔◌, sym, ap, ◌∙◌, inl, inr, refl, List, [], ◌∷◌, Bool, Bool-cases, true,
  false, Option, some, arith, length, Text, text_eq, text_eq_iff, Time, Duration, after,
}
use mathlib.Core.Bool.{false≢true}
use network_enricher.Prelude.Sets.{
  In, text_has_eq, collect, collect_complete, lt-length_of_members, member, filter, mem_of_filter,
  filter_of_mem,
}
use network_enricher.Trace.Fold.Batch.{Means-iff, fold_rows-Means}
use network_enricher.Trace.Fold.Verdict.{
  InForce, Verdict, unknown, one, several, Means-Verdict, Answers, Answers-unique,
}
use network_enricher.Trace.Fold.{State, fold_rows}
use network_enricher.Trace.Join.{
  DhcpRow, RadiusRow, RadiusCand, cand_has_eq, dhcp_rows, radius_rows, dhcp_counts, radius_counts,
  dhcp_result, radius_result, dhcp_binding_at, radius_binding_at, last_user,
}

-- The rows that count: those of the key with a device, up to the instant.
abbrev pub DhcpEvidence : List DhcpRow → Text → Time → DhcpRow → Type 0
DhcpEvidence events ip t e = In e events × (dhcp_counts ip t e ≡ true)

abbrev pub RadiusEvidence : List RadiusRow → Text → Time → RadiusRow → Type 0
RadiusEvidence events mac t e = In e events × (radius_counts mac t e ≡ true)

dhcp_result_late : (cs : List Text) → dhcp_result cs true ≡ ([], false)
unfolding dhcp_result
dhcp_result_late [] = refl
dhcp_result_late (c ∷ cs) = refl

dhcp_result-Answers :
    (M : DhcpRow → Type 0) (t : Time) (horizon : Duration) (st : State Text)
    → Verdict dhcp_rows t horizon M st
    → Answers dhcp_rows t horizon M (λ c. c) (dhcp_result st.cands (after t st.deadline))
unfolding dhcp_result
dhcp_result-Answers M t horizon st (unknown (inl e) n) = inl (rw (e, dhcp_result), n)
dhcp_result-Answers M t horizon st (unknown (inr e) n) = inl (rw e (dhcp_result_late st.cands), n)
dhcp_result-Answers M t horizon st (one c e live f u) = inr (inl (c, rw (e, live), f, u))
dhcp_result-Answers M t horizon st (several c d cs e live f g n) =
    inr (inr (c, d, rw (e, live) (ground arith), f, g, n))

-- The lease that `dhcpBindingAt` reports at an instant is a fact of the set of stored events: a
-- device is in force if one of the newest assigns and renews of the address up to the instant is
-- its own, every release of it is older than that, and the maximal lease from there covers the
-- instant. The answer is "unknown" exactly if no device is in force, a device exactly if it is
-- the only one, and "ambiguous" exactly if there are several.
pub dhcp_binding_at-Answers :
    (events : List DhcpRow) (ip : Text) (t : Time) (max_lease : Duration)
    → Answers dhcp_rows t max_lease
        (DhcpEvidence events ip t)
        (λ c. c)
        (dhcp_binding_at events ip t max_lease)
unfolding dhcp_binding_at
dhcp_binding_at-Answers events ip t max_lease =
    let f = filter (dhcp_counts ip t) events in
    dhcp_result-Answers (DhcpEvidence events ip t) t max_lease (fold_rows dhcp_rows max_lease f) (
      Means-Verdict dhcp_rows t max_lease (DhcpEvidence events ip t)
        (fold_rows dhcp_rows max_lease f)
        (Means-iff dhcp_rows max_lease (λ e. In e f) (DhcpEvidence events ip t)
          (fold_rows dhcp_rows max_lease f) (λ e i. mem_of_filter (dhcp_counts ip t) e events i)
          (λ e m. filter_of_mem (dhcp_counts ip t) e events m.1 m.0)
          (fold_rows-Means dhcp_rows max_lease f)))

-- Two event lists that hold the same rows, in any order and any number of times each, give the
-- same answer.
pub dhcp_binding_at_order_free :
    (events others : List DhcpRow) (ip : Text) (t : Time) (max_lease : Duration)
    → ((e : DhcpRow) → In e events → In e others)
    → ((e : DhcpRow) → In e others → In e events)
    → dhcp_binding_at events ip t max_lease ≡ dhcp_binding_at others ip t max_lease
dhcp_binding_at_order_free events others ip t max_lease to from =
    Answers-unique dhcp_rows t max_lease (DhcpEvidence events ip t) (DhcpEvidence others ip t)
      (λ c. c) (dhcp_binding_at events ip t max_lease) (dhcp_binding_at others ip t max_lease)
      (λ e m. (to e m.0, m.1)) (λ e m. (from e m.0, m.1))
      (dhcp_binding_at-Answers events ip t max_lease)
      (dhcp_binding_at-Answers others ip t max_lease)

radius_result_late : (cs : List RadiusCand) → radius_result cs true ≡ ([], false)
unfolding radius_result
radius_result_late cs = ground arith

keys_differ :
    (key : RadiusCand → Text) (c d : RadiusCand) (cs : List RadiusCand)
    → key c ≢ key d
    → 1 < length (collect {A = Text} (λ x. some (key x)) (c ∷ d ∷ cs))
keys_differ key c d cs n =
    let f : RadiusCand → Option Text = λ x. some (key x) in
    lt-length_of_members (key c) (key d) (collect f (c ∷ d ∷ cs)) n
      (collect_complete f (key c) c (c ∷ d ∷ cs) (inl refl) refl)
      (collect_complete f (key d) d (c ∷ d ∷ cs) (inr (inl refl)) refl)

radius_result_several :
    (c d : RadiusCand) (cs : List RadiusCand)
    → c ≢ d
    → radius_result (c ∷ d ∷ cs) false ≡ ([], true)
unfolding radius_result
radius_result_several c d cs n = elim (Bool-cases (text_eq c.session_id d.session_id)) [
  | inl same ↦
      let other : c.user_token ≢ d.user_token =
        λ p. n (ground (arith, text_eq_iff c.session_id d.session_id)) in
      ground (arith, keys_differ (λ x. x.user_token) c d cs other)
  | inr differ ↦
      let other : c.session_id ≢ d.session_id =
        λ p. ground (arith, text_eq_iff c.session_id d.session_id) in
      ground (arith, keys_differ (λ x. x.session_id) c d cs other)
]

radius_result_one : (c : RadiusCand) → radius_result (c ∷ []) false ≡ (c.user_token, false)
unfolding radius_result collect last_user member
radius_result_one c = refl

radius_result-Answers :
    (M : RadiusRow → Type 0) (t : Time) (horizon : Duration) (st : State RadiusCand)
    → Verdict radius_rows t horizon M st
    → Answers radius_rows t horizon M
        (λ c. c.user_token)
        (radius_result st.cands (after t st.deadline))
radius_result-Answers M t horizon st (unknown (inl e) n) =
    inl (rw e (unfold radius_result in refl), n)
radius_result-Answers M t horizon st (unknown (inr e) n) =
    inl (rw e (radius_result_late st.cands), n)
radius_result-Answers M t horizon st (one c e live f u) =
    inr (inl (c, rw (e, live) (radius_result_one c), f, u))
radius_result-Answers M t horizon st (several c d cs e live f g n) =
    inr (inr (c, d, rw (e, live) (radius_result_several c d cs n), f, g, n))

-- The pairs of session and user that are in force.
abbrev RadiusInForce : List RadiusRow → Text → Time → Duration → RadiusCand → Type 0
RadiusInForce events mac t max_session =
    InForce radius_rows t max_session (RadiusEvidence events mac t)

pub radius_rows-Answers :
    (events : List RadiusRow) (mac : Text) (t : Time) (max_session : Duration)
    → Answers radius_rows t max_session
        (RadiusEvidence events mac t)
        (λ c. c.user_token)
        (radius_binding_at events mac t max_session)
unfolding radius_binding_at
radius_rows-Answers events mac t max_session =
    let f = filter (radius_counts mac t) events in
    radius_result-Answers (RadiusEvidence events mac t) t max_session
      (fold_rows radius_rows max_session f)
      (Means-Verdict radius_rows t max_session (RadiusEvidence events mac t)
        (fold_rows radius_rows max_session f)
        (Means-iff radius_rows max_session (λ e. In e f) (RadiusEvidence events mac t)
          (fold_rows radius_rows max_session f)
          (λ e i. mem_of_filter (radius_counts mac t) e events i)
          (λ e m. filter_of_mem (radius_counts mac t) e events m.1 m.0)
          (fold_rows-Means radius_rows max_session f)))

-- No pair is in force, or the only one comes without a user name.
abbrev pub IsUserless : List RadiusRow → Text → Time → Duration → Type 0
IsUserless events mac t max_session =
    ((c : RadiusCand) → ¬ RadiusInForce events mac t max_session c)
    ⊎ ((c : RadiusCand) × RadiusInForce events mac t max_session c
        × ((d : RadiusCand) → RadiusInForce events mac t max_session d → d ≡ c)
        × (c.user_token ≡ []))

module _ (events : List RadiusRow) (mac : Text) (t : Time) (max_session : Duration)
    (r : Text × Bool) where
  unknown-IsUserless :
      Answers radius_rows t max_session (RadiusEvidence events mac t) (λ c. c.user_token) r
      → r ≡ ([], false)
      → IsUserless events mac t max_session
  unknown-IsUserless (inl (e, n)) u = inl n
  unknown-IsUserless (inr (inl (c, e, f, only))) u = inr (c, f, only, ap (λ x. x.0) (sym e ∙ u))
  unknown-IsUserless (inr (inr (c, d, e, f, g, n))) u =
      absurd (false≢true (ap (λ x. x.1) (sym u ∙ e)))

  IsUserless-unknown :
      Answers radius_rows t max_session (RadiusEvidence events mac t) (λ c. c.user_token) r
      → IsUserless events mac t max_session
      → r ≡ ([], false)
  IsUserless-unknown (inl (e, n)) u = e
  IsUserless-unknown (inr (inl (c, e, f, only))) (inl none_there) = absurd (none_there c f)
  IsUserless-unknown (inr (inl (c, e, f, only))) (inr (c', f', only', z)) =
      e ∙ ap (λ x. (x.user_token, false)) (only' c f) ∙ ap (λ x. (x, false)) z
  IsUserless-unknown (inr (inr (c, d, e, f, g, n))) (inl none_there) = absurd (none_there c f)
  IsUserless-unknown (inr (inr (c, d, e, f, g, n))) (inr (c', f', only', z)) =
      absurd (n (only' c f ∙ sym (only' d g)))

-- The session that `radiusBindingAt` reports at an instant is a fact of the set of stored events: a
-- pair of session and user is in force if one of the newest Starts and Interim updates of the
-- device up to the instant reports it, every Stop of its session is older, and the maximal session
-- from there covers the instant. If no pair is in force the answer is "unknown", if one is it is
-- the user of that pair, and if several are it is "ambiguous". The user of the only pair may be
-- empty, which reads as "unknown": the answer is "unknown" exactly if no pair is in force, or if the
-- only one has no user.
pub radius_binding_at-Answers :
    (events : List RadiusRow) (mac : Text) (t : Time) (max_session : Duration)
    → Answers radius_rows t max_session
        (RadiusEvidence events mac t)
        (λ c. c.user_token)
        (radius_binding_at events mac t max_session)
      × ((radius_binding_at events mac t max_session ≡ ([], false))
          ↔ IsUserless events mac t max_session)
radius_binding_at-Answers events mac t max_session =
    let a = radius_rows-Answers events mac t max_session in
    let r = radius_binding_at events mac t max_session in
    (
      a,
      (
        unknown-IsUserless events mac t max_session r a,
        IsUserless-unknown events mac t max_session r a,
      ),
    )

-- Two event lists that hold the same rows, in any order and any number of times each, give the
-- same user or the same report of ambiguity.
radius_binding_at_order_free :
    (events others : List RadiusRow) (mac : Text) (t : Time) (max_session : Duration)
    → ((e : RadiusRow) → In e events → In e others)
    → ((e : RadiusRow) → In e others → In e events)
    → radius_binding_at events mac t max_session ≡ radius_binding_at others mac t max_session
radius_binding_at_order_free events others mac t max_session to from =
    Answers-unique radius_rows t max_session (RadiusEvidence events mac t)
      (RadiusEvidence others mac t) (λ c. c.user_token) (radius_binding_at events mac t max_session)
      (radius_binding_at others mac t max_session) (λ e m. (to e m.0, m.1))
      (λ e m. (from e m.0, m.1)) (radius_rows-Answers events mac t max_session)
      (radius_rows-Answers others mac t max_session)
