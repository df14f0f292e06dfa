-- ===== src/Identity/Writer/FinalFlush.antt =====
-- What the flushes of identity.go deliver, keep and lose.
use network_enricher.Prelude.{
  ℕ, zero, suc, ◌+◌, ◌-◌, ◌≤◌, ◌≡◌, refl, List, [], ◌∷◌, Bool-cases, true, arith, length,
  length-append, ◌==◌, inl, inr, ==_iff,
}
use network_enricher.EventBuffer.{
  flush_buffer, Ledger, flush_buffer-Ledger, flush_buffer-bounded, flush_buffer-accepted,
  flush_buffer_le,
}
use network_enricher.Identity.Writer.{
  EventWriter, Answer, add_dhcp, add_radius, flush, remaining, Step, dhcp_added, radius_added,
  flushed, take_step, take_steps, Round, final_loop, final_flush,
}

pub record FlushLedger (a : Answer) (w : EventWriter) : Type 0 where
  pub dhcp_events :
      Ledger w.max_buffer w.dhcp (flush_buffer a.dhcp_ok w.max_buffer w.dhcp).1 (flush a w).dhcp
  pub radius_events :
      Ledger w.max_buffer w.radius
        (flush_buffer a.radius_ok w.max_buffer w.radius).1
        (flush a w).radius
  pub dhcp_bounded : length (flush a w).dhcp ≤ w.max_buffer
  pub radius_bounded : length (flush a w).radius ≤ w.max_buffer

-- A flush splits each buffer, in order, into a dropped part, the delivered batch and what is kept.
-- At most the events by which the buffer is over its cap are dropped, and what is kept is within
-- the cap, whichever of the two batches ClickHouse takes.
pub flush-FlushLedger : (a : Answer) (w : EventWriter) → FlushLedger a w
unfolding flush
flush-FlushLedger a w = record {
  dhcp_events = flush_buffer-Ledger a.dhcp_ok w.max_buffer w.dhcp;
  radius_events = flush_buffer-Ledger a.radius_ok w.max_buffer w.radius;
  dhcp_bounded = flush_buffer-bounded a.dhcp_ok w.max_buffer w.dhcp;
  radius_bounded = flush_buffer-bounded a.radius_ok w.max_buffer w.radius;
}

flush_taken :
    (a : Answer) (w : EventWriter)
    → a.dhcp_ok ≡ true
    → a.radius_ok ≡ true
    → remaining (flush a w) ≡ 0
unfolding flush remaining
flush_taken a w d r =
    rw
      (d, r, flush_buffer-accepted w.max_buffer w.dhcp, flush_buffer-accepted w.max_buffer w.radius)
      (omega arith)

flush_le : (a : Answer) (w : EventWriter) → remaining (flush a w) ≤ remaining w
unfolding flush remaining
flush_le a w = omega (
  arith,
  flush_buffer_le a.dhcp_ok w.max_buffer w.dhcp,
  flush_buffer_le a.radius_ok w.max_buffer w.radius,
)

-- The events among the poller's steps.
unfoldable pub events_of : List Step → ℕ
events_of [] = 0
events_of (dhcp_added e ∷ xs) = 1 + events_of xs
events_of (radius_added e ∷ xs) = 1 + events_of xs
events_of (flushed a ∷ xs) = events_of xs

-- The events that the poller adds from the flush of attempt `i` on to the count of the n-th attempt
-- after it.
unfoldable pub late_events : ℕ → (ℕ → Round) → ℕ → ℕ
unfolding events_of
late_events zero rounds i = events_of (rounds i).before_count
late_events (suc n) rounds i =
    events_of (rounds i).before_count
    + (events_of (rounds i).before_next + late_events n rounds (i + 1))

take_steps_le :
    (w : EventWriter) (xs : List Step) → remaining (take_steps w xs) ≤ remaining w + events_of xs
unfolding take_steps take_step add_dhcp add_radius events_of remaining
take_steps_le w [] = omega arith
take_steps_le w (dhcp_added e ∷ xs) =
    omega (arith, take_steps_le (add_dhcp w e) xs, length-append w.dhcp (e ∷ []))
take_steps_le w (radius_added e ∷ xs) =
    omega (arith, take_steps_le (add_radius w e) xs, length-append w.radius (e ∷ []))
take_steps_le w (flushed a ∷ xs) = omega (arith, take_steps_le (flush a w) xs, flush_le a w)

final_loop_le :
    (n : ℕ) (rounds : ℕ → Round) (i : ℕ) (w : EventWriter)
    → remaining (final_loop n rounds i w) ≤ remaining w + late_events n rounds i
unfolding final_loop late_events
final_loop_le zero rounds i w =
    let r = rounds i in
    omega (arith, take_steps_le (flush r.answer w) r.before_count, flush_le r.answer w)
final_loop_le (suc n) rounds i w =
    let r = rounds i in
    let w' = take_steps (flush r.answer w) r.before_count in
    let a = take_steps_le (flush r.answer w) r.before_count in
    let b = flush_le r.answer w in
    let d = take_steps_le w' r.before_next in
    let later = final_loop_le n rounds (i + 1) (take_steps w' r.before_next) in
    elim (Bool-cases (remaining w' == 0)) [
      | inl empty ↦ rw empty (omega arith)
      | inr full ↦ rw full (omega arith)
    ]

-- After a taken flush, only what comes behind it is lost.
final_loop_fresh :
    (n : ℕ) (rounds : ℕ → Round) (i : ℕ) (w : EventWriter)
    → (rounds i).answer.dhcp_ok ≡ true
    → (rounds i).answer.radius_ok ≡ true
    → remaining (final_loop n rounds i w) ≤ late_events n rounds i
unfolding final_loop late_events
final_loop_fresh zero rounds i w d r =
    let taken = flush_taken (rounds i).answer w d r in
    omega (arith, take_steps_le (flush (rounds i).answer w) (rounds i).before_count)
final_loop_fresh (suc n) rounds i w d r =
    let taken = flush_taken (rounds i).answer w d r in
    let w' = take_steps (flush (rounds i).answer w) (rounds i).before_count in
    let a = take_steps_le (flush (rounds i).answer w) (rounds i).before_count in
    let b = take_steps_le w' (rounds i).before_next in
    let later = final_loop_le n rounds (i + 1) (take_steps w' (rounds i).before_next) in
    elim (Bool-cases (remaining w' == 0)) [
      | inl empty ↦ rw empty (omega arith)
      | inr full ↦ rw full (omega arith)
    ]

final_loop_taken :
    (n m : ℕ) (rounds : ℕ → Round) (i k : ℕ) (w : EventWriter)
    → m ≡ k + n
    → (rounds (i + k)).answer.dhcp_ok ≡ true
    → (rounds (i + k)).answer.radius_ok ≡ true
    → remaining (final_loop m rounds i w) ≤ late_events n rounds (i + k)
unfolding final_loop
final_loop_taken n m rounds i zero w h d r =
    let e : i + 0 ≡ i = omega arith in
    let same : m ≡ n = omega arith in
    rw (e, same) (final_loop_fresh n rounds i w (rw e at d) (rw e at r))
final_loop_taken n zero rounds i (suc k) w h d r = absurd (omega arith)
final_loop_taken n (suc m) rounds i (suc k) w h d r =
    let e : i + suc k ≡ i + 1 + k = omega arith in
    let w' = take_steps (flush (rounds i).answer w) (rounds i).before_count in
    let later =
      final_loop_taken n m rounds (i + 1) k (take_steps w' (rounds i).before_next) (omega arith)
        (rw e at d) (rw e at r) in
    rw e (elim (Bool-cases (remaining w' == 0)) [
      | inl empty ↦ rw empty (omega (arith, (==_iff _ _).0 empty))
      | inr full ↦ rw full later
    ])

-- If ClickHouse takes both batches at an attempt k, and `FinalFlush` may make n attempts more, the
-- loss that it reports is what the buffers hold at the last count, and it is at most the number of
-- events that the poller adds after the flush of attempt k: none is lost if no event comes then.
pub final_flush_delivers :
    (rounds : ℕ → Round) (w : EventWriter) (k n : ℕ)
    → (rounds k).answer.dhcp_ok ≡ true
    → (rounds k).answer.radius_ok ≡ true
    → ((final_flush rounds w (k + n + 1)).1 ≤ late_events n rounds k)
      × ((final_flush rounds w (k + n + 1)).1 ≡ remaining (final_flush rounds w (k + n + 1)).0)
unfolding final_flush
final_flush_delivers rounds w k n d r =
    let e : 0 + k ≡ k = omega arith in
    let m : k + n + 1 - 1 ≡ k + n = omega arith in
    ((rw e at (final_loop_taken n (k + n + 1 - 1) rounds 0 k w m (rw e d) (rw e r))), refl)
