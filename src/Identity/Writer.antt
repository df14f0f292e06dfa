-- ===== src/Identity/Writer.antt =====
-- chEventWriter and FinalFlush of identity.go.
pub mod FinalFlush
use network_enricher.Prelude.{
  ℕ, zero, suc, ◌+◌, ◌-◌, List, [], ◌∷◌, ◌++◌, Bool, length, ◌==◌, if◌then◌else◌,
}
use network_enricher.EventBuffer.{flush_buffer}
use network_enricher.Identity.{DhcpEvent, RadiusEvent}

pub record EventWriter : Type 0 where
  pub dhcp : List DhcpEvent
  pub radius : List RadiusEvent
  pub max_buffer : ℕ

unfoldable pub add_dhcp : EventWriter → DhcpEvent → EventWriter
add_dhcp w e = record w { dhcp = w.dhcp ++ e ∷ [] }

unfoldable pub add_radius : EventWriter → RadiusEvent → EventWriter
add_radius w e = record w { radius = w.radius ++ e ∷ [] }

-- Does ClickHouse take the batch of each table at an attempt?
pub record Answer : Type 0 where
  pub dhcp_ok : Bool
  pub radius_ok : Bool

unfoldable pub flush : Answer → EventWriter → EventWriter
flush a w = record w {
  dhcp = (flush_buffer a.dhcp_ok w.max_buffer w.dhcp).0;
  radius = (flush_buffer a.radius_ok w.max_buffer w.radius).0;
}

pub remaining : EventWriter → ℕ
remaining w = length w.dhcp + length w.radius

-- What an in-flight scan of the poller does to the buffers while the lock is free.
pub data Step : Type 0 where
  dhcp_added : DhcpEvent → Step
  radius_added : RadiusEvent → Step
  flushed : Answer → Step

pub take_step : EventWriter → Step → EventWriter
take_step w (dhcp_added e) = add_dhcp w e
take_step w (radius_added e) = add_radius w e
take_step w (flushed a) = flush a w

pub take_steps : EventWriter → List Step → EventWriter
take_steps w [] = w
take_steps w (x ∷ xs) = take_steps (take_step w x) xs

-- What an attempt of `FinalFlush` meets: ClickHouse's answer, and the poller's steps between the
-- flush and the count, and between the count and the next flush.
pub record Round : Type 0 where
  pub answer : Answer
  pub before_count : List Step
  pub before_next : List Step

-- The loop of `FinalFlush` from attempt `i` on, with `n` more attempts after this one.
pub final_loop : ℕ → (ℕ → Round) → ℕ → EventWriter → EventWriter
final_loop zero rounds i w = take_steps (flush (rounds i).answer w) (rounds i).before_count
final_loop (suc n) rounds i w =
    let w' = take_steps (flush (rounds i).answer w) (rounds i).before_count in
    let later = final_loop n rounds (i + 1) (take_steps w' (rounds i).before_next) in
    if remaining w' == 0 then w' else later

-- `i >= attempts-1` ends the loop, so there is one attempt at least. The buffers are those of the
-- last count, which is what is returned.
pub final_flush : (ℕ → Round) → EventWriter → ℕ → EventWriter × ℕ
final_flush rounds w attempts = let w' = final_loop (attempts - 1) rounds 0 w in (w', remaining w')
