-- ===== src/DnsStore/Writer.antt =====
-- chDNSWriter of dnsstore.go, and `FinalFlush` of the store. Whether ClickHouse takes the batch is
-- a Boolean of each attempt, and what the poller does between the locked sections is an argument.
use network_enricher.Prelude.{
  ℕ, zero, suc, ◌+◌, ◌-◌, ◌≤◌, ◌≡◌, List, [], ◌∷◌, ◌++◌, Bool, Bool-cases, true, arith, length,
  ◌==◌, ==_iff, if◌then◌else◌, inl, inr,
}
use network_enricher.EventBuffer.{flush_buffer, flush_buffer-accepted}
use network_enricher.DnsStore.{DnsEvent}

pub record DnsWriter : Type 0 where
  pub dns : List DnsEvent
  pub max_buffer : ℕ

unfoldable pub add : DnsWriter → DnsEvent → DnsWriter
add w e = record w { dns = w.dns ++ e ∷ [] }

unfoldable pub flush : Bool → DnsWriter → DnsWriter
flush accepted w = record w { dns = (flush_buffer accepted w.max_buffer w.dns).0 }

-- What an in-flight scan of the poller does to the buffer while the lock is free.
pub data Step : Type 0 where
  added : DnsEvent → Step
  flushed : Bool → Step

unfoldable pub take_steps : DnsWriter → List Step → DnsWriter
unfolding add flush
take_steps w [] = w
take_steps w (added e ∷ xs) = take_steps (add w e) xs
take_steps w (flushed accepted ∷ xs) = take_steps (flush accepted w) xs

-- What an attempt of `FinalFlush` meets: does ClickHouse take the batch, and the poller's steps
-- between the flush and the count, and between the count and the next flush.
pub record Round : Type 0 where
  pub accepted : Bool
  pub before_count : List Step
  pub before_next : List Step

-- The loop of `FinalFlush` from attempt `i` on, with `n` more attempts after this one.
unfoldable pub final_loop : ℕ → (ℕ → Round) → ℕ → DnsWriter → DnsWriter
unfolding flush take_steps
final_loop zero rounds i w = take_steps (flush (rounds i).accepted w) (rounds i).before_count
final_loop (suc n) rounds i w =
    let w' = take_steps (flush (rounds i).accepted w) (rounds i).before_count in
    let later = final_loop n rounds (i + 1) (take_steps w' (rounds i).before_next) in
    if length w'.dns == 0 then w' else later

-- The buffer is that of the last count, which is what is returned.
unfoldable pub final_flush : (ℕ → Round) → DnsWriter → ℕ → DnsWriter × ℕ
unfolding final_loop
final_flush rounds w attempts = let w' = final_loop (attempts - 1) rounds 0 w in (w', length w'.dns)

flush_taken :
    (accepted : Bool) (w : DnsWriter) → accepted ≡ true → length (flush accepted w).dns ≡ 0
unfolding flush
flush_taken accepted w a = rw (a, flush_buffer-accepted w.max_buffer w.dns) (omega arith)

final_loop_taken :
    (n : ℕ) (rounds : ℕ → Round) (i k : ℕ) (w : DnsWriter)
    → k ≤ n
    → (rounds (i + k)).accepted ≡ true
    → (rounds (i + k)).before_count ≡ []
    → length (final_loop n rounds i w).dns ≡ 0
unfolding final_loop take_steps
final_loop_taken zero rounds i k w h a q =
    let e : i + k ≡ i = omega arith in
    rw (rw e at q) (flush_taken (rounds i).accepted w (rw e at a))
final_loop_taken (suc n) rounds i zero w h a q =
    let e : i + 0 ≡ i = omega arith in
    let taken = flush_taken (rounds i).accepted w (rw e at a) in rw (rw e at q) (rw taken taken)
final_loop_taken (suc n) rounds i (suc k) w h a q =
    let e : i + suc k ≡ i + 1 + k = omega arith in
    let w' = take_steps (flush (rounds i).accepted w) (rounds i).before_count in
    let later =
      final_loop_taken n rounds (i + 1) k (take_steps w' (rounds i).before_next) (omega arith)
        (rw e at a) (rw e at q) in
    elim (Bool-cases (length w'.dns == 0)) [
      | inl empty ↦ rw empty ((==_iff _ _).0 empty)
      | inr full ↦ rw full later
    ]

-- If ClickHouse takes the batch at any one of the attempts, and the poller does nothing between that
-- flush and its count, `FinalFlush` of the DNS store reports that no event is lost.
dns_final_flush_delivers :
    (rounds : ℕ → Round) (w : DnsWriter) (attempts k : ℕ)
    → k ≤ attempts - 1
    → (rounds k).accepted ≡ true
    → (rounds k).before_count ≡ []
    → (final_flush rounds w attempts).1 ≡ 0
unfolding final_flush
dns_final_flush_delivers rounds w attempts k h a q =
    let e : 0 + k ≡ k = omega arith in
    final_loop_taken (attempts - 1) rounds 0 k w h (rw e a) (rw e q)
