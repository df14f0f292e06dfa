-- ===== src/DnsStore/Commute.antt =====
-- The order of two calls of `applyDNS` of dnsstore.go, below the cap.
use network_enricher.Prelude.{
  ℕ, ◌+◌, ◌≤◌, ◌<◌, ◌≡◌, refl, Bool, Bool-cases, false, ◌||◌, arith, List, length, leb, Time,
  is_empty, if◌then◌else◌, inl, inr,
}
use network_enricher.DnsStore.{DnsEvent, DnsKey, Entry, find, write, apply_dns, is_absent, key_of}
use network_enricher.DnsStore.Binding.{Agree, writes_commute}
use network_enricher.DnsStore.Bound.{length-write_le}

-- Does `applyDNS` return at once?
abbrev is_skipped : DnsEvent → Bool
is_skipped e = is_empty e.answer_ip || is_empty e.qname

-- Below the cap nothing is evicted.
apply_dns_room :
    (now : Time) (max_size : ℕ) (order : List Entry → List Entry) (e : DnsEvent) (es : List Entry)
    → length es < max_size
    → apply_dns now max_size order e es ≡ (if is_skipped e then es else write e es)
unfolding apply_dns
apply_dns_room now max_size order e es h =
    let room : leb max_size (length es) ≡ false = ground arith in
    elim (Bool-cases (is_absent (key_of e) es)) [ inl a ↦ rw (a, room) refl | inr a ↦ rw a refl ]

length-apply_dns_le :
    (now : Time) (max_size : ℕ) (order : List Entry → List Entry) (e : DnsEvent) (es : List Entry)
    → length es < max_size
    → length (apply_dns now max_size order e es) ≤ length es + 1
length-apply_dns_le now max_size order e es h =
    rw (apply_dns_room now max_size order e es h) (elim (Bool-cases (is_skipped e)) [
      | inl k ↦ rw k (omega arith)
      | inr k ↦ rw k (length-write_le e es)
    ])

module _ (t t' : Time) (max_size : ℕ) (order order' : List Entry → List Entry) where
  one_after_other :
      (e f : DnsEvent) (es : List Entry)
      → length es + 1 < max_size
      → apply_dns t' max_size order' f (apply_dns t max_size order e es) ≡ (
          if is_skipped f
          then (if is_skipped e then es else write e es)
          else write f (if is_skipped e then es else write e es))
  one_after_other e f es h =
      let below : length es < max_size = omega arith in
      let still : length (apply_dns t max_size order e es) < max_size =
        omega (arith, length-apply_dns_le t max_size order e es below) in
      rw
        (
          apply_dns_room t' max_size order' f (apply_dns t max_size order e es) still,
          apply_dns_room t max_size order e es below,
        )
        refl

  -- While the map has room for two entries more, two resolutions that `applyDNS` is called with in
  -- either order, at any instants, leave every pair of addresses with the same binding, if they come
  -- with the same validity whenever they agree on instant and hostname.
  pub apply_dns_commutes :
      (e f : DnsEvent) (k : DnsKey) (es : List Entry)
      → Agree e f
      → length es + 1 < max_size
      → find k (apply_dns t' max_size order' f (apply_dns t max_size order e es))
        ≡ find k (apply_dns t' max_size order' e (apply_dns t max_size order f es))
  apply_dns_commutes e f k es a h =
      rw (one_after_other e f es h, one_after_other f e es h)
        (elim (Bool-cases (is_skipped e)) [
          | inl p ↦ rw p refl
          | inr p ↦ elim (Bool-cases (is_skipped f)) [
            | inl q ↦ rw (p, q) refl
            | inr q ↦ rw (p, q) (writes_commute e f k es a)
          ]
        ])
