-- ===== src/Dedup/Shards.antt =====
-- The shards of dedup.go, over an LRU that finds what was added last.
use network_enricher.Prelude.{ℕ, ◌≡◌, refl, sym, subst, Bool-cases, true, ◌==◌, inl, inr, ==_iff}
use network_enricher.Flow.{FlowMessage}
use network_enricher.Dedup.{DedupKey, key_of, shard_of, set_shard, visit, is_duplicate, Lru}

module _ {S : Type 0} (lru : Lru S) where
  -- The library's LRU finds a key that has just been added or found.
  pub record FindsLast : Type 0 where
    pub added : (s : S) (k : DedupKey) → (lru.get (lru.add s k) k).0 ≡ true
    pub found :
        (s : S) (k : DedupKey) → (lru.get s k).0 ≡ true → (lru.get (lru.get s k).1 k).0 ≡ true

  set_shard_same : (shards : ℕ → S) (i : ℕ) (s : S) → set_shard lru shards i s i ≡ s
  unfolding set_shard
  set_shard_same shards i s = let e : (i == i) ≡ true = (==_iff i i).1 refl in rw e refl

  visit_seen :
      (shards : ℕ → S) (k : DedupKey)
      → (lru.get (shards (shard_of k)) k).0 ≡ true
      → (visit lru shards k).0 ≡ true
  unfolding visit
  visit_seen shards k h = rw h refl

  visit_leaves :
      (shards : ℕ → S) (k : DedupKey)
      → FindsLast
      → (lru.get ((visit lru shards k).1 (shard_of k)) k).0 ≡ true
  unfolding visit
  visit_leaves shards k h =
      let i = shard_of k in
      elim (Bool-cases (lru.get (shards i) k).0) [
        | inl q ↦ rw (q, set_shard_same shards i (lru.get (shards i) k).1) (h.found (shards i) k q)
        | inr q ↦
            rw (q, set_shard_same shards i (lru.add (lru.get (shards i) k).1 k))
              (h.added (lru.get (shards i) k).1 k)
      ]

  -- If the LRU finds a key that has just been added or found, then a flow that comes again at once,
  -- with the same seven fields and whatever else it says, is a duplicate.
  pub repeat_is_duplicate :
      (shards : ℕ → S) (m m' : FlowMessage)
      → FindsLast
      → key_of m' ≡ key_of m
      → (is_duplicate lru (is_duplicate lru shards m).1 m').0 ≡ true
  unfolding is_duplicate
  repeat_is_duplicate shards m m' h e =
      subst (λ k. (visit lru (visit lru shards (key_of m)).1 k).0 ≡ true) (sym e)
        (visit_seen (visit lru shards (key_of m)).1 (key_of m) (visit_leaves shards (key_of m) h))
