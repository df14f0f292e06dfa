-- ===== src/Tenant/Specific.antt =====
-- The tenant of an address is that of the most specific subnet, in tenant.go.
use network_enricher.Prelude.{
  ℕ, ◌≤◌, ◌≡◌, ◌⊎◌, refl, ◌∙◌, either, inl, inr, Bool-cases, true, false, arith, Option, some, List,
  [], ◌∷◌, Text, ltb, All,
}
use network_enricher.Prelude.Sets.{In, All-mem}
use network_enricher.Addresses.{Ip, covers}
use network_enricher.Tenant.{TenantEntry, TenantConfig, better, best_of, answer_of, load, lookup}

better_cases : (best te : TenantEntry) → (better best te ≡ best) ⊎ (better best te ≡ te)
unfolding better
better_cases best te = elim (Bool-cases (ltb best.network.ones te.network.ones)) [
  | inl k ↦ inr (rw k refl)
  | inr k ↦ inl (rw k refl)
]

better_ge :
    (best te : TenantEntry)
    → (best.network.ones ≤ (better best te).network.ones)
      × (te.network.ones ≤ (better best te).network.ones)
unfolding better
better_ge best te = elim (Bool-cases (ltb best.network.ones te.network.ones)) [
  | inl k ↦ rw k (ground (arith, k), omega arith)
  | inr k ↦ rw k (omega arith, ground (arith, k))
]

best_of-In : (best : TenantEntry) (es : List TenantEntry) → In (best_of best es) (best ∷ es)
unfolding best_of
best_of-In best [] = inl refl
best_of-In best (te ∷ es) = place (best_of-In (better best te) es)
  where
    place :
        In (best_of (better best te) es) (better best te ∷ es)
        → In (best_of (better best te) es) (best ∷ te ∷ es)
    place (inr i) = inr (inr i)
    place (inl e) = either (λ k. inl (e ∙ k)) (λ k. inr (inl (e ∙ k))) (better_cases best te)

best_of_ge :
    (best : TenantEntry) (es : List TenantEntry)
    → (best.network.ones ≤ (best_of best es).network.ones)
      × All (λ e. e.network.ones ≤ (best_of best es).network.ones) es
unfolding best_of
best_of_ge best [] = (omega arith, tt)
best_of_ge best (te ∷ es) =
    let (a, b) = best_of_ge (better best te) es in
    let (c, d) = better_ge best te in (omega (arith, a, c), (omega (arith, a, d), b))

-- What `ContainingNetworks` documents: it lists the inserted entries whose networks contain the
-- address, one for each network.
pub record IsContaining (inserted es : List TenantEntry) (a : Ip) : Type 0 where
  pub sound : (e : TenantEntry) → In e es → In e inserted × (covers e.network a ≡ true)
  pub complete :
      (e : TenantEntry)
      → In e inserted
      → covers e.network a ≡ true
      → (e' : TenantEntry) × In e' es × (e'.network ≡ e.network)

-- The entry behind an answer: a configured subnet that contains the address, no less specific than
-- any other configured subnet that does.
pub record MostSpecific (inserted : List TenantEntry) (a : Ip) (answer : ℕ × Text) : Type 0 where
  pub entry : TenantEntry
  pub configured : In entry inserted
  pub covering : covers entry.network a ≡ true
  pub told : answer ≡ (entry.id, entry.name)
  pub specific :
      (e : TenantEntry)
      → In e inserted
      → covers e.network a ≡ true
      → e.network.ones ≤ entry.network.ones

module _ (containing : Ip → Option (List TenantEntry)) (config : List TenantConfig) where
  -- If the trie holds the entries of the configuration and lists those whose networks contain the
  -- address, the answer of `Lookup` is the tenant of a configured subnet that contains the address
  -- and is as specific as any; or it is empty, and no configured subnet contains the address.
  pub lookup-MostSpecific :
      (a : Ip) (es : List TenantEntry)
      → containing a ≡ some es
      → IsContaining (load config) es a
      → MostSpecific (load config) a (lookup containing (some a))
        ⊎ ((lookup containing (some a) ≡ (0, []))
            × ((e : TenantEntry) → In e (load config) → covers e.network a ≡ false))
  unfolding lookup answer_of
  lookup-MostSpecific a [] c h = rw (lookup, c) (inr (refl, none_covers))
    where
      none_covers : (e : TenantEntry) → In e (load config) → covers e.network a ≡ false
      none_covers e i = elim (Bool-cases (covers e.network a)) [
        | inl k ↦ let (e', m, q) = h.complete e i k in absurd m
        | inr k ↦ k
      ]
  lookup-MostSpecific a (b ∷ es) c h =
      rw (lookup, c)
        (inl (record {
          entry = best_of b es;
          configured = (h.sound (best_of b es) (best_of-In b es)).0;
          covering = (h.sound (best_of b es) (best_of-In b es)).1;
          told = refl;
          specific = λ e i k. bounded e (h.complete e i k);
        }))
    where
      bounded :
          (e : TenantEntry)
          → ((e' : TenantEntry) × In e' (b ∷ es) × (e'.network ≡ e.network))
          → e.network.ones ≤ (best_of b es).network.ones
      bounded e (e', m, q) =
          let ge = best_of_ge b es in
          let here = All-mem (λ x. x.network.ones ≤ (best_of b es).network.ones) (b ∷ es) ge e' m in
          rw (← q) here
