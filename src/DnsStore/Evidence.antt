-- ===== src/DnsStore/Evidence.antt =====
-- Where a hostname that `Lookup` of dnsstore.go tells comes from, over any run of resolutions and
-- sweeps.
use network_enricher.Prelude.{
  ℕ, ◌+◌, ◌≤◌, ◌≡◌, ◌⊎◌, inl, inr, refl, sym, ap, subst, Bool-cases, ◌||◌, ◌&&◌, arith, Option,
  none, some, some_inj, List, [], ◌∷◌, All, Any, All-map, Text, is_empty, Time, after, leb, length,
}
use network_enricher.DnsStore.{
  DnsEvent, DnsKey, DnsBinding, Entry, find, remove, store, place, write, key_of, binding_of,
  validity, supersedes, remove_all, select_evictions, is_absent, apply_dns, evict_expired, told,
  lookup, key_eq, dns_max_ttl,
}
use network_enricher.DnsStore.Binding.{key_eq_iff}

-- A resolution at its clock, with the order in which the entries are met; or a sweep.
pub data Op : Type 0 where
  resolve : Time → (List Entry → List Entry) → DnsEvent → Op
  sweep : Time → Op

unfoldable pub step : ℕ → Op → List Entry → List Entry
unfolding apply_dns evict_expired
step max_size (resolve now order e) es = apply_dns now max_size order e es
step max_size (sweep now) es = evict_expired now es

-- The run of a history, the latest operation first.
unfoldable pub run : ℕ → List Op → List Entry
unfolding step
run max_size [] = []
run max_size (op ∷ ops) = step max_size op (run max_size ops)

-- The entry is what the operation wrote.
unfoldable pub WrittenBy : Entry → Op → Type 0
WrittenBy (k, b) (sweep now) = ⊥
WrittenBy (k, b) (resolve now order e) = (key_of e ≡ k) × (binding_of e ≡ b)

module _ (P : Entry → Type 0) where
  remove-All : (k : DnsKey) (es : List Entry) → All P es → All P (remove k es)
  unfolding remove
  remove-All k [] h = tt
  remove-All k ((l, b) ∷ es) h = elim (Bool-cases (key_eq k l)) [
    | inl q ↦ rw q (remove-All k es h.1)
    | inr q ↦ rw q (h.0, remove-All k es h.1)
  ]

  remove_all-All : (ks : List DnsKey) (es : List Entry) → All P es → All P (remove_all ks es)
  unfolding remove_all
  remove_all-All [] es h = h
  remove_all-All (k ∷ ks) es h = remove_all-All ks (remove k es) (remove-All k es h)

  evict_expired-All : (now : Time) (es : List Entry) → All P es → All P (evict_expired now es)
  unfolding evict_expired
  evict_expired-All now [] h = tt
  evict_expired-All now ((k, b) ∷ es) h = elim (Bool-cases (after now b.deadline)) [
    | inl q ↦ rw q (evict_expired-All now es h.1)
    | inr q ↦ rw q (h.0, evict_expired-All now es h.1)
  ]

  place-All :
      (e : DnsEvent) (o : Option DnsBinding) (es : List Entry)
      → P (key_of e, binding_of e)
      → All P es
      → All P (place e o es)
  unfolding place store
  place-All e none es p h = (p, remove-All (key_of e) es h)
  place-All e (some b) es p h = elim (Bool-cases (supersedes e b)) [
    | inl q ↦ rw q (p, remove-All (key_of e) es h)
    | inr q ↦ rw q h
  ]

  apply_dns-All :
      (now : Time) (max_size : ℕ) (order : List Entry → List Entry) (e : DnsEvent) (es : List Entry)
      → P (key_of e, binding_of e)
      → All P es
      → All P (apply_dns now max_size order e es)
  unfolding apply_dns write
  apply_dns-All now max_size order e es p h =
      elim (Bool-cases (is_empty e.answer_ip || is_empty e.qname)) [
        | inl q ↦ rw q h
        | inr q ↦ rw q (elim (Bool-cases (is_absent (key_of e) es && leb max_size (length es))) [
          | inl r ↦
              rw r
                (place-All e _ _ p (remove_all-All (select_evictions now max_size (order es)) es h))
          | inr r ↦ rw r (place-All e _ es p h)
        ])
      ]

  find-All :
      (k : DnsKey) (b : DnsBinding) (es : List Entry) → All P es → find k es ≡ some b → P (k, b)
  unfolding find
  find-All k b [] h f = absurd (ground arith)
  find-All k b ((l, c) ∷ es) h f = elim (Bool-cases (key_eq k l)) [
    | inl q ↦
        let same : c ≡ b = some_inj (rw q at f) in
        subst (λ x. P (x, b)) (sym ((key_eq_iff k l).0 q)) (subst (λ y. P (l, y)) same h.0)
    | inr q ↦ find-All k b es h.1 (rw q at f)
  ]

run-WrittenBy : (max_size : ℕ) (ops : List Op) → All (λ x. Any (WrittenBy x) ops) (run max_size ops)
unfolding run
run-WrittenBy max_size [] = tt
run-WrittenBy max_size (sweep now ∷ ops) =
    evict_expired-All _ now (run max_size ops)
      (All-map (λ x. inr) (run max_size ops) (run-WrittenBy max_size ops))
run-WrittenBy max_size (resolve now order e ∷ ops) =
    apply_dns-All _ now max_size order e (run max_size ops) (inl (unfold WrittenBy in (refl, refl)))
      (All-map (λ x. inr) (run max_size ops) (run-WrittenBy max_size ops))

-- The client resolved the hostname to the address, an hour ago or later.
unfoldable pub Resolved : Time → Text → Text → Text → Op → Type 0
Resolved now client answer host (sweep t) = ⊥
Resolved now client answer host (resolve t order e) =
    (e.client_ip ≡ client)
    × (e.answer_ip ≡ answer)
    × (e.qname ≡ host)
    × (now ≤ e.event_time + dns_max_ttl)

module _ (now : Time) (client answer : Text) where
  -- A written entry that is not past its deadline.
  written_is_Resolved :
      (b : DnsBinding) (ops : List Op)
      → now ≤ b.deadline
      → Any (WrittenBy (record { client_ip = client; answer_ip = answer }, b)) ops
      → Any (Resolved now client answer b.hostname) ops
  unfolding WrittenBy Resolved key_of binding_of validity
  written_is_Resolved b [] d h = h
  written_is_Resolved b (op ∷ ops) d (inr h) = inr (written_is_Resolved b ops d h)
  written_is_Resolved b (sweep t ∷ ops) d (inl h) = absurd h
  written_is_Resolved b (resolve t order e ∷ ops) d (inl (k, w)) = inl (
    ap (λ x. x.client_ip) k,
    ap (λ x. x.answer_ip) k,
    ap (λ x. x.hostname) w,
    (let due = ap (λ x. x.deadline) w in omega (arith, due, d)),
  )

  told_is_Resolved :
      (o : Option DnsBinding) (ops : List Op)
      → ((b : DnsBinding)
          → o ≡ some b
          → Any (WrittenBy (record { client_ip = client; answer_ip = answer }, b)) ops)
      → (told now o ≡ []) ⊎ Any (Resolved now client answer (told now o)) ops
  unfolding told
  told_is_Resolved none ops h = inl refl
  told_is_Resolved (some b) ops h = elim (Bool-cases (after now b.deadline)) [
    | inl q ↦ rw q (inl refl)
    | inr q ↦ rw q (inr (written_is_Resolved b ops (ground arith) (h b refl)))
  ]

  -- After any run from the empty map, whatever the order in which Go ranges over the entries, the
  -- hostname that `Lookup` tells is empty, or one that the client resolved to the address by an
  -- event of the run no more than an hour ago.
  pub lookup_evidence :
      (max_size : ℕ) (ops : List Op)
      → (lookup now client answer (run max_size ops) ≡ [])
        ⊎ Any (Resolved now client answer (lookup now client answer (run max_size ops))) ops
  unfolding lookup told
  lookup_evidence max_size ops = elim (Bool-cases (is_empty client || is_empty answer)) [
    | inl q ↦ rw q (inl refl)
    | inr q ↦ rw q (
        told_is_Resolved (find key (run max_size ops)) ops (λ b f.
          find-All (λ x. Any (WrittenBy x) ops) key b (run max_size ops)
            (run-WrittenBy max_size ops) f))
  ]
    where
      key : DnsKey
      key = record { client_ip = client; answer_ip = answer }
