-- ===== src/DnsStore/Bound.antt =====
-- The hard cap of dnsstore.go: the victims are entries of the map, and there is one at least.
use network_enricher.Prelude.{
  ℕ, zero, suc, ◌+◌, ◌-◌, ◌*◌, ◌/◌, ◌≤◌, ◌<◌, ◌≡◌, refl, ap, ◌∙◌, Bool-cases, true, false, not,
  ◌||◌, arith, Option, none, some, List, [], ◌∷◌, ◌++◌, length, length-append, take, map, All, Time,
  after, before, ltb, leb, ◌==◌, is_empty, inl, inr, max,
}
use network_enricher.Prelude.Sets.{In, All-of_In}
use network_enricher.DnsStore.{
  DnsEvent, DnsKey, DnsBinding, Entry, key_eq, find, remove, store, place, write, is_absent,
  sort_out, select_evictions, remove_all, shed_of, apply_dns, key_of,
}
use network_enricher.DnsStore.Heap.{
  Victim, VictimHeap, at, set_at, swap, swapped, less, up, child, down, push, fix, replace_root,
}
use network_enricher.DnsStore.Binding.{key_eq_iff}
use network_enricher.DnsStore.Victims.{push-All, replace_root-All}

module _ {K : Type 0} where
  length-set_at : (i : ℕ) (x : Victim K) (h : VictimHeap K) → length (set_at i x h) ≡ length h
  unfolding set_at
  length-set_at i x [] = refl
  length-set_at zero x (v ∷ h) = refl
  length-set_at (suc i) x (v ∷ h) = ap suc (length-set_at i x h)

  length-swapped :
      (i j : ℕ) (h : VictimHeap K) (x y : Option (Victim K)) → length (swapped i j h x y) ≡ length h
  unfolding swapped
  length-swapped i j h none y = refl
  length-swapped i j h (some x) none = refl
  length-swapped i j h (some x) (some y) = length-set_at j x (set_at i y h) ∙ length-set_at i y h

  length-swap : (i j : ℕ) (h : VictimHeap K) → length (swap i j h) ≡ length h
  unfolding swap
  length-swap i j h = length-swapped i j h (at i h) (at j h)

  length-up : (fuel j : ℕ) (h : VictimHeap K) → length (up fuel j h) ≡ length h
  unfolding up
  length-up zero j h = refl
  length-up (suc fuel) j h =
      let i = (j - 1) / 2 in
      elim (Bool-cases (i == j || not (less j i h))) [
        | inl q ↦ rw q refl
        | inr q ↦ rw q (length-up fuel i (swap i j h) ∙ length-swap i j h)
      ]

  length-down : (fuel i n : ℕ) (h : VictimHeap K) → length (down fuel i n h).0 ≡ length h
  unfolding down
  length-down zero i n h = refl
  length-down (suc fuel) i n h =
      let j = child i n h in
      elim (Bool-cases (leb n (2 * i + 1) || not (less j i h))) [
        | inl q ↦ rw q refl
        | inr q ↦ rw q (length-down fuel j n (swap i j h) ∙ length-swap i j h)
      ]

  length-push : (v : Victim K) (h : VictimHeap K) → length (push v h) ≡ length h + 1
  unfolding push
  length-push v h = length-up (length h + 1) (length h) (h ++ v ∷ []) ∙ length-append h (v ∷ [])

  length-fix : (i : ℕ) (h : VictimHeap K) → length (fix i h) ≡ length h
  unfolding fix
  length-fix i h =
      let d = length-down (length h) i (length h) h in
      elim (Bool-cases (ltb i (down (length h) i (length h) h).1)) [
        | inl q ↦ rw q d
        | inr q ↦ rw q (length-up (i + 1) i (down (length h) i (length h) h).0 ∙ d)
      ]

  length-replace_root : (v : Victim K) (h : VictimHeap K) → length (replace_root v h) ≡ length h
  unfolding replace_root
  length-replace_root v [] = refl
  length-replace_root v (root ∷ h) = elim (Bool-cases (before v.deadline root.deadline)) [
    | inl q ↦ rw q (length-fix 0 (v ∷ h))
    | inr q ↦ rw q refl
  ]

-- What the loop holds: keys of the map only, and so many of them in all.
record Sorted (P : DnsKey → Type 0) (n : ℕ) (r : List DnsKey × VictimHeap DnsKey) : Type 0 where
  expired_present : All P r.0
  heap_present : All (λ v. P v.key) r.1
  enough : n ≤ length r.0 + length r.1

append_key-All :
    (P : DnsKey → Type 0) (ks : List DnsKey) (k : DnsKey) → All P ks → P k → All P (ks ++ k ∷ [])
append_key-All P [] k a p = (p, tt)
append_key-All P (x ∷ ks) k a p = (a.0, append_key-All P ks k a.1 p)

sort_out-Sorted :
    (P : DnsKey → Type 0) (now : Time) (shed n : ℕ) (es : List Entry) (expired : List DnsKey)
    (heap : VictimHeap DnsKey)
    → All (λ x. P x.0) es
    → All P expired
    → All (λ v. P v.key) heap
    → n ≤ length expired + length heap
    → Sorted P n (sort_out now shed es expired heap)
unfolding sort_out
sort_out-Sorted P now shed n [] expired heap h a b m = record {
  expired_present = a;
  heap_present = b;
  enough = m;
}
sort_out-Sorted P now shed n ((k, b) ∷ es) expired heap h a c m =
    let v : Victim DnsKey = record { key = k; deadline = b.deadline } in
    elim (Bool-cases (after now b.deadline)) [
      | inl q ↦ rw q (
          sort_out-Sorted P now shed n es (expired ++ k ∷ []) heap h.1
            (append_key-All P expired k a h.0) c (omega (arith, length-append expired (k ∷ []))))
      | inr q ↦ rw q (elim (Bool-cases (ltb (length heap) shed)) [
        | inl r ↦ rw r (
            sort_out-Sorted P now shed n es expired (push v heap) h.1 a
              (push-All (λ v. P v.key) v heap h.0 c) (omega (arith, m, length-push v heap)))
        | inr r ↦ rw r (
            sort_out-Sorted P now shed n es expired (replace_root v heap) h.1 a
              (replace_root-All (λ v. P v.key) v heap h.0 c)
              (omega (arith, m, length-replace_root v heap)))
      ])
    ]

sort_out_one :
    (P : DnsKey → Type 0) (now : Time) (shed : ℕ) (x : Entry) (es : List Entry)
    → 0 < shed
    → All (λ x. P x.0) (x ∷ es)
    → Sorted P 1 (sort_out now shed (x ∷ es) [] [])
unfolding sort_out
sort_out_one P now shed (k, b) es s h =
    let v : Victim DnsKey = record { key = k; deadline = b.deadline } in
    elim (Bool-cases (after now b.deadline)) [
      | inl q ↦ rw q (sort_out-Sorted P now shed 1 es (k ∷ []) [] h.1 (h.0, tt) tt (omega arith))
      | inr q ↦
          let r : ltb 0 shed ≡ true = ground arith in
          rw (q, r)
            (sort_out-Sorted P now shed 1 es [] (push v []) h.1 tt
              (push-All (λ v. P v.key) v [] h.0 tt) (omega (arith, length-push v [])))
    ]

-- Some victim is in the map, if a key of the map is met at all.
first_victim :
    (P : DnsKey → Type 0) (shed : ℕ) (r : List DnsKey × VictimHeap DnsKey)
    → 0 < shed
    → Sorted P 1 r
    → (k : DnsKey) × (ks : List DnsKey) × P k
      × (r.0 ++ map (λ v. v.key) (take (shed - length r.0) r.1) ≡ k ∷ ks)
first_victim P shed (k ∷ ks, h) s z =
    (k, ks ++ map (λ v. v.key) (take (shed - length (k ∷ ks)) h), z.expired_present.0, refl)
first_victim P shed ([], []) s z = absurd (let e = z.enough in omega (arith, e))
first_victim P (suc n) ([], v ∷ h) s z =
    let e : suc n - 0 ≡ suc n = omega arith in
    (v.key, map (λ v. v.key) (take n h), z.heap_present.0, rw e refl)
first_victim P zero ([], v ∷ h) s z = absurd (omega arith)

length-remove_le : (k : DnsKey) (es : List Entry) → length (remove k es) ≤ length es
unfolding remove
length-remove_le k [] = omega arith
length-remove_le k ((l, b) ∷ es) = ground (arith, length-remove_le k es)

length-remove_lt :
    (k : DnsKey) (es : List Entry) → is_absent k es ≡ false → length (remove k es) < length es
unfolding remove is_absent find
length-remove_lt k [] h = absurd (ground arith)
length-remove_lt k ((l, b) ∷ es) h = elim (Bool-cases (key_eq k l)) [
  | inl q ↦ rw q (omega (arith, length-remove_le k es))
  | inr q ↦ rw q (omega (arith, length-remove_lt k es (rw (is_absent, q) at h)))
]

length-remove_all_le : (ks : List DnsKey) (es : List Entry) → length (remove_all ks es) ≤ length es
unfolding remove_all
length-remove_all_le [] es = omega arith
length-remove_all_le (k ∷ ks) es =
    omega (arith, length-remove_all_le ks (remove k es), length-remove_le k es)

pub length-write_le : (e : DnsEvent) (es : List Entry) → length (write e es) ≤ length es + 1
unfolding write place store
length-write_le e es = go (find (key_of e) es)
  where
    go : (o : Option DnsBinding) → length (place e o es) ≤ length es + 1
    go none = omega (arith, length-remove_le (key_of e) es)
    go (some b) = ground (arith, length-remove_le (key_of e) es)

length-write_present :
    (e : DnsEvent) (es : List Entry)
    → is_absent (key_of e) es ≡ false
    → length (write e es) ≤ length es
unfolding write place store
length-write_present e es h = go (find (key_of e) es)
  where
    go : (o : Option DnsBinding) → length (place e o es) ≤ length es
    go none = omega (arith, length-remove_lt (key_of e) es h)
    go (some b) = ground (arith, length-remove_lt (key_of e) es h)

-- Go ranges over a map: each entry once.
pub record IsIteration (order : List Entry → List Entry) : Type 0 where
  pub met : (es : List Entry) (x : Entry) → In x (order es) → In x es
  pub all : (es : List Entry) → length (order es) ≡ length es

find_of_In : (es : List Entry) (x : Entry) → In x es → is_absent x.0 es ≡ false
unfolding is_absent find
find_of_In [] x i = absurd i
find_of_In ((l, b) ∷ es) x (inl e) =
    let k : key_eq x.0 l ≡ true = (key_eq_iff x.0 l).1 (ap (λ y. y.0) e) in rw (is_absent, k) refl
find_of_In ((l, b) ∷ es) x (inr i) = ground (arith, find_of_In es x i)

freed :
    (now : Time) (max_size : ℕ) (es met : List Entry)
    → 0 < length met
    → All (λ x. is_absent x.0 es ≡ false) met
    → length (remove_all (select_evictions now max_size met) es) < length es
unfolding select_evictions shed_of remove_all
freed now max_size es [] m h = absurd (omega arith)
freed now max_size es (x ∷ met) m h =
    let shed = max 1 (max_size / 16) in
    let some_shed : 0 < shed = omega arith in
    let present : DnsKey → Type 0 = λ k. is_absent k es ≡ false in
    let sorted = sort_out_one present now shed x met some_shed h in
    let (k, ks, p, e) =
      first_victim present shed (sort_out now shed (x ∷ met) [] []) some_shed sorted in
    rw e (omega (arith, length-remove_all_le ks (remove k es), length-remove_lt k es p))

-- Whatever the order in which Go ranges over the entries: a map within the cap is within the cap
-- after `applyDNS`, for any cap but 0.
pub apply_dns-bounded :
    (now : Time) (max_size : ℕ) (order : List Entry → List Entry) (e : DnsEvent) (es : List Entry)
    → IsIteration order
    → 0 < max_size
    → length es ≤ max_size
    → length (apply_dns now max_size order e es) ≤ max_size
unfolding apply_dns
apply_dns-bounded now max_size order e es it m h =
    elim (Bool-cases (is_empty e.answer_ip || is_empty e.qname)) [
      | inl q ↦ rw q h
      | inr q ↦ rw q (elim (Bool-cases (is_absent (key_of e) es)) [
        | inr r ↦ rw r (omega (arith, h, length-write_present e es r))
        | inl r ↦ elim (Bool-cases (leb max_size (length es))) [
          | inr t ↦
              rw (r, t)
                (let below : length es < max_size = ground arith in
                  omega (arith, below, length-write_le e es))
          | inl t ↦
              rw (r, t)
                (let full : max_size ≤ length es = ground arith in
                  let met : 0 < length (order es) = omega (arith, full, m, it.all es) in
                  let less =
                    freed now max_size es (order es) met
                      (All-of_In _ (order es) (λ x i. find_of_In es x (it.met es x i))) in
                  omega (arith, h, less, length-write_le e _))
        ]
      ])
    ]
