-- ===== src/Trace/Accepted.antt =====
-- What holds of the flags that buildFilter of cmd/trace/main.go accepts.
use network_enricher.Prelude.{
  ℕ, ◌+◌, ◌≤◌, ◌≡◌, ◌⊎◌, refl, subst, inl, inr, Bool, Bool-cases, true, false, not, ◌&&◌, ◌||◌,
  arith, Option, none, some, List, [], ◌∷◌, All, Text, text_eq, is_empty, trim_space, to_lower,
  Time, ◌==◌, if◌then◌else◌,
}
use network_enricher.Prelude.Int.{ℤ, pos, negsuc, is_positive, is_negative, add_half, sub_half}
use network_enricher.Trace.Query.{no_asns, build_query, destination_piece}
use network_enricher.Trace.Filter.{
  FilterError, Checked, pass, refuse, ◌>>=◌, Flags, Destination, Filter, known_services, asns_of,
  resolve_service, given, checked_qname, checked_ip, who_destination, checked_asns,
  flows_destination, flows_flag_in_who_mode, two_windows, no_window, destination, parse_time,
  time_window, build_filter, invalid_dst_ip, invalid_src_ip, limit_not_positive,
}

-- What passes a chain passed its first link.
chain-passes :
    {A B : Type 0} (first : Checked A) (next : A → Checked B) {b : B}
    → first >>= next ≡ pass b
    → (a : A) × (first ≡ pass a) × (next a ≡ pass b)
chain-passes (refuse e) next h = cc
chain-passes (pass a) next h = (a, refl, h)

-- The number of predicates on the destination that the query will find set.
unfoldable pub predicates : Destination → ℕ
predicates d =
    given (not (no_asns d.dst_asns))
    + given (not (is_empty d.dst_org))
    + given (not (is_empty d.dst_ip))
    + given (not (is_empty d.qname))

asns_of_nonempty :
    (name : Text) (table : List (Text × List ℕ)) (v : List ℕ)
    → All (λ x. no_asns x.1 ≡ false) table
    → asns_of name table ≡ pass v
    → no_asns v ≡ false
unfolding asns_of
asns_of_nonempty name [] v a h = cc
asns_of_nonempty name ((k, w) ∷ rest) v a h = elim (Bool-cases (text_eq name k)) [
  | inl q ↦ let e : Checked.pass w ≡ pass v = rw q at h in ground (arith, a.0)
  | inr q ↦ asns_of_nonempty name rest v a.1 (rw q at h)
]

resolve_service_nonempty :
    (name : Text) (v : List ℕ) → resolve_service name ≡ pass v → no_asns v ≡ false
unfolding resolve_service
resolve_service_nonempty name v h =
    asns_of_nonempty (to_lower (trim_space name)) known_services v
      (refl, (refl, (refl, (refl, (refl, (refl, (refl, tt))))))) h

ok_inj : {A : Type 0} {a b : A} → pass a ≡ pass b → a ≡ b
ok_inj h = cc

abbrev pub is_some : {A : Type 0} → Option A → Bool
is_some none = false
is_some (some a) = true

assemble : Destination → Time × Time → Text → Flags → Filter
assemble d w src g = record {
  from = w.0;
  to = w.1;
  destination = d;
  src_ip = src;
  limit = g.limit;
  who = g.who;
}

query_built :
    (f : Filter)
    → predicates f.destination ≡ 1
    → (f.who ≡ true) ⊎ (f.destination.qname ≡ [])
    → (f.who ≡ true) ⊎ (is_some (build_query f) ≡ true)
unfolding build_query destination_piece predicates
query_built f one (inl w) = inl w
query_built f one (inr bare) = inr (elim (Bool-cases (no_asns f.destination.dst_asns)) [
  | inr q ↦ rw (build_query, destination_piece, q) refl
  | inl q ↦ elim (Bool-cases (is_empty f.destination.dst_org)) [
    | inr r ↦ rw (build_query, destination_piece, q, r) refl
    | inl r ↦ elim (Bool-cases (is_empty f.destination.dst_ip)) [
      | inr t ↦ rw (build_query, destination_piece, q, r, t) refl
      | inl t ↦ let e = rw (q, r, t, bare) at one in absurd (omega arith)
    ]
  ]
])

module _ (is_ip : Text → Bool) (parse_layout : Text → Text → Option Time) (g : Flags) where
  checked_qname_ok :
      (q r : Text) → checked_qname is_ip parse_layout q ≡ pass r → is_empty r ≡ is_empty q
  unfolding checked_qname
  checked_qname_ok q r h = ground arith

  checked_ip_ok :
      (e : FilterError) (ip r : Text) → checked_ip is_ip parse_layout e ip ≡ pass r → r ≡ ip
  unfolding checked_ip
  checked_ip_ok e ip r h = ground arith

  who_destination_ok :
      (d : Destination) → who_destination is_ip parse_layout g ≡ pass d → predicates d ≡ 1
  unfolding who_destination predicates
  who_destination_ok d h =
      let (q, hq, h1) = chain-passes (checked_qname is_ip parse_layout g.qname) _ h in
      let (ip, hip, h2) =
        chain-passes (checked_ip is_ip parse_layout invalid_dst_ip g.dst_ip) _ h1 in
      ground (arith, checked_qname_ok g.qname q hq, checked_ip_ok invalid_dst_ip g.dst_ip ip hip)

  checked_asns_ok :
      (v : List ℕ)
      → checked_asns is_ip parse_layout g ≡ pass v
      → no_asns v ≡ (is_empty g.service && g.dst_asn == 0)
  unfolding checked_asns
  checked_asns_ok v h = elim (Bool-cases (is_empty g.service)) [
    | inl q ↦ rw q (let e = rw q at h in ground arith)
    | inr q ↦
        let (w, hw, h1) = chain-passes (resolve_service g.service) _ (rw q at h) in
        rw q (ground (arith, resolve_service_nonempty g.service w hw))
  ]

  flows_destination_ok :
      (d : Destination)
      → flows_destination is_ip parse_layout g ≡ pass d
      → (predicates d ≡ 1) × (d.qname ≡ [])
  unfolding flows_destination predicates
  flows_destination_ok d h =
      let (v, hv, h1) = chain-passes (checked_asns is_ip parse_layout g) _ h in
      let (ip, hip, h2) =
        chain-passes (checked_ip is_ip parse_layout invalid_dst_ip g.dst_ip) _ h1 in
      ground (arith, checked_asns_ok v hv, checked_ip_ok invalid_dst_ip g.dst_ip ip hip)

  destination_ok :
      (d : Destination)
      → destination is_ip parse_layout g ≡ pass d
      → (predicates d ≡ 1) × ((g.who ≡ true) ⊎ (d.qname ≡ []))
  unfolding destination
  destination_ok d h = elim (Bool-cases g.who) [
    | inr q ↦ let (one, bare) = flows_destination_ok d (rw (q, destination) at h) in (one, inr bare)
    | inl q ↦
        elim (Bool-cases (
          not (is_empty g.service)
          || not (g.dst_asn == 0)
          || not (is_empty g.dst_org)
          || not (is_empty g.src_ip))) [
            | inl r ↦ let e : Checked.refuse flows_flag_in_who_mode ≡ pass d = rw (q, r) at h in cc
            | inr r ↦ (who_destination_ok d (rw (q, r) at h), inl q)
          ]
  ]

  window_ordered : (t : Time) (n : ℤ) → is_negative n ≡ false → sub_half t n ≤ add_half t n
  window_ordered t (pos n) h = omega arith
  window_ordered t (negsuc n) h = absurd (ground arith)

  time_window_ok :
      (w : Time × Time)
      → time_window is_ip parse_layout g ≡ pass w
      → (is_negative g.window ≡ true) ⊎ (w.0 ≤ w.1)
  unfolding time_window
  time_window_ok w h = elim (Bool-cases (not (is_empty g.around))) [
    | inl q ↦ elim (Bool-cases (not (is_empty g.from) || not (is_empty g.to))) [
      | inl r ↦ let e : Checked.refuse two_windows ≡ pass w = rw (q, r) at h in cc
      | inr r ↦
          let (c, hc, e) =
            chain-passes (parse_time is_ip parse_layout g.around) _ (rw (q, r) at h) in
          elim (Bool-cases (is_negative g.window)) [
            | inl n ↦ inl n
            | inr n ↦ inr (ground (arith, window_ordered c g.window n))
          ]
    ]
    | inr q ↦ elim (Bool-cases (not (is_empty g.from) && not (is_empty g.to))) [
      | inl r ↦
          let (a, ha, e) = chain-passes (parse_time is_ip parse_layout g.from) _ (rw (q, r) at h) in
          let (b, hb, e') = chain-passes (parse_time is_ip parse_layout g.to) _ e in
          inr (ground arith)
      | inr r ↦ let e : Checked.refuse no_window ≡ pass w = rw (q, r) at h in cc
    ]
  ]

-- What is sure of a filter that is accepted: exactly one predicate on the destination; the limit is
-- positive; in flows mode the query can be built; and the window is in order, but for a negative
-- `-window`.
pub record IsAccepted (window : ℤ) (f : Filter) : Type 0 where
  pub one_predicate : predicates f.destination ≡ 1
  pub limited : is_positive f.limit ≡ true
  pub ordered : (is_negative window ≡ true) ⊎ (f.from ≤ f.to)
  pub has_query : (f.who ≡ true) ⊎ (is_some (build_query f) ≡ true)

-- If buildFilter accepts the flags, then the filter has exactly one predicate on the destination
-- and a positive limit; in flows mode buildQuery does not fail on it; and its window is in order
-- unless `-window` is negative.
pub build_filter-IsAccepted :
    (is_ip : Text → Bool) (parse_layout : Text → Text → Option Time) (g : Flags) (f : Filter)
    → build_filter is_ip parse_layout g ≡ pass f
    → IsAccepted g.window f
unfolding build_filter assemble
build_filter-IsAccepted is_ip parse_layout g f h =
    let (d, hd, h1) = chain-passes (destination is_ip parse_layout g) _ h in
    let (w, hw, h2) = chain-passes (time_window is_ip parse_layout g) _ h1 in
    let (src, hs, h3) = chain-passes (checked_ip is_ip parse_layout invalid_src_ip g.src_ip) _ h2 in
    let (one, bare) = destination_ok is_ip parse_layout g d hd in
    let order = time_window_ok is_ip parse_layout g w hw in
    accepted d w src one bare order (Bool-cases (is_positive g.limit)) h3
  where
    accepted :
        (d : Destination) (w : Time × Time) (src : Text)
        → predicates d ≡ 1
        → (g.who ≡ true) ⊎ (d.qname ≡ [])
        → (is_negative g.window ≡ true) ⊎ (w.0 ≤ w.1)
        → (is_positive g.limit ≡ true) ⊎ (is_positive g.limit ≡ false)
        → (if is_positive g.limit then pass (assemble d w src g) else refuse limit_not_positive)
          ≡ pass f
        → IsAccepted g.window f
    accepted d w src one bare order (inr q) h =
        let e : Checked.refuse limit_not_positive ≡ pass f = rw q at h in absurd (cc)
    accepted d w src one bare order (inl q) h =
        let e : Checked.pass (assemble d w src g) ≡ pass f = rw q at h in
        subst (IsAccepted g.window) (ok_inj e) (record {
          one_predicate = one;
          limited = q;
          ordered = order;
          has_query = query_built (assemble d w src g) one bare;
        })
