-- ===== src/Trace/Query/Placeholders.antt =====
-- The queries of cmd/trace/main.go bind every value.
use network_enricher.Prelude.{
  ℕ, suc, ◌+◌, ◌≡◌, refl, ap, some_inj, Bool-cases, arith, Option, none, some, List, [], ◌∷◌, ◌++◌,
  length, length-append, Text, is_empty, Time, ◌==◌, if◌then◌else◌, inl, inr,
}
use network_enricher.Trace.Filter.{Filter}
use network_enricher.Trace.Query.{
  Query, ◌then_write◌, no_asns, destination_piece, source_piece, around_piece, build_query,
  flows_open, flows_close, dns_open, dns_close, resolved_piece, build_dns_query, build_dhcp_query,
  build_radius_query,
}

-- The question marks of a text.
unfoldable pub marks : Text → ℕ
marks [] = 0
marks (c ∷ s) = if c == 63 then suc (marks s) else marks s

marks-append : (a b : Text) → marks (a ++ b) ≡ marks a + marks b
unfolding marks
marks-append [] b = omega arith
marks-append (c ∷ a) b = ground (arith, marks-append a b)

abbrev pub IsBalanced : Query → Type 0
IsBalanced q = marks q.sql ≡ length q.args

then_write-IsBalanced : (a b : Query) → IsBalanced a → IsBalanced b → IsBalanced (a then_write b)
unfolding ◌then_write◌
then_write-IsBalanced a b p q =
    omega (arith, p, q, marks-append a.sql b.sql, length-append a.args b.args)

abbrev pub AllBalanced : Option Query → Type 0
AllBalanced none = Unit
AllBalanced (some q) = IsBalanced q

module _ (f : Filter) where
  destination_piece-AllBalanced : AllBalanced (destination_piece f)
  unfolding destination_piece marks
  destination_piece-AllBalanced = elim (Bool-cases (no_asns f.destination.dst_asns)) [
    | inr q ↦ rw q refl
    | inl q ↦ elim (Bool-cases (is_empty f.destination.dst_org)) [
      | inr r ↦ rw (q, r) refl
      | inl r ↦ elim (Bool-cases (is_empty f.destination.dst_ip)) [
        | inr t ↦ rw (q, r, t) refl
        | inl t ↦ rw (q, r, t) tt
      ]
    ]
  ]

  source_piece-IsBalanced : IsBalanced (source_piece f)
  unfolding source_piece marks
  source_piece-IsBalanced = elim (Bool-cases (is_empty f.src_ip)) [
    | inl q ↦ rw q refl
    | inr q ↦ rw q refl
  ]

  around_piece-IsBalanced : (p : Query) → IsBalanced p → IsBalanced (around_piece f p)
  unfolding around_piece marks
  around_piece-IsBalanced p h =
      then_write-IsBalanced (flows_open f) (p then_write source_piece f then_write flows_close f)
        refl
        (then_write-IsBalanced p (source_piece f then_write flows_close f) h
          (then_write-IsBalanced (source_piece f) (flows_close f) source_piece-IsBalanced refl))

  resolved_piece-IsBalanced : IsBalanced (resolved_piece f)
  unfolding resolved_piece marks
  resolved_piece-IsBalanced = elim (Bool-cases (is_empty f.destination.qname)) [
    | inl q ↦ rw q refl
    | inr q ↦ rw q refl
  ]

  dns_query-IsBalanced : IsBalanced (build_dns_query f)
  unfolding build_dns_query marks
  dns_query-IsBalanced =
      then_write-IsBalanced (dns_open f) (resolved_piece f then_write dns_close f) refl
        (then_write-IsBalanced (resolved_piece f) (dns_close f) resolved_piece-IsBalanced refl)

  flows_query-AllBalanced : AllBalanced (build_query f)
  unfolding build_query
  flows_query-AllBalanced = go (destination_piece f) destination_piece-AllBalanced
    where
      go :
          (o : Option Query)
          → AllBalanced o
          → AllBalanced
              (elim o as (λ x. Option Query) [ none ↦ none | some p ↦ some (around_piece f p) ])
      go none h = tt
      go (some p) h = around_piece-IsBalanced p h

  -- Each of the four queries has as many question marks in its SQL as it has arguments, whatever
  -- the filter, the candidates and the bounds.
  queries-IsBalanced :
      (keys : List Text) (from to : Time)
      → AllBalanced (build_query f)
        × IsBalanced (build_dns_query f)
        × IsBalanced (build_dhcp_query keys from to)
        × IsBalanced (build_radius_query keys from to)
  unfolding build_dhcp_query build_radius_query marks
  queries-IsBalanced keys from to = (flows_query-AllBalanced, dns_query-IsBalanced, refl, refl)

-- The tests that decide which predicates a query has.
abbrev pub SameTests : Filter → Filter → Type 0
SameTests f g =
    (no_asns f.destination.dst_asns ≡ no_asns g.destination.dst_asns)
    × (is_empty f.destination.dst_org ≡ is_empty g.destination.dst_org)
    × (is_empty f.destination.dst_ip ≡ is_empty g.destination.dst_ip)
    × (is_empty f.destination.qname ≡ is_empty g.destination.qname)
    × (is_empty f.src_ip ≡ is_empty g.src_ip)

abbrev pub sql_of : Option Query → Option Text
sql_of none = none
sql_of (some q) = some q.sql

module _ (f g : Filter) (s : SameTests f g) where
  destination_sql : sql_of (destination_piece f) ≡ sql_of (destination_piece g)
  unfolding destination_piece
  destination_sql =
      rw (s.0, s.1, s.2)
        (elim (Bool-cases (no_asns g.destination.dst_asns)) [
          | inr q ↦ rw q refl
          | inl q ↦ elim (Bool-cases (is_empty g.destination.dst_org)) [
            | inr r ↦ rw (q, r) refl
            | inl r ↦ elim (Bool-cases (is_empty g.destination.dst_ip)) [
              | inr t ↦ rw (q, r, t) refl
              | inl t ↦ rw (q, r, t) refl
            ]
          ]
        ])

  source_sql : (source_piece f).sql ≡ (source_piece g).sql
  unfolding source_piece
  source_sql = elim (Bool-cases (is_empty g.src_ip)) [
    | inl q ↦ rw (s.4, q) refl
    | inr q ↦ rw (s.4, q) refl
  ]

  resolved_sql : (resolved_piece f).sql ≡ (resolved_piece g).sql
  unfolding resolved_piece
  resolved_sql = elim (Bool-cases (is_empty g.destination.qname)) [
    | inl q ↦ rw (s.3, q) refl
    | inr q ↦ rw (s.3, q) refl
  ]

  around_sql : (p q : Query) → p.sql ≡ q.sql → (around_piece f p).sql ≡ (around_piece g q).sql
  unfolding around_piece ◌then_write◌
  around_sql p q e = rw (e, source_sql) refl

  flows_sql : sql_of (build_query f) ≡ sql_of (build_query g)
  unfolding build_query
  flows_sql = go (destination_piece f) (destination_piece g) destination_sql
    where
      go :
          (o o' : Option Query)
          → sql_of o ≡ sql_of o'
          → sql_of
              (elim o as (λ x. Option Query) [ none ↦ none | some p ↦ some (around_piece f p) ])
            ≡ sql_of
                (elim o' as (λ x. Option Query) [ none ↦ none | some p ↦ some (around_piece g p) ])
      go none none e = refl
      go none (some q) e = cc
      go (some p) none e = cc
      go (some p) (some q) e = ap some (around_sql p q (some_inj e))

  dns_sql : (build_dns_query f).sql ≡ (build_dns_query g).sql
  unfolding build_dns_query ◌then_write◌
  dns_sql = rw resolved_sql refl

-- No value that the user gives gets into the SQL: two filters with the same predicates set have the
-- same SQL in both modes.
pub sql_has_no_value :
    (f g : Filter)
    → SameTests f g
    → (sql_of (build_query f) ≡ sql_of (build_query g))
      × ((build_dns_query f).sql ≡ (build_dns_query g).sql)
sql_has_no_value f g s = (flows_sql f g s, dns_sql f g s)
