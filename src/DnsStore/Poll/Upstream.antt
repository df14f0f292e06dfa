-- ===== src/DnsStore/Poll/Upstream.antt =====
-- The store of tcpdump logs in dnsstore.go takes nothing of the resolver's own queries.
use network_enricher.Prelude.{
  ℕ, ◌≡◌, ◌||◌, refl, subst, ◌∙◌, inl, inr, Bool, Bool-cases, false, not, Option, none, some, List,
  [], ◌∷◌, All, map, Text, Time, Duration, contains, codes, ◌==◌,
}
use network_enricher.Addresses.{Ip}
use network_enricher.DnsStore.{DnsEvent, DnsKey, DnsBinding}
use network_enricher.DnsStore.Poll.Files.{events_of}
use network_enricher.DnsStore.Poll.Parsers.{
  new_tcpdump_parser, tcpdump_parser, new_dns_store, told_events-All,
}
use network_enricher.DnsStore.Poll.Refines.{buffer, scan_events, scan_refines}
use network_enricher.DnsStore.Poll.{Poller, PollConfig, parser_or, with_writer, scan}
use network_enricher.DnsStore.Writer.{flush}
use network_enricher.LogFile.Feeds.{dir_feeds}
use network_enricher.LogFile.{Entry, Polled}
use network_enricher.Tcpdump.{TcpdumpParser, Result, header, feed_header, feed}
use network_enricher.Tcpdump.Clients.{Admitted, AllEvents, feed-Admitted}

module _ (parse_ip : Text → Option Ip) (next_day : Time → Time) (midnight : Time)
    (resolver_ip dns_dir : Text) (clock : ℕ → Time)
    (order : ℕ → List (DnsKey × DnsBinding) → List (DnsKey × DnsBinding)) where
  resolver_ip-feed_header :
      (l : Text) (p : TcpdumpParser)
      → (feed_header parse_ip next_day l p).resolver_ip ≡ p.resolver_ip
  unfolding feed_header header
  resolver_ip-feed_header l p = go _
    where
      udp : Bool
      udp = contains l (codes "proto UDP") || contains l (codes "next-header UDP")

      go :
          (o : Option Duration)
          → (elim o as (λ x. TcpdumpParser) [
            | none ↦ record p { pending = false }
            | some tod ↦ header parse_ip next_day p tod udp
          ]).resolver_ip
            ≡ p.resolver_ip
      go none = refl
      go (some tod) = refl

  resolver_ip-feed :
      (l : Text) (p : TcpdumpParser) → (feed parse_ip next_day l p).0.resolver_ip ≡ p.resolver_ip
  unfolding feed
  resolver_ip-feed [] p = refl
  resolver_ip-feed (c ∷ l) p = elim (Bool-cases (c == 32 || c == 9)) [
    | inr k ↦ rw k (resolver_ip-feed_header (c ∷ l) p)
    | inl k ↦ elim (Bool-cases (not p.pending)) [ inl q ↦ rw (k, q) refl | inr q ↦ rw (k, q) refl ]
  ]

  abbrev pub store : PollConfig TcpdumpParser
  store = new_dns_store (tcpdump_parser parse_ip next_day midnight resolver_ip) dns_dir clock order

  events_of-All : (Q : DnsEvent → Type 0) (r : Result) → AllEvents Q r → All Q (events_of r)
  events_of-All Q none h = tt
  events_of-All Q (some es) h = h

  -- The parsers of the files are those of the configured resolver. Then a scan buffers no event whose
  -- client is that resolver, and each answer that it buffers is an address of the family of its
  -- record with an unknown TTL.
  pub scan-Admitted :
      (entries : Option (List Entry)) (accepted : Bool) (now : Time)
      (p : Polled (Poller TcpdumpParser))
      → ((path : Text)
          → (parser_or (new_tcpdump_parser midnight resolver_ip) (p.state.parsers path)).resolver_ip
            ≡ resolver_ip)
      → ((scan store entries accepted now p).state.ch
          ≡ with_writer (flush accepted) (
              with_writer (buffer store (map (λ x. x.1) (scan_events store entries p))) p.state.ch))
        × All (λ x. Admitted parse_ip resolver_ip x.1) (scan_events store entries p)
  unfolding new_dns_store tcpdump_parser new_tcpdump_parser
  scan-Admitted entries accepted now p h = (
    (scan_refines store entries accepted now p).1,
    told_events-All store (λ q. q.resolver_ip ≡ resolver_ip) (Admitted parse_ip resolver_ip) refl
        (λ q l i. resolver_ip-feed l q ∙ i)
        (λ q l i. events_of-All (Admitted parse_ip resolver_ip) (feed parse_ip next_day l q).1 (
          subst (λ r. AllEvents (Admitted parse_ip r) (feed parse_ip next_day l q).1) i
            (feed-Admitted parse_ip next_day l q)))
        (dir_feeds store.limit store.dns_dir p.offsets entries) p.state.parsers h,
  )
