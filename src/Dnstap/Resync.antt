-- ===== src/Dnstap/Resync.antt =====
-- A new block in dnstaplog.go, whatever came before it.
use network_enricher.Prelude.{◌≡◌, refl, Option, List, ◌∷◌, ◌++◌, drop, Text, codes, Time}
use network_enricher.Addresses.{Ip}
use network_enricher.Dnstap.{DnstapParser, feed_all}

-- A line that opens a block brings the parser back in step: from any two states, the lines behind
-- it yield the same results and leave the same state, so that nothing of a block that was cut off
-- gets into a later one.
pub resync :
    (parse_ip : Text → Option Ip) (parse_rfc3339 : Text → Option Time) (s : Text)
    (lines : List Text) (p q : DnstapParser)
    → let opened = (codes "type:" ++ s) ∷ lines in
      ((feed_all parse_ip parse_rfc3339 opened p).0 ≡ (feed_all parse_ip parse_rfc3339 opened q).0)
      × (drop 1 (feed_all parse_ip parse_rfc3339 opened p).1
          ≡ drop 1 (feed_all parse_ip parse_rfc3339 opened q).1)
unfolding feed_all
resync parse_ip parse_rfc3339 s lines p q = (refl, refl)
