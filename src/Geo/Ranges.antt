-- ===== src/Geo/Ranges.antt =====
-- The private addresses of geoip.go as intervals.
use network_enricher.Prelude.{ℕ, ◌≡◌, ◌↔◌, Bool, true, ◌||◌, arith, leb, ◌&&◌}
use network_enricher.Addresses.{v4, covers}
use network_enricher.Geo.{is_private, any_covers}

abbrev pub within : ℕ → ℕ → ℕ → Bool
within lo hi n = leb lo n && leb n hi

-- An IPv4 address is private exactly if it lies in one of the intervals 10.0.0.0-10.255.255.255,
-- 127.0.0.0-127.255.255.255, 169.254.0.0-169.254.255.255, 172.16.0.0-172.31.255.255 and
-- 192.168.0.0-192.168.255.255, which are written here as numbers.
pub is_private_intervals :
    (n : ℕ)
    → (is_private (v4 n) ≡ true) ↔ (
        (within 167772160 184549375 n
          || within 2130706432 2147483647 n
          || within 2851995648 2852061183 n
          || within 2886729728 2887778303 n
          || within 3232235520 3232301055 n)
        ≡ true)
unfolding is_private any_covers covers
is_private_intervals n = ground arith
