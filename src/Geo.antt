-- ===== src/Geo.antt =====
-- geoip.go: what is told of an address by the two databases, which are arguments: what
-- `cityDB.City` and `asnDB.ASN` answer, `none` for an error.
pub mod Ranges
use network_enricher.Prelude.{
  ℕ, ◌+◌, ◌*◌, ◌%◌, ◌^◌, Bool, true, false, ◌||◌, Option, none, some, List, [], ◌∷◌, Text, codes,
  is_empty, if◌then◌else◌,
}
use network_enricher.Addresses.{Ip, v4, v6, Network, covers}
use network_enricher.Flow.{GeoData}

pub record CityAnswer (F : Type 0) : Type 0 where
  pub iso_code : Text
  pub english_name : Text
  pub latitude : F
  pub longitude : F

pub record AsnAnswer : Type 0 where
  pub number : ℕ
  pub organization : Text

pub record GeoStore (F : Type 0) : Type 0 where
  pub city_db : Ip → Option (CityAnswer F)
  pub asn_db : Ip → Option AsnAnswer

-- The address a.b.c.d.
abbrev pub quad : ℕ → ℕ → ℕ → ℕ → Ip
quad a b c d = v4 (((a * 256 + b) * 256 + c) * 256 + d)

abbrev pub private_ranges : List Network
private_ranges =
    record { base = quad 10 0 0 0; ones = 8 }
    ∷ record { base = quad 172 16 0 0; ones = 12 }
    ∷ record { base = quad 192 168 0 0; ones = 16 }
    ∷ record { base = quad 127 0 0 0; ones = 8 }
    ∷ record { base = quad 169 254 0 0; ones = 16 }
    ∷ record { base = v6 1; ones = 128 }
    ∷ record { base = v6 (252 * 2 ^ 120); ones = 7 }
    ∷ []

unfoldable pub any_covers : List Network → Ip → Bool
any_covers [] a = false
any_covers (n ∷ ns) a = covers n a || any_covers ns a

unfoldable pub is_private : Ip → Bool
unfolding any_covers
is_private a = any_covers private_ranges a

module _ {F : Type 0} (zero_float : F) where
  abbrev pub bare : Text → GeoData F
  bare code = record {
    country_code = code;
    city = [];
    lat = zero_float;
    lon = zero_float;
    asn = 0;
    org_name = [];
  }

  unfoldable pub with_city : Option (CityAnswer F) → GeoData F → GeoData F
  with_city none d = d
  with_city (some c) d = record d {
    country_code = if is_empty c.iso_code then codes "unknown" else c.iso_code;
    city = c.english_name;
    lat = c.latitude;
    lon = c.longitude;
  }

  -- The number is converted to 32 bits.
  unfoldable pub with_asn : Option AsnAnswer → GeoData F → GeoData F
  with_asn none d = d
  with_asn (some a) d = record d { asn = a.number % 2 ^ 32; org_name = a.organization }

  unfoldable pub lookup : GeoStore F → Option Ip → GeoData F
  unfolding with_city with_asn is_private
  lookup g none = bare (codes "private")
  lookup g (some a) =
      if is_private a
      then bare (codes "private")
      else with_asn (g.asn_db a) (with_city (g.city_db a) (bare []))
