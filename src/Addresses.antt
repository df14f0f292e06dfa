-- ===== src/Addresses.antt =====
-- Go's `net.IP` and `net.IPNet`: an address of either family is the number that its bytes spell,
-- and a mapped IPv4 address counts as IPv4, as `IPNet.Contains` has it.
use network_enricher.Prelude.{ℕ, ◌-◌, ◌/◌, ◌^◌, Bool, false, ◌==◌}

pub data Ip : Type 0 where
  v4 v6 : ℕ → Ip

pub record Network : Type 0 where
  pub base : Ip
  -- the ones of the mask
  pub ones : ℕ

-- `IPNet.Contains`
unfoldable pub covers : Network → Ip → Bool
covers n a = elim (n.base) [
  | v4 b ↦ elim a [ v4 x ↦ x / 2 ^ (32 - n.ones) == b / 2 ^ (32 - n.ones) | v6 x ↦ false ]
  | v6 b ↦ elim a [ v6 x ↦ x / 2 ^ (128 - n.ones) == b / 2 ^ (128 - n.ones) | v4 x ↦ false ]
]
