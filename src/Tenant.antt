-- ===== src/Tenant.antt =====
-- tenant.go. `net.ParseCIDR` has read the subnets, `none` for a bad one. The trie of cidranger is an
-- argument: what `ContainingNetworks` answers for an address, `none` for an error.
pub mod Specific
use network_enricher.Prelude.{
  ℕ, Bool, Option, none, some, List, [], ◌∷◌, ◌++◌, Text, ltb, if◌then◌else◌,
}
use network_enricher.Addresses.{Ip, Network}

pub record TenantEntry : Type 0 where
  pub network : Network
  pub id : ℕ
  pub name : Text

pub record TenantConfig : Type 0 where
  pub id : ℕ
  pub name : Text
  pub subnets : List (Option Network)

unfoldable pub entries_of : ℕ → Text → List (Option Network) → List TenantEntry
entries_of id name [] = []
entries_of id name (none ∷ ns) = entries_of id name ns
entries_of id name (some n ∷ ns) =
    record { network = n; id = id; name = name } ∷ entries_of id name ns

-- The entries that `load` inserts, in order.
unfoldable pub load : List TenantConfig → List TenantEntry
unfolding entries_of
load [] = []
load (t ∷ ts) = entries_of t.id t.name t.subnets ++ load ts

-- The entry with the longer prefix; the first one on a tie.
unfoldable pub better : TenantEntry → TenantEntry → TenantEntry
better best te = if ltb best.network.ones te.network.ones then te else best

-- The loop over `entries[1:]`.
unfoldable pub best_of : TenantEntry → List TenantEntry → TenantEntry
unfolding better
best_of best [] = best
best_of best (te ∷ es) = best_of (better best te) es

unfoldable pub answer_of : Option (List TenantEntry) → ℕ × Text
unfolding best_of
answer_of none = (0, [])
answer_of (some []) = (0, [])
answer_of (some (e ∷ es)) = ((best_of e es).id, (best_of e es).name)

unfoldable pub lookup : (Ip → Option (List TenantEntry)) → Option Ip → ℕ × Text
unfolding answer_of
lookup containing none = (0, [])
lookup containing (some a) = answer_of (containing a)
