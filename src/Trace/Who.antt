-- ===== src/Trace/Who.antt =====
-- runWho of cmd/trace/main.go: which device and user resolved a name, by three queries. ClickHouse
-- is an argument: the rows that it answers, `none` for an error.
pub mod Windows
pub mod Keys
pub mod Attribution
use network_enricher.Prelude.{
  ℕ, ◌-◌, Bool, true, false, not, ◌&&◌, Option, none, some, List, [], ◌∷◌, map, Text, codes,
  text_lt, is_empty, Time, Duration, if◌then◌else◌,
}
use network_enricher.Prelude.Sets.{text_has_eq, put}
use network_enricher.Trace.Join.{DhcpRow, RadiusRow, dhcp_binding_at, radius_binding_at}
use network_enricher.Trace.Filter.{Filter}
use network_enricher.Trace.Query.{Query, build_dns_query, build_dhcp_query, build_radius_query}

-- A row of the first query.
pub record Resolution : Type 0 where
  pub client_ip : Text
  pub qname : Text
  pub answer_ip : Text
  pub resolutions : ℕ
  pub first_seen : Time
  pub last_seen : Time

pub record WhoRow : Type 0 where
  pub resolution : Resolution
  pub mac_token : Text
  pub user_token : Text
  pub mac_ambiguous : Bool
  pub user_ambiguous : Bool

-- The answers of `conn.Query`, read to the end.
pub record ClickHouse : Type 0 where
  pub dns : Query → Option (List Resolution)
  pub dhcp : Query → Option (List DhcpRow)
  pub radius : Query → Option (List RadiusRow)

infixl 5 ◌>>=◌
abbrev pub ◌>>=◌ : {A B : Type 0} → Option A → (A → Option B) → Option B
none >>= f = none
some a >>= f = f a

-- `sort.Strings`; the keys of a set are distinct.
unfoldable pub insert_text : Text → List Text → List Text
insert_text k [] = k ∷ []
insert_text k (x ∷ xs) = let rest = insert_text k xs in if text_lt x k then x ∷ rest else k ∷ x ∷ xs

unfoldable pub keys_of : List Text → List Text
unfolding insert_text
keys_of [] = []
keys_of (k ∷ ks) = insert_text k (keys_of ks)

unfoldable pub unjoined : Resolution → WhoRow
unjoined r = record {
  resolution = r;
  mac_token = [];
  user_token = [];
  mac_ambiguous = false;
  user_ambiguous = false;
}

-- `ipSet`
unfoldable pub client_set : List Resolution → List Text
client_set [] = []
client_set (r ∷ rs) = put r.client_ip (client_set rs)

-- `macSet`
unfoldable pub mac_set : List WhoRow → List Text
mac_set [] = []
mac_set (w ∷ ws) = if not (is_empty w.mac_token) then put w.mac_token (mac_set ws) else mac_set ws

unfoldable pub join_device : Duration → List DhcpRow → WhoRow → WhoRow
join_device max_lease dhcp w =
    let (mac, ambiguous) =
      dhcp_binding_at dhcp w.resolution.client_ip w.resolution.last_seen max_lease in
    record w { mac_token = mac; mac_ambiguous = ambiguous }

unfoldable pub join_user : Duration → List RadiusRow → WhoRow → WhoRow
join_user max_session rad w =
    if not (is_empty w.mac_token) && not w.mac_ambiguous
    then (let (user, ambiguous) =
          radius_binding_at rad w.mac_token w.resolution.last_seen max_session in
        record w { user_token = user; user_ambiguous = ambiguous })
    else w

abbrev pub is_nil : List Text → Bool
is_nil [] = true
is_nil (x ∷ xs) = false

module _ (max_lease max_session : Duration) (db : ClickHouse) (f : Filter) where
  unfoldable pub join_users : List WhoRow → Option (List WhoRow)
  unfolding keys_of mac_set join_user
  join_users ws = if is_nil (mac_set ws) then some ws else (do
    rad ← db.radius (build_radius_query (keys_of (mac_set ws)) (f.from - max_session) f.to)
    some (map (join_user max_session rad) ws))

  unfoldable pub join_devices : List Resolution → Option (List WhoRow)
  unfolding join_users keys_of client_set join_device unjoined
  join_devices rs = if is_nil (client_set rs) then some (map unjoined rs) else (do
    dhcp ← db.dhcp (build_dhcp_query (keys_of (client_set rs)) (f.from - max_lease) f.to)
    join_users (map (join_device max_lease dhcp) (map unjoined rs)))

  -- The rows that are rendered.
  unfoldable pub run_who : Option (List WhoRow)
  unfolding join_devices
  run_who = do rs ← db.dns (build_dns_query f); join_devices rs

unfoldable pub token_status : Text → Bool → Text
token_status s ambiguous =
    if ambiguous
    then codes "ambiguous at that time"
    else if is_empty s
    then codes "unknown at that time"
    else s
