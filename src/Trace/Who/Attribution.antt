-- ===== src/Trace/Who/Attribution.antt =====
-- What runWho of cmd/trace/main.go renders, against the whole of the stored logs.
use network_enricher.Prelude.{
  ◌-◌, ◌≤◌, ◌≡◌, refl, ap, ◌∙◌, inl, inr, Bool-cases, true, not, ◌&&◌, arith, some, List, [], ◌∷◌,
  map, All, Text, is_empty, Time, Duration,
}
use network_enricher.Prelude.Sets.{In, text_has_eq, All-mem}
use network_enricher.Trace.Join.{DhcpRow, RadiusRow}
use network_enricher.Trace.Filter.{Filter}
use network_enricher.Trace.Query.{build_dns_query, build_dhcp_query, build_radius_query}
use network_enricher.Trace.Who.{
  Resolution, WhoRow, ClickHouse, keys_of, unjoined, client_set, mac_set, join_device, join_user,
  is_nil, join_users, join_devices, run_who,
}
use network_enricher.Trace.Who.Windows.{IsWindow, dhcp_window, radius_window}
use network_enricher.Trace.Who.Keys.{
  In-keys_of, In-client_set, In-mac_set, not_nil, map_agree, map_same, map-map,
}

-- The device that held the client's address at the time of its last query, and the user behind
-- that device, by the whole logs.
unfoldable pub attributed :
    Duration → Duration → List DhcpRow → List RadiusRow → Resolution → WhoRow
attributed max_lease max_session dhcp_log radius_log r =
    join_user max_session radius_log (join_device max_lease dhcp_log (unjoined r))

-- The rows of a query that grouped the responses from `from` to `to`.
abbrev pub IsInside : Time → Time → Resolution → Type 0
IsInside from to r = (from ≤ r.last_seen) × (r.last_seen ≤ to)

-- ClickHouse holds two logs and answers every query on them in full: what the WHERE clauses ask.
pub record Serves (db : ClickHouse) (dhcp_log : List DhcpRow) (radius_log : List RadiusRow)
    : Type 0 where
  pub dhcp :
      (ips : List Text) (from to : Time)
      → (rows : List DhcpRow) × (db.dhcp (build_dhcp_query ips from to) ≡ some rows)
        × IsWindow DhcpRow (λ e. e.ip) (λ e. e.time) ips from to dhcp_log rows
  pub radius :
      (macs : List Text) (from to : Time)
      → (rows : List RadiusRow) × (db.radius (build_radius_query macs from to) ≡ some rows)
        × IsWindow RadiusRow (λ e. e.mac_token) (λ e. e.time) macs from to radius_log rows

module _ (max_lease max_session : Duration) (db : ClickHouse) (f : Filter) (dhcp_log : List DhcpRow)
    (radius_log : List RadiusRow) (h : Serves db dhcp_log radius_log) where
  join_user-window :
      (rad : List RadiusRow) (ws : List WhoRow)
      → IsWindow RadiusRow
          (λ e. e.mac_token)
          (λ e. e.time)
          (keys_of (mac_set ws))
          (f.from - max_session)
          f.to
          radius_log
          rad
      → (w : WhoRow) → IsInside f.from f.to w.resolution
      → In w ws
      → join_user max_session rad w ≡ join_user max_session radius_log w
  unfolding join_user
  join_user-window rad ws win w l i =
      elim (Bool-cases (not (is_empty w.mac_token) && not w.mac_ambiguous)) [
        | inl c ↦
            (let k =
                radius_window (keys_of (mac_set ws)) f.from f.to w.resolution.last_seen max_session
                  w.mac_token
                  (In-keys_of w.mac_token (mac_set ws) (In-mac_set w ws (ground (arith, c)) i)) l.0
                  l.1 radius_log rad win in
              rw (c, k) refl)
        | inr c ↦ rw c refl
      ]

  no_device :
      (ws : List WhoRow) (w : WhoRow)
      → is_nil (mac_set ws) ≡ true
      → In w ws
      → join_user max_session radius_log w ≡ w
  unfolding join_user
  no_device ws w n i = elim (Bool-cases (is_empty w.mac_token)) [
    | inl e ↦ rw e refl
    | inr e ↦
        absurd
          (let k = not_nil w.mac_token (mac_set ws) (In-mac_set w ws e i) in ground (arith, k, n))
  ]

  join_users_lem :
      (ws : List WhoRow)
      → ((w : WhoRow) → In w ws → IsInside f.from f.to w.resolution)
      → join_users max_lease max_session db f ws ≡ some (map (join_user max_session radius_log) ws)
  unfolding join_users
  join_users_lem ws l = elim (Bool-cases (is_nil (mac_set ws))) [
    | inl n ↦
        rw (n, map_same (join_user max_session radius_log) ws (λ w i. no_device ws w n i)) refl
    | inr n ↦
        (let (rad, e, win) = h.radius (keys_of (mac_set ws)) (f.from - max_session) f.to in
          rw
            (
              n,
              e,
              map_agree (join_user max_session rad) (join_user max_session radius_log) ws
                  (λ w i. join_user-window rad ws win w (l w i) i),
            )
            refl)
  ]

  join_device-window :
      (rows : List DhcpRow) (rs : List Resolution)
      → IsWindow DhcpRow
          (λ e. e.ip)
          (λ e. e.time)
          (keys_of (client_set rs))
          (f.from - max_lease)
          f.to
          dhcp_log
          rows
      → (r : Resolution) → IsInside f.from f.to r
      → In r rs
      → join_device max_lease rows (unjoined r) ≡ join_device max_lease dhcp_log (unjoined r)
  unfolding join_device unjoined
  join_device-window rows rs win r l i =
      let k =
        dhcp_window (keys_of (client_set rs)) f.from f.to r.last_seen max_lease r.client_ip
          (In-keys_of r.client_ip (client_set rs) (In-client_set r rs i)) l.0 l.1 dhcp_log rows
          win in
      rw k refl

  map-IsInside :
      (g : Resolution → WhoRow) (rs : List Resolution)
      → ((r : Resolution) → (g r).resolution ≡ r)
      → All (IsInside f.from f.to) rs
      → (w : WhoRow) → In w (map g rs)
      → IsInside f.from f.to w.resolution
  map-IsInside g [] e l w i = absurd i
  map-IsInside g (r ∷ rs) e l w (inl p) = rw (p, e r) l.0
  map-IsInside g (r ∷ rs) e l w (inr i) = map-IsInside g rs e l.1 w i

  device_of : Resolution → WhoRow
  unfolding join_device unjoined
  device_of r = join_device max_lease dhcp_log (unjoined r)

  devices_lem :
      (rs : List Resolution)
      → All (IsInside f.from f.to) rs
      → (rows : List DhcpRow)
      → IsWindow DhcpRow
          (λ e. e.ip)
          (λ e. e.time)
          (keys_of (client_set rs))
          (f.from - max_lease)
          f.to
          dhcp_log
          rows
      → map (join_device max_lease rows) (map unjoined rs) ≡ map device_of rs
  unfolding device_of
  devices_lem rs l rows win =
      map-map (join_device max_lease rows) unjoined rs
      ∙ map_agree (λ x. join_device max_lease rows (unjoined x)) device_of rs
          (λ x i. join_device-window rows rs win x (All-mem (IsInside f.from f.to) rs l x i) i)

  users_lem :
      (rs : List Resolution)
      → All (IsInside f.from f.to) rs
      → join_users max_lease max_session db f (map device_of rs)
        ≡ some (map (attributed max_lease max_session dhcp_log radius_log) rs)
  unfolding attributed device_of
  users_lem rs l =
      join_users_lem (map device_of rs) (map-IsInside device_of rs (λ r. refl) l)
      ∙ ap some (map-map (join_user max_session radius_log) device_of rs)

  join_devices_lem :
      (rs : List Resolution)
      → All (IsInside f.from f.to) rs
      → join_devices max_lease max_session db f rs
        ≡ some (map (attributed max_lease max_session dhcp_log radius_log) rs)
  unfolding join_devices
  join_devices_lem [] l = refl
  join_devices_lem (r ∷ rs) l =
      let (rows, e, win) = h.dhcp (keys_of (client_set (r ∷ rs))) (f.from - max_lease) f.to in
      let n = not_nil r.client_ip (client_set (r ∷ rs)) (In-client_set r (r ∷ rs) (inl refl)) in
      let joined : join_devices max_lease max_session db f (r ∷ rs)
          ≡ join_users max_lease max_session db f
              (map (join_device max_lease rows) (map unjoined (r ∷ rs))) =
        rw (n, e) refl in
      joined
      ∙ ap (join_users max_lease max_session db f) (devices_lem (r ∷ rs) l rows win)
      ∙ users_lem (r ∷ rs) l

  -- ClickHouse answers the first query with rows of the filter's interval, and the other two with
  -- all rows that they ask for. Then runWho succeeds, and it renders each row with the device and
  -- the user that the whole of the stored logs give for it: the rows that its two windows leave
  -- out change no result.
  pub run_who_attributes :
      (rs : List Resolution)
      → db.dns (build_dns_query f) ≡ some rs
      → All (IsInside f.from f.to) rs
      → run_who max_lease max_session db f
        ≡ some (map (attributed max_lease max_session dhcp_log radius_log) rs)
  unfolding run_who
  run_who_attributes rs e l = rw (e, join_devices_lem rs l) refl
