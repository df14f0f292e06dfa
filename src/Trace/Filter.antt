-- ===== src/Trace/Filter.antt =====
-- The flags of cmd/trace/main.go, validated (buildFilter). `net.ParseIP` tells here only whether a
-- text is an address, and `time.Parse` takes the layout first; both are arguments.
use network_enricher.Prelude.{
  ℕ, ◌+◌, ◌%◌, ◌^◌, Bool, true, false, not, ◌&&◌, ◌||◌, Option, none, some, List, [], ◌∷◌, Text,
  codes, text_eq, is_empty, trim_space, trim_suffix, to_lower, Time, before, ◌==◌, if◌then◌else◌,
}
use network_enricher.Prelude.Int.{ℤ, is_positive, add_half, sub_half}

pub data FilterError : Type 0 where
  flows_flag_in_who_mode invalid_qname invalid_dst_ip one_who_destination : FilterError
  unknown_service one_destination two_windows bad_time to_before_from no_window : FilterError
  invalid_src_ip limit_not_positive : FilterError

pub data Checked (A : Type 0) : Type 0 where
  pass : A → Checked A
  refuse : FilterError → Checked A

infixl 5 ◌>>=◌
abbrev pub ◌>>=◌ : {A B : Type 0} → Checked A → (A → Checked B) → Checked B
refuse e >>= next = refuse e
pass a >>= next = next a

pub record Flags : Type 0 where
  pub who : Bool
  pub qname : Text
  pub service : Text
  pub dst_asn : ℕ
  pub dst_org : Text
  pub dst_ip : Text
  pub around : Text
  pub window : ℤ
  pub from : Text
  pub to : Text
  pub src_ip : Text
  pub limit : ℤ

pub record Destination : Type 0 where
  pub dst_asns : List ℕ
  pub dst_org : Text
  pub dst_ip : Text
  pub qname : Text

pub record Filter : Type 0 where
  pub from : Time
  pub to : Time
  pub destination : Destination
  pub src_ip : Text
  pub limit : ℤ
  pub who : Bool

abbrev pub known_services : List (Text × List ℕ)
known_services =
    (codes "facebook", 32934 ∷ [])
    ∷ (codes "meta", 32934 ∷ [])
    ∷ (codes "instagram", 32934 ∷ [])
    ∷ (codes "whatsapp", 32934 ∷ [])
    ∷ (codes "google", 15169 ∷ [])
    ∷ (codes "youtube", 15169 ∷ [])
    ∷ (codes "cloudflare", 13335 ∷ [])
    ∷ []

unfoldable pub asns_of : Text → List (Text × List ℕ) → Checked (List ℕ)
asns_of name [] = refuse unknown_service
asns_of name ((k, v) ∷ rest) = if text_eq name k then pass v else asns_of name rest

unfoldable pub resolve_service : Text → Checked (List ℕ)
unfolding asns_of trim_space
resolve_service name = asns_of (to_lower (trim_space name)) known_services

unfoldable pub normalize_qname : Text → Text
unfolding trim_suffix trim_space
normalize_qname s = trim_suffix (to_lower (trim_space s)) (codes ".")

-- One for a flag that is given.
abbrev pub given : Bool → ℕ
given true = 1
given false = 0

module _ (is_ip : Text → Bool) (parse_layout : Text → Text → Option Time) where
  -- The first layout that parses.
  unfoldable pub first_layout : List Text → Text → Checked Time
  first_layout [] s = refuse bad_time
  first_layout (l ∷ ls) s = elim (parse_layout l s) [ none ↦ first_layout ls s | some t ↦ pass t ]

  unfoldable pub parse_time : Text → Checked Time
  unfolding first_layout trim_space
  parse_time s =
      first_layout
        (codes "2006-01-02 15:04:05" ∷ codes "2006-01-02T15:04:05Z07:00" ∷ codes "2006-01-02" ∷ [])
        (trim_space s)

  unfoldable pub checked_qname : Text → Checked Text
  unfolding normalize_qname
  checked_qname q =
      if is_empty q
      then pass []
      else if is_empty (normalize_qname q)
      then refuse invalid_qname
      else pass (normalize_qname q)

  unfoldable pub checked_ip : FilterError → Text → Checked Text
  checked_ip e ip = if is_empty ip || is_ip ip then pass ip else refuse e

  unfoldable pub who_destination : Flags → Checked Destination
  unfolding checked_qname checked_ip
  who_destination g = do
    q ← checked_qname g.qname
    ip ← checked_ip invalid_dst_ip g.dst_ip
    (if given (not (is_empty g.qname)) + given (not (is_empty g.dst_ip)) == 1
        then pass (record { dst_asns = []; dst_org = []; dst_ip = ip; qname = q })
        else refuse one_who_destination)

  -- The numbers of the service; the flag for a number comes second and wins.
  unfoldable pub checked_asns : Flags → Checked (List ℕ)
  unfolding resolve_service
  checked_asns g = do
    asns ← (if is_empty g.service then pass [] else resolve_service g.service)
    pass (if g.dst_asn == 0 then asns else g.dst_asn % 2 ^ 32 ∷ [])

  unfoldable pub flows_destination : Flags → Checked Destination
  unfolding checked_asns checked_ip
  flows_destination g = do
    asns ← checked_asns g
    ip ← checked_ip invalid_dst_ip g.dst_ip
    (if given (not (is_empty g.service))
            + given (not (g.dst_asn == 0))
            + given (not (is_empty g.dst_org))
            + given (not (is_empty g.dst_ip))
          == 1
        then pass (record { dst_asns = asns; dst_org = g.dst_org; dst_ip = ip; qname = [] })
        else refuse one_destination)

  unfoldable pub destination : Flags → Checked Destination
  unfolding who_destination flows_destination
  destination g =
      if g.who
      then (if not (is_empty g.service)
            || not (g.dst_asn == 0)
            || not (is_empty g.dst_org)
            || not (is_empty g.src_ip)
          then refuse flows_flag_in_who_mode
          else who_destination g)
      else flows_destination g

  -- The two ends of the time window.
  unfoldable pub time_window : Flags → Checked (Time × Time)
  unfolding parse_time
  time_window g =
      if not (is_empty g.around)
      then (if not (is_empty g.from) || not (is_empty g.to) then refuse two_windows else (do
        center ← parse_time g.around
        pass (sub_half center g.window, add_half center g.window)))
      else if not (is_empty g.from) && not (is_empty g.to)
      then (do
        a ← parse_time g.from
        b ← parse_time g.to
        if before b a then refuse to_before_from else pass (a, b))
      else refuse no_window

  unfoldable pub build_filter : Flags → Checked Filter
  unfolding destination time_window checked_ip
  build_filter g = do
    d ← destination g
    w ← time_window g
    src ← checked_ip invalid_src_ip g.src_ip
    (if is_positive g.limit
        then pass (record {
          from = w.0;
          to = w.1;
          destination = d;
          src_ip = src;
          limit = g.limit;
          who = g.who;
        })
        else refuse limit_not_positive)
