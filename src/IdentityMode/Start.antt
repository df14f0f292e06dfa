-- ===== src/IdentityMode/Start.antt =====
-- The identity section of main in main.go: which tokenizer the identity store gets, if any. The
-- environment, NewTokenizer's reading of the key file and time.LoadLocation are arguments.
use network_enricher.Prelude.{
  ◌≡◌, ◌⊎◌, refl, inl, inr, Bool, Bool-cases, true, false, not, ◌||◌, Option, none, some, Text,
  codes, text_eq, is_empty, if◌then◌else◌,
}
use network_enricher.IdentityMode.{
  Mode, identity_off, identity_hashed, identity_passthrough, decide_identity_mode,
}
use network_enricher.Pseudonym.{Tokenizer, upstream_tokenizer, keyed_tokenizer}

-- `load_key` gives the keyed digest, and `none` for an error.
pub record Environment (Z : Type 0) : Type 0 where
  pub key_file : Text
  pub nps_dir : Text
  pub dhcp_dir : Text
  pub upstream_anonymized : Text
  pub load_key : Text → Option (Text → Text)
  pub load_location : Text → Option Z
  pub nps_log_tz : Text
  pub dhcp_log_tz : Text
  pub log_tz : Text

-- The process exits, runs without the identity store, or with it.
pub data Start (Z : Type 0) : Type 0 where
  exits : Start Z
  disabled : Start Z
  enabled : Tokenizer → Z → Z → Start Z

module _ {Z : Type 0} (env : Environment Z) where
  -- `getenv`
  abbrev pub or_default : Text → Text → Text
  or_default v fallback = if is_empty v then fallback else v

  unfoldable pub log_location : Text → Option Z
  log_location zone = env.load_location (or_default zone (or_default env.log_tz (codes "UTC")))

  unfoldable pub located : Tokenizer → Option Z → Option Z → Start Z
  located tok none dhcp = exits
  located tok (some a) none = exits
  located tok (some a) (some b) = enabled tok a b

  unfoldable pub with_tokenizer : Option Tokenizer → Start Z
  unfolding located log_location
  with_tokenizer none = disabled
  with_tokenizer (some tok) =
      located tok (log_location env.nps_log_tz) (log_location env.dhcp_log_tz)

  abbrev pub keyed : Option (Text → Text) → Option Tokenizer
  keyed none = none
  keyed (some digest) = some (keyed_tokenizer digest)

  unfoldable pub start_mode : Mode → Start Z
  unfolding with_tokenizer
  start_mode identity_off = disabled
  start_mode identity_hashed = with_tokenizer (keyed (env.load_key env.key_file))
  start_mode identity_passthrough = with_tokenizer (some upstream_tokenizer)

  abbrev pub is_anonymized : Bool
  is_anonymized = text_eq env.upstream_anonymized (codes "true")

  abbrev pub has_key : Bool
  has_key = not (is_empty env.key_file)

  abbrev pub has_dir : Bool
  has_dir = not (is_empty env.nps_dir) || not (is_empty env.dhcp_dir)

  unfoldable pub start_identity : Start Z
  unfolding start_mode decide_identity_mode
  start_identity =
      let (mode, fatal) = decide_identity_mode is_anonymized has_key has_dir in
      if fatal then exits else start_mode mode

  -- Why a tokenizer stands.
  abbrev pub IsConfigured : Tokenizer → Type 0
  IsConfigured tok =
      ((is_anonymized ≡ true) × (has_key ≡ false) × (tok ≡ upstream_tokenizer))
      ⊎ ((is_anonymized ≡ false)
          × (has_key ≡ true)
          × ((digest : Text → Text) × (env.load_key env.key_file ≡ some digest)
              × (tok ≡ keyed_tokenizer digest)))

  -- The three results and their reasons. Without a log directory nothing is started. With one, the
  -- flag and a key together end the process; neither of them, or a key that cannot be loaded, leave
  -- identities off; and a tokenizer is wired that is the upstream one only under the flag without a
  -- key, and one keyed by the loaded key otherwise. A tokenizer without the two time zones ends the
  -- process.
  pub data IsStart : Start Z → Type 0 where
    no_directory : has_dir ≡ false → IsStart disabled
    contradictory : has_dir ≡ true → is_anonymized ≡ true → has_key ≡ true → IsStart exits
    no_tokenizer :
        has_dir ≡ true
        → is_anonymized ≡ false
        → (has_key ≡ false) ⊎ (env.load_key env.key_file ≡ none)
        → IsStart disabled
    no_zone :
        (tok : Tokenizer)
        → has_dir ≡ true
        → IsConfigured tok
        → (log_location env.nps_log_tz ≡ none) ⊎ (log_location env.dhcp_log_tz ≡ none)
        → IsStart exits
    wired :
        (tok : Tokenizer) (a b : Z)
        → has_dir ≡ true
        → IsConfigured tok
        → log_location env.nps_log_tz ≡ some a
        → log_location env.dhcp_log_tz ≡ some b
        → IsStart (enabled tok a b)

  located-IsStart :
      (tok : Tokenizer) → has_dir ≡ true → IsConfigured tok → IsStart (with_tokenizer (some tok))
  unfolding with_tokenizer located
  located-IsStart tok d t =
      go (log_location env.nps_log_tz) (log_location env.dhcp_log_tz) refl refl
    where
      go :
          (o p : Option Z)
          → log_location env.nps_log_tz ≡ o
          → log_location env.dhcp_log_tz ≡ p
          → IsStart (located tok o p)
      go none p e f = no_zone tok d t (inl e)
      go (some a) none e f = no_zone tok d t (inr f)
      go (some a) (some b) e f = wired tok a b d t e f

  keyed-IsStart :
      has_dir ≡ true → is_anonymized ≡ false → has_key ≡ true → IsStart (start_mode identity_hashed)
  unfolding start_mode with_tokenizer
  keyed-IsStart d u k = go (env.load_key env.key_file) refl
    where
      go :
          (o : Option (Text → Text))
          → env.load_key env.key_file ≡ o
          → IsStart (with_tokenizer (keyed o))
      go none e = no_tokenizer d u (inr e)
      go (some digest) e =
          located-IsStart (keyed_tokenizer digest) d (inr (u, k, (digest, e, refl)))

  -- Identities fail closed: each result has one of its reasons.
  pub start_identity-IsStart : IsStart start_identity
  unfolding start_identity decide_identity_mode start_mode
  start_identity-IsStart = elim (Bool-cases has_dir) [
    | inr d ↦ rw d (no_directory d)
    | inl d ↦ elim (Bool-cases is_anonymized) [
      | inl u ↦ elim (Bool-cases has_key) [
        | inl k ↦ rw (d, u, k) (contradictory d u k)
        | inr k ↦ rw (d, u, k) (located-IsStart upstream_tokenizer d (inl (u, k, refl)))
      ]
      | inr u ↦ elim (Bool-cases has_key) [
        | inl k ↦ rw (d, u, k) (keyed-IsStart d u k)
        | inr k ↦ rw (d, u, k) (no_tokenizer d u (inl k))
      ]
    ]
  ]
