-- ===== src/IdentityMode/Closed.antt =====
-- identity_config.go stores no raw name but on the explicit flag.
use network_enricher.Prelude.{◌≡◌, refl, Bool, true, false, ◌&&◌, not}
use network_enricher.IdentityMode.{
  Mode, identity_off, identity_hashed, identity_passthrough, decide_identity_mode,
}

abbrev is_passthrough : Mode → Bool
is_passthrough identity_off = false
is_passthrough identity_hashed = false
is_passthrough identity_passthrough = true

abbrev is_hashed : Mode → Bool
is_hashed identity_off = false
is_hashed identity_hashed = true
is_hashed identity_passthrough = false

-- Names are stored as they come exactly if there is a log directory, the flag and no key; they are
-- hashed exactly if there is a log directory, a key and no flag; the configuration is refused
-- exactly if there is a log directory and both.
decide_identity_mode_table :
    (anon key dir : Bool)
    → (is_passthrough (decide_identity_mode anon key dir).0 ≡ (dir && anon && not key))
      × (is_hashed (decide_identity_mode anon key dir).0 ≡ (dir && key && not anon))
      × ((decide_identity_mode anon key dir).1 ≡ (dir && anon && key))
unfolding decide_identity_mode
decide_identity_mode_table true true true = (refl, refl, refl)
decide_identity_mode_table true true false = (refl, refl, refl)
decide_identity_mode_table true false true = (refl, refl, refl)
decide_identity_mode_table true false false = (refl, refl, refl)
decide_identity_mode_table false true true = (refl, refl, refl)
decide_identity_mode_table false true false = (refl, refl, refl)
decide_identity_mode_table false false true = (refl, refl, refl)
decide_identity_mode_table false false false = (refl, refl, refl)
