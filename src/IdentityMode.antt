-- ===== src/IdentityMode.antt =====
-- identity_config.go: how the identity store is wired.
pub mod Closed
pub mod Start
use network_enricher.Prelude.{Bool, true, false, not, ◌&&◌, if◌then◌else◌}

pub data Mode : Type 0 where
  identity_off identity_hashed identity_passthrough : Mode

-- The mode, and whether the configuration is contradictory.
unfoldable pub decide_identity_mode : Bool → Bool → Bool → Mode × Bool
decide_identity_mode upstream_anon key_file_set any_log_dir =
    if not any_log_dir
    then (identity_off, false)
    else (if upstream_anon && key_file_set
        then (identity_off, true)
        else (if upstream_anon
            then (identity_passthrough, false)
            else (if key_file_set then (identity_hashed, false) else (identity_off, false))))
