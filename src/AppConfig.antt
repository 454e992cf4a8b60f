-- ===== src/AppConfig.antt =====
-- model/app_config.go: the configuration of the application, and pkg/logging/logging.go: its levels.
use discovery_client.Prelude.{
  ℕ, String, Bool, Option, none, some, ◌||◌, ◌&&◌, ◌==◌, not, String_eq, if◌then◌else◌, List, [],
  ◌∷◌, ◌≡◌, ◌*◌, arith,
}
use discovery_client.Prelude.Int.{ℤ, pos, negsuc, ltb_ℤ, ℤ_eq}
use discovery_client.Collections.{include}

-- `Config` of the package logging.
pub record Config : Type 0 where
  pub filename : String
  pub max_age : ℤ
  pub max_size : ℤ
  pub report_caller : Bool
  pub level : String

unfoldable pub valid_levels : List String
valid_levels = "debug" ∷ "info" ∷ "warn" ∷ "warning" ∷ "error" ∷ "fatal" ∷ []

-- The errors of `verifyConfigurationIsValid`, with that of `IsValid`.
pub data ConfigError : Type 0 where
  same_dirs secret_mandatory invalid_level : ConfigError

-- `IsValid` of the package logging.
unfoldable pub is_valid : Config → Option ConfigError
is_valid c = if not (include valid_levels c.level) then some invalid_level else none

pub record DebugInfo : Type 0 where
  pub endpoint : String
  pub enablepprof : Bool
  pub metrics : Bool

-- The port is a uint32.
pub record AutoDetectEntries : Type 0 where
  pub enabled : Bool
  pub filename : String
  pub discovery_service_port : ℕ

-- `AppConfig`; the interval is counted in nanoseconds.
pub record AppConfig : Type 0 where
  pub cores : List ℤ
  pub logging : Config
  pub client_config_dir : String
  pub debug : DebugInfo
  pub reconnect_interval : ℤ
  pub internal_dir : String
  pub log_page_pagination_enabled : Bool
  pub max_io_queues : ℤ
  pub auto_detect_entries : AutoDetectEntries
  pub nvme_host_id_path : String
  pub kato : ℤ
  pub aux_suffix : String
  pub dh_chap_secret : String
  pub dh_chap_ctrl_secret : String
  pub ctrl_loss_tmo : ℤ

abbrev set_interval : AppConfig → AppConfig
set_interval cfg =
    if cfg.reconnect_interval == pos 0
    then record cfg { reconnect_interval = pos (5 * 1000000000) }
    else cfg

abbrev set_tmo : AppConfig → AppConfig
set_tmo cfg =
    if cfg.ctrl_loss_tmo == pos 0 || ltb_ℤ cfg.ctrl_loss_tmo (negsuc 0)
    then record cfg { ctrl_loss_tmo = pos 600 }
    else cfg

-- `verifyConfigurationIsValid`: the configuration, which it completes, and the error.
unfoldable pub verify_configuration_is_valid : AppConfig → AppConfig × Option ConfigError
verify_configuration_is_valid cfg =
    if cfg.client_config_dir == cfg.internal_dir
    then (cfg, some same_dirs)
    else let with_interval = set_interval cfg in
      if cfg.dh_chap_secret == "" && not (cfg.dh_chap_ctrl_secret == "")
      then (with_interval, some secret_mandatory)
      else (set_tmo with_interval, is_valid cfg.logging)

-- A second check of a completed configuration neither changes it nor says anything else.
verify_configuration_is_valid_twice :
    (cfg : AppConfig)
    → verify_configuration_is_valid (verify_configuration_is_valid cfg).0
      ≡ verify_configuration_is_valid cfg
unfolding verify_configuration_is_valid
verify_configuration_is_valid_twice cfg = ground arith
