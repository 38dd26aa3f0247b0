-- ===== src/Config.antt =====
-- internal/config/config.go: the configuration. An integer or a duration may be negative there; the
-- one number that is a float is of the type `F`, whose comparisons `Validate` takes. Reading the
-- file is viper's.
pub mod Validate
pub mod Setup
pub mod Sound
pub mod Scan
mod Tests
use sipreaper.Common.{Bool, List, Text}
use sipreaper.Common.Int.{ℤ}

pub record LogIngestConfig : Type 0 where
  pub enabled : Bool
  pub path : Text
  pub format : Text
  pub custom_patterns : List Text

pub record SyslogIngestConfig : Type 0 where
  pub enabled : Bool
  pub listen : Text

pub record PcapIngestConfig : Type 0 where
  pub enabled : Bool
  pub interface : Text
  pub ports : List ℤ
  pub bpf_filter : Text
  pub reject_responses : List Text

pub record IngestConfig : Type 0 where
  pub log : LogIngestConfig
  pub syslog : SyslogIngestConfig
  pub pcap : PcapIngestConfig

pub record BruteForceConfig : Type 0 where
  pub enabled : Bool
  pub max_attempts : ℤ
  pub window : ℤ

pub record InviteFloodConfig : Type 0 where
  pub enabled : Bool
  pub max_requests : ℤ
  pub window : ℤ

pub record ScannerConfig : Type 0 where
  pub enabled : Bool
  pub max_probes : ℤ
  pub window : ℤ
  pub known_agents : List Text

pub record InvalidRequestConfig : Type 0 where
  pub enabled : Bool
  pub max_invalid : ℤ
  pub window : ℤ

pub record GeoAnomalyConfig : Type 0 where
  pub enabled : Bool
  pub allowed_countries : List Text
  pub geoip_db : Text

pub record UserEnumConfig : Type 0 where
  pub enabled : Bool
  pub max_extensions : ℤ
  pub window : ℤ

pub record ServerRejectedConfig : Type 0 where
  pub enabled : Bool
  pub max_hits : ℤ
  pub window : ℤ

pub record HoneypotConfig : Type 0 where
  pub enabled : Bool
  pub extensions : List Text

pub record FailedCallRatioConfig (F : Type 0) : Type 0 where
  pub enabled : Bool
  pub min_calls : ℤ
  pub min_ratio : F
  pub window : ℤ

pub record DidScannerConfig : Type 0 where
  pub enabled : Bool
  pub max_dids : ℤ
  pub window : ℤ

pub record DetectorsConfig (F : Type 0) : Type 0 where
  pub brute_force : BruteForceConfig
  pub invite_flood : InviteFloodConfig
  pub scanner : ScannerConfig
  pub invalid_request : InvalidRequestConfig
  pub geo_anomaly : GeoAnomalyConfig
  pub user_enum : UserEnumConfig
  pub server_rejected : ServerRejectedConfig
  pub honeypot : HoneypotConfig
  pub failed_call_ratio : FailedCallRatioConfig F
  pub did_scanner : DidScannerConfig

pub record StaticWhitelistEntry : Type 0 where
  pub ip : Text
  pub comment : Text

pub record WhitelistConfig : Type 0 where
  pub static : List StaticWhitelistEntry

pub record BansConfig : Type 0 where
  pub durations : List ℤ
  pub cooldown : ℤ
  pub check_interval : ℤ

pub record PreFilterConfig : Type 0 where
  pub enabled : Bool
  pub rate : ℤ
  pub burst : ℤ
  pub ports : List ℤ

pub record XdpConfig : Type 0 where
  pub enabled : Bool
  pub interface : Text
  pub mode : Text
  pub standalone : Bool

pub record EnforcerConfig : Type 0 where
  pub type : Text
  pub chain : Text
  pub set_name : Text
  pub dry_run : Bool
  pub prefilter : PreFilterConfig
  pub xdp : XdpConfig

pub record SyslogNotifierConfig : Type 0 where
  pub enabled : Bool

pub record EmailNotifierConfig : Type 0 where
  pub enabled : Bool
  pub smtp_host : Text
  pub smtp_port : ℤ
  pub tls : Bool
  pub from : Text
  pub to : List Text
  pub username : Text
  pub password_env : Text
  pub min_severity : Text

pub record NotifiersConfig : Type 0 where
  pub syslog : SyslogNotifierConfig
  pub email : EmailNotifierConfig

pub record ApiConfig : Type 0 where
  pub listen : Text
  pub token_env : Text

pub record StorageConfig : Type 0 where
  pub path : Text
  pub event_retention : ℤ

pub record LoggingConfig : Type 0 where
  pub level : Text
  pub output : Text
  pub file : Text

pub record Config (F : Type 0) : Type 0 where
  pub ingest : IngestConfig
  pub detectors : DetectorsConfig F
  pub whitelist : WhitelistConfig
  pub bans : BansConfig
  pub enforcer : EnforcerConfig
  pub notifiers : NotifiersConfig
  pub api : ApiConfig
  pub storage : StorageConfig
  pub logging : LoggingConfig
