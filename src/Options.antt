-- ===== src/Options.antt =====
-- cmd/accelerboat/options: the configuration (types.go), its checks (parse.go) and the lookup of
-- registry mappings (options.go).
pub mod Parse
pub mod Checked
pub mod Mapped
pub mod Mappings
pub mod Tests
use accelerboat.Base.{Bool, true, false, Option, none, some, List, [], ◌∷◌}
use accelerboat.Base.Int.{ℤ}
use accelerboat.Base.Text.{Text}

pub record LogConfig : Type 0 where
  pub log_dir : Text
  pub log_max_size : ℤ
  pub log_max_backups : ℤ
  pub log_max_age : ℤ

pub record StorageConfig : Type 0 where
  pub download_path : Text
  pub torrent_path : Text
  pub transfer_path : Text
  pub small_file_path : Text
  pub oci_path : Text
  pub event_file : Text

pub record TorrentConfig : Type 0 where
  pub enable : Bool
  pub threshold : ℤ
  pub upload_limit : ℤ
  pub download_limit : ℤ
  pub announce : Text

pub record ProxyKeyCert : Type 0 where
  pub key : Text
  pub cert : Text

pub record RegistryAuth : Type 0 where
  pub username : Text
  pub password : Text

pub record RegistryMapping : Type 0 where
  pub enable : Bool
  pub proxy_host : Text
  pub proxy_cert : Text
  pub proxy_key : Text
  pub original_host : Text
  pub username : Text
  pub password : Text
  pub users : List RegistryAuth
  pub legal_users : List RegistryAuth

pub record ExternalConfig : Type 0 where
  pub http_proxy : Text
  pub http_proxy_url : Option Text
  pub built_in_certs : List (Text × ProxyKeyCert)
  pub registry_mappings : List RegistryMapping

-- With PreferConfig's label selectors.
pub record ServiceDiscovery : Type 0 where
  pub service_namespace : Text
  pub service_name : Text
  pub label_selectors : Text

pub record CleanConfig : Type 0 where
  pub cron : Text
  pub threshold : ℤ
  pub retain_days : ℤ

pub record AccelerBoatOption : Type 0 where
  pub address : Text
  pub log_config : LogConfig
  pub storage_config : StorageConfig
  pub clean_config : CleanConfig
  pub service_discovery : ServiceDiscovery
  pub torrent_config : TorrentConfig
  pub external_config : ExternalConfig
