-- ===== src/Options/Tests.antt =====
-- cmd/accelerboat/options: the checks of a small configuration.
use accelerboat.Base.{◌≡◌, refl, true, none, some, [], ◌∷◌}
use accelerboat.Base.Int.{pos}
use accelerboat.Base.Keys.{lookup}
use accelerboat.Base.Text.{codes, text_eq}
use accelerboat.Base.Text.Split.{split}
use accelerboat.Options.{RegistryAuth, RegistryMapping, ExternalConfig, AccelerBoatOption}
use accelerboat.Options.Parse.{
  Env, check_log_config, check_storage_config, check_clean_config, check_service_discovery,
  check_prefer_config, is_label_selector, all_pairs, is_pair, check_torrent_config,
  check_http_proxy, decode_certs, check_mapping, check_mappings, add_legal_users, valid_users,
  check_external_config, parse,
}
use accelerboat.Options.Checked.{IsChecked, parse_lem}
use accelerboat.Options.Mappings.{registry_mirror, filter_registry_mapping, pass_through}

abbrev env : Env
env = record {
  mkdir_all = λ p. true;
  parse_cron = λ c. true;
  in_cluster = true;
  dial = λ a. true;
  parse_url = λ u. some u;
  decode = λ t. some t;
  local_ip = codes "10.0.0.1";
}

abbrev auth : RegistryAuth
auth = record { username = codes "u"; password = codes "p" }

abbrev mapping : RegistryMapping
mapping = record {
  enable = true;
  proxy_host = codes "proxy";
  proxy_cert = [];
  proxy_key = [];
  original_host = codes "registry";
  username = [];
  password = [];
  users = auth ∷ [];
  legal_users = [];
}

abbrev external : ExternalConfig
external = record {
  http_proxy = [];
  http_proxy_url = none;
  built_in_certs = (codes "localhost", record { key = codes "k"; cert = codes "c" }) ∷ [];
  registry_mappings = mapping ∷ [];
}

abbrev op : AccelerBoatOption
op = record {
  address = [];
  log_config = record {
    log_dir = [];
    log_max_size = pos 0;
    log_max_backups = pos 3;
    log_max_age = pos 0;
  };
  storage_config = record {
    download_path = codes "/d";
    torrent_path = codes "/o";
    transfer_path = codes "/t";
    small_file_path = codes "/s";
    oci_path = codes "/i";
    event_file = [];
  };
  clean_config = record { cron = codes "@daily"; threshold = pos 3; retain_days = pos 1 };
  service_discovery = record {
    service_namespace = codes "ns";
    service_name = codes "svc";
    label_selectors = codes "role=cache,zone=a";
  };
  torrent_config = record {
    enable = true;
    threshold = pos 1;
    upload_limit = pos 5;
    download_limit = pos 0;
    announce = [];
  };
  external_config = external;
}

abbrev external_checked : ExternalConfig
external_checked = record external {
  registry_mappings = record mapping { legal_users = auth ∷ [] } ∷ [];
}

checks_external : check_external_config env external ≡ some external_checked
unfolding check_external_config check_http_proxy decode_certs check_mappings check_mapping
    add_legal_users valid_users lookup text_eq
checks_external = refl

abbrev checked : AccelerBoatOption
checked = record op {
  address = codes "10.0.0.1";
  log_config = record {
    log_dir = codes "/data/accelerboat/logs";
    log_max_size = pos 100;
    log_max_backups = pos 3;
    log_max_age = pos 30;
  };
  clean_config = record { cron = codes "@daily"; threshold = pos 10; retain_days = pos 1 };
  torrent_config = record {
    enable = true;
    threshold = pos 200;
    upload_limit = pos 10;
    download_limit = pos 0;
    announce = [];
  };
  external_config = external_checked;
}

parses : parse env op ≡ some checked
unfolding parse check_log_config check_storage_config check_clean_config check_service_discovery
    check_prefer_config is_label_selector all_pairs is_pair split check_torrent_config
parses = rw (checks_external, parse) refl

parse_lem_example : IsChecked env checked
parse_lem_example = parse_lem env op checked parses

mirrors :
    filter_registry_mapping (codes "quay.io") registry_mirror []
    ≡ some (pass_through (codes "quay.io"))
unfolding filter_registry_mapping
mirrors = refl
