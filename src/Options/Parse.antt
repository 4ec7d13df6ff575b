-- ===== src/Options/Parse.antt =====
-- parse.go: Parse and its checks. A check returns the changed options, `none` on an error.
use accelerboat.Base.{
  Bool, true, false, not, ◌&&◌, ◌||◌, Option, none, some, List, [], ◌∷◌, ◌++◌, if◌then◌else◌,
}
use accelerboat.Base.Int.{ℤ, pos, ltb_ℤ}
use accelerboat.Base.Keys.{lookup}
use accelerboat.Base.Text.{Text, codes, trim_prefix}
use accelerboat.Base.Text.Split.{split}
use accelerboat.Options.{
  LogConfig, StorageConfig, TorrentConfig, ProxyKeyCert, RegistryAuth, RegistryMapping,
  ExternalConfig, ServiceDiscovery, CleanConfig, AccelerBoatOption,
}

-- What the system answers to the checks: whether a directory can be made, a cron expression parses,
-- there is a client of the cluster, and a connection can be opened; the parsed URL and the decoded
-- base64 text, `none` for an error; and the environment's localIP.
pub record Env : Type 0 where
  pub mkdir_all : Text → Bool
  pub parse_cron : Text → Bool
  pub in_cluster : Bool
  pub dial : Text → Bool
  pub parse_url : Text → Option Text
  pub decode : Text → Option Text
  pub local_ip : Text

abbrev pub is_empty : Text → Bool
is_empty [] = true
is_empty (c ∷ s) = false

-- if v <= 0 { v = d }
abbrev pub positive_or : ℤ → ℤ → ℤ
positive_or d v = if ltb_ℤ (pos 0) v then v else d

-- if v < least { v = least }
abbrev pub at_least : ℤ → ℤ → ℤ
at_least least v = if ltb_ℤ v least then least else v

unfoldable pub check_log_config : Env → LogConfig → Option LogConfig
check_log_config env c =
    let dir = if is_empty c.log_dir then codes "/data/accelerboat/logs" else c.log_dir in
    if not (env.mkdir_all dir)
    then none
    else some (record {
      log_dir = dir;
      log_max_size = positive_or (pos 100) c.log_max_size;
      log_max_backups = positive_or (pos 10) c.log_max_backups;
      log_max_age = positive_or (pos 30) c.log_max_age;
    })

unfoldable pub check_storage_config : Env → StorageConfig → Bool
check_storage_config env c =
    env.mkdir_all c.transfer_path
    && env.mkdir_all c.download_path
    && env.mkdir_all c.small_file_path
    && env.mkdir_all c.torrent_path
    && env.mkdir_all c.oci_path

unfoldable pub check_clean_config : Env → CleanConfig → Option CleanConfig
check_clean_config env c =
    if is_empty c.cron
    then some c
    else if not (env.parse_cron c.cron)
    then none
    else some (record {
      cron = c.cron;
      threshold = at_least (pos 10) c.threshold;
      retain_days = at_least (pos 0) c.retain_days;
    })

-- [^=,]+=[^=,]+ on a text without ','
unfoldable pub is_pair : List Text → Bool
is_pair [] = false
is_pair (a ∷ []) = false
is_pair (a ∷ b ∷ []) = not (is_empty a) && not (is_empty b)
is_pair (a ∷ b ∷ c ∷ rest) = false

unfoldable pub all_pairs : List Text → Bool
unfolding is_pair
all_pairs [] = true
all_pairs (t ∷ ts) = is_pair (split t b'=') && all_pairs ts

-- labelSelectorRegexp, which asks for pairs between commas
unfoldable pub is_label_selector : Text → Bool
unfolding all_pairs
is_label_selector s = all_pairs (split s b',')

unfoldable pub check_prefer_config : Text → Bool
unfolding is_label_selector
check_prefer_config selector = is_empty selector || is_label_selector selector

unfoldable pub check_service_discovery : Env → ServiceDiscovery → Bool
check_service_discovery env c =
    not (is_empty c.service_namespace)
    && not (is_empty c.service_name)
    && env.in_cluster
    && check_prefer_config c.label_selectors

-- A limit of 0 or less is none.
abbrev pub limit_or_none : ℤ → ℤ
limit_or_none v = if ltb_ℤ (pos 0) v then at_least (pos 10) v else v

unfoldable pub check_torrent_config : TorrentConfig → TorrentConfig
check_torrent_config c = if not c.enable then c else record c {
  threshold = at_least (pos 200) c.threshold;
  upload_limit = limit_or_none c.upload_limit;
  download_limit = limit_or_none c.download_limit;
}

-- checkNetConnectivity dials the address behind the scheme.
unfoldable pub check_net_connectivity : Env → Text → Bool
check_net_connectivity env target =
    env.dial (trim_prefix (trim_prefix target (codes "http://")) (codes "https://"))

-- The part of checkExternalConfig on HTTPProxy: the URL.
unfoldable pub check_http_proxy : Env → ExternalConfig → Option (Option Text)
unfolding check_net_connectivity
check_http_proxy env c =
    if is_empty c.http_proxy then some c.http_proxy_url else elim (env.parse_url c.http_proxy) [
      | none ↦ none
      | some u ↦ if not (check_net_connectivity env c.http_proxy) then none else some (some u)
    ]

-- The loop over BuiltInCerts, none of which is null.
unfoldable pub decode_certs : Env → List (Text × ProxyKeyCert) → Option (List (Text × ProxyKeyCert))
decode_certs env [] = some []
decode_certs env ((host, v) ∷ certs) =
    let rest = decode_certs env certs in
    elim (env.decode v.key) [
      | none ↦ none
      | some key ↦ elim (env.decode v.cert) [
        | none ↦ none
        | some cert ↦ elim rest [
          | none ↦ none
          | some done ↦ some ((host, record { key = key; cert = cert }) ∷ done)
        ]
      ]
    ]

-- The users with a name and a password.
unfoldable pub valid_users : List RegistryAuth → List RegistryAuth
valid_users [] = []
valid_users (u ∷ us) =
    let rest = valid_users us in
    if not (is_empty u.username) && not (is_empty u.password) then u ∷ rest else rest

-- The end of a round of the loop over RegistryMappings.
unfoldable pub add_legal_users : RegistryMapping → RegistryMapping
unfolding valid_users
add_legal_users mp = record mp {
  legal_users =
      mp.legal_users
      ++ valid_users (record { username = mp.username; password = mp.password } ∷ mp.users);
}

-- One round, from the decoded built-in certificates.
unfoldable pub check_mapping :
    Env → List (Text × ProxyKeyCert) → RegistryMapping → Option RegistryMapping
unfolding add_legal_users
check_mapping env certs mp = elim (lookup mp.proxy_host certs) [
  | some v ↦ some (record mp { proxy_cert = v.cert; proxy_key = v.key })
  | none ↦
      if not (is_empty mp.proxy_cert) && not (is_empty mp.proxy_key)
      then elim (env.decode mp.proxy_cert) [
        | none ↦ none
        | some cert ↦ elim (env.decode mp.proxy_key) [
          | none ↦ none
          | some key ↦ some (add_legal_users (record mp { proxy_cert = cert; proxy_key = key }))
        ]
      ]
      else some (add_legal_users mp)
]

unfoldable pub check_mappings :
    Env → List (Text × ProxyKeyCert) → List RegistryMapping → Option (List RegistryMapping)
check_mappings env certs [] = some []
check_mappings env certs (mp ∷ mps) =
    let rest = check_mappings env certs mps in
    elim (check_mapping env certs mp) [
      | none ↦ none
      | some done ↦ elim rest [ none ↦ none | some more ↦ some (done ∷ more) ]
    ]

unfoldable pub check_external_config : Env → ExternalConfig → Option ExternalConfig
check_external_config env c = elim (check_http_proxy env c) [
  | none ↦ none
  | some proxy_url ↦ elim (decode_certs env c.built_in_certs) [
    | none ↦ none
    | some certs ↦ elim (check_mappings env certs c.registry_mappings) [
      | none ↦ none
      | some mappings ↦ some (record c {
        http_proxy_url = proxy_url;
        built_in_certs = certs;
        registry_mappings = mappings;
      })
    ]
  ]
]

-- Parse, behind the reading of the file.
unfoldable pub parse : Env → AccelerBoatOption → Option AccelerBoatOption
parse env op = elim (check_log_config env op.log_config) [
  | none ↦ none
  | some logs ↦
      if not (check_storage_config env op.storage_config)
      then none
      else elim (check_clean_config env op.clean_config) [
        | none ↦ none
        | some clean ↦
            if not (check_service_discovery env op.service_discovery)
            then none
            else elim (check_external_config env op.external_config) [
              | none ↦ none
              | some external ↦
                  if is_empty env.local_ip
                  then none
                  else some (record op {
                    address = env.local_ip;
                    log_config = logs;
                    clean_config = clean;
                    torrent_config = check_torrent_config op.torrent_config;
                    external_config = external;
                  })
            ]
      ]
]
