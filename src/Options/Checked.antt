-- ===== src/Options/Checked.antt =====
-- parse.go: what the options fulfil that Parse returns.
use accelerboat.Base.{
  ◌≡◌, refl, inl, inr, true, false, not, Option, none, some, arith, if◌then◌else◌, Bool-cases,
  if_ind, opt_ind, subst, some_inj,
}
use accelerboat.Base.Int.{ℤ, pos, ltb_ℤ}
use accelerboat.Base.Text.{codes}
use accelerboat.Options.{LogConfig, CleanConfig, TorrentConfig, ServiceDiscovery, AccelerBoatOption}
use accelerboat.Options.Parse.{
  Env, is_empty, positive_or, at_least, limit_or_none, check_log_config, check_storage_config,
  check_clean_config, check_prefer_config, check_service_discovery, check_torrent_config,
  check_external_config, parse,
}

abbrev pub LogOk : LogConfig → Type 0
LogOk c =
    (is_empty c.log_dir ≡ false)
    × (ltb_ℤ (pos 0) c.log_max_size ≡ true)
    × (ltb_ℤ (pos 0) c.log_max_backups ≡ true)
    × (ltb_ℤ (pos 0) c.log_max_age ≡ true)

-- If the cleaner runs at all, it keeps at least 10 GB.
abbrev pub CleanOk : CleanConfig → Type 0
CleanOk c =
    is_empty c.cron ≡ false
    → (ltb_ℤ c.threshold (pos 10) ≡ false) × (ltb_ℤ c.retain_days (pos 0) ≡ false)

-- If torrents are on, they are for 200 MB and more, and a limit is 10 MB or more.
abbrev pub TorrentOk : TorrentConfig → Type 0
TorrentOk c =
    c.enable ≡ true
    → (ltb_ℤ c.threshold (pos 200) ≡ false)
      × (ltb_ℤ (pos 0) c.upload_limit ≡ true → ltb_ℤ c.upload_limit (pos 10) ≡ false)
      × (ltb_ℤ (pos 0) c.download_limit ≡ true → ltb_ℤ c.download_limit (pos 10) ≡ false)

abbrev pub DiscoveryOk : ServiceDiscovery → Type 0
DiscoveryOk c =
    (is_empty c.service_namespace ≡ false)
    × (is_empty c.service_name ≡ false)
    × (check_prefer_config c.label_selectors ≡ true)

positive_or_pos : (d v : ℤ) → ltb_ℤ (pos 0) d ≡ true → ltb_ℤ (pos 0) (positive_or d v) ≡ true
positive_or_pos d v h = ground (arith, h)

at_least_le : (least v : ℤ) → ltb_ℤ (at_least least v) least ≡ false
at_least_le least v = ground arith

check_log_config_lem : (env : Env) (c c' : LogConfig) → check_log_config env c ≡ some c' → LogOk c'
unfolding check_log_config
check_log_config_lem env c c' =
    if_ind (λ o. o ≡ some c' → LogOk c') (not (env.mkdir_all _)) _ _ (λ b e. absurd cc)
      (λ b e. subst LogOk (some_inj e) (
        named,
        positive_or_pos (pos 100) c.log_max_size refl,
        positive_or_pos (pos 10) c.log_max_backups refl,
        positive_or_pos (pos 30) c.log_max_age refl,
      ))
  where
    named :
        is_empty (if is_empty c.log_dir then codes "/data/accelerboat/logs" else c.log_dir) ≡ false
    named = elim (Bool-cases (is_empty c.log_dir)) [ inl e ↦ rw e refl | inr e ↦ rw e e ]

check_clean_config_lem :
    (env : Env) (c c' : CleanConfig) → check_clean_config env c ≡ some c' → CleanOk c'
unfolding check_clean_config
check_clean_config_lem env c c' =
    if_ind (λ o. o ≡ some c' → CleanOk c') (is_empty c.cron) _ _
      (λ b e. subst CleanOk (some_inj e) (λ n. absurd (cc (b, n))))
      (λ b.
        if_ind (λ o. o ≡ some c' → CleanOk c') (not (env.parse_cron c.cron)) _ _ (λ k e. absurd cc)
          (λ k e.
            subst CleanOk (some_inj e)
              (λ n. (at_least_le (pos 10) c.threshold, at_least_le (pos 0) c.retain_days))))

limit_lem :
    (v : ℤ) → ltb_ℤ (pos 0) (limit_or_none v) ≡ true → ltb_ℤ (limit_or_none v) (pos 10) ≡ false
limit_lem v h = elim (Bool-cases (ltb_ℤ (pos 0) v)) [
  | inl e ↦ rw e (at_least_le (pos 10) v)
  | inr e ↦ absurd (cc (rw e at h, e))
]

check_torrent_config_lem : (c : TorrentConfig) → TorrentOk (check_torrent_config c)
unfolding check_torrent_config
check_torrent_config_lem c =
    if_ind TorrentOk (not c.enable) _ _ (λ b on. absurd (cc (rw on at b)))
      (λ b on.
        (at_least_le (pos 200) c.threshold, limit_lem c.upload_limit, limit_lem c.download_limit))

check_service_discovery_lem :
    (env : Env) (c : ServiceDiscovery) → check_service_discovery env c ≡ true → DiscoveryOk c
unfolding check_service_discovery
check_service_discovery_lem env c h = ground arith

abbrev pub IsChecked : Env → AccelerBoatOption → Type 0
IsChecked env op =
    LogOk op.log_config
    × CleanOk op.clean_config
    × TorrentOk op.torrent_config
    × DiscoveryOk op.service_discovery
    × (op.address ≡ env.local_ip)
    × (is_empty op.address ≡ false)

-- The options that Parse returns have positive log limits, a clean threshold of 10 GB or more when
-- there is a clean schedule, a torrent threshold of 200 MB or more and no speed limit between 0 and
-- 10 MB when torrents are on, a namespace, a service name, and a well-formed label selector if one is
-- set, and the address of the node, which is not empty.
pub parse_lem :
    (env : Env) (op op' : AccelerBoatOption) → parse env op ≡ some op' → IsChecked env op'
unfolding parse
parse_lem env op op' = opt_ind P (check_log_config env op.log_config) _ failed (λ logs l.
    if_ind P (not (check_storage_config env op.storage_config)) none _ (λ b. failed)
      (λ b. opt_ind P (check_clean_config env op.clean_config) _ failed (λ clean c.
        if_ind P (not (check_service_discovery env op.service_discovery)) none _ (λ d. failed)
          (λ d. opt_ind P (check_external_config env op.external_config) _ failed (λ external x.
            if_ind P (is_empty env.local_ip) none _ (λ a. failed)
              (λ a e. subst (IsChecked env) (some_inj e) (
                check_log_config_lem env op.log_config logs l,
                check_clean_config_lem env op.clean_config clean c,
                check_torrent_config_lem op.torrent_config,
                check_service_discovery_lem env op.service_discovery (ground (arith, d)),
                refl,
                a,
              )))))))
  where
    P : Option AccelerBoatOption → Type 0
    P o = o ≡ some op' → IsChecked env op'

    failed : P none
    failed e = absurd cc
