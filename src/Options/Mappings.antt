-- ===== src/Options/Mappings.antt =====
-- options.go: which registry mapping a host stands for.
use accelerboat.Base.{
  ◌≡◌, refl, ◌⊎◌, inl, inr, Bool, true, false, ◌||◌, Option, none, some, List, [], ◌∷◌, arith,
  if◌then◌else◌, Bool-cases,
}
use accelerboat.Base.Sort.{All}
use accelerboat.Base.Text.{Text, text_eq}
use accelerboat.Options.{RegistryMapping}

pub data ProxyType : Type 0 where
  domain_proxy registry_mirror : ProxyType

unfoldable pub matches : Text → ProxyType → RegistryMapping → Bool
matches proxy_host registry_mirror m =
    text_eq proxy_host m.original_host || text_eq proxy_host m.proxy_host
matches proxy_host domain_proxy m = text_eq proxy_host m.proxy_host

-- The mapping of a registry that none is configured for.
abbrev pub pass_through : Text → RegistryMapping
pass_through proxy_host = record {
  enable = true;
  proxy_host = proxy_host;
  proxy_cert = [];
  proxy_key = [];
  original_host = proxy_host;
  username = [];
  password = [];
  users = [];
  legal_users = [];
}

abbrev pub fallback : Text → ProxyType → Option RegistryMapping
fallback proxy_host registry_mirror = some (pass_through proxy_host)
fallback proxy_host domain_proxy = none

unfoldable pub filter_registry_mapping :
    Text → ProxyType → List RegistryMapping → Option RegistryMapping
unfolding matches
filter_registry_mapping proxy_host t [] = fallback proxy_host t
filter_registry_mapping proxy_host t (m ∷ ms) =
    let rest = filter_registry_mapping proxy_host t ms in
    if matches proxy_host t m then some m else rest

unfoldable pub filter_registry_mapping_by_original :
    Text → List RegistryMapping → Option RegistryMapping
filter_registry_mapping_by_original original_host [] = none
filter_registry_mapping_by_original original_host (m ∷ ms) =
    let rest = filter_registry_mapping_by_original original_host ms in
    if text_eq original_host m.original_host then some m else rest

-- The first mapping that passes a test.
abbrev pub IsFirst : (RegistryMapping → Bool) → List RegistryMapping → RegistryMapping → Type 0
IsFirst test [] m = ⊥
IsFirst test (n ∷ ms) m = ((test n ≡ true) × (n ≡ m)) ⊎ ((test n ≡ false) × IsFirst test ms m)

-- FilterRegistryMapping gives the first mapping that the host matches: by its proxy host, and in the
-- mirror mode also by its original host. If none matches, a mirror passes the host through, and a
-- domain proxy has no mapping.
pub filter_registry_mapping_lem :
    (proxy_host : Text) (t : ProxyType) (ms : List RegistryMapping)
    → ((m : RegistryMapping) × IsFirst (matches proxy_host t) ms m
        × (filter_registry_mapping proxy_host t ms ≡ some m))
      ⊎ All (λ m. matches proxy_host t m ≡ false) ms
        × (filter_registry_mapping proxy_host t ms ≡ fallback proxy_host t)
unfolding filter_registry_mapping
filter_registry_mapping_lem proxy_host t [] = inr (tt, refl)
filter_registry_mapping_lem proxy_host t (m ∷ ms) = elim (Bool-cases (matches proxy_host t m)) [
  | inl hit ↦ inl (m, inl (hit, refl), ground (arith, hit))
  | inr miss ↦ elim (filter_registry_mapping_lem proxy_host t ms) [
    | inl (n, first, e) ↦ inl (n, inr (miss, first), ground (arith, miss, e))
    | inr (all, e) ↦ inr ((miss, all), ground (arith, miss, e))
  ]
]
