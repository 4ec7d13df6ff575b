-- ===== src/Options/Mapped.antt =====
-- parse.go: what checkExternalConfig makes of the registry mappings.
use accelerboat.Base.{
  ◌≡◌, refl, ◌⊎◌, inl, inr, true, not, ◌&&◌, ◌||◌, Option, none, some, List, [], ◌∷◌, ◌++◌, arith,
  Option-cases, if_ind, opt_ind, subst, some_inj,
}
use accelerboat.Base.Keys.{lookup}
use accelerboat.Base.Text.{Text}
use accelerboat.Options.{ProxyKeyCert, RegistryMapping, ExternalConfig}
use accelerboat.Options.Parse.{
  Env, is_empty, check_http_proxy, decode_certs, valid_users, add_legal_users, check_mapping,
  check_mappings, check_external_config,
}

-- How a mapping comes out. With a built-in certificate for its proxy host it gets that one, and no
-- legal users but those it had. Without one, its own user and then its other users are added, those
-- with a name and a password, and its certificate and key are decoded if it has both.
abbrev pub IsMapped : Env → List (Text × ProxyKeyCert) → RegistryMapping → RegistryMapping → Type 0
IsMapped env certs mp mp' =
    (mp'.proxy_host ≡ mp.proxy_host)
    × (mp'.original_host ≡ mp.original_host)
    × (((v : ProxyKeyCert) × (lookup mp.proxy_host certs ≡ some v)
          × (mp'.proxy_cert ≡ v.cert)
          × (mp'.proxy_key ≡ v.key)
          × (mp'.legal_users ≡ mp.legal_users))
        ⊎ (lookup mp.proxy_host certs ≡ none)
          × (mp'.legal_users
              ≡ mp.legal_users
                ++ valid_users
                    (record { username = mp.username; password = mp.password } ∷ mp.users))
          × (((env.decode mp.proxy_cert ≡ some mp'.proxy_cert)
                × (env.decode mp.proxy_key ≡ some mp'.proxy_key))
              ⊎ ((is_empty mp.proxy_cert || is_empty mp.proxy_key) ≡ true)
                × (mp'.proxy_cert ≡ mp.proxy_cert)
                × (mp'.proxy_key ≡ mp.proxy_key)))

check_mapping_lem :
    (env : Env) (certs : List (Text × ProxyKeyCert)) (mp mp' : RegistryMapping)
    → check_mapping env certs mp ≡ some mp'
    → IsMapped env certs mp mp'
unfolding check_mapping add_legal_users
check_mapping_lem env certs mp mp' e = elim (Option-cases (lookup mp.proxy_host certs)) [
  | inr (v, some') ↦
      subst (IsMapped env certs mp) (some_inj (rw (some', check_mapping) at e))
        (refl, refl, inl (v, some', refl, refl, refl))
  | inl none' ↦
      if_ind P (not (is_empty mp.proxy_cert) && not (is_empty mp.proxy_key)) _ _
        (λ b. opt_ind P (env.decode mp.proxy_cert) _ failed (λ cert c.
          opt_ind P (env.decode mp.proxy_key) _ failed (λ key k h.
            subst (IsMapped env certs mp) (some_inj h)
              (refl, refl, inr (none', refl, inl (c, k))))))
        (λ b h.
          subst (IsMapped env certs mp) (some_inj h)
            (refl, refl, inr (none', refl, inr (ground (arith, b), refl, refl))))
        (rw (none', check_mapping) at e)
]
  where
    P : Option RegistryMapping → Type 0
    P o = o ≡ some mp' → IsMapped env certs mp mp'

    failed : P none
    failed e = absurd cc

abbrev pub AllMapped :
    Env → List (Text × ProxyKeyCert) → List RegistryMapping → List RegistryMapping → Type 0
AllMapped env certs [] [] = Unit {0}
AllMapped env certs [] (m ∷ ms) = ⊥
AllMapped env certs (m ∷ ms) [] = ⊥
AllMapped env certs (m ∷ ms) (n ∷ ns) = IsMapped env certs m n × AllMapped env certs ms ns

check_mappings_lem :
    (env : Env) (certs : List (Text × ProxyKeyCert)) (ms ns : List RegistryMapping)
    → check_mappings env certs ms ≡ some ns
    → AllMapped env certs ms ns
unfolding check_mappings
check_mappings_lem env certs [] ns = λ e. subst (AllMapped env certs []) (some_inj e) tt
check_mappings_lem env certs (m ∷ ms) ns =
    let ih = check_mappings_lem env certs ms in
    opt_ind P (check_mapping env certs m) _ failed (λ n d.
      opt_ind P (check_mappings env certs ms) _ failed (λ more r h.
        subst (AllMapped env certs (m ∷ ms)) (some_inj h)
          (check_mapping_lem env certs m n d, ih more r)))
  where
    P : Option (List RegistryMapping) → Type 0
    P o = o ≡ some ns → AllMapped env certs (m ∷ ms) ns

    failed : P none
    failed e = absurd cc

-- When checkExternalConfig succeeds, all built-in certificates are decoded, and every mapping, in
-- order, comes out with the decoded built-in certificate of its proxy host and no user added, or, if
-- there is none, with its users that have a name and a password added and its own certificate decoded.
pub check_external_config-AllMapped :
    (env : Env) (c c' : ExternalConfig)
    → check_external_config env c ≡ some c'
    → (decode_certs env c.built_in_certs ≡ some c'.built_in_certs)
      × AllMapped env c'.built_in_certs c.registry_mappings c'.registry_mappings
unfolding check_external_config
check_external_config-AllMapped env c c' = opt_ind P (check_http_proxy env c) _ failed (λ url u.
    opt_ind P (decode_certs env c.built_in_certs) _ failed (λ certs d.
      opt_ind P (check_mappings env certs c.registry_mappings) _ failed (λ ms m e.
        subst Q (some_inj e) (d, check_mappings_lem env certs c.registry_mappings ms m))))
  where
    Q : ExternalConfig → Type 0
    Q x =
        (decode_certs env c.built_in_certs ≡ some x.built_in_certs)
        × AllMapped env x.built_in_certs c.registry_mappings x.registry_mappings

    P : Option ExternalConfig → Type 0
    P o = o ≡ some c' → Q c'

    failed : P none
    failed e = absurd cc
