-- ===== src/Server/Proxies.antt =====
-- server.go, proxy.go: what the kept proxies do to the answers.
use Prim.Native.Nat.{ℕ}
use accelerboat.Base.{
  ◌≡◌, refl, sym, ap, ◌∙◌, inl, inr, false, Option, none, some, List, [], ◌∷◌, arith, if◌then◌else◌,
  Bool-cases, Option-cases, some_inj, opt_else_ind, map,
}
use accelerboat.Base.Text.{Text, text_eq, text_eq→eq}
use accelerboat.Base.Keys.{lookup, insert, lookup-insert}
use accelerboat.Registry.Uri.{Request}
use accelerboat.Options.{RegistryMapping}
use accelerboat.Options.Mappings.{ProxyType, domain_proxy, registry_mirror, filter_registry_mapping}
use accelerboat.Proxy.{Storage, Node, World}
use accelerboat.Proxy.Route.{Master, serve_http}
use accelerboat.Server.{
  UpstreamProxy, build_proxy_key, Proxies, proxy_of, new_upstream_proxy, HostRequest, Served,
  own_route, bad_request, upstream, is_route, proxy_for, serve_upstream, dispatch, serve, serve_all,
}

abbrev first_byte : Text → ℕ
first_byte [] = 0
first_byte (c ∷ s) = c

-- Different registries have different keys.
key_inj :
    (t u : ProxyType) (h k : Text) → build_proxy_key t h ≡ build_proxy_key u k → (t ≡ u) × (h ≡ k)
unfolding build_proxy_key
key_inj domain_proxy domain_proxy h k e = (refl, cc)
key_inj registry_mirror registry_mirror h k e = (refl, cc)
key_inj domain_proxy registry_mirror h k e = absurd (omega (arith, ap first_byte e))
key_inj registry_mirror domain_proxy h k e = absurd (omega (arith, ap first_byte e))

module _ (mappings : List RegistryMapping) where
  -- Each kept proxy is the one that the mappings give for its key.
  abbrev pub AllCurrent : Proxies → Type 0
  AllCurrent ps =
      (t : ProxyType) (host : Text) (p : UpstreamProxy)
      → lookup (build_proxy_key t host) ps ≡ some p
      → (m : RegistryMapping) × (filter_registry_mapping host t mappings ≡ some m)
        × (p ≡ proxy_of t host m)

  -- The proxy with nothing kept.
  abbrev pub fresh_proxy : ProxyType → Text → Option UpstreamProxy
  fresh_proxy t host = elim (filter_registry_mapping host t mappings) [
    | none ↦ none
    | some m ↦ some (proxy_of t host m)
  ]

  insert-AllCurrent :
      (t : ProxyType) (host : Text) (m : RegistryMapping) (ps : Proxies)
      → filter_registry_mapping host t mappings ≡ some m
      → AllCurrent ps
      → AllCurrent (insert (build_proxy_key t host) (proxy_of t host m) ps)
  insert-AllCurrent t host m ps found current u k p e =
      let looked =
        lookup-insert (build_proxy_key t host) (build_proxy_key u k) (proxy_of t host m) ps in
      elim (Bool-cases (text_eq (build_proxy_key t host) (build_proxy_key u k))) [
        | inl same ↦
            let (et, eh) =
              key_inj t u host k (text_eq→eq (build_proxy_key t host) (build_proxy_key u k) same) in
            (
              m,
              (λ i. filter_registry_mapping (sym eh i) (sym et i) mappings) ∙ found,
              some_inj (sym e ∙ ground (arith, looked, same)) ∙ (λ i. proxy_of (et i) (eh i) m),
            )
        | inr other ↦ current u k p (ground (arith, looked, other))
      ]

  abbrev IsMade : ProxyType → Text → Option UpstreamProxy × Proxies → Type 0
  IsMade t host (o, ps) = (o ≡ fresh_proxy t host) × AllCurrent ps

  new_upstream_proxy-IsMade :
      (t : ProxyType) (host : Text) (ps : Proxies)
      → AllCurrent ps
      → IsMade t host (new_upstream_proxy mappings t host ps)
  unfolding new_upstream_proxy
  new_upstream_proxy-IsMade t host ps current =
      opt_else_ind (IsMade t host) (lookup (build_proxy_key t host) ps)
        (elim (filter_registry_mapping host t mappings) [
          | none ↦ (none, ps)
          | some m ↦
              (some (proxy_of t host m), insert (build_proxy_key t host) (proxy_of t host m) ps)
        ])
        (λ p. (some p, ps))
        (λ missing.
          opt_else_ind (IsMade t host) (filter_registry_mapping host t mappings) (none, ps)
            (λ m.
              (some (proxy_of t host m), insert (build_proxy_key t host) (proxy_of t host m) ps))
            (λ no_mapping. (rw (no_mapping, fresh_proxy) refl, current))
            (λ m found.
              (rw (found, fresh_proxy) refl, insert-AllCurrent t host m ps found current)))
        (λ p kept.
          let (m, found, e) = current t host p kept in
          (rw (found, fresh_proxy) (ap (λ q. some q) e), current))

  module _ (routes : List (Text × Text)) (masters : Text → Master) (cfg : Storage)
      (worlds : Text → World) where
    -- A server that keeps no proxy.
    abbrev pub serve_fresh : HostRequest × Node → Served
    serve_fresh (q, n) =
        if is_route routes q.request then own_route else elim (proxy_for q) as (λ o. Served) [
          | none ↦ bad_request
          | some (t, host) ↦ elim (fresh_proxy t host) as (λ o. Served) [
            | none ↦ bad_request
            | some p ↦ serve_upstream routes masters cfg worlds mappings p q.request n
          ]
        ]

    dispatch_lem :
        (t : ProxyType) (host : Text) (r : Request) (n : Node)
        (made : Option UpstreamProxy × Proxies)
        → IsMade t host made
        → ((dispatch routes masters cfg worlds mappings made r n).0
            ≡ elim (fresh_proxy t host) as (λ o. Served) [
              | none ↦ bad_request
              | some p ↦ serve_upstream routes masters cfg worlds mappings p r n
            ])
          × AllCurrent (dispatch routes masters cfg worlds mappings made r n).1
    unfolding dispatch
    dispatch_lem t host r n (none, ps) (e, current) = (
      ap
          (λ o. elim o as (λ x. Served) [
            | none ↦ bad_request
            | some p ↦ serve_upstream routes masters cfg worlds mappings p r n
          ])
          e,
      current,
    )
    dispatch_lem t host r n (some p, ps) (e, current) = (
      ap
          (λ o. elim o as (λ x. Served) [
            | none ↦ bad_request
            | some p ↦ serve_upstream routes masters cfg worlds mappings p r n
          ])
          e,
      current,
    )

    serve_step :
        (q : HostRequest) (n : Node) (ps : Proxies)
        → AllCurrent ps
        → ((serve routes masters cfg worlds mappings q n ps).0 ≡ serve_fresh (q, n))
          × AllCurrent (serve routes masters cfg worlds mappings q n ps).1
    unfolding serve
    serve_step q n ps current = elim (Bool-cases (is_route routes q.request)) [
      | inl own ↦ rw (own, serve) (refl, current)
      | inr other ↦ elim (Option-cases (proxy_for q)) [
        | inl no_host ↦ rw (other, no_host, serve) (refl, current)
        | inr ((t, host), e) ↦
            rw (other, e, serve)
              (dispatch_lem t host q.request n (new_upstream_proxy mappings t host ps)
                (new_upstream_proxy-IsMade t host ps current))
      ]
    ]

    serve_all-AllCurrent :
        (qs : List (HostRequest × Node)) (ps : Proxies)
        → AllCurrent ps
        → (serve_all routes masters cfg worlds mappings qs ps).0 ≡ map serve_fresh qs
    unfolding serve_all
    serve_all-AllCurrent [] ps current = refl
    serve_all-AllCurrent ((q, n) ∷ qs) ps current =
        let (e, kept) = serve_step q n ps current in
        λ i.
          e i ∷ serve_all-AllCurrent qs (serve routes masters cfg worlds mappings q n ps).1 kept i

    -- While the mappings stay, a server that starts with no proxies answers every sequence of requests
    -- as one that keeps none: by its own routes, by an error where the host or its mapping is missing,
    -- and else by a proxy for the mapping that FilterRegistryMapping gives for the host.
    pub serve_all_lem :
        (qs : List (HostRequest × Node))
        → (serve_all routes masters cfg worlds mappings qs []).0 ≡ map serve_fresh qs
    unfolding lookup
    serve_all_lem qs = serve_all-AllCurrent qs [] (λ t host p e. absurd cc)

    -- A request whose registry has a kept proxy is sent on by it to the original host that the mapping
    -- had when the proxy was made, whatever original host the mappings of the options give for it now.
    pub serve-kept :
        (q : HostRequest) (n : Node) (ps : Proxies) (t : ProxyType) (host : Text)
        (p : UpstreamProxy)
        → is_route routes q.request ≡ false
        → proxy_for q ≡ some (t, host)
        → lookup (build_proxy_key t host) ps ≡ some p
        → serve routes masters cfg worlds mappings q n ps ≡ (
          upstream p.original_host (
              serve_http
                (masters p.original_host)
                cfg
                (worlds p.original_host)
                (filter_registry_mapping p.proxy_host p.proxy_type mappings)
                q.request
                n),
          ps,
        )
    unfolding serve new_upstream_proxy dispatch serve_upstream
    serve-kept q n ps t host p other e kept =
        rw (other, e, kept, serve, new_upstream_proxy, dispatch, serve_upstream) refl
