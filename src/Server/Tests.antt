-- ===== src/Server/Tests.antt =====
-- server.go: requests by domain and by mirror, one behind the other, and after a reload of the options.
use accelerboat.Base.{◌≡◌, refl, false, some, [], ◌∷◌, map}
use accelerboat.Base.Text.{codes, text_eq}
use accelerboat.Base.Text.Split.{split, push_first}
use accelerboat.Base.Keys.{lookup}
use accelerboat.Store.{two_parts}
use accelerboat.Options.{RegistryMapping}
use accelerboat.Options.Mappings.{domain_proxy, filter_registry_mapping}
use accelerboat.Proxy.Route.{serve_http}
use accelerboat.Proxy.Route.Tests.{mapping, master, cfg, world, node, blob_request}
use accelerboat.Server.{
  UpstreamProxy, build_proxy_key, Proxies, proxy_of, HostRequest, upstream, is_route, proxy_for,
  serve, serve_all,
}
use accelerboat.Server.Proxies.{serve_fresh, serve_all_lem, serve-kept}

abbrev by_domain : HostRequest
by_domain = record { request = blob_request; host = codes "proxy:443"; ns = [] }

abbrev by_mirror : HostRequest
by_mirror = record { request = blob_request; host = codes "localhost:80"; ns = codes "quay.io" }

abbrev no_port : HostRequest
no_port = record { request = blob_request; host = codes "proxy"; ns = [] }

serve_all_lem_example :
    (serve_all []
      (λ h. master)
      cfg
      (λ h. world)
      (mapping ∷ [])
      ((by_domain, node) ∷ (by_mirror, node) ∷ (by_domain, node) ∷ (no_port, node) ∷ [])
      []).0
    ≡ map
        (serve_fresh (mapping ∷ []) [] (λ h. master) cfg (λ h. world))
        ((by_domain, node) ∷ (by_mirror, node) ∷ (by_domain, node) ∷ (no_port, node) ∷ [])
serve_all_lem_example =
    serve_all_lem (mapping ∷ []) [] (λ h. master) cfg (λ h. world)
      ((by_domain, node) ∷ (by_mirror, node) ∷ (by_domain, node) ∷ (no_port, node) ∷ [])

-- The mapping after a reload of the options.
abbrev moved : RegistryMapping
moved = record mapping { original_host = codes "mirror.docker.io" }

abbrev kept_proxy : UpstreamProxy
kept_proxy = proxy_of domain_proxy (codes "proxy") mapping

abbrev kept : Proxies
kept = (build_proxy_key domain_proxy (codes "proxy"), kept_proxy) ∷ []

no_route : is_route [] blob_request ≡ false
unfolding is_route
no_route = refl

domain_host : proxy_for by_domain ≡ some (domain_proxy, codes "proxy")
unfolding proxy_for split push_first two_parts text_eq
domain_host = refl

found_kept : lookup (build_proxy_key domain_proxy (codes "proxy")) kept ≡ some kept_proxy
unfolding lookup build_proxy_key text_eq
found_kept = refl

kept_after_reload : serve [] (λ h. master) cfg (λ h. world) (moved ∷ []) by_domain node kept ≡ (
  upstream (codes "docker.io") (
      serve_http master cfg world
        (filter_registry_mapping (codes "proxy") domain_proxy (moved ∷ []))
        blob_request
        node),
  kept,
)
kept_after_reload =
    serve-kept (moved ∷ []) [] (λ h. master) cfg (λ h. world) by_domain node kept domain_proxy
      (codes "proxy") kept_proxy no_route domain_host found_kept
