-- ===== src/Server.antt =====
-- pkg/server/server.go: which of the node's handlers a request goes to, and NewUpstreamProxy of
-- pkg/server/registry/proxy.go, which makes one proxy for each registry and keeps it.
pub mod Proxies
pub mod Tests
use Prim.Native.Nat.{ℕ}
use accelerboat.Base.{
  ◌≡◌, Bool, true, false, ◌&&◌, ◌||◌, Option, none, some, List, [], ◌∷◌, ◌++◌, if◌then◌else◌,
}
use accelerboat.Base.Text.{Text, codes, text_eq, trim_space}
use accelerboat.Base.Text.Split.{split}
use accelerboat.Base.Keys.{lookup, insert}
use accelerboat.Store.{two_parts}
use accelerboat.Registry.Uri.{Request}
use accelerboat.Options.{RegistryMapping}
use accelerboat.Options.Mappings.{ProxyType, domain_proxy, registry_mirror, filter_registry_mapping}
use accelerboat.Proxy.{Storage, Node, World}
use accelerboat.Proxy.Route.{Answer, Master, serve_http}

abbrev pub proxy_type_name : ProxyType → Text
proxy_type_name domain_proxy = codes "DomainProxy"
proxy_type_name registry_mirror = codes "RegistryMirror"

pub record UpstreamProxy : Type 0 where
  pub proxy_host : Text
  pub original_host : Text
  pub proxy_type : ProxyType

unfoldable pub build_proxy_key : ProxyType → Text → Text
build_proxy_key t proxy_host = proxy_type_name t ++ (b'_' ∷ proxy_host)

abbrev pub Proxies : Type 0
Proxies = List (Text × UpstreamProxy)

abbrev pub proxy_of : ProxyType → Text → RegistryMapping → UpstreamProxy
proxy_of t proxy_host m = record {
  proxy_host = proxy_host;
  original_host = m.original_host;
  proxy_type = t;
}

-- `mappings` are those of the global options at the call.
unfoldable pub new_upstream_proxy :
    List RegistryMapping → ProxyType → Text → Proxies → Option UpstreamProxy × Proxies
new_upstream_proxy mappings t proxy_host ps = elim (lookup (build_proxy_key t proxy_host) ps) [
  | some p ↦ (some p, ps)
  | none ↦ elim (filter_registry_mapping proxy_host t mappings) [
    | none ↦ (none, ps)
    | some m ↦ (
      some (proxy_of t proxy_host m),
      insert (build_proxy_key t proxy_host) (proxy_of t proxy_host m) ps,
    )
  ]
]

-- A request with the host it names and its query parameter ns.
pub record HostRequest : Type 0 where
  pub request : Request
  pub host : Text
  pub ns : Text

-- The answer of the node's own routes, an error, or the answer of a proxy for an original host.
pub data Served : Type 0 where
  own_route bad_request : Served
  upstream : Text → Answer → Served

unfoldable pub is_route : List (Text × Text) → Request → Bool
is_route [] r = false
is_route ((path, method) ∷ routes) r =
    (text_eq r.path path && text_eq r.method method) || is_route routes r

-- The proxy type and host of a request, if it has one.
unfoldable pub proxy_for : HostRequest → Option (ProxyType × Text)
proxy_for q = elim (two_parts (split q.host b':')) [
  | none ↦ none
  | some (host, port) ↦
      if text_eq host (codes "localhost") || text_eq host (codes "127.0.0.1")
      then if text_eq (trim_space q.ns) [] then none else some (registry_mirror, trim_space q.ns)
      else some (domain_proxy, host)
]

-- `masters` and `worlds` are the parameters of Proxy for each original host.
module _ (routes : List (Text × Text)) (masters : Text → Master) (cfg : Storage)
    (worlds : Text → World) where
  unfoldable pub serve_upstream : List RegistryMapping → UpstreamProxy → Request → Node → Served
  serve_upstream mappings p r n = upstream p.original_host (
      serve_http (masters p.original_host) cfg (worlds p.original_host)
        (filter_registry_mapping p.proxy_host p.proxy_type mappings) r n)

  unfoldable pub dispatch :
      List RegistryMapping → Option UpstreamProxy × Proxies → Request → Node → Served × Proxies
  dispatch mappings (none, ps) r n = (bad_request, ps)
  dispatch mappings (some p, ps) r n = (serve_upstream mappings p r n, ps)

  unfoldable pub serve : List RegistryMapping → HostRequest → Node → Proxies → Served × Proxies
  unfolding dispatch
  serve mappings q n ps =
      if is_route routes q.request then (own_route, ps) else elim (proxy_for q) [
        | none ↦ (bad_request, ps)
        | some (t, host) ↦ dispatch mappings (new_upstream_proxy mappings t host ps) q.request n
      ]

  -- Requests one behind the other, each with the node as it finds it.
  unfoldable pub serve_all :
      List RegistryMapping → List (HostRequest × Node) → Proxies → List Served × Proxies
  unfolding serve
  serve_all mappings [] ps = ([], ps)
  serve_all mappings ((q, n) ∷ qs) ps =
      let (a, ps') = serve mappings q n ps in
      let (as', ps'') = serve_all mappings qs ps' in (a ∷ as', ps'')
