-- ===== src/Proxy/Route.antt =====
-- pkg/server/registry/proxy.go: ServeHTTP, which gives each request to its handler, and the handlers
-- of tokens and manifests, for requests whose URL url.Parse takes. The master and the original registry
-- are parameters.
pub mod Paths
pub mod Tests
use Prim.Native.Nat.{ℕ}
use accelerboat.Base.{
  ◌≡◌, Bool, true, false, not, ◌&&◌, ◌||◌, Option, none, some, List, [], ◌∷◌, ◌++◌, if◌then◌else◌,
}
use accelerboat.Base.Text.{Text, codes, text_eq}
use accelerboat.Registry.Uri.{
  Request, is_service_token, is_head_image_digest, is_manifest_get, is_blob_get,
}
use accelerboat.Options.{RegistryMapping}
use accelerboat.Proxy.{Storage, Node, World, serve_blob}

abbrev pub Headers : Type 0
Headers = List (Text × List Text)

-- What the client gets: headers of the master, a body of the master, the answer of the original
-- registry, or what the node wrote for a blob.
pub data Answer : Type 0 where
  headers : Headers → Answer
  body : Text → Answer
  proxied : Request → Answer
  blob : Node → Answer

-- The calls of the requester, none where they fail.
pub record Master : Type 0 where
  pub get_service_token : Request → Text → Text → Option Text
  pub head_manifest : Request → Text → Text → Option Headers
  pub get_manifest : Request → Text → Text → Option Text

-- Which case of the switch a request takes, with what the handler gets.
pub data Route : Type 0 where
  reversed : Route
  token : Text → Text → Route
  head get_manifest get_blob : Text → Text → Route

-- The switch. A token without a service or a scope, and a manifest without authorization, are left to
-- the original registry.
unfoldable pub route : Request → Route
route r =
    let has_auth = not (text_eq r.authorization []) in
    elim (is_service_token r) [
      | some (service, scope) ↦
          if text_eq service [] || text_eq scope [] then reversed else token service scope
      | none ↦ elim (is_head_image_digest r) [
        | some (repo, tag) ↦ if has_auth then head repo tag else reversed
        | none ↦ elim (is_manifest_get r) [
          | some (repo, tag) ↦ if has_auth then get_manifest repo tag else reversed
          | none ↦ elim (is_blob_get r.path) [
            | some (repo, digest) ↦ get_blob repo digest
            | none ↦ reversed
          ]
        ]
      ]
    ]

module _ (master : Master) (cfg : Storage) (w : World) where
  -- A handler that fails lets the original registry answer.
  unfoldable pub serve_route : Route → Request → Node → Answer
  serve_route reversed r n = proxied r
  serve_route (token service scope) r n = elim (master.get_service_token r service scope) [
    | none ↦ proxied r
    | some t ↦ body t
  ]
  serve_route (head repo tag) r n = elim (master.head_manifest r repo tag) [
    | none ↦ proxied r
    | some hs ↦ headers hs
  ]
  serve_route (get_manifest repo tag) r n = elim (master.get_manifest r repo tag) [
    | none ↦ proxied r
    | some m ↦ body m
  ]
  serve_route (get_blob repo digest) r n = blob (serve_blob cfg w digest n)

  -- `mapping` is the mapping of the proxy's host, if there is one.
  unfoldable pub serve_http : Option RegistryMapping → Request → Node → Answer
  unfolding route serve_route
  serve_http mapping r n =
      let disabled = elim mapping as (λ o. Bool) [ none ↦ false | some m ↦ not m.enable ] in
      if disabled then proxied r else serve_route (route r) r n
