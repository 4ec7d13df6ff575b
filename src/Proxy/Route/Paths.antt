-- ===== src/Proxy/Route/Paths.antt =====
-- proxy.go: what ServeHTTP does with the requests for a blob and for a manifest.
use accelerboat.Base.{
  ◌≡◌, ap, ◌∙◌, ◌⊎◌, true, not, none, some, [], ◌++◌, arith, if◌then◌else◌, length,
}
use accelerboat.Base.Text.{Text, codes, text_eq, Lacks}
use accelerboat.Registry.Uri.{
  Request, is_service_token, is_head_image_digest, is_manifest_get, is_blob_get, match_manifest,
  all_alnum,
}
use accelerboat.Registry.Uri.Print.{
  blob_path, manifest_path, match_manifest-path, is_blob_get-path, all_alnum-Lacks,
}
use accelerboat.Options.{RegistryMapping}
use accelerboat.Proxy.{Storage, Node, World, serve_blob}
use accelerboat.Proxy.Blob.{IsServed, serve_blob_lem}
use accelerboat.Proxy.Route.{
  body, proxied, blob, Master, reversed, get_manifest, get_blob, route, serve_route, serve_http,
}

no_token : (r : Request) (s : Text) → r.path ≡ codes "/v2/" ++ s → is_service_token r ≡ none
unfolding is_service_token text_eq
no_token r s e = rw (e, is_service_token) (ground arith)

module _ (r : Request) (repo : Text) where
  no_head : match_manifest r.path ≡ none → is_head_image_digest r ≡ none
  unfolding is_head_image_digest
  no_head e = rw (e, is_head_image_digest) (ground arith)

  no_manifest : match_manifest r.path ≡ none → is_manifest_get r ≡ none
  unfolding is_manifest_get
  no_manifest e = rw (e, is_manifest_get) (ground arith)

  blob_route :
      (hex : Text)
      → r.path ≡ blob_path repo hex
      → match_manifest (blob_path repo hex) ≡ none
      → length hex ≡ 64
      → all_alnum hex ≡ true
      → route r ≡ get_blob repo hex
  unfolding route
  blob_route hex e none_there long good =
      let no_match = ap match_manifest e ∙ none_there in
      let found : is_blob_get r.path ≡ some (repo, hex) =
        ap is_blob_get e
        ∙ is_blob_get-path repo hex (all_alnum-Lacks hex good)
        ∙ ground (arith, long, good) in
      rw (
        no_token r (repo ++ (codes "/blobs/sha256:" ++ hex)) e,
        no_head no_match,
        no_manifest no_match,
        found,
        route,
      )

  get_no_head : r.method ≡ codes "GET" → is_head_image_digest r ≡ none
  unfolding is_head_image_digest text_eq
  get_no_head get = rw (get, is_head_image_digest)

  get_manifest_lem :
      (tag : Text)
      → r.path ≡ manifest_path repo tag
      → r.method ≡ codes "GET"
      → Lacks b'/' tag
      → is_manifest_get r ≡ some (repo, tag)
  unfolding is_manifest_get text_eq
  get_manifest_lem tag e get plain =
      rw (get, is_manifest_get) (ap match_manifest e ∙ match_manifest-path repo tag plain)

  manifest_route :
      (tag : Text)
      → r.path ≡ manifest_path repo tag
      → r.method ≡ codes "GET"
      → Lacks b'/' tag
      → route r ≡ (if not (text_eq r.authorization []) then get_manifest repo tag else reversed)
  unfolding route
  manifest_route tag e get plain = rw (
    no_token r (repo ++ (codes "/manifests/" ++ tag)) e,
    get_no_head get,
    get_manifest_lem tag e get plain,
    route,
  )

  module _ (master : Master) (cfg : Storage) (w : World) (mapping : RegistryMapping)
      (enabled : mapping.enable ≡ true) (n : Node) where
    serve_enabled :
        serve_http master cfg w (some mapping) r n ≡ serve_route master cfg w (route r) r n
    unfolding serve_http
    serve_enabled = rw (enabled, serve_http)

    -- A request for the path of a blob, with 64 letters and digits for the digest, of a repository whose
    -- path is not one of a manifest too, is served by the node, when its mapping is enabled and a local
    -- file that is there is served whole: the client gets one whole file of the layer from a directory
    -- of finished layers, or the answer of the original registry with nothing before it.
    pub serve_http-blob :
        (hex : Text)
        → r.path ≡ blob_path repo hex
        → match_manifest (blob_path repo hex) ≡ none
        → length hex ≡ 64
        → all_alnum hex ≡ true
        → ((p bytes : Text) → w.send p bytes ≡ bytes)
        → ((p bytes : Text) → w.copy p bytes ≡ (bytes, true))
        → (n' : Node) × (serve_http master cfg w (some mapping) r n ≡ blob n')
          × (IsServed cfg hex n.out n' ⊎ (n'.out ≡ n.out ++ w.reversed hex))
    unfolding serve_route
    serve_http-blob hex e none_there long good sends copies = (
      serve_blob cfg w hex n,
      serve_enabled
          ∙ ap (λ q. serve_route master cfg w q r n) (blob_route hex e none_there long good),
      serve_blob_lem cfg w sends copies hex n,
    )

    -- A GET of the path of a manifest, with a tag or digest without '/', is answered with the master's
    -- manifest exactly if the request has an authorization and the master gives one for the repository
    -- and the tag of the path; else the original registry answers. The mapping is enabled.
    pub serve_http-manifest :
        (tag : Text)
        → r.path ≡ manifest_path repo tag
        → r.method ≡ codes "GET"
        → Lacks b'/' tag
        → serve_http master cfg w (some mapping) r n ≡ (
            if text_eq r.authorization []
            then proxied r
            else elim (master.get_manifest r repo tag) [ none ↦ proxied r | some m ↦ body m ])
    unfolding serve_route
    serve_http-manifest tag e get plain =
        serve_enabled
        ∙ ap (λ q. serve_route master cfg w q r n) (manifest_route tag e get plain)
        ∙ ground arith
