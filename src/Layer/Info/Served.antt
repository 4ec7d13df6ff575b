-- ===== src/Layer/Info/Served.antt =====
-- layer.go, check.go: what an answer of checkLayerHasCached promises when the nodes run CheckStaticLayer.
use Prim.Native.Nat.{ℕ}
use accelerboat.Base.{
  ◌≡◌, sym, ap, ◌∙◌, ◌⊎◌, inl, inr, Option, none, some, arith, Option-cases, some_inj,
}
use accelerboat.Base.Int.{ℤ, ==ℤ→eq}
use accelerboat.Base.Sort.{In}
use accelerboat.Base.Text.{Text}
use accelerboat.Store.{Redis, Found, LayerLocatedInfo, query_layers}
use accelerboat.Layer.Cached.{
  DownloadLayerRequest, DownloadLayerResponse, CheckStaticLayerRequest, CheckOciLayerRequest,
  CheckLayerResponse, Caches, check_layer_has_cached, static_request, to_response,
}
use accelerboat.Layer.Cached.Choice.{check_layer_has_cached_lem, passes_oci, referred}
use accelerboat.Layer.Info.{Config, check_static_layer}

check_static_layer_lem :
    (cfg : Config) (stat : Text → Option ℤ) (generate : Text → Text → Option Text)
    (req : CheckStaticLayerRequest) (a : CheckLayerResponse)
    → check_static_layer cfg stat generate req ≡ some a
    → (stat req.layer_path ≡ some req.expected_content_length)
      × (a.file_size ≡ req.expected_content_length)
      × (a.located ≡ cfg.address)
      × (a.layer_path ≡ req.layer_path)
unfolding check_static_layer
check_static_layer_lem cfg stat generate req a e = elim (Option-cases (stat req.layer_path)) [
  | inl none' ↦ absurd (cc (rw (none', check_static_layer) at e))
  | inr (n, some') ↦ ground (
    arith,
    some',
    ==ℤ→eq n req.expected_content_length,
    e,
    ap (elim_size a.file_size) e,
    ap (elim_located a.located) e,
    ap (elim_path a.layer_path) e,
  )
]
  where
    elim_size : ℤ → Option CheckLayerResponse → ℤ
    elim_size d none = d
    elim_size d (some b) = b.file_size

    elim_located : Text → Option CheckLayerResponse → Text
    elim_located d none = d
    elim_located d (some b) = b.located

    elim_path : Text → Option CheckLayerResponse → Text
    elim_path d none = d
    elim_path d (some b) = b.layer_path

-- The nodes of the cluster: their configurations, files and torrents, by address.
module _ (node : Text → Config) (stat : Text → Text → Option ℤ)
    (generate : Text → Text → Text → Option Text) (redis : Redis)
    (check_oci : Text → CheckOciLayerRequest → Option CheckLayerResponse) where
  -- requester.CheckStaticLayer, answered by the handler of the node.
  abbrev pub served : Text → CheckStaticLayerRequest → Option CheckLayerResponse
  served located = check_static_layer (node located) (stat located) (generate located)

  -- When every node answers by CheckStaticLayer, an answer of checkLayerHasCached is one of two. The
  -- node of a listed static location answers with its own address, the listed path and the expected
  -- length, and has a file of that length at that path. Or it is the answer of a node for a listed
  -- location of a container runtime.
  pub check_layer_has_cached-served :
      (req : DownloadLayerRequest) (content_length : ℤ) (now : ℕ) (found : Found)
      (c : Caches redis.Server) (r : DownloadLayerResponse)
      → query_layers redis req.digest now c.cache_store ≡ some found
      → (check_layer_has_cached redis served check_oci req content_length now c).0 ≡ some r
      → ((l : LayerLocatedInfo) × In l
            (referred redis served check_oci req content_length c.static_layer_refer found.0)
          × (stat l.located l.path ≡ some content_length)
          × (r.file_size ≡ content_length)
          × (r.located ≡ (node l.located).address)
          × (r.file_path ≡ l.path))
        ⊎ (l : LayerLocatedInfo) × (a : CheckLayerResponse) × In l
            (referred redis served check_oci req content_length c.oci_layer_refer found.1)
          × (passes_oci redis served check_oci req content_length l ≡ some a)
          × (r ≡ to_response a)
  check_layer_has_cached-served req content_length now found c r asks e =
      elim (check_layer_has_cached_lem redis served check_oci req content_length now found c asks) [
        | inl (l, a, (listed, passed, best), answer, counted) ↦
            let (size, same, at, path) =
              check_static_layer_lem (node l.located) (stat l.located) (generate l.located)
                (static_request req content_length l) a passed in
            let it : r ≡ to_response a = some_inj (sym e ∙ answer) in
            inl (
              l,
              listed,
              size,
              ap (λ (q : DownloadLayerResponse). q.file_size) it ∙ same,
              ap (λ (q : DownloadLayerResponse). q.located) it ∙ at,
              ap (λ (q : DownloadLayerResponse). q.file_path) it ∙ path,
            )
        | inr (all, inl (l, a, (listed, passed, best), answer, counted)) ↦
            inr (l, a, listed, passed, some_inj (sym e ∙ answer))
        | inr (all, inr (all', answer)) ↦ absurd (cc (sym e ∙ answer))
      ]
