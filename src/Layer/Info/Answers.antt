-- ===== src/Layer/Info/Answers.antt =====
-- layer.go, check.go: what a successful answer of GetLayerInfo promises.
use Prim.Native.Nat.{ℕ}
use accelerboat.Base.{
  ◌≡◌, ◌≢◌, refl, sym, ap, ◌∙◌, ◌⊎◌, inl, inr, Bool, true, false, Option, none, some, List, [],
  if◌then◌else◌, Option-cases, if_ind, subst, some_inj,
}
use accelerboat.Base.Int.{ℤ, pos, ltb_ℤ}
use accelerboat.Base.Keys.{lookup}
use accelerboat.Base.Text.{Text}
use accelerboat.Store.{Redis}
use accelerboat.Layer.Nodes.{distribute_download_layer}
use accelerboat.Layer.Cached.{
  DownloadLayerRequest, DownloadLayerResponse, CheckStaticLayerRequest, CheckOciLayerRequest,
  CheckLayerResponse, check_layer_has_cached,
}
use accelerboat.Layer.Download.{
  Files, Response, LayerOs, path_join, layer_file_name, request_download_layer, quiet,
}
use accelerboat.Layer.Download.Stored.{request_download_layer_lem, IsEnd}
use accelerboat.Layer.Info.{
  Config, twenty_mb, LengthCache, get_layer_content_length, Master, fetch_layer, get_layer_info,
}

module _ (cfg : Config) (cache : LengthCache) (head : DownloadLayerRequest → Option ℤ)
    (redis : Redis) (check_static : Text → CheckStaticLayerRequest → Option CheckLayerResponse)
    (check_oci : Text → CheckOciLayerRequest → Option CheckLayerResponse)
    (send : DownloadLayerRequest → Option Response) (los : LayerOs) {W : Type 0}
    (endpoints : W → List Text)
    (ask : DownloadLayerRequest → Text → W → Option DownloadLayerResponse × W) where
  abbrev State : Type 0
  State = Master cache.State redis.Server W

  -- A layer of less than 20 MB was downloaded here, and a larger one by a node.
  abbrev pub IsFetched : DownloadLayerRequest → ℤ → State → DownloadLayerResponse → State → Type 0
  IsFetched req n m r m' =
      ((ltb_ℤ n (pos twenty_mb) ≡ true)
        × (r.located ≡ cfg.address)
        × (r.file_size ≡ n)
        × ((resp : Response) × (send req ≡ some resp)
            × (resp.status_code ≡ 200)
            × (resp.is_complete ≡ true)
            × (lookup r.file_path m'.files ≡ some resp.body)))
      ⊎ (ltb_ℤ n (pos twenty_mb) ≡ false)
        × ((distribute_download_layer endpoints (ask req) m.world m.tasks).0 ≡ some r)

  Answered :
      DownloadLayerRequest
      → ℤ
      → State
      → DownloadLayerResponse
      → Option DownloadLayerResponse × State
      → Type 0
  Answered req n m r (o, m') = o ≡ some r → IsFetched req n m r m'

  abbrev full_path : DownloadLayerRequest → Text
  full_path req = path_join cfg.download_path (layer_file_name req.digest)

  abbrev small_path : DownloadLayerRequest → Text
  small_path req = path_join cfg.small_file_path (layer_file_name req.digest)

  small_lem :
      (req : DownloadLayerRequest) (n : ℤ) (m : State) (r : DownloadLayerResponse)
      (p : Bool × Files)
      → ltb_ℤ n (pos twenty_mb) ≡ true
      → ((p.0 ≡ false) × ((j : Text) → full_path req ≢ j → lookup j p.1 ≡ lookup j m.files))
        ⊎ (resp : Response) × (send req ≡ some resp)
          × (resp.status_code ≡ 200)
          × IsEnd resp (full_path req) (small_path req) m.files p
      → Answered req n m r (
        (if p.0
            then some (record {
              torrent_base64 = [];
              located = cfg.address;
              file_path = small_path req;
              file_size = n;
            })
            else none),
        record m { files = p.1 },
      )
  unfolding Answered
  small_lem req n m r (done, files) small (inl (failed, rest)) e = absurd (cc (rw failed at e))
  small_lem req n m r (done, files) small (inr (resp, sent, ok, inl (failed, rest))) e =
      absurd (cc (rw failed at e))
  small_lem req n m r (done, files) small
        (inr (resp, sent, ok, inr (good, whole, stored, gone, rest))) e =
      let it = some_inj (rw good at e) in
      inl (
        small,
        ap (λ (q : DownloadLayerResponse). q.located) (sym it),
        ap (λ (q : DownloadLayerResponse). q.file_size) (sym it),
        (
          resp,
          sent,
          ok,
          whole,
          subst (λ j. lookup j files ≡ some resp.body)
              (ap (λ (q : DownloadLayerResponse). q.file_path) it) stored,
        ),
      )

  fetched_lem :
      (req : DownloadLayerRequest) (n : ℤ) (m : State) (r : DownloadLayerResponse)
      → full_path req ≢ small_path req
      → los.progress ≡ quiet
      → Answered req n m r
          (fetch_layer cfg cache head redis check_static check_oci send los endpoints ask req n m)
  unfolding fetch_layer Answered
  fetched_lem req n m r differ calm =
      if_ind (Answered req n m r) (ltb_ℤ n (pos twenty_mb)) _ _
        (λ small.
          small_lem req n m r
            (request_download_layer send los cfg.download_path req (small_path req) m.files) small
            (request_download_layer_lem send los cfg.download_path req (small_path req) m.files
              differ calm))
        (λ big. λ e. inr (big, e))

  abbrev info : DownloadLayerRequest → ℕ → State → Option DownloadLayerResponse × State
  info = get_layer_info cfg cache head redis check_static check_oci send los endpoints ask

  abbrev cached : DownloadLayerRequest → ℤ → ℕ → State → Option DownloadLayerResponse
  cached req n now m = (check_layer_has_cached redis check_static check_oci req n now m.caches).0

  -- The state in which the cached locations have been checked.
  checked : DownloadLayerRequest → ℤ → ℕ → State → State
  checked req n now m = record m {
    lengths = (get_layer_content_length cache head req m.lengths).1;
    caches = (check_layer_has_cached redis check_static check_oci req n now m.caches).1;
  }

  info-none :
      (req : DownloadLayerRequest) (now : ℕ) (m : State)
      → (get_layer_content_length cache head req m.lengths).0 ≡ none
      → (info req now m).0 ≡ none
  unfolding get_layer_info
  info-none req now m e = rw (e, get_layer_info) refl

  info-cached :
      (req : DownloadLayerRequest) (now : ℕ) (m : State) (n : ℤ) (r : DownloadLayerResponse)
      → (get_layer_content_length cache head req m.lengths).0 ≡ some n
      → cached req n now m ≡ some r
      → (info req now m).0 ≡ some r
  unfolding get_layer_info
  info-cached req now m n r e h = rw (e, h, get_layer_info) refl

  info_fetched :
      (req : DownloadLayerRequest) (now : ℕ) (m : State) (n : ℤ)
      → (get_layer_content_length cache head req m.lengths).0 ≡ some n
      → cached req n now m ≡ none
      → info req now m
        ≡ fetch_layer cfg cache head redis check_static check_oci send los endpoints ask req n
            (checked req n now m)
  unfolding get_layer_info checked
  info_fetched req now m n e h = rw (e, h, get_layer_info) refl

  IsFetched-at :
      (req : DownloadLayerRequest) (n : ℤ) (now : ℕ) (m : State) (r : DownloadLayerResponse)
      (p : Option DownloadLayerResponse × State)
      → p
        ≡ fetch_layer cfg cache head redis check_static check_oci send los endpoints ask req n
            (checked req n now m)
      → full_path req ≢ small_path req
      → los.progress ≡ quiet
      → p.0 ≡ some r
      → IsFetched req n m r p.1
  unfolding Answered checked
  IsFetched-at req n now m r p e differ calm =
      subst (Answered req n m r) (sym e) (fetched_lem req n (checked req n now m) r differ calm)

  -- GetLayerInfo answers with a layer only in one of three ways, once the length is known: a cached
  -- location has passed; or none has, the layer is smaller than 20 MB, and the master's file at the
  -- answered path holds a whole body that the registry answered with 200; or none has, the layer is not
  -- smaller, and distributeDownloadLayer answered. The download and small-file directories differ, and no
  -- tick of the download's progress goroutine sets err between an assignment and a read of it.
  pub get_layer_info_lem :
      (req : DownloadLayerRequest) (now : ℕ) (m : Master cache.State redis.Server W)
      (r : DownloadLayerResponse)
      → path_join cfg.download_path (layer_file_name req.digest)
        ≢ path_join cfg.small_file_path (layer_file_name req.digest)
      → los.progress ≡ quiet
      → let (o, m') =
          get_layer_info cfg cache head redis check_static check_oci send los endpoints ask req now
            m in
        o ≡ some r
        → (n : ℤ) × ((get_layer_content_length cache head req m.lengths).0 ≡ some n)
          × (((check_layer_has_cached redis check_static check_oci req n now m.caches).0 ≡ some r)
              ⊎ ((check_layer_has_cached redis check_static check_oci req n now m.caches).0 ≡ none)
                × IsFetched req n m r m')
  get_layer_info_lem req now m r differ calm e =
      elim (Option-cases (get_layer_content_length cache head req m.lengths).0) [
        | inl none' ↦ absurd (cc (info-none req now m none', e))
        | inr (n, some') ↦ elim (Option-cases (cached req n now m)) [
          | inr (q, hit) ↦ (n, some', inl (hit ∙ sym (info-cached req now m n q some' hit) ∙ e))
          | inl miss ↦ (
            n,
            some',
            inr (
              miss,
              IsFetched-at req n now m r (info req now m) (info_fetched req now m n some' miss)
                  differ calm e,
            ),
          )
        ]
      ]
