-- ===== src/Layer/Info.antt =====
-- layer.go: getLayerContentLength, GetLayerInfo and DownloadLayer. check.go: the two checks.
pub mod Served
pub mod Answers
pub mod Fresh
pub mod Tests
use Prim.Native.Nat.{ℕ, ◌*◌}
use accelerboat.Base.{
  ◌≡◌, Bool, true, false, not, ◌&&◌, ◌||◌, Option, none, some, List, [], ◌∷◌, ◌++◌, if◌then◌else◌,
}
use accelerboat.Base.Int.{ℤ, pos, ltb_ℤ, ◌==ℤ◌}
use accelerboat.Base.Keys.{lookup}
use accelerboat.Base.Text.{Text, codes}
use accelerboat.Store.{Redis}
use accelerboat.Layer.Nodes.{Tasks, distribute_download_layer}
use accelerboat.Layer.Cached.{
  DownloadLayerRequest, DownloadLayerResponse, CheckStaticLayerRequest, CheckOciLayerRequest,
  CheckLayerResponse, Caches, check_layer_has_cached,
}
use accelerboat.Layer.Download.{
  Files, Response, LayerOs, path_join, layer_file_name, request_download_layer,
}

-- op.Address, op.StorageConfig and op.TorrentConfig. The threshold is below 2 ^ 43, so that its product
-- with MB is an int64.
pub record Config : Type 0 where
  pub address : Text
  pub download_path : Text
  pub transfer_path : Text
  pub small_file_path : Text
  pub torrent_enable : Bool
  pub torrent_threshold : ℕ

abbrev pub mb : ℕ
mb = 1048576

abbrev pub twenty_mb : ℕ
twenty_mb = 20 * mb

unfoldable pub is_small_for_torrent : Config → ℤ → Bool
is_small_for_torrent cfg file_size =
    not cfg.torrent_enable || ltb_ℤ file_size (pos (cfg.torrent_threshold * mb))

-- What a node answers with: `stat` gives the size of a file, and `generate` the torrent of a digest
-- and a file, `none` for an error.
module _ (cfg : Config) (stat : Text → Option ℤ) (generate : Text → Text → Option Text) where
  -- The torrent of a response, empty when there is none.
  unfoldable pub torrent_of : Text → Text → ℤ → Text
  torrent_of digest layer_path file_size =
      if is_small_for_torrent cfg file_size
      then []
      else elim (generate digest layer_path) [ none ↦ [] | some torrent ↦ torrent ]

  unfoldable pub check_static_layer : CheckStaticLayerRequest → Option CheckLayerResponse
  unfolding torrent_of
  check_static_layer req = elim (stat req.layer_path) [
    | none ↦ none
    | some file_size ↦
        if not (file_size ==ℤ req.expected_content_length)
        then none
        else some (record {
          located = cfg.address;
          layer_path = req.layer_path;
          torrent_base64 = torrent_of req.digest req.layer_path file_size;
          file_size = file_size;
        })
  ]

  -- `generate_layer` is GenerateLayer of the scanner.
  unfoldable pub check_oci_layer :
      (Text → Text → Option Text) → CheckOciLayerRequest → Option CheckLayerResponse
  check_oci_layer generate_layer req = elim (generate_layer req.oci_type req.digest) [
    | none ↦ none
    | some layer_path ↦ elim (stat layer_path) [
      | none ↦ none
      | some file_size ↦ some (record {
        located = cfg.address;
        layer_path = layer_path;
        torrent_base64 = [];
        file_size = file_size;
      })
    ]
  ]

-- DownloadLayer: `size` is the size of a file's bytes.
unfoldable pub download_layer :
    Config
    → (Text → Text → Option Text)
    → (Text → ℤ)
    → (DownloadLayerRequest → Option Response)
    → LayerOs
    → DownloadLayerRequest
    → Files
    → Option DownloadLayerResponse × Files
download_layer cfg generate size send los req fs =
    let result_path = path_join cfg.transfer_path (layer_file_name req.digest) in
    let (done, fs') = request_download_layer send los cfg.download_path req result_path fs in
    (
      elim (if done && los.can_stat result_path then lookup result_path fs' else none) [
        | none ↦ none
        | some bytes ↦ some (record {
          torrent_base64 = torrent_of cfg (λ p. none) generate req.digest result_path (size bytes);
          located = cfg.address;
          file_path = result_path;
          file_size = size bytes;
        })
      ],
      fs',
    )

-- go-cache, with the clock in its state.
pub record LengthCache : Type 1 where
  pub State : Type 0
  pub get : Text → State → Option ℤ
  pub set : Text → ℤ → State → State

unfoldable pub build_content_length_key : Text → Text → Text
build_content_length_key host digest = host ++ (b',' ∷ digest)

-- `head` is the Content-Length that the registry answers to a HEAD request, `none` for an error.
module _ (cache : LengthCache) (head : DownloadLayerRequest → Option ℤ) where
  unfoldable pub get_layer_content_length :
      DownloadLayerRequest → cache.State → Option ℤ × cache.State
  get_layer_content_length req s =
      let key = build_content_length_key req.original_host req.digest in
      elim (cache.get key s) [
        | some n ↦ (some n, s)
        | none ↦ elim (head req) [ none ↦ (none, s) | some n ↦ (some n, cache.set key n s) ]
      ]

-- What the master holds, and the other nodes as it sees them.
pub record Master (C S W : Type 0) : Type 0 where
  pub lengths : C
  pub caches : Caches S
  pub tasks : Tasks
  pub files : Files
  pub world : W

module _ (cfg : Config) (cache : LengthCache) (head : DownloadLayerRequest → Option ℤ)
    (redis : Redis) (check_static : Text → CheckStaticLayerRequest → Option CheckLayerResponse)
    (check_oci : Text → CheckOciLayerRequest → Option CheckLayerResponse)
    (send : DownloadLayerRequest → Option Response) (los : LayerOs) {W : Type 0}
    (endpoints : W → List Text)
    (ask : DownloadLayerRequest → Text → W → Option DownloadLayerResponse × W) where
  -- What GetLayerInfo does when no cached location passes.
  unfoldable pub fetch_layer :
      DownloadLayerRequest
      → ℤ
      → Master cache.State redis.Server W
      → Option DownloadLayerResponse × Master cache.State redis.Server W
  fetch_layer req content_length m =
      let result_path = path_join cfg.small_file_path (layer_file_name req.digest) in
      let (done, files) =
        request_download_layer send los cfg.download_path req result_path m.files in
      let (resp, world, tasks) = distribute_download_layer endpoints (ask req) m.world m.tasks in
      if ltb_ℤ content_length (pos twenty_mb)
      then (
        (if done
            then some (record {
              torrent_base64 = [];
              located = cfg.address;
              file_path = result_path;
              file_size = content_length;
            })
            else none),
        record m { files = files },
      )
      else (resp, record m { world = world; tasks = tasks })

  unfoldable pub get_layer_info :
      DownloadLayerRequest
      → ℕ
      → Master cache.State redis.Server W
      → Option DownloadLayerResponse × Master cache.State redis.Server W
  get_layer_info req now m =
      let (length, lengths) = get_layer_content_length cache head req m.lengths in
      elim length [
        | none ↦ (none, record m { lengths = lengths })
        | some n ↦
            let (resp, caches) =
              check_layer_has_cached redis check_static check_oci req n now m.caches in
            let m' = record m { lengths = lengths; caches = caches } in
            let fetched = fetch_layer req n m' in
            elim resp [ some r ↦ (some r, m') | none ↦ fetched ]
      ]
