-- ===== src/Layer/Info/Tests.antt =====
-- layer.go: a node that downloads a layer from 1 MB in a cluster with torrents.
use Prim.Native.Nat.{ℕ, ◌*◌}
use accelerboat.Base.{◌≡◌, ◌≢◌, refl, ◌⊎◌, true, Option, none, some, [], ◌∷◌, arith, ap}
use accelerboat.Base.Int.{ℤ, pos}
use accelerboat.Base.Keys.{lookup}
use accelerboat.Base.Text.{Text, codes}
use accelerboat.Layer.Cached.{DownloadLayerRequest}
use accelerboat.Layer.Download.{Response, LayerOs, quiet, path_join, layer_file_name}
use accelerboat.Layer.Info.{Config, mb, download_layer}
use accelerboat.Layer.Info.Fresh.{IsAnswered, download_layer_lem}

abbrev cfg : Config
cfg = record {
  address = codes "10.0.0.2";
  download_path = codes "/d";
  transfer_path = codes "/t";
  small_file_path = codes "/s";
  torrent_enable = true;
  torrent_threshold = 1;
}

abbrev req : DownloadLayerRequest
req = record {
  original_host = codes "docker.io";
  layer_url = codes "/v2/library/nginx/blobs/sha256:ab";
  headers = [];
  repo = codes "library/nginx";
  digest = codes "sha256:ab";
}

abbrev torrent : Text → Text → Option Text
torrent digest p = some (codes "d8")

-- Of a layer, the bytes of which stand for a megabyte each.
abbrev megabytes : Text → ℤ
megabytes [] = pos 0
megabytes (c ∷ []) = pos mb
megabytes (c ∷ d ∷ s) = pos (2 * mb)

abbrev send : DownloadLayerRequest → Option Response
send r = some (record { status_code = 200; body = codes "AB"; is_complete = true })

abbrev los : LayerOs
los = record {
  os = record { can_create = λ p. true; can_rename = λ p q. true };
  can_stat = λ p. true;
  progress = quiet;
}

paths_differ :
    path_join cfg.download_path (layer_file_name req.digest)
    ≢ path_join cfg.transfer_path (layer_file_name req.digest)
unfolding path_join
paths_differ e = absurd (omega (arith, ap second e))
  where
    second : Text → ℕ
    second [] = 0
    second (x ∷ []) = 0
    second (x ∷ y ∷ s) = y

download_layer_lem_example :
    let (r, fs') = download_layer cfg torrent megabytes send los req [] in
    let dest = path_join cfg.transfer_path (layer_file_name req.digest) in
    ((r ≡ none)
      × ((j : Text)
          → path_join cfg.download_path (layer_file_name req.digest) ≢ j
          → lookup j fs' ≡ lookup j []))
    ⊎ (resp : Response) × (send req ≡ some resp)
      × (resp.status_code ≡ 200)
      × (resp.is_complete ≡ true)
      × (lookup dest fs' ≡ some resp.body)
      × IsAnswered cfg megabytes los dest resp.body r
download_layer_lem_example =
    download_layer_lem cfg torrent megabytes send los req [] paths_differ refl
