-- ===== src/Layer/Info/Fresh.antt =====
-- layer.go: what a node answers when the master makes it download a layer.
use accelerboat.Base.{
  ◌≡◌, ◌≢◌, refl, ◌⊎◌, inl, inr, Bool, true, false, Option, none, some, [], if◌then◌else◌,
  Bool-cases, ◌&&◌,
}
use accelerboat.Base.Int.{ℤ}
use accelerboat.Base.Keys.{lookup}
use accelerboat.Base.Text.{Text}
use accelerboat.Layer.Cached.{DownloadLayerRequest, DownloadLayerResponse}
use accelerboat.Layer.Download.{
  Files, Response, LayerOs, path_join, layer_file_name, request_download_layer, quiet,
}
use accelerboat.Layer.Download.Stored.{request_download_layer_lem}
use accelerboat.Layer.Info.{Config, is_small_for_torrent, torrent_of, download_layer}

torrent_of-small :
    (cfg : Config) (generate : Text → Text → Option Text) (digest p : Text) (size : ℤ)
    → is_small_for_torrent cfg size ≡ true
    → torrent_of cfg (λ p. none) generate digest p size ≡ []
unfolding torrent_of
torrent_of-small cfg generate digest p size small = rw (torrent_of, small) refl

-- An answer that names a file with these bytes.
abbrev pub Names : Config → (Text → ℤ) → Text → Text → DownloadLayerResponse → Type 0
Names cfg size dest body x =
    (x.located ≡ cfg.address)
    × (x.file_path ≡ dest)
    × (x.file_size ≡ size body)
    × (is_small_for_torrent cfg (size body) ≡ true → x.torrent_base64 ≡ [])

-- A file with the body was stored: DownloadLayer answers with it, or cannot stat it.
abbrev pub IsAnswered :
    Config → (Text → ℤ) → LayerOs → Text → Text → Option DownloadLayerResponse → Type 0
IsAnswered cfg size los dest body r =
    ((los.can_stat dest ≡ false) × (r ≡ none))
    ⊎ (los.can_stat dest ≡ true)
      × ((x : DownloadLayerResponse) × (r ≡ some x) × Names cfg size dest body x)

stored_lem :
    (cfg : Config) (generate : Text → Text → Option Text) (size : Text → ℤ) (los : LayerOs)
    (digest dest body : Text) (files : Files) (done : Bool)
    → done ≡ true
    → lookup dest files ≡ some body
    → IsAnswered cfg size los dest body
        (elim (if done && los.can_stat dest then lookup dest files else none)
          as (λ o. Option DownloadLayerResponse) [
            | none ↦ none
            | some bytes ↦ some (record {
              torrent_base64 = torrent_of cfg (λ p. none) generate digest dest (size bytes);
              located = cfg.address;
              file_path = dest;
              file_size = size bytes;
            })
          ])
stored_lem cfg generate size los digest dest body files done e at =
    elim (Bool-cases (los.can_stat dest)) [
      | inl can ↦
          rw (e, can, at)
            (inr (
              refl,
              (
                _,
                refl,
                (
                  refl,
                  refl,
                  refl,
                  λ small. torrent_of-small cfg generate digest dest (size body) small,
                ),
              ),
            ))
      | inr cannot ↦ rw (e, cannot) (inl (refl, refl))
    ]

-- DownloadLayer ends in one of three ways. It fails, and no file but that of the download is changed.
-- Or the path of the layer among the transferred files holds the whole body of an answer 200 of the
-- registry: then it answers with the node's own address, that path and the size of the body, with no
-- torrent if torrents are disabled or the file is below the threshold; or the stat of the path fails,
-- and so does it. The path is not the file of the download, and no tick of the progress goroutine sets
-- err between an assignment and a read of it.
pub download_layer_lem :
    (cfg : Config) (generate : Text → Text → Option Text) (size : Text → ℤ)
    (send : DownloadLayerRequest → Option Response) (los : LayerOs) (req : DownloadLayerRequest)
    (fs : Files)
    → path_join cfg.download_path (layer_file_name req.digest)
      ≢ path_join cfg.transfer_path (layer_file_name req.digest)
    → los.progress ≡ quiet
    → let (r, fs') = download_layer cfg generate size send los req fs in
      let dest = path_join cfg.transfer_path (layer_file_name req.digest) in
      ((r ≡ none)
        × ((j : Text)
            → path_join cfg.download_path (layer_file_name req.digest) ≢ j
            → lookup j fs' ≡ lookup j fs))
      ⊎ (resp : Response) × (send req ≡ some resp)
        × (resp.status_code ≡ 200)
        × (resp.is_complete ≡ true)
        × (lookup dest fs' ≡ some resp.body)
        × IsAnswered cfg size los dest resp.body r
unfolding download_layer
download_layer_lem cfg generate size send los req fs differ calm =
    elim (request_download_layer_lem send los cfg.download_path req dest fs differ calm) [
      | inl (e, same) ↦ inl (nothing e, same)
      | inr (resp, s, ok, inl (e, same)) ↦ inl (nothing e, same)
      | inr (resp, s, ok, inr (e, whole, at, gone, same)) ↦ inr (
        resp,
        s,
        ok,
        whole,
        at,
        stored_lem cfg generate size los req.digest dest resp.body got.1 got.0 e at,
      )
    ]
  where
    dest : Text
    dest = path_join cfg.transfer_path (layer_file_name req.digest)

    got : Bool × Files
    got = request_download_layer send los cfg.download_path req dest fs

    nothing : got.0 ≡ false → (download_layer cfg generate size send los req fs).0 ≡ none
    nothing e = rw (e, download_layer) refl
