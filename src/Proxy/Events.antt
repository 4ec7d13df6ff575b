-- ===== src/Proxy/Events.antt =====
-- pkg/server/registry/recorder.go: the events that a proxy records. The recorder adds the time and the
-- id of the request; durations are milliseconds, and an error is its text.
pub mod Uses
use Prim.Native.Nat.{ℕ}
use accelerboat.Base.{
  ◌≡◌, Bool, true, false, not, Option, none, some, List, [], ◌∷◌, ◌++◌, if◌then◌else◌,
}
use accelerboat.Base.Int.{ℤ, pos}
use accelerboat.Base.Keys.{insert}
use accelerboat.Base.Text.{Text, codes, text_eq}
use accelerboat.Recorder.{Event, Value, str, int, Details}
use accelerboat.Layer.Cached.{DownloadLayerResponse}

abbrev event_of : Text → Text → Details → Text → Event
event_of kind status details message = record {
  kind = kind;
  timestamp = 0;
  request_id = [];
  event_status = status;
  details = details;
  message = message;
}

-- A warning with the error, or the message of a success.
unfoldable pub ended : Text → Details → Text → Text → Option Text → Event
ended kind details failed done err = elim err [
  | none ↦ event_of kind (codes "Normal") details done
  | some e ↦ event_of kind (codes "Warning") details (failed ++ e)
]

-- Requests for "/v2/" are not recorded.
unfoldable pub recorder_reverse_proxy : Text → Text → Text → Option Event
recorder_reverse_proxy original_host method path =
    if text_eq path (codes "/v2/")
    then none
    else some (
        event_of (codes "reverse_proxy") (codes "Normal")
          ((codes "registry", str original_host)
            ∷ (codes "method", str method)
            ∷ (codes "path", str path)
            ∷ [])
          (codes "Reverse proxy request"))

unfoldable pub recorder_reverse_proxy_failed : Text → Text → Text → Text → Option Event
recorder_reverse_proxy_failed original_host method path err =
    if text_eq path (codes "/v2/")
    then none
    else some (
        event_of (codes "reverse_proxy") (codes "Warning")
          ((codes "registry", str original_host)
            ∷ (codes "method", str method)
            ∷ (codes "path", str path)
            ∷ [])
          (codes "Reverse proxy request occurred error: " ++ err))

unfoldable pub recorder_service_token : Text → ℤ → Text → Text → Text → Option Text → Event
unfolding ended
recorder_service_token original_host duration master service scope =
    ended (codes "service_token")
      ((codes "registry", str original_host)
        ∷ (codes "service", str service)
        ∷ (codes "scope", str scope)
        ∷ (codes "duration_ms", int duration)
        ∷ (codes "master", str master)
        ∷ [])
      (codes "Get servicetoken from master failed: ") (codes "Get servicetoken from master success")

unfoldable pub recorder_head_manifest : Text → ℤ → Text → Text → Text → Option Text → Event
unfolding ended
recorder_head_manifest original_host duration master repo tag =
    ended (codes "head_manifest")
      ((codes "registry", str original_host)
        ∷ (codes "repo", str repo)
        ∷ (codes "tag", str tag)
        ∷ (codes "master", str master)
        ∷ (codes "duration_ms", int duration)
        ∷ [])
      (codes "Head manifest from master failed: ") (codes "Head manifest from master success")

unfoldable pub recorder_get_manifest : Text → ℤ → Text → Text → Text → Option Text → Event
unfolding ended
recorder_get_manifest original_host duration master repo tag =
    ended (codes "get_manifest")
      ((codes "registry", str original_host)
        ∷ (codes "repo", str repo)
        ∷ (codes "tag", str tag)
        ∷ (codes "duration_ms", int duration)
        ∷ (codes "master", str master)
        ∷ [])
      (codes "Get manifest from master failed: ") (codes "Get manifest from master success")

module _ (original_host repo digest : Text) where
  abbrev of_blob : Details → Details
  of_blob rest =
      (codes "registry", str original_host)
      ∷ (codes "repo", str repo)
      ∷ (codes "digest", str digest)
      ∷ rest

  abbrev of_answer : DownloadLayerResponse → Details → Details
  of_answer resp rest = of_blob (
      (codes "target", str resp.located)
      ∷ (codes "file", str resp.file_path)
      ∷ (codes "size", int resp.file_size)
      ∷ rest)

  unfoldable pub recorder_serve_blob_from_local : ℤ → ℤ → Option Text → Event
  unfolding ended
  recorder_serve_blob_from_local duration size =
      ended (codes "serve_blob_from_local")
        (of_blob ((codes "duration_ms", int duration) ∷ (codes "size", int size) ∷ []))
        (codes "Serve blob to client from local failed: ")
        (codes "Serve blob to client from local success")

  -- The two events of recorderWrapGetBlobFromMaster; an error, or the answer of the master.
  unfoldable pub get_blob_from_master_events :
      ℤ → Text → Text → Option DownloadLayerResponse → List Event
  unfolding ended
  get_blob_from_master_events duration master err answer =
      let details =
        of_blob ((codes "duration_ms", int duration) ∷ (codes "master", str master) ∷ []) in
      event_of (codes "get_blob_from_master") (codes "Normal") (of_blob [])
        (codes "Get blob from master starting")
      ∷ elim answer [
        | none ↦
            ended (codes "get_blob_from_master") details (codes "Get blob from master failed: ")
              (codes "Get blob from master success") (some err)
        | some resp ↦
            ended (codes "get_blob_from_master")
              (insert (codes "size") (int resp.file_size) (
                insert (codes "file") (str resp.file_path)
                  (insert (codes "target") (str resp.located) details)))
              (codes "Get blob from master failed: ") (codes "Get blob from master success") none
      ]
      ∷ []

  -- The two events of recorderWrapDownloadBlobByTCP.
  unfoldable pub download_blob_by_tcp_events : ℤ → DownloadLayerResponse → Option Text → List Event
  unfolding ended
  download_blob_by_tcp_events duration resp err =
      event_of (codes "download_blob_by_tcp") (codes "Normal") (of_answer resp [])
        (codes "Download blob by tcp starting")
      ∷ ended (codes "download_blob_by_tcp")
          (of_answer resp ((codes "duration_ms", int duration) ∷ []))
          (codes "Download blob by tcp failed: ") (codes "Download blob by tcp success") err
      ∷ []

  -- The two events of recorderWrapDownloadBlobByTorrent.
  unfoldable pub download_blob_by_torrent_events :
      ℤ → DownloadLayerResponse → Option Text → List Event
  unfolding ended
  download_blob_by_torrent_events duration resp err =
      event_of (codes "download_blob_by_torrent") (codes "Normal") (of_answer resp [])
        (codes "Download blob by torrent starting")
      ∷ ended (codes "download_blob_by_torrent")
          (of_answer resp ((codes "duration_ms", int duration) ∷ []))
          (codes "Download blob by torrent failed: ") (codes "Download blob by torrent success") err
      ∷ []

-- How the calls of one run of handleGetBlob end: the size of a local file and its path, whether a file
-- is served, the answer of the master, and the errors of the downloads. `took` measures the calls.
pub record GetBlobRun : Type 0 where
  pub local : Option (ℤ × Text)
  pub served_at_once : Bool
  pub master : Text
  pub ask_error : Text
  pub answer : Option DownloadLayerResponse
  pub served_first : Bool
  pub torrent_error : Option Text
  pub tcp_error : Option Text
  pub served_after : Bool
  pub took : ℕ → ℤ

module _ (original_host repo digest : Text) where
  -- The events of handleLayerDownload, and whether it succeeds.
  unfoldable pub handle_layer_download_events :
      DownloadLayerResponse → GetBlobRun → List Event × Bool
  unfolding download_blob_by_tcp_events download_blob_by_torrent_events
  handle_layer_download_events resp run =
      let tcp =
        download_blob_by_tcp_events original_host repo digest (run.took 2) resp run.tcp_error in
      let torrent =
        download_blob_by_torrent_events original_host repo digest (run.took 3) resp
          run.torrent_error in
      let by_tcp : Bool = elim run.tcp_error [ none ↦ true | some e ↦ false ] in
      elim resp.torrent_base64 [
        | [] ↦ (tcp, by_tcp)
        | ◌∷◌ c s ↦ elim run.torrent_error [
          | none ↦ (torrent, true)
          | some e ↦ (torrent ++ tcp, by_tcp)
        ]
      ]

  -- The events of handleGetBlob, in their order.
  unfoldable pub handle_get_blob_events : GetBlobRun → List Event
  unfolding recorder_serve_blob_from_local get_blob_from_master_events handle_layer_download_events
  handle_get_blob_events run = elim run.local [
    | some (size, lp) ↦
        recorder_serve_blob_from_local original_host repo digest (run.took 0) size (
          if run.served_at_once
          then none
          else some (codes "serve local file '" ++ (lp ++ codes "' not success")))
        ∷ []
    | none ↦
        get_blob_from_master_events original_host repo digest (run.took 1) run.master run.ask_error
          run.answer
        ++ elim run.answer [
          | none ↦ []
          | some resp ↦
              let (downloads, done) = handle_layer_download_events resp run in
              let serve =
                recorder_serve_blob_from_local original_host repo digest (run.took 4)
                  resp.file_size in
              if run.served_first
              then serve none ∷ []
              else if done
              then downloads
                ++ (serve (
                      if run.served_after
                      then none
                      else some (codes "download from local not success"))
                    ∷ [])
              else downloads
        ]
  ]
