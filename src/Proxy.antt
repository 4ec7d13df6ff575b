-- ===== src/Proxy.antt =====
-- pkg/server/registry/proxy.go: how a node serves a blob to its container runtime. The master, the
-- other nodes, BitTorrent and the original registry are parameters.
pub mod Blob
pub mod Events
pub mod Route
pub mod Tests
use Prim.Native.Nat.{ℕ}
use accelerboat.Base.{
  ◌≡◌, Bool, true, false, not, Option, none, some, List, [], ◌∷◌, ◌++◌, ◌==◌, if◌then◌else◌,
}
use accelerboat.Base.Keys.{lookup, insert}
use accelerboat.Base.Text.{Text, codes}
use accelerboat.Layer.Cached.{DownloadLayerResponse}
use accelerboat.Layer.Download.{Files, Response, Os, path_join, layer_file_name, rename}

-- op.StorageConfig
pub record Storage : Type 0 where
  pub download_path : Text
  pub transfer_path : Text
  pub small_file_path : Text
  pub oci_path : Text

-- The files of the node, and the body that was written to the client so far.
pub record Node : Type 0 where
  pub files : Files
  pub out : Text

-- `can_open` says whether a file opens with O_DIRECT. `send` is http.ServeFile and `copy` io.CopyBuffer
-- to the client, on a file and what it holds: the bytes written, and whether there is no error. `ask` is DownloadLayerFromMaster, which may make the master put the
-- layer here; `torrent` a download by BitTorrent; `fetch` the request to a node for a file, by TCP.
pub record World : Type 0 where
  pub can_open : Text → Bool
  pub send : Text → Text → Text
  pub copy : Text → Text → Text × Bool
  pub ask : Text → Files → Option DownloadLayerResponse × Files
  pub torrent : DownloadLayerResponse → Text → Files → Bool × Files
  pub fetch : Text → Text → Option Response
  pub os : Os
  pub reversed : Text → Text

-- os.Stat on the path of the layer in a directory.
abbrev pub stat_in : Text → Text → Files → Option (Text × Text)
stat_in dir digest fs =
    let p = path_join dir (layer_file_name digest) in
    elim (lookup p fs) [ none ↦ none | some bytes ↦ some (p, bytes) ]

-- The first of the three paths that there is, with what the file holds.
unfoldable pub check_local_layer : Storage → Text → Files → Option (Text × Text)
check_local_layer cfg digest fs = elim (stat_in cfg.transfer_path digest fs) [
  | some found ↦ some found
  | none ↦ elim (stat_in cfg.small_file_path digest fs) [
    | some found ↦ some found
    | none ↦ stat_in cfg.oci_path digest fs
  ]
]

-- pkg/utils/httpfile/httpfile.go: HTTPServeFile, on a file that is there.
unfoldable pub http_serve_file : World → Text → Text → Text × Bool
http_serve_file w p bytes = if not (w.can_open p) then (w.send p bytes, true) else w.copy p bytes

module _ (cfg : Storage) (w : World) where
  -- downloadLayerFromLocal; the limit of 20 at a time only makes it wait.
  unfoldable pub download_layer_from_local : Text → Node → Bool × Node
  download_layer_from_local digest n = elim (check_local_layer cfg digest n.files) [
    | none ↦ (false, n)
    | some (p, bytes) ↦
        let (written, ok) = http_serve_file w p bytes in (ok, record n { out = n.out ++ written })
  ]

  unfoldable pub save_layer_to_local : Response → Text → Text → Files → Bool × Files
  save_layer_to_local resp digest new_file fs =
      let tmp_file = path_join cfg.download_path (digest ++ codes ".tar.gzip") in
      let written = insert tmp_file resp.body fs in
      if not (w.os.can_create tmp_file)
      then (false, fs)
      else if not resp.is_complete
      then (false, written)
      else if not (w.os.can_rename tmp_file new_file)
      then (false, written)
      else (true, rename tmp_file new_file written)

  unfoldable pub download_by_tcp : Text → Text → Text → Files → Bool × Files
  unfolding save_layer_to_local
  download_by_tcp target file_path digest fs = elim (w.fetch target file_path) [
    | none ↦ (false, fs)
    | some resp ↦
        if not (resp.status_code == 200)
        then (false, fs)
        else save_layer_to_local resp digest file_path fs
  ]

  -- Without a torrent by TCP, and else by torrent, and by TCP if that fails.
  unfoldable pub handle_layer_download : DownloadLayerResponse → Text → Files → Bool × Files
  unfolding download_by_tcp
  handle_layer_download resp digest fs = elim resp.torrent_base64 [
    | [] ↦ download_by_tcp resp.located resp.file_path digest fs
    | ◌∷◌ c s ↦
        let (ok, fs') = w.torrent resp digest fs in
        if ok then (true, fs') else download_by_tcp resp.located resp.file_path digest fs'
  ]

  -- What handleGetBlob does with the answer of the master.
  unfoldable pub get_from_cluster : DownloadLayerResponse → Text → Node → Bool × Node
  get_from_cluster resp digest n =
      let (here, n1) = download_layer_from_local digest n in
      let (done, files) = handle_layer_download resp digest n1.files in
      let n2 = record n1 { files = files } in
      if here
      then (true, n1)
      else if not done
      then (false, n2)
      else download_layer_from_local digest n2

  unfoldable pub handle_get_blob : Text → Node → Bool × Node
  handle_get_blob digest n =
      let local = download_layer_from_local digest n in
      let (answer, files) = w.ask digest n.files in
      let n' = record n { files = files } in
      elim (check_local_layer cfg digest n.files) [
        | some found ↦ local
        | none ↦ elim answer [ none ↦ (false, n') | some resp ↦ get_from_cluster resp digest n' ]
      ]

  -- The case of a blob in ServeHTTP: the original registry answers if the handler fails.
  unfoldable pub serve_blob : Text → Node → Node
  serve_blob digest n =
      let (ok, n') = handle_get_blob digest n in
      if ok then n' else record n' { out = n'.out ++ w.reversed digest }
