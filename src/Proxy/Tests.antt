-- ===== src/Proxy/Tests.antt =====
-- pkg/server/registry/proxy.go: the theorems at a node with two of the directories that checkLocalLayer looks in.
use accelerboat.Base.{
  ◌≡◌, ◌≢◌, refl, ◌⊎◌, inl, inr, Bool, true, false, some, [], ◌∷◌, ◌++◌, none, List, Option,
}
use accelerboat.Base.Int.{ℤ, pos}
use accelerboat.Base.Keys.{lookup, insert, delete}
use accelerboat.Base.Text.{Text, codes, text_eq, trim_prefix}
use accelerboat.Layer.Cached.{DownloadLayerResponse}
use accelerboat.Layer.Download.{Response, path_join, layer_file_name, rename}
use Prim.Native.Nat.{ℕ, ◌≤◌}
use accelerboat.Base.Sort.{In}
use accelerboat.Recorder.{Event}
use accelerboat.Cleaner.{normalize_digest, used_at, build_digest_last_used}
use accelerboat.Proxy.Events.{GetBlobRun, recorder_serve_blob_from_local, handle_get_blob_events}
use accelerboat.Proxy.Events.Uses.{handle_get_blob_events-used}
use accelerboat.Proxy.{
  Storage, Node, World, check_local_layer, http_serve_file, serve_blob, handle_get_blob,
  download_layer_from_local, get_from_cluster, handle_layer_download,
}
use accelerboat.Proxy.Blob.{IsServed, serve_blob_lem}

abbrev cfg : Storage
cfg = record {
  download_path = codes "/d";
  transfer_path = codes "/t";
  small_file_path = codes "/s";
  oci_path = codes "/o";
}

abbrev small : Text
small = codes "/s/ab.tar.gzip"

abbrev answer : DownloadLayerResponse
answer = record {
  located = codes "b";
  file_path = codes "/t/cd.tar.gzip";
  file_size = pos 2;
  torrent_base64 = [];
}

abbrev reply : Response
reply = record { status_code = 200; body = codes "CD"; is_complete = true }

-- Files open, and a copy ends as `sent` says.
abbrev world : (Text → Text × Bool) → World
world sent = record {
  can_open = λ p. true;
  send = λ p bytes. bytes;
  copy = λ p bytes. sent bytes;
  ask = λ digest fs. (some answer, fs);
  torrent = λ resp digest fs. (false, fs);
  fetch = λ target p. some reply;
  os = record { can_create = λ p. true; can_rename = λ p q. true };
  reversed = λ digest. codes "origin";
}

abbrev node : Node
node = record { files = (small, codes "AB") ∷ []; out = [] }

-- A local file, a layer that another node has, and a layer that no copy of a file serves.
local_out : (serve_blob cfg (world (λ b. (b, true))) (codes "sha256:ab") node).out ≡ codes "AB"
unfolding serve_blob handle_get_blob check_local_layer lookup text_eq path_join layer_file_name
    trim_prefix download_layer_from_local http_serve_file
local_out = refl

remote_out : (serve_blob cfg (world (λ b. (b, true))) (codes "sha256:cd") node).out ≡ codes "CD"
unfolding serve_blob handle_get_blob check_local_layer lookup text_eq path_join layer_file_name
    trim_prefix get_from_cluster download_layer_from_local handle_layer_download rename insert
    delete http_serve_file
remote_out = refl

serve_blob_lem_example :
    let n' = serve_blob cfg (world (λ b. (b, true))) (codes "sha256:cd") node in
    IsServed cfg (codes "sha256:cd") [] n' ⊎ (n'.out ≡ [] ++ codes "origin")
serve_blob_lem_example =
    serve_blob_lem cfg (world (λ b. (b, true))) (λ p bytes. refl) (λ p bytes. refl)
      (codes "sha256:cd") node

-- A copy that fails after a part: the original registry's answer follows the part.
part_out :
    (serve_blob cfg (world (λ b. (codes "A", false))) (codes "sha256:ab") node).out
    ≡ codes "Aorigin"
unfolding serve_blob handle_get_blob check_local_layer lookup text_eq path_join layer_file_name
    trim_prefix download_layer_from_local http_serve_file
part_out = refl

-- A run that asks the master, downloads by TCP and serves the file.
abbrev run : GetBlobRun
run = record {
  local = none;
  served_at_once = false;
  master = codes "m";
  ask_error = [];
  answer = some answer;
  served_first = false;
  torrent_error = none;
  tcp_error = none;
  served_after = true;
  took = λ i. pos 5;
}

abbrev last_event : Event
last_event =
    recorder_serve_blob_from_local (codes "docker.io") (codes "nginx") (codes "cd") (pos 5) (pos 2)
      none

abbrev log_of : ℤ → List Text → Option ℕ → List Event
log_of limit types start = record last_event { timestamp = 77; request_id = codes "id" } ∷ []

recorded :
    In last_event (handle_get_blob_events (codes "docker.io") (codes "nginx") (codes "cd") run)
unfolding handle_get_blob_events
recorded = inr (inr (inr (inr (inl refl))))

digest_given : codes "cd" ≢ []
digest_given e = cc e

handle_get_blob_events-used_example :
    77
    ≤ used_at (normalize_digest (codes "cd")) (build_digest_last_used log_of 90 (codes "/events") 1)
handle_get_blob_events-used_example =
    handle_get_blob_events-used (codes "docker.io") (codes "nginx") (codes "cd") (refl, (refl, tt))
      digest_given log_of 90 (codes "/events") 1 run last_event 77 (codes "id") refl recorded
      (inl refl)
