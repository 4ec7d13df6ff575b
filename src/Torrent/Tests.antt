-- ===== src/Torrent/Tests.antt =====
-- pkg/bittorrent/torrent.go: the theorems at a torrent of two bytes.
use Prim.Native.Nat.{ℕ, ◌*◌, ◌≤◌}
use accelerboat.Base.{
  ◌≡◌, ◌≢◌, refl, ap, Bool, true, false, none, some, List, [], ◌∷◌, arith, replicate, length,
}
use accelerboat.Base.Keys.{lookup, insert, delete}
use accelerboat.Base.Text.{Text, codes, text_eq, trim_prefix, trim_suffix}
use accelerboat.Layer.Download.{Files, path_join, layer_file_name}
use accelerboat.Base.Int.{pos}
use accelerboat.Layer.Cached.{DownloadLayerResponse}
use accelerboat.Proxy.{
  Storage, World, serve_blob, handle_get_blob, check_local_layer, get_from_cluster,
  download_layer_from_local, handle_layer_download, http_serve_file,
}
use accelerboat.Torrent.{
  Signal, tick, recorder_tick, done, completed, failed, panicked, rounds, started, Disk,
  handle_download_torrent, Torrent, Client, handle_generate_torrent,
}
use accelerboat.Torrent.Loop.{IsEnded, rounds_end}
use accelerboat.Torrent.Copy.{handle_download_torrent_lem}
use accelerboat.Torrent.Made.{IsGenerated, handle_generate_torrent_lem}

abbrev one_of_two : List Signal
one_of_two = tick 0 ∷ recorder_tick ∷ replicate 59 (tick 1)

stalls : rounds 2 one_of_two started ≡ failed
unfolding rounds
stalls = refl

completes : rounds 2 (tick 1 ∷ tick 2 ∷ recorder_tick ∷ done ∷ []) started ≡ completed
unfolding rounds
completes = refl

-- A second tick that the select takes before the closed channel closes it again.
closes_twice : rounds 2 (tick 1 ∷ tick 2 ∷ tick 2 ∷ done ∷ []) started ≡ panicked
unfolding rounds
closes_twice = refl

rounds_end_example : IsEnded (rounds 2 one_of_two started)
rounds_end_example = rounds_end 2 one_of_two (omega arith) (omega arith)

abbrev disk : (Text → Text × Bool) → Disk
disk copied = record {
  can_create = λ p. true;
  can_open = λ p. true;
  copied = copied;
  blocks = λ p. 8;
}

abbrev all : Text → Text × Bool
all bytes = (bytes, true)

abbrev first_part : Text → Text × Bool
first_part bytes = (codes "A", false)

abbrev digest : Text
digest = codes "ab"

abbrev torrent_file : Text
torrent_file = path_join (codes "/p") (layer_file_name digest)

abbrev target : Text
target = path_join (codes "/t") (layer_file_name digest)

abbrev files : Files
files = (codes "/p/ab.tar.gzip", codes "AB") ∷ (codes "/x", codes "C") ∷ []

second : Text → ℕ
second [] = 0
second (x ∷ []) = 0
second (x ∷ y ∷ s) = y

paths_differ : torrent_file ≢ target
unfolding path_join second
paths_differ e = absurd (omega (arith, ap second e))

handle_download_torrent_lem_example :
    let (ok, fs') = handle_download_torrent (disk all) (codes "/p") digest target (true, files) in
    ((j : Text) → target ≢ j → lookup j fs' ≡ lookup j files)
    × (ok ≡ true
        → (bytes : Text) × (true ≡ true)
          × (lookup torrent_file files ≡ some bytes)
          × (length bytes ≤ 8 * 512 * 10)
          × (lookup target fs' ≡ some bytes))
handle_download_torrent_lem_example =
    handle_download_torrent_lem (disk all) (codes "/p") digest target true files (λ bytes h. refl)
      paths_differ

downloads : (handle_download_torrent (disk all) (codes "/p") digest target (true, files)).0 ≡ true
unfolding handle_download_torrent lookup insert delete text_eq path_join layer_file_name trim_prefix
downloads = refl

abbrev cfg : Storage
cfg = record {
  download_path = codes "/d";
  transfer_path = codes "/t";
  small_file_path = codes "/s";
  oci_path = codes "/o";
}

-- The master answers with a torrent; its copy breaks off, and no node sends the file.
abbrev answer : DownloadLayerResponse
answer = record {
  located = codes "b";
  file_path = target;
  file_size = pos 2;
  torrent_base64 = codes "dG9y";
}

abbrev world : World
world = record {
  can_open = λ p. true;
  send = λ p bytes. bytes;
  copy = λ p bytes. (bytes, true);
  ask = λ d fs. (some answer, fs);
  torrent = λ resp d fs. handle_download_torrent (disk first_part) (codes "/p") d target (true, fs);
  fetch = λ t p. none;
  os = record { can_create = λ p. true; can_rename = λ p q. true };
  reversed = λ d. codes "origin";
}

-- The torrent's copy and the download by TCP fail, so the first client gets the original registry's
-- answer; the second gets the part that the copy has left.
first_client :
    (serve_blob cfg world digest (record { files = files; out = [] })).out ≡ codes "origin"
unfolding serve_blob handle_get_blob check_local_layer lookup insert delete text_eq path_join
    layer_file_name trim_prefix get_from_cluster download_layer_from_local handle_layer_download
    handle_download_torrent
first_client = refl

second_client :
    (serve_blob cfg world digest (record {
      files = (serve_blob cfg world digest (record { files = files; out = [] })).files;
      out = [];
    })).out
    ≡ codes "A"
unfolding serve_blob handle_get_blob check_local_layer lookup insert delete text_eq path_join
    layer_file_name trim_prefix get_from_cluster download_layer_from_local handle_layer_download
    handle_download_torrent http_serve_file
second_client = refl

abbrev made : Torrent
made = record { info_name = some (codes "ab.tar.gzip"); metainfo = some (codes "d8") }

abbrev client : Client
client = record {
  State = List Torrent;
  Info = Text;
  torrents = λ s. s;
  build = λ bytes. some bytes;
  add = λ info s. (some made, made ∷ s);
  merge = λ d t s. (true, s);
  verify = λ t s. (true, s);
}

abbrev source : Text
source = codes "/x"

source_differs : source ≢ torrent_file
unfolding path_join second
source_differs e = absurd (omega (arith, ap second e))

generates :
    (handle_generate_torrent client (disk all) (codes "/p") digest source files []).0
    ≡ some (codes "d8")
unfolding handle_generate_torrent lookup insert delete text_eq path_join layer_file_name trim_prefix
    trim_suffix
generates = refl

handle_generate_torrent_lem_example :
    IsGenerated client
      (disk all)
      (codes "/p")
      digest
      source
      files
      []
      (handle_generate_torrent client (disk all) (codes "/p") digest source files [])
handle_generate_torrent_lem_example =
    handle_generate_torrent_lem client (disk all) (codes "/p") digest source files []
      (λ bytes h. refl) source_differs
