-- ===== src/Layer/Tests.antt =====
-- pkg/server/customapi/layer.go: the theorems at small clusters.
use Prim.Native.Nat.{ℕ, suc}
use accelerboat.Base.{
  ◌≡◌, ◌≢◌, refl, ◌⊎◌, Bool, true, false, Option, none, some, List, [], ◌∷◌, arith, if◌then◌else◌,
  ap,
}
use accelerboat.Base.Int.{ℤ, pos, ◌+ℤ◌, ltb_ℤ}
use accelerboat.Base.Sort.{In, sort_by}
use accelerboat.Base.Keys.{delete, mem, lookup, insert, Unique}
use accelerboat.Base.Text.{trim_prefix, Text, codes, text_eq}
use accelerboat.Store.{LayerLocatedInfo}
use accelerboat.Store.Memory.{memory, Log}
use accelerboat.Store.Tests.{saved_store, found, asks, layer}
use accelerboat.Layer.Nodes.{Tasks, distribute_node, distribute_download_layer}
use accelerboat.Layer.Nodes.Balance.{counted, distribute_node-least}
use accelerboat.Layer.Nodes.Stale.{IsIdlest, distribute_download_layer-stale}
use accelerboat.Layer.Cached.{
  DownloadLayerRequest, DownloadLayerResponse, CheckStaticLayerRequest, CheckOciLayerRequest,
  CheckLayerResponse, Caches, check_layer_has_cached, to_response, check_found, or_ocis, made,
  refers_of, sort_layer_cache, with_refer, check_statics, check_ocis,
}
use accelerboat.Layer.Cached.Choice.{check_layer_has_cached_lem, IsOutcome, passes_oci, referred}
use accelerboat.Layer.Cached.Dropped.{IsFailed, check_layer_has_cached-IsFailed}
use accelerboat.Layer.Download.{
  Files, rename, Response, LayerOs, quiet, path_join, layer_file_name, request_download_layer,
  store_body,
}
use accelerboat.Layer.Download.Ticks.{IsWhole, IsCleared, request_download_layer-success}
use accelerboat.Layer.Download.Stored.{request_download_layer_lem, IsEnd}
use accelerboat.Layer.Info.{
  Config, LengthCache, get_layer_content_length, Master, get_layer_info, fetch_layer,
}
use accelerboat.Layer.Info.Served.{served, check_layer_has_cached-served}
use accelerboat.Layer.Info.Answers.{IsFetched, get_layer_info_lem}

abbrev tasks : Tasks
tasks = (codes "a", pos 2) ∷ (codes "b", pos 1) ∷ (codes "gone", pos 0) ∷ []

abbrev eps : List Text
eps = codes "a" ∷ codes "b" ∷ []

tasks-Unique : Unique tasks
unfolding lookup text_eq
tasks-Unique = (refl, (refl, (refl, tt)))

counted_gone : counted eps tasks (codes "gone") ≡ some (pos 0)
unfolding lookup text_eq
counted_gone = refl

distribute_node-least_example :
    let (r, tasks') = distribute_node eps tasks in
    (v : ℤ) × (counted eps tasks r ≡ some v)
    × ((k : Text) (w : ℤ) → counted eps tasks k ≡ some w → ltb_ℤ w v ≡ false)
    × ((j : Text)
        → lookup j tasks' ≡ (if text_eq r j then some (v +ℤ pos 1) else counted eps tasks j))
    × Unique tasks'
distribute_node-least_example =
    distribute_node-least eps tasks (codes "gone") (pos 0) tasks-Unique counted_gone refl

-- The world is the number of requests so far; the node that has left does not answer.
abbrev all_eps : ℕ → List Text
all_eps w = eps

abbrev ask : Text → ℕ → Option Text × ℕ
ask node w = ((if text_eq node (codes "gone") then none else some node), suc w)

gone_here : lookup (codes "gone") tasks ≡ some (pos 0)
unfolding lookup text_eq
gone_here = refl

busier :
    (k : Text) (v : ℤ)
    → lookup k tasks ≡ some v
    → text_eq (codes "gone") k ≡ false
    → ltb_ℤ (pos 0) v ≡ true
unfolding lookup
busier k v e ne = ground (arith, e, ne)

all_known : (w : ℕ) (k : Text) → mem k (all_eps w) ≡ true → lookup k tasks ≢ none
unfolding lookup mem
all_known w k m e = ground (arith, e, m)

gone-IsIdlest : IsIdlest all_eps ask (codes "gone") (pos 0) tasks
gone-IsIdlest = record {
  unique = tasks-Unique;
  here = gone_here;
  others = busier;
  known = all_known;
}

no_answer : (v : ℕ) → (ask (codes "gone") v).0 ≡ none
unfolding text_eq
no_answer v = refl

distribute_download_layer-stale_example : (distribute_download_layer all_eps ask 0 tasks).0 ≡ none
distribute_download_layer-stale_example =
    distribute_download_layer-stale all_eps ask 0 (codes "gone") (pos 0) tasks gone-IsIdlest refl
      no_answer

abbrev req : DownloadLayerRequest
req = record {
  original_host = codes "registry";
  layer_url = codes "/v2/a/blobs/x";
  headers = [];
  repo = codes "a";
  digest = layer;
}

abbrev no_static : Text → CheckStaticLayerRequest → Option CheckLayerResponse
no_static located r = none

abbrev yes_oci : Text → CheckOciLayerRequest → Option CheckLayerResponse
yes_oci located r = some (record {
  located = located;
  layer_path = codes "/oci/x";
  torrent_base64 = [];
  file_size = pos 7;
})

abbrev caches : Caches Log
caches = record { cache_store = saved_store; static_layer_refer = []; oci_layer_refer = [] }

check_layer_has_cached_lem_example :
    let (o, c') = check_layer_has_cached memory no_static yes_oci req (pos 7) 1010 caches in
    IsOutcome memory no_static yes_oci req (pos 7) found caches o c'
check_layer_has_cached_lem_example =
    check_layer_has_cached_lem memory no_static yes_oci req (pos 7) 1010 found caches asks

abbrev other_key : Text
other_key = codes "10.0.0.1/STATIC"

check_layer_has_cached-IsFailed_example :
    let (o, c') = check_layer_has_cached memory no_static yes_oci req (pos 7) 1010 caches in
    (memory.field c'.cache_store.server layer other_key
      ≡ memory.field caches.cache_store.server layer other_key)
    ⊎ (memory.field c'.cache_store.server layer other_key ≡ none)
      × IsFailed memory no_static yes_oci req
          (pos 7)
          (referred memory no_static yes_oci req (pos 7) caches.static_layer_refer found.0)
          layer
          other_key
check_layer_has_cached-IsFailed_example =
    check_layer_has_cached-IsFailed memory no_static yes_oci req (pos 7) 1010 found caches asks
      layer other_key

abbrev cfg : Config
cfg = record {
  address = codes "10.0.0.1";
  download_path = codes "/d";
  transfer_path = codes "/t";
  small_file_path = codes "/s";
  torrent_enable = false;
  torrent_threshold = 200;
}

abbrev send : DownloadLayerRequest → Option Response
send r = some (record { status_code = 200; body = codes "bytes"; is_complete = true })

abbrev los : LayerOs
los = record {
  os = record { can_create = λ p. true; can_rename = λ p q. true };
  can_stat = λ p. true;
  progress = quiet;
}

paths_differ :
    path_join cfg.download_path (layer_file_name req.digest)
    ≢ path_join cfg.small_file_path (layer_file_name req.digest)
unfolding path_join
paths_differ e = absurd (omega (arith, ap second e))
  where
    second : Text → ℕ
    second [] = 0
    second (x ∷ []) = 0
    second (x ∷ y ∷ s) = y

abbrev full_path : Text
full_path = path_join cfg.download_path (layer_file_name req.digest)

abbrev small_path : Text
small_path = path_join cfg.small_file_path (layer_file_name req.digest)

request_download_layer_lem_example :
    let (done, fs') = request_download_layer send los cfg.download_path req small_path [] in
    ((done ≡ false) × ((j : Text) → full_path ≢ j → lookup {V = Text} j fs' ≡ lookup j []))
    ⊎ (resp : Response) × (send req ≡ some resp)
      × (resp.status_code ≡ 200)
      × IsEnd resp full_path small_path [] (done, fs')
request_download_layer_lem_example =
    request_download_layer_lem send los cfg.download_path req small_path [] paths_differ refl

abbrev broken : DownloadLayerRequest → Option Response
broken r = some (record { status_code = 200; body = codes "A"; is_complete = false })

-- A tick while the file of a download that broke off is removed.
abbrev ticking : LayerOs
ticking = record los { progress = record quiet { in_remove = some false } }

-- The error is overwritten, and the call succeeds with no file.
hidden_error :
    request_download_layer broken ticking cfg.download_path req small_path [] ≡ (true, [])
unfolding request_download_layer store_body path_join layer_file_name delete insert text_eq
    trim_prefix
hidden_error = refl

-- A tick before the test of io.Copy's error: the part that came is moved to the destination.
hidden_part :
    request_download_layer broken
      (record los { progress = record quiet { after_copy = some false } })
      cfg.download_path
      req
      small_path
      []
    ≡ (true, (small_path, codes "A") ∷ [])
unfolding request_download_layer store_body path_join layer_file_name delete insert text_eq
    trim_prefix rename lookup
hidden_part = refl

request_download_layer-success_example :
    let fs' = (request_download_layer broken ticking cfg.download_path req small_path []).1 in
    (resp : Response) × (broken req ≡ some resp)
    × (resp.status_code ≡ 200)
    × (IsWhole resp small_path fs' ⊎ IsCleared ticking.progress)
request_download_layer-success_example =
    request_download_layer-success broken ticking cfg.download_path req small_path []
      (ap (λ (r : Bool × Files). r.0) hidden_error)

abbrev served_answer : DownloadLayerResponse
served_answer = record {
  torrent_base64 = [];
  located = codes "10.0.0.1";
  file_path = codes "/oci/x";
  file_size = pos 7;
}

abbrev configs : Text → Config
configs located = cfg

abbrev sizes : Text → Text → Option ℤ
sizes located path = some (pos 7)

abbrev torrents : Text → Text → Text → Option Text
torrents located digest path = none

answers :
    (check_layer_has_cached memory
      (served configs sizes torrents memory yes_oci)
      yes_oci
      req
      (pos 7)
      1010
      caches).0
    ≡ some served_answer
unfolding check_layer_has_cached check_found or_ocis made refers_of sort_layer_cache sort_by
    with_refer check_statics check_ocis lookup insert text_eq
answers = rw (asks, check_layer_has_cached) refl

check_layer_has_cached-served_example :
    ((l : LayerLocatedInfo) × In l (
        referred memory
          (served configs sizes torrents memory yes_oci)
          yes_oci
          req
          (pos 7)
          caches.static_layer_refer
          found.0)
      × (sizes l.located l.path ≡ some (pos 7))
      × (served_answer.file_size ≡ pos 7)
      × (served_answer.located ≡ (configs l.located).address)
      × (served_answer.file_path ≡ l.path))
    ⊎ (l : LayerLocatedInfo) × (a : CheckLayerResponse) × In l (
        referred memory
          (served configs sizes torrents memory yes_oci)
          yes_oci
          req
          (pos 7)
          caches.oci_layer_refer
          found.1)
      × (passes_oci memory (served configs sizes torrents memory yes_oci) yes_oci req (pos 7) l
          ≡ some a)
      × (served_answer ≡ to_response a)
check_layer_has_cached-served_example =
    check_layer_has_cached-served configs sizes torrents memory yes_oci req (pos 7) 1010 found
      caches served_answer asks answers

abbrev lengths : LengthCache
lengths = record { State = List (Text × ℤ); get = lookup; set = insert }

abbrev head : DownloadLayerRequest → Option ℤ
head r = some (pos 5)

abbrev no_oci : Text → CheckOciLayerRequest → Option CheckLayerResponse
no_oci located r = none

abbrev ask_layer : DownloadLayerRequest → Text → ℕ → Option DownloadLayerResponse × ℕ
ask_layer r node w = (none, suc w)

abbrev master : Master (List (Text × ℤ)) Log ℕ
master = record { lengths = []; caches = caches; tasks = tasks; files = []; world = 0 }

abbrev small_answer : DownloadLayerResponse
small_answer = record {
  torrent_base64 = [];
  located = codes "10.0.0.1";
  file_path = small_path;
  file_size = pos 5;
}

no_cached : (check_layer_has_cached memory no_static no_oci req (pos 5) 1010 caches).0 ≡ none
unfolding check_layer_has_cached check_found or_ocis made refers_of sort_layer_cache sort_by
    with_refer check_statics check_ocis lookup insert text_eq
no_cached = rw (asks, check_layer_has_cached) refl

informs :
    (get_layer_info cfg lengths head memory no_static no_oci send los all_eps ask_layer req 1010
      master).0
    ≡ some small_answer
unfolding get_layer_info get_layer_content_length lookup fetch_layer request_download_layer
    store_body
informs = rw (no_cached, get_layer_info) refl

get_layer_info_lem_example :
    let m' =
      (get_layer_info cfg lengths head memory no_static no_oci send los all_eps ask_layer req 1010
        master).1 in
    (n : ℤ) × ((get_layer_content_length lengths head req master.lengths).0 ≡ some n)
    × (((check_layer_has_cached memory no_static no_oci req n 1010 master.caches).0
          ≡ some small_answer)
        ⊎ ((check_layer_has_cached memory no_static no_oci req n 1010 master.caches).0 ≡ none)
          × IsFetched cfg lengths head memory no_static no_oci send los all_eps ask_layer req n
              master small_answer m')
get_layer_info_lem_example =
    get_layer_info_lem cfg lengths head memory no_static no_oci send los all_eps ask_layer req 1010
      master small_answer paths_differ refl informs
