-- ===== src/Layer/Cached.antt =====
-- layer.go: sortLayerCache and checkLayerHasCached, with staticLayerRefer and ociLayerRefer.
pub mod Scan
pub mod Choice
pub mod Dropped
use Prim.Native.Nat.{ℕ}
use accelerboat.Base.{◌≡◌, Bool, true, false, Option, none, some, List, [], ◌∷◌, map, if◌then◌else◌}
use accelerboat.Base.Int.{ℤ, pos, ltb_ℤ}
use accelerboat.Base.Keys.{lookup, insert}
use accelerboat.Base.Sort.{sort_by}
use accelerboat.Base.Text.{Text}
use accelerboat.Store.{
  LayerLocatedInfo, Redis, RedisStore, type_name, delete_located_static_layer, query_layers, Found,
}
use accelerboat.Layer.Nodes.{increment}

pub record DownloadLayerRequest : Type 0 where
  pub original_host : Text
  pub layer_url : Text
  pub headers : List (Text × List Text)
  pub repo : Text
  pub digest : Text

pub record DownloadLayerResponse : Type 0 where
  pub torrent_base64 : Text
  pub located : Text
  pub file_path : Text
  pub file_size : ℤ

pub record CheckStaticLayerRequest : Type 0 where
  pub original_host : Text
  pub repo : Text
  pub digest : Text
  pub layer_path : Text
  pub expected_content_length : ℤ

pub record CheckOciLayerRequest : Type 0 where
  pub digest : Text
  pub oci_type : Text

-- CheckStaticLayerResponse and CheckOCILayerResponse, which have the same fields.
pub record CheckLayerResponse : Type 0 where
  pub located : Text
  pub layer_path : Text
  pub torrent_base64 : Text
  pub file_size : ℤ

-- The counts of the nodes of each digest.
abbrev pub Refers : Type 0
Refers = List (Text × List (Text × ℤ))

-- What the handler holds for the cached layers.
pub record Caches (S : Type 0) : Type 0 where
  pub cache_store : RedisStore S
  pub static_layer_refer : Refers
  pub oci_layer_refer : Refers

-- A nil map reads as an empty one.
unfoldable pub refers_of : Text → Refers → List (Text × ℤ)
refers_of digest m = elim (lookup digest m) [ none ↦ [] | some refer ↦ refer ]

-- if m[digest] == nil { m[digest] = make(map[string]int64) }
unfoldable pub made : Text → Refers → Refers
made digest m = elim (lookup digest m) [ none ↦ insert digest [] m | some refer ↦ m ]

-- m[digest][located]++
unfoldable pub add_refer : Text → Text → Refers → Refers
add_refer digest located m = insert digest (increment located (refers_of digest m)) m

unfoldable pub with_refer : List (Text × ℤ) → LayerLocatedInfo → LayerLocatedInfo
with_refer refer layer = elim (lookup layer.located refer) [
  | none ↦ layer
  | some n ↦ record layer { refer = n }
]

abbrev pub less_referred : LayerLocatedInfo → LayerLocatedInfo → Bool
less_referred a b = ltb_ℤ a.refer b.refer

unfoldable pub sort_layer_cache : List LayerLocatedInfo → List (Text × ℤ) → List LayerLocatedInfo
sort_layer_cache layers refer = sort_by less_referred (map (with_refer refer) layers)

abbrev pub static_request : DownloadLayerRequest → ℤ → LayerLocatedInfo → CheckStaticLayerRequest
static_request req content_length sl = record {
  original_host = req.original_host;
  repo = req.repo;
  digest = req.digest;
  layer_path = sl.path;
  expected_content_length = content_length;
}

abbrev pub oci_request : DownloadLayerRequest → LayerLocatedInfo → CheckOciLayerRequest
oci_request req l = record { digest = req.digest; oci_type = type_name l.type }

abbrev pub to_response : CheckLayerResponse → DownloadLayerResponse
to_response a = record {
  torrent_base64 = a.torrent_base64;
  located = a.located;
  file_path = a.layer_path;
  file_size = a.file_size;
}

-- `check_static` and `check_oci` are the calls of requester, to the node of the first argument: what
-- the nodes answer during this call of the handler, `none` for an error.
module _ (redis : Redis) (check_static : Text → CheckStaticLayerRequest → Option CheckLayerResponse)
    (check_oci : Text → CheckOciLayerRequest → Option CheckLayerResponse) where
  open redis use {Server}

  -- A deletion whose error is only logged.
  unfoldable pub drop_static : Text → Text → RedisStore Server → RedisStore Server
  drop_static located digest r = elim (delete_located_static_layer redis located digest r) [
    | none ↦ r
    | some r' ↦ r'
  ]

  -- The loop over the static layers.
  unfoldable pub check_statics :
      DownloadLayerRequest
      → ℤ
      → List LayerLocatedInfo
      → Caches Server
      → Option DownloadLayerResponse × Caches Server
  unfolding add_refer
  check_statics req content_length [] c = (none, c)
  check_statics req content_length (sl ∷ sls) c =
      let rest =
        check_statics req content_length sls
          (record c { cache_store = drop_static sl.located req.digest c.cache_store }) in
      elim (check_static sl.located (static_request req content_length sl)) [
        | none ↦ rest
        | some a ↦ (
          some (to_response a),
          record c { static_layer_refer = add_refer req.digest sl.located c.static_layer_refer },
        )
      ]

  -- The loop over the layers of the container runtimes.
  unfoldable pub check_ocis :
      DownloadLayerRequest
      → List LayerLocatedInfo
      → Caches Server
      → Option DownloadLayerResponse × Caches Server
  unfolding add_refer
  check_ocis req [] c = (none, c)
  check_ocis req (l ∷ ls) c =
      let rest = check_ocis req ls c in
      elim (check_oci l.located (oci_request req l)) [
        | none ↦ rest
        | some a ↦ (
          some (to_response a),
          record c { oci_layer_refer = add_refer req.digest l.located c.oci_layer_refer },
        )
      ]

  -- What follows the loop over the static layers, which ends the call if a layer passes.
  unfoldable pub or_ocis :
      DownloadLayerRequest
      → List LayerLocatedInfo
      → Option DownloadLayerResponse × Caches Server
      → Option DownloadLayerResponse × Caches Server
  or_ocis req ocis (some r, c) = (some r, c)
  or_ocis req ocis (none, c) =
      let c' = record c { oci_layer_refer = made req.digest c.oci_layer_refer } in
      check_ocis req (sort_layer_cache ocis (refers_of req.digest c'.oci_layer_refer)) c'

  unfoldable pub check_found :
      DownloadLayerRequest
      → ℤ
      → Found
      → Caches Server
      → Option DownloadLayerResponse × Caches Server
  check_found req content_length (statics, ocis) c =
      let c' = record c { static_layer_refer = made req.digest c.static_layer_refer } in
      let sorted = sort_layer_cache statics (refers_of req.digest c'.static_layer_refer) in
      or_ocis req ocis (check_statics req content_length sorted c')

  unfoldable pub check_layer_has_cached :
      DownloadLayerRequest → ℤ → ℕ → Caches Server → Option DownloadLayerResponse × Caches Server
  unfolding check_found
  check_layer_has_cached req content_length now c =
      elim (query_layers redis req.digest now c.cache_store) [
        | none ↦ (none, c)
        | some found ↦ check_found req content_length found c
      ]
