-- ===== src/Http.antt =====
-- pkg/utils/httputils/http.go: how a request is tried again, and pkg/server/customapi/requester/client.go,
-- whose calls the nodes and the master exchange. The HTTP client and the JSON decoder are parameters.
pub mod Tries
pub mod Tests
use Prim.Native.Nat.{ℕ, zero, suc, ◌+◌}
use accelerboat.Base.{
  ◌≡◌, Bool, true, false, ◌||◌, Option, none, some, List, [], ◌∷◌, ◌++◌, ◌==◌, if◌then◌else◌,
}
use accelerboat.Base.Text.{Text, codes, text_eq, contains, trim_space}
use accelerboat.Base.Text.Decimal.{print_nat}
use accelerboat.Selector.{current_master}
use accelerboat.Layer.Cached.{DownloadLayerResponse, CheckLayerResponse}

-- A response; its body is none where the read of it fails.
pub record Response : Type 0 where
  pub status : ℕ
  pub body : Option Text

-- What Do returns.
pub data Reply : Type 0 where
  response : Response → Reply
  failed : Text → Reply

abbrev pub is_final : Text → Bool
is_final err = contains err (codes "context canceled") || contains err (codes "i/o timeout")

-- The loop over Do, with the tries that are left and the number of the next one: the response, if there
-- is one, and how often Do has been called.
unfoldable pub try_rounds : (ℕ → Reply) → ℕ → ℕ → Option Response × ℕ
try_rounds call zero i = (none, i)
try_rounds call (suc n) i =
    let rest = try_rounds call n (suc i) in
    elim (call i) [
      | response r ↦ (some r, suc i)
      | failed err ↦ if is_final err then (none, suc i) else rest
    ]

-- `prepared` is whether the body can be marshalled and the request made.
unfoldable pub send_http_request_only_response : Bool → (ℕ → Reply) → Option Response × ℕ
unfolding try_rounds
send_http_request_only_response prepared call = if prepared then try_rounds call 10 0 else (none, 0)

unfoldable pub body_of_ok : Option Response → Option Text
body_of_ok none = none
body_of_ok (some r) = elim r.body [
  | none ↦ none
  | some body ↦ if r.status == 200 then some body else none
]

unfoldable pub send_http_request : Bool → (ℕ → Reply) → Option Text
unfolding send_http_request_only_response body_of_ok
send_http_request prepared call = body_of_ok (send_http_request_only_response prepared call).0

-- The JSON decoder for the answers, none where it fails.
pub record Decoder : Type 0 where
  pub head_manifest_response : Text → Option (List (Text × List Text))
  pub download_layer_response : Text → Option DownloadLayerResponse
  pub check_layer_response : Text → Option CheckLayerResponse

abbrev pub url_of : Text → Text → Text
url_of host path = codes "http://" ++ (host ++ path)

abbrev pub non_empty : Text → Option Text
non_empty t = if text_eq t [] then none else some t

-- `net` is what the tries of a request to a URL return, `master` what CurrentMaster gives at the call.
module _ (net : Text → ℕ → Reply) (decode : Decoder) where
  abbrev pub ask : Text → Option Text
  ask url = send_http_request true (net url)

  unfoldable pub get_service_token : Text → Text × Option Text
  get_service_token master = (
    master,
    elim (ask (url_of master (codes "/customapi/service-token"))) [
      | none ↦ none
      | some body ↦ non_empty (trim_space body)
    ],
  )

  unfoldable pub head_manifest : Text → Text × Option (List (Text × List Text))
  head_manifest master = (
    master,
    elim (ask (url_of master (codes "/customapi/head-manifest"))) [
      | none ↦ none
      | some body ↦ decode.head_manifest_response body
    ],
  )

  unfoldable pub get_manifest : Text → Text × Option Text
  get_manifest master = (
    master,
    elim (ask (url_of master (codes "/customapi/get-manifest"))) [
      | none ↦ none
      | some body ↦ non_empty (trim_space body)
    ],
  )

  unfoldable pub download_layer_from_master : Text → Option DownloadLayerResponse × Text
  download_layer_from_master master = (
    elim (ask (url_of master (codes "/customapi/get-layer-info"))) [
      | none ↦ none
      | some body ↦ decode.download_layer_response body
    ],
    master,
  )

  unfoldable pub check_layer : Text → Text → ℕ → Option CheckLayerResponse
  check_layer path target port = elim (ask (url_of (target ++ (b':' ∷ print_nat port)) path)) [
    | none ↦ none
    | some body ↦ decode.check_layer_response body
  ]

  unfoldable pub check_static_layer : Text → ℕ → Option CheckLayerResponse
  unfolding check_layer
  check_static_layer = check_layer (codes "/customapi/check-static-layer")

  unfoldable pub check_oci_layer : Text → ℕ → Option CheckLayerResponse
  unfolding check_layer
  check_oci_layer = check_layer (codes "/customapi/check-oci-layer")

  unfoldable pub download_layer_from_node : Text → Option DownloadLayerResponse
  download_layer_from_node target = elim (ask (url_of target (codes "/customapi/download-layer"))) [
    | none ↦ none
    | some body ↦ decode.download_layer_response body
  ]
