-- ===== src/Http/Tests.antt =====
-- http.go, client.go: a request that succeeds at the third try.
use Prim.Native.Nat.{ℕ, zero, suc}
use accelerboat.Base.{◌≡◌, refl, true, false, none, some}
use accelerboat.Base.Text.{codes, contains, has_prefix, text_eq, trim_space, trim_left}
use accelerboat.Http.{
  Reply, response, failed, is_final, send_http_request_only_response, send_http_request, Decoder,
  get_manifest,
}
use accelerboat.Http.Tries.{IsTried, send_http_request_only_response_lem}

abbrev third : ℕ → Reply
third zero = failed (codes "connection refused")
third (suc zero) = failed (codes "EOF")
third (suc (suc n)) = response (record { status = 200; body = some (codes "{} ") })

send_http_request_only_response_lem_example :
    IsTried third 10 0 (send_http_request_only_response true third)
send_http_request_only_response_lem_example = send_http_request_only_response_lem third

tries :
    send_http_request_only_response true third
    ≡ (some (record { status = 200; body = some (codes "{} ") }), 3)
unfolding send_http_request_only_response contains has_prefix
tries = refl

-- The requests of a call whose time is over fail at once, and are tried again.
deadline : is_final (codes "context deadline exceeded") ≡ false
unfolding contains has_prefix
deadline = refl

abbrev decoder : Decoder
decoder = record {
  head_manifest_response = λ t. none;
  download_layer_response = λ t. none;
  check_layer_response = λ t. none;
}

trims :
    get_manifest (λ url. third) decoder (codes "10.0.0.1:80")
    ≡ (codes "10.0.0.1:80", some (codes "{}"))
unfolding get_manifest send_http_request trim_space trim_left contains has_prefix text_eq
trims = refl
