-- ===== src/Proxy/Route/Tests.antt =====
-- proxy.go, registry.go: a blob and a manifest of a repository.
use accelerboat.Base.{◌≡◌, refl, ◌⊎◌, true, false, none, some, [], ◌++◌, replicate}
use accelerboat.Base.Text.{Text, codes, text_eq, has_prefix, drop_prefix}
use accelerboat.Registry.Uri.{Request, is_service_token, match_manifest}
use accelerboat.Registry.Uri.Print.{blob_path}
use accelerboat.Options.{RegistryMapping}
use accelerboat.Proxy.{Storage, Node, World}
use accelerboat.Proxy.Blob.{IsServed}
use accelerboat.Proxy.Route.{blob, Master, token, route, serve_http}
use accelerboat.Proxy.Route.Paths.{serve_http-blob}

abbrev repo : Text
repo = codes "library/nginx"

abbrev hex : Text
hex = replicate 64 b'a'

abbrev pub blob_request : Request
blob_request = record {
  method = codes "GET";
  path = blob_path repo hex;
  service = [];
  scope = [];
  authorization = [];
}

abbrev token_request : Request
token_request = record blob_request {
  path = codes "/service/token";
  service = codes "registry";
  scope = codes "repository:a:pull";
}

tokens : route token_request ≡ token (codes "registry") (codes "repository:a:pull")
unfolding route text_eq is_service_token
tokens = refl

-- The last place counts.
two_places :
    match_manifest (codes "/v2/a/manifests/b/manifests/c") ≡ some (codes "a/manifests/b", codes "c")
unfolding match_manifest has_prefix drop_prefix
two_places = refl

abbrev pub mapping : RegistryMapping
mapping = record {
  enable = true;
  proxy_host = codes "proxy";
  proxy_cert = [];
  proxy_key = [];
  original_host = codes "docker.io";
  username = [];
  password = [];
  users = [];
  legal_users = [];
}

abbrev pub master : Master
master = record {
  get_service_token = λ r service scope. none;
  head_manifest = λ r repo tag. none;
  get_manifest = λ r repo tag. some (codes "{}");
}

abbrev pub cfg : Storage
cfg = record {
  download_path = codes "/d";
  transfer_path = codes "/t";
  small_file_path = codes "/s";
  oci_path = codes "/o";
}

abbrev pub world : World
world = record {
  can_open = λ p. true;
  send = λ p bytes. bytes;
  copy = λ p bytes. (bytes, true);
  ask = λ d fs. (none, fs);
  torrent = λ resp d fs. (false, fs);
  fetch = λ t p. none;
  os = record { can_create = λ p. true; can_rename = λ p q. true };
  reversed = λ d. codes "origin";
}

abbrev pub node : Node
node = record { files = []; out = [] }

no_manifest : match_manifest (blob_path repo hex) ≡ none
unfolding match_manifest has_prefix drop_prefix
no_manifest = refl

serve_http-blob_example :
    (n' : Node) × (serve_http master cfg world (some mapping) blob_request node ≡ blob n')
    × (IsServed cfg hex [] n' ⊎ (n'.out ≡ [] ++ codes "origin"))
serve_http-blob_example =
    serve_http-blob blob_request repo master cfg world mapping refl node hex refl no_manifest refl
      refl (λ p b. refl) (λ p b. refl)
