-- ===== src/Registry/Uri.antt =====
-- pkg/utils/registry.go: which requests of the registry API a request is. Paths hold no line break.
pub mod Print
use Prim.Native.Nat.{ℕ}
use accelerboat.Base.{
  ◌≡◌, Bool, true, false, not, ◌&&◌, ◌||◌, Option, none, some, List, [], ◌∷◌, ◌++◌, leb, ◌==◌,
  if◌then◌else◌, length,
}
use accelerboat.Base.Text.{Text, codes, text_eq, has_prefix, drop_prefix}

-- A request, as far as the tests read it; `service` and `scope` are query parameters, [] if absent.
pub record Request : Type 0 where
  pub method : Text
  pub path : Text
  pub service : Text
  pub scope : Text
  pub authorization : Text

unfoldable pub is_service_token : Request → Option (Text × Text)
is_service_token r =
    if not (text_eq r.method (codes "GET"))
    then none
    else if not (text_eq r.path (codes "/service/token"))
    then none
    else some (r.service, r.scope)

-- What is before the last place of a separator, and what is behind it: a greedy (.*) before it.
unfoldable pub split_last : Text → Text → Option (Text × Text)
split_last sep [] = none
split_last sep (c ∷ s) = elim (split_last sep s) [
  | some (a, b) ↦ some (c ∷ a, b)
  | none ↦ if has_prefix (c ∷ s) sep then some ([], drop_prefix (c ∷ s) sep) else none
]

-- ^/v[1-2]/
unfoldable pub after_version : Text → Option Text
after_version p =
    if has_prefix p (codes "/v1/")
    then some (drop_prefix p (codes "/v1/"))
    else if has_prefix p (codes "/v2/")
    then some (drop_prefix p (codes "/v2/"))
    else none

-- manifestUriRegexp
unfoldable pub match_manifest : Text → Option (Text × Text)
unfolding after_version split_last
match_manifest p = elim (after_version p) [
  | none ↦ none
  | some s ↦ split_last (codes "/manifests/") s
]

abbrev pub is_alnum : ℕ → Bool
is_alnum c = (leb b'a' c && leb c b'z') || (leb b'0' c && leb c b'9') || (leb b'A' c && leb c b'Z')

abbrev pub all_alnum : Text → Bool
all_alnum [] = true
all_alnum (c ∷ s) = is_alnum c && all_alnum s

-- blobUriRegexp
unfoldable pub is_blob_get : Text → Option (Text × Text)
unfolding after_version split_last
is_blob_get p = elim (after_version p) [
  | none ↦ none
  | some s ↦ elim (split_last (codes "/blobs/sha256:") s) [
    | none ↦ none
    | some (repo, hex) ↦ if length hex == 64 && all_alnum hex then some (repo, hex) else none
  ]
]

unfoldable pub is_head_image_digest : Request → Option (Text × Text)
unfolding match_manifest
is_head_image_digest r =
    if not (text_eq r.method (codes "HEAD")) then none else match_manifest r.path

unfoldable pub is_manifest_get : Request → Option (Text × Text)
unfolding match_manifest
is_manifest_get r = if not (text_eq r.method (codes "GET")) then none else match_manifest r.path
