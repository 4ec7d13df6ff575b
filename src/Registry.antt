-- ===== src/Registry.antt =====
-- pkg/utils/registry.go: what the proxy reads from the requests and headers of the registry protocol.
pub mod Find
pub mod Bearer
pub mod Uri
pub mod Tests
use Prim.Native.Nat.{ℕ}
use accelerboat.Base.{
  ◌≡◌, Bool, true, false, not, ◌&&◌, ◌||◌, Option, none, some, List, [], ◌∷◌, ◌++◌, ◌==◌,
  if◌then◌else◌,
}
use accelerboat.Base.Text.{Text, codes, text_eq, has_prefix, drop_prefix, trim_space}
use accelerboat.Base.Text.Split.{join}

abbrev pub quote : ℕ
quote = 34

-- (.*?)" on a text without newlines: up to the first quote.
unfoldable pub until_quote : Text → Option Text
until_quote [] = none
until_quote (c ∷ s) =
    let rest = until_quote s in
    if c == quote then some [] else elim rest [ none ↦ none | some v ↦ some (c ∷ v) ]

-- The group of the leftmost match of key"(.*?)", where the key ends in '='.
unfoldable pub find_value : Text → Text → Option Text
unfolding until_quote
find_value key [] = none
find_value key (c ∷ s) =
    let rest = find_value key s in
    if has_prefix (c ∷ s) (key ++ (quote ∷ []))
    then until_quote (drop_prefix (c ∷ s) (key ++ (quote ∷ [])))
    else rest

abbrev pub realm_key : Text
realm_key = codes "realm="

abbrev pub service_key : Text
service_key = codes "service="

abbrev pub scope_key : Text
scope_key = codes "scope="

abbrev pub or_empty : Option Text → Text
or_empty none = []
or_empty (some v) = v

-- The three values, in the order realm, service, scope.
unfoldable pub parse_authenticate_header : Text → Text × Text × Text
parse_authenticate_header header = (
  or_empty (find_value realm_key header),
  or_empty (find_value service_key header),
  or_empty (find_value scope_key header),
)

abbrev pub is_empty : Text → Bool
is_empty [] = true
is_empty (c ∷ s) = false

unfoldable pub parse_auth_request : Text → Text × Text × Text
unfolding parse_authenticate_header
parse_auth_request auth_header =
    let authenticate = trim_space auth_header in
    if is_empty authenticate || not (has_prefix authenticate (codes "Bearer realm"))
    then ([], [], [])
    else parse_authenticate_header authenticate

-- key"value"
abbrev pub quoted : Text → Text → Text
quoted key value = key ++ (quote ∷ (value ++ (quote ∷ [])))

abbrev pub part : Text → Text → List Text
part key [] = []
part key (c ∷ value) = quoted key (c ∷ value) ∷ []

unfoldable pub build_authenticate_header : Text → Text → Text → Text
build_authenticate_header realm service scope =
    join (quoted (codes "Bearer realm=") realm ∷ (part service_key service ++ part scope_key scope))
      (codes ",")

-- The new value of the header Www-Authenticate; the empty text is no header. The code takes the second
-- value for the scope and the third for the service, and hands them on in that order.
unfoldable pub change_authenticate_header : Text → Text → Text
unfolding parse_auth_request build_authenticate_header
change_authenticate_header proxy_host v =
    if is_empty v
    then v
    else (let (realm, scope, service) = parse_auth_request v in
        if is_empty realm
        then v
        else build_authenticate_header (proxy_host ++ codes "/service/token") scope service)
