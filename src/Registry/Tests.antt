-- ===== src/Registry/Tests.antt =====
-- pkg/utils/registry.go: a registry's header, rewritten.
use accelerboat.Base.{◌≡◌, refl, ◌++◌, arith, false}
use accelerboat.Base.Text.{Text, codes, has_prefix, drop_prefix, trim_space, trim_left, Lacks}
use accelerboat.Registry.{
  quoted, is_empty, until_quote, find_value, parse_authenticate_header, parse_auth_request,
  change_authenticate_header,
}
use accelerboat.Registry.Bearer.{change_authenticate_header-parse}

abbrev proxy : Text
proxy = codes "https://p:80"

abbrev header : Text
header =
    quoted (codes "Bearer realm=") (codes "https://a")
    ++ (quoted (codes ",service=") (codes "r") ++ quoted (codes ",scope=") (codes "b:pull"))

parses : parse_auth_request header ≡ (codes "https://a", codes "r", codes "b:pull")
unfolding parse_auth_request parse_authenticate_header find_value until_quote has_prefix drop_prefix
    trim_space trim_left
parses = refl

change_authenticate_header-parse_example :
    parse_auth_request (change_authenticate_header proxy header) ≡ (
      proxy ++ codes "/service/token",
      (parse_auth_request header).1,
      (parse_auth_request header).2,
    )
change_authenticate_header-parse_example =
    change_authenticate_header-parse proxy header has_realm ((omega arith), (omega arith))
      clean_service clean_scope
  where
    has_realm : is_empty (parse_auth_request header).0 ≡ false
    has_realm = rw parses refl

    clean_service : Lacks b'=' (parse_auth_request header).1
    clean_service = rw parses (omega arith)

    clean_scope : Lacks b'=' (parse_auth_request header).2
    clean_scope = rw parses (omega arith)
