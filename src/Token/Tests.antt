-- ===== src/Token/Tests.antt =====
-- servicetoken.go: a cache in memory, which shows that the laws of the parameter can hold, and the
-- theorems at it.
use Prim.Native.Nat.{ℕ, zero, suc, ◌+◌, ◌≤◌, ◌<◌}
use accelerboat.Base.{◌≡◌, ap, Option, none, some, List, [], ◌∷◌, arith, ltb, if◌then◌else◌}
use accelerboat.Base.Int.{ℤ, pos, negsuc}
use accelerboat.Base.Keys.{lookup, insert, lookup-insert}
use accelerboat.Base.Text.{Text, codes, text_eq_refl}
use accelerboat.Options.{RegistryAuth}
use accelerboat.Token.{
  RegistryAuthToken, Headers, GetServiceTokenRequest, AuthCache, get_service_token,
}
use accelerboat.Token.Kept.{IsKept, key_of, get_service_token-IsKept}

abbrev Items : Type 0
Items = List (Text × (RegistryAuthToken × Option ℕ))

abbrev expiration : ℤ → ℕ → Option ℕ
expiration (pos zero) now = none
expiration (pos (suc n)) now = some (now + suc n)
expiration (negsuc n) now = none

abbrev alive : ℕ → Option (RegistryAuthToken × Option ℕ) → Option RegistryAuthToken
alive now none = none
alive now (some (t, none)) = some t
alive now (some (t, some x)) = if ltb x now then none else some t

abbrev in_memory : AuthCache
in_memory = record {
  State = Items;
  get = λ k now s. alive now (lookup k s);
  set = λ k v d now s. insert k (v, expiration d now) s;
  set_default = stays;
  set_for = stays_for;
}
  where
    found :
        (k : Text) (v : RegistryAuthToken × Option ℕ) (s : Items) → lookup k (insert k v s) ≡ some v
    found k v s = ground (arith, lookup-insert k k v s, text_eq_refl k)

    stays :
        (k : Text) (v : RegistryAuthToken) (now later : ℕ) (s : Items)
        → now ≤ later
        → alive later (lookup k (insert k (v, expiration (pos 0) now) s)) ≡ some v
    stays k v now later s le = ap (alive later) (found k (v, none) s)

    stays_for :
        (k : Text) (v : RegistryAuthToken) (d now later : ℕ) (s : Items)
        → 0 < d
        → now ≤ later
        → alive later (lookup k (insert k (v, expiration (pos d) now) s))
          ≡ (if ltb (now + d) later then none else some v)
    stays_for k v zero now later s lt le = absurd (omega arith)
    stays_for k v (suc d) now later s lt le = ap (alive later) (found k (v, some (now + suc d)) s)

abbrev token : RegistryAuthToken
token = record { token = codes "t"; access_token = []; expires_in = pos 0; issued_at = 5 }

abbrev long_token : RegistryAuthToken
long_token = record token { expires_in = pos 300 }

abbrev req : GetServiceTokenRequest
req = record {
  original_host = codes "registry";
  service_token_url = codes "https://auth/token";
  headers = some [];
  service = codes "registry";
  scope = codes "repository:a/b:pull";
}

abbrev fetch : Headers → Option RegistryAuthToken
fetch hs = some token

abbrev probe : Text → Text → Option ℕ
probe repo t = some 200

abbrev encode : Text → Text
encode t = t

abbrev user : RegistryAuth
user = record { username = codes "u"; password = codes "p" }

get_service_token-IsKept_example :
    IsKept in_memory fetch probe encode
      (key_of in_memory fetch probe encode req)
      req.scope
      10
      []
      (get_service_token in_memory fetch probe encode req (user ∷ []) 10 [])
get_service_token-IsKept_example =
    get_service_token-IsKept in_memory fetch probe encode req (user ∷ []) 10 []
