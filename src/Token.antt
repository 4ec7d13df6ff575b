-- ===== src/Token.antt =====
-- pkg/server/customapi/servicetoken.go: how the master gets a registry token and keeps it. The
-- registry, go-cache and encoding/base64 are parameters.
pub mod Kept
pub mod Tests
use Prim.Native.Nat.{ℕ, ◌+◌, ◌≤◌, ◌<◌}
use accelerboat.Base.{
  ◌≡◌, Bool, true, false, not, ◌&&◌, ◌||◌, Option, none, some, List, [], ◌∷◌, ◌++◌, ltb, ◌==◌,
  if◌then◌else◌,
}
use accelerboat.Base.Int.{ℤ, pos, negsuc, ◌-ℤ◌, ltb_ℤ}
use accelerboat.Base.Keys.{insert, delete}
use accelerboat.Base.Text.{Text, codes, text_eq}
use accelerboat.Base.Text.Split.{split}
use accelerboat.Options.{RegistryAuth}

pub record RegistryAuthToken : Type 0 where
  pub token : Text
  pub access_token : Text
  pub expires_in : ℤ
  pub issued_at : ℕ

-- A header map; `none` is a nil map, which the request has when it names no headers.
abbrev pub Headers : Type 0
Headers = Option (List (Text × List Text))

pub record GetServiceTokenRequest : Type 0 where
  pub original_host : Text
  pub service_token_url : Text
  pub headers : Headers
  pub service : Text
  pub scope : Text

-- A go-cache with no expiration by default, as cache.New(0, ...) makes it. `set` takes the time to
-- live in seconds, and both take the clock. An item set for 0 seconds gets the default, which is to
-- stay; another stays as long as it is set for.
pub record AuthCache : Type 1 where
  pub State : Type 0
  pub get : Text → ℕ → State → Option RegistryAuthToken
  pub set : Text → RegistryAuthToken → ℤ → ℕ → State → State
  pub set_default :
      (k : Text) (v : RegistryAuthToken) (now later : ℕ) (s : State)
      → now ≤ later
      → get k later (set k v (pos 0) now s) ≡ some v
  pub set_for :
      (k : Text) (v : RegistryAuthToken) (d now later : ℕ) (s : State)
      → 0 < d
      → now ≤ later
      → get k later (set k v (pos d) now s) ≡ (if ltb (now + d) later then none else some v)

-- A token with the error, if there is one; an index out of range and a write to a nil map panic.
pub data Checked : Type 0 where
  panicked : Checked
  checked : Option RegistryAuthToken → Bool → Checked

pub data Reply : Type 0 where
  crashed refused : Reply
  replied : RegistryAuthToken → Reply

unfoldable pub build_auth_token_key : Text → Text → Text → Text
build_auth_token_key original_host service scope =
    original_host ++ (b',' ∷ (service ++ (b',' ∷ scope)))

-- scopeArr[1]
abbrev pub second : List Text → Option Text
second [] = none
second (a ∷ []) = none
second (a ∷ b ∷ rest) = some b

-- len(scopeArr) != 3 && scopeArr[0] != "repository"
abbrev pub needs_no_check : List Text → Bool
needs_no_check [] = true
needs_no_check (a ∷ b ∷ c ∷ []) = false
needs_no_check (a ∷ []) = not (text_eq a (codes "repository"))
needs_no_check (a ∷ b ∷ []) = not (text_eq a (codes "repository"))
needs_no_check (a ∷ b ∷ c ∷ d ∷ rest) = not (text_eq a (codes "repository"))

-- `fetch` gets the token of a request with these headers, `none` where the request or its decoding
-- fails, and `probe` the status of a HEAD for the repository's latest manifest with the token.
module _ (fetch : Headers → Option RegistryAuthToken) (probe : Text → Text → Option ℕ) where
  unfoldable pub get_service_token_with_check : Text → Headers → Checked
  get_service_token_with_check scope headers = elim (fetch headers) [
    | none ↦ checked none false
    | some t ↦
        if needs_no_check (split scope b':')
        then checked (some t) true
        else elim (second (split scope b':')) [
          | none ↦ panicked
          | some repo ↦ elim (probe repo t.token) [
            | none ↦ checked (some t) false
            | some status ↦ checked (some t) (not (status == 401) && ltb status 500)
          ]
        ]
  ]

-- The reply when all users have failed.
abbrev pub last_reply : Option RegistryAuthToken → Reply
last_reply none = refused
last_reply (some t) = replied t

-- delete(headers, name)
abbrev pub without : Text → Headers → Headers
without name none = none
without name (some hs) = some (delete name hs)

-- The time to live in the cache.
unfoldable pub expire_of : RegistryAuthToken → ℤ
expire_of t = if ltb_ℤ (pos 180) t.expires_in then pos 180 else t.expires_in

-- The token behind the pointer, which is in the cache already, after its time is shortened.
unfoldable pub shortened : RegistryAuthToken → RegistryAuthToken
shortened t =
    if ltb_ℤ (pos 180) (t.expires_in -ℤ pos 60)
    then record t { expires_in = t.expires_in -ℤ pos 60 }
    else t

module _ (cache : AuthCache) (fetch : Headers → Option RegistryAuthToken)
    (probe : Text → Text → Option ℕ) (encode : Text → Text) where
  open cache use {State, get, set}

  unfoldable pub save_auth_token : Text → RegistryAuthToken → ℕ → State → State
  save_auth_token key t now s = set key (shortened t) (expire_of t) now s

  -- The value of the header Authorization.
  unfoldable pub basic : RegistryAuth → Text
  basic user = codes "Basic " ++ encode (user.username ++ (b':' ∷ user.password))

  -- The loop over the legal users.
  unfoldable pub try_users :
      Text
      → Text
      → Option RegistryAuthToken
      → ℕ
      → List RegistryAuth
      → Headers
      → State
      → Reply × State
  try_users key scope original now [] headers s = (last_reply original, s)
  try_users key scope original now (u ∷ us) none s = (crashed, s)
  try_users key scope original now (u ∷ us) (some hs) s =
      let hs' = insert (codes "Authorization") (basic u ∷ []) hs in
      let rest = try_users key scope original now us (some hs') s in
      elim (get_service_token_with_check fetch probe scope (some hs')) [
        | panicked ↦ (crashed, s)
        | checked none ok ↦ rest
        | checked (some t) false ↦ rest
        | checked (some t) true ↦ (replied (shortened t), save_auth_token key t now s)
      ]

  -- After the first request, from its token and whether it passed.
  unfoldable pub after_first :
      Text
      → Text
      → List RegistryAuth
      → ℕ
      → Headers
      → State
      → Option RegistryAuthToken
      → Bool
      → Reply × State
  after_first key scope legal_users now headers s (some t) true =
      (replied (shortened t), save_auth_token key t now s)
  after_first key scope legal_users now headers s (some t) false =
      try_users key scope (some t) now legal_users headers s
  after_first key scope legal_users now headers s none ok =
      try_users key scope none now legal_users headers s

  -- GetServiceToken, with the legal users of the mapping of the original registry.
  unfoldable pub get_service_token :
      GetServiceTokenRequest → List RegistryAuth → ℕ → State → Reply × State
  get_service_token req legal_users now s =
      let key = build_auth_token_key req.original_host req.service req.scope in
      let headers = without (codes "Accept-Encoding") req.headers in
      elim (get key now s) [
        | some t ↦ (replied t, s)
        | none ↦ elim (get_service_token_with_check fetch probe req.scope headers) [
          | panicked ↦ (crashed, s)
          | checked o ok ↦ after_first key req.scope legal_users now headers s o ok
        ]
      ]
