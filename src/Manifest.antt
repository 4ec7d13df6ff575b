-- ===== src/Manifest.antt =====
-- pkg/server/customapi/manifest.go: the master's caches of manifests. The registry and go-cache are
-- parameters; a cached value stays for the 10 seconds that it is set for.
pub mod Fresh
pub mod Tests
use Prim.Native.Nat.{ℕ, ◌+◌, ◌≤◌}
use accelerboat.Base.{
  ◌≡◌, Bool, true, false, Option, none, some, List, [], ◌∷◌, ◌++◌, ltb, if◌then◌else◌,
}
use accelerboat.Base.Text.{Text, codes, text_eq}

pub record ManifestRequest : Type 0 where
  pub original_host : Text
  pub url : Text
  pub headers : List (Text × List Text)
  pub repo : Text
  pub tag : Text

unfoldable pub build_manifest_key : Text → Text → Text → Text
build_manifest_key original_host repo tag = original_host ++ (b',' ∷ (repo ++ (b',' ∷ tag)))

abbrev pub key_of : ManifestRequest → Text
key_of req = build_manifest_key req.original_host req.repo req.tag

-- A go-cache of values; `set` is with 10 seconds, and both take the clock in seconds.
pub record Cache (V : Type 0) : Type 1 where
  pub State : Type 0
  pub empty : State
  pub get : Text → ℕ → State → Option V
  pub set : Text → V → ℕ → State → State
  pub get_empty : (k : Text) (now : ℕ) → get k now empty ≡ none
  pub get_set :
      (k j : Text) (v : V) (now later : ℕ) (s : State)
      → now ≤ later
      → get j later (set k v now s)
        ≡ (if text_eq k j then (if ltb (now + 10) later then none else some v) else get j later s)

-- The handler of one of the two caches: `send` is the request to the registry, at a time.
module _ {V : Type 0} (cache : Cache V) (send : ManifestRequest → ℕ → Option V) where
  unfoldable pub answer : ManifestRequest → ℕ → cache.State → Option V × cache.State
  answer req now s =
      let sent = send req now in
      elim (cache.get (key_of req) now s) [
        | some v ↦ (some v, s)
        | none ↦ elim sent [ none ↦ (none, s) | some v ↦ (some v, cache.set (key_of req) v now s) ]
      ]

  -- The requests of one cache, at their times.
  unfoldable pub answers : List (ManifestRequest × ℕ) → cache.State → List (Option V) × cache.State
  unfolding answer
  answers [] s = ([], s)
  answers ((req, now) ∷ rs) s =
      let (v, s') = answer req now s in let (vs, s'') = answers rs s' in (v ∷ vs, s'')

-- Header values by name, as the registry answers to HEAD.
abbrev pub HeadHeaders : Type 0
HeadHeaders = List (Text × List Text)

unfoldable pub registry_head_manifest :
    (cache : Cache HeadHeaders)
    → (ManifestRequest → ℕ → Option HeadHeaders)
    → ManifestRequest
    → ℕ
    → cache.State
    → Option HeadHeaders × cache.State
unfolding answer
registry_head_manifest cache send = answer cache send

unfoldable pub registry_get_manifest :
    (cache : Cache Text)
    → (ManifestRequest → ℕ → Option Text)
    → ManifestRequest
    → ℕ
    → cache.State
    → Option Text × cache.State
unfolding answer
registry_get_manifest cache send = answer cache send
