-- ===== src/Manifest/Tests.antt =====
-- manifest.go: a cache in memory, which shows that the laws of the parameter can hold, and the
-- theorems at it.
use Prim.Native.Nat.{ℕ, ◌+◌, ◌≤◌}
use accelerboat.Base.{
  ◌≡◌, refl, ap, ◌∙◌, Option, none, some, List, [], ◌∷◌, arith, ltb, if◌then◌else◌, Bool-cases, inl,
  inr, Bool, false, ◌==◌, ◌||◌,
}
use accelerboat.Base.Keys.{lookup, insert, lookup-insert}
use accelerboat.Base.Text.{Text, codes, text_eq, Lacks}
use accelerboat.Manifest.{ManifestRequest, key_of, Cache, answer, answers}
use accelerboat.Manifest.Fresh.{IsPlain, AnsweredFresh, answers_fresh, answer-ignores_headers}

abbrev alive : ℕ → Option (Text × ℕ) → Option Text
alive now none = none
alive now (some (v, until)) = if ltb until now then none else some v

none_kept : (k : Text) (now : ℕ) → alive now (lookup k []) ≡ none
unfolding lookup
none_kept k now = refl

abbrev in_memory : Cache Text
in_memory = record {
  State = List (Text × (Text × ℕ));
  empty = [];
  get = λ k now s. alive now (lookup k s);
  set = λ k v now s. insert k (v, now + 10) s;
  get_empty = λ k now. none_kept k now;
  get_set = stays;
}
  where
    stays :
        (k j : Text) (v : Text) (now later : ℕ) (s : List (Text × (Text × ℕ)))
        → now ≤ later
        → alive later (lookup j (insert k (v, now + 10) s)) ≡ (
            if text_eq k j
            then (if ltb (now + 10) later then none else some v)
            else alive later (lookup j s))
    stays k j v now later s le = elim (Bool-cases (text_eq k j)) [
      | inl same ↦ ap (alive later) (lookup-insert k j (v, now + 10) s) ∙ rw (same) refl
      | inr other ↦ ap (alive later) (lookup-insert k j (v, now + 10) s) ∙ rw (other) refl
    ]

abbrev req : ManifestRequest
req = record {
  original_host = codes "registry";
  url = codes "/v2/a/b/manifests/1";
  headers = (codes "Authorization", codes "Bearer x" ∷ []) ∷ [];
  repo = codes "a/b";
  tag = codes "1";
}

abbrev stranger : ManifestRequest
stranger = record req { headers = [] }

-- The registry answers no request without headers.
abbrev send : ManifestRequest → ℕ → Option Text
send r now = elim r.headers [ [] ↦ none | h ∷ hs ↦ some (codes "{}") ]

abbrev has_comma : Text → Bool
has_comma [] = false
has_comma (c ∷ s) = c == b',' || has_comma s

plain_text : (s : Text) → has_comma s ≡ false → Lacks b',' s
plain_text [] e = tt
plain_text (c ∷ s) e = (ground arith, plain_text s (ground arith))

req-IsPlain : IsPlain req
req-IsPlain = (plain_text req.original_host refl, plain_text req.repo refl)

answers_fresh_example :
    AnsweredFresh in_memory send
      ((req, 5) ∷ (stranger, 8) ∷ [])
      (answers in_memory send ((req, 5) ∷ (stranger, 8) ∷ []) []).0
answers_fresh_example =
    answers_fresh in_memory send ((req, 5) ∷ (stranger, 8) ∷ []) 0 (req-IsPlain, (req-IsPlain, tt))
      (omega arith, (omega arith, tt))

first : (answer in_memory send req 5 []).0 ≡ some (codes "{}")
unfolding answer lookup
first = refl

answer-ignores_headers_example :
    (answer in_memory send stranger 8 (answer in_memory send req 5 []).1).0 ≡ some (codes "{}")
answer-ignores_headers_example =
    answer-ignores_headers in_memory send req stranger (codes "{}") 5 8 [] (refl, refl, refl) first
      (omega arith) (inr (none_kept (key_of req) 5, omega arith))
