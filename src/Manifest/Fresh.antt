-- ===== src/Manifest/Fresh.antt =====
-- manifest.go: every answer is one of the registry, and at most 10 seconds old.
use Prim.Native.Nat.{ℕ, ◌+◌, ◌≤◌}
use accelerboat.Base.{
  ◌≡◌, refl, sym, ap, ◌∙◌, ◌⊎◌, inl, inr, Option, none, some, List, [], ◌∷◌, ◌++◌, arith,
  Option-cases, Bool-cases, opt_else_ind,
}
use accelerboat.Base.Sort.{All}
use accelerboat.Base.Text.{Text, text_eq, text_eq_refl, text_eq→eq, Lacks}
use accelerboat.Manifest.{ManifestRequest, build_manifest_key, key_of, Cache, answer, answers}

abbrev head_or : ℕ → Text → ℕ
head_or c [] = c
head_or c (d ∷ s) = d

abbrev tail_of : Text → Text
tail_of [] = []
tail_of (c ∷ s) = s

-- A host or a repository has no comma.
abbrev pub IsPlain : ManifestRequest → Type 0
IsPlain req = Lacks b',' req.original_host × Lacks b',' req.repo

abbrev pub AllPlain : List (ManifestRequest × ℕ) → Type 0
AllPlain rs = All (λ r. IsPlain r.0) rs

-- What the first comma ends is the same.
comma_inj :
    (a b s t : Text)
    → Lacks b',' a
    → Lacks b',' b
    → a ++ (b',' ∷ s) ≡ b ++ (b',' ∷ t)
    → (a ≡ b) × (s ≡ t)
comma_inj [] [] s t ha hb e = (refl, cc)
comma_inj [] (d ∷ b) s t ha (hd, hb) e = absurd (hd (ap (head_or 0) (sym e)))
comma_inj (c ∷ a) [] s t (hc, ha) hb e = absurd (hc (ap (head_or 0) e))
comma_inj (c ∷ a) (d ∷ b) s t (hc, ha) (hd, hb) e =
    let (same, rest) = comma_inj a b s t ha hb (ap tail_of e) in
    ((λ i. ap (head_or 0) e i ∷ same i), rest)

-- Requests with the same key name the same manifest.
abbrev pub AreSame : ManifestRequest → ManifestRequest → Type 0
AreSame r q = (r.original_host ≡ q.original_host) × (r.repo ≡ q.repo) × (r.tag ≡ q.tag)

key-AreSame : (r q : ManifestRequest) → IsPlain r → IsPlain q → key_of r ≡ key_of q → AreSame r q
unfolding build_manifest_key
key-AreSame r q (host_r, repo_r) (host_q, repo_q) e =
    let (host, rest) =
      comma_inj r.original_host q.original_host (r.repo ++ (b',' ∷ r.tag))
        (q.repo ++ (b',' ∷ q.tag)) host_r host_q e in
    let (repo, tag) = comma_inj r.repo q.repo r.tag q.tag repo_r repo_q rest in (host, repo, tag)

module _ {V : Type 0} (cache : Cache V) (send : ManifestRequest → ℕ → Option V) where
  -- The registry answered a request for the same manifest so, at most 10 seconds before.
  abbrev pub IsFresh : ManifestRequest → ℕ → V → Type 0
  IsFresh asked now v =
      (req : ManifestRequest) × (at : ℕ) × AreSame req asked
      × (send req at ≡ some v)
      × (at ≤ now)
      × (now ≤ at + 10)

  -- The registry answered a request with this key so, at most 10 seconds before.
  abbrev IsKept : Text → ℕ → V → Type 0
  IsKept k now v =
      (req : ManifestRequest) × (at : ℕ) × IsPlain req
      × (key_of req ≡ k)
      × (send req at ≡ some v)
      × (at ≤ now)
      × (now ≤ at + 10)

  -- What the cache gives from a time on is fresh.
  abbrev pub AllFresh : ℕ → cache.State → Type 0
  AllFresh now s =
      (k : Text) (later : ℕ) (v : V) → now ≤ later → cache.get k later s ≡ some v → IsKept k later v

  -- The times of the requests do not go back.
  abbrev pub Growing : ℕ → List (ManifestRequest × ℕ) → Type 0
  Growing t [] = Unit {0}
  Growing t ((req, now) ∷ rs) = (t ≤ now) × Growing now rs

  abbrev pub AnsweredFresh : List (ManifestRequest × ℕ) → List (Option V) → Type 0
  AnsweredFresh [] vs = Unit {0}
  AnsweredFresh ((req, now) ∷ rs) [] = Unit {0}
  AnsweredFresh ((req, now) ∷ rs) (o ∷ vs) =
      ((v : V) → o ≡ some v → IsFresh req now v) × AnsweredFresh rs vs

  set-AllFresh :
      (req : ManifestRequest) (now : ℕ) (v : V) (s : cache.State)
      → IsPlain req
      → send req now ≡ some v
      → AllFresh now s
      → AllFresh now (cache.set (key_of req) v now s)
  set-AllFresh req now v s plain sent fresh k later u le got =
      elim (Bool-cases (text_eq (key_of req) k)) [
        | inl same ↦
            let stored = cache.get_set (key_of req) k v now later s le in
            (
              req,
              now,
              plain,
              text_eq→eq (key_of req) k same,
              sent ∙ ground (arith, stored, same),
              le,
              ground (arith, stored, same),
            )
        | inr other ↦
            fresh k later u le
              (ground (arith, cache.get_set (key_of req) k v now later s le, other))
      ]

  abbrev StepFresh : ManifestRequest → ℕ → Option V × cache.State → Type 0
  StepFresh req now (o, s) = ((v : V) → o ≡ some v → IsFresh req now v) × AllFresh now s

  answer-StepFresh :
      (req : ManifestRequest) (now : ℕ) (s : cache.State)
      → IsPlain req
      → AllFresh now s
      → StepFresh req now (answer cache send req now s)
  unfolding answer
  answer-StepFresh req now s plain fresh =
      opt_else_ind (StepFresh req now) (cache.get (key_of req) now s)
        (elim (send req now) [
          | none ↦ (none, s)
          | some v ↦ (some v, cache.set (key_of req) v now s)
        ])
        (λ v. (some v, s))
        (λ missing.
          opt_else_ind (StepFresh req now) (send req now) (none, s)
            (λ v. (some v, cache.set (key_of req) v now s)) (λ failed. ((λ v e. cc), fresh))
            (λ v sent. (
              (λ u e. (req, now, (refl, refl, refl), sent ∙ e, omega arith, omega arith)),
              set-AllFresh req now v s plain sent fresh,
            )))
        (λ v found. (
          (λ u e.
              let (q, at, plain_q, same, sent, before, soon) =
                fresh (key_of req) now u (omega arith) (found ∙ e) in
              (q, at, key-AreSame q req plain_q plain same, sent, before, soon)),
          fresh,
        ))

  answers-AnsweredFresh :
      (rs : List (ManifestRequest × ℕ)) (t : ℕ) (s : cache.State)
      → AllFresh t s
      → AllPlain rs
      → Growing t rs
      → AnsweredFresh rs (answers cache send rs s).0
  unfolding answers
  answers-AnsweredFresh [] t s fresh plain g = tt
  answers-AnsweredFresh ((req, now) ∷ rs) t s fresh (plain, all_plain) (le, g) =
      let now_fresh : AllFresh now s = (λ k later v h got. fresh k later v (omega arith) got) in
      let (one, kept) = answer-StepFresh req now s plain now_fresh in
      (one, answers-AnsweredFresh rs now (answer cache send req now s).1 kept all_plain g)

  -- When the requests of a cache that starts empty come at times that do not go back, each that is
  -- answered gets what the registry answered to a request of the same host, repository and tag, at
  -- most 10 seconds before. No host and no repository has a comma in it.
  pub answers_fresh :
      (rs : List (ManifestRequest × ℕ)) (t : ℕ)
      → AllPlain rs
      → Growing t rs
      → AnsweredFresh rs (answers cache send rs cache.empty).0
  answers_fresh rs t plain g =
      answers-AnsweredFresh rs t cache.empty
        (λ k later v le got. ground (arith, cache.get_empty k later)) plain g

  AreSame-key : (r q : ManifestRequest) → AreSame r q → key_of r ≡ key_of q
  AreSame-key r q (host, repo, tag) i = build_manifest_key (host i) (repo i) (tag i)

  -- What the cache gives right after an answer for the key.
  Hits : ManifestRequest → ℕ → V → Option V × cache.State → Option V → Type 0
  Hits req now v (o, s) before =
      o ≡ some v
      → (cache.get (key_of req) now s ≡ some v)
        × (before ≡ none
            → (later : ℕ) → now ≤ later
            → later ≤ now + 10
            → cache.get (key_of req) later s ≡ some v)

  answer-Hits :
      (req : ManifestRequest) (v : V) (now : ℕ) (s : cache.State)
      → Hits req now v (answer cache send req now s) (cache.get (key_of req) now s)
  unfolding answer Hits
  answer-Hits req v now s = elim (Option-cases (cache.get (key_of req) now s)) [
    | inr (u, found) ↦ rw (found, answer) (λ e. (found ∙ e, λ n. absurd cc))
    | inl missing ↦ elim (Option-cases (send req now)) [
      | inl failed ↦ rw (missing, failed, answer) (λ e. absurd cc)
      | inr (u, sent) ↦
          rw (missing, sent, answer)
            (λ e. (
              stored u now (omega arith) (omega arith) ∙ e,
              λ n later le soon. stored u later le soon ∙ e,
            ))
    ]
  ]
    where
      stored :
          (u : V) (later : ℕ)
          → now ≤ later
          → later ≤ now + 10
          → cache.get (key_of req) later (cache.set (key_of req) u now s) ≡ some u
      stored u later le soon = ground (
        arith,
        cache.get_set (key_of req) (key_of req) u now later s le,
        text_eq_refl (key_of req),
      )

  answer-found :
      (req : ManifestRequest) (v : V) (now : ℕ) (s : cache.State)
      → cache.get (key_of req) now s ≡ some v
      → (answer cache send req now s).0 ≡ some v
  unfolding answer
  answer-found req v now s found = rw (found, answer) refl

  -- A manifest that one request is answered with, out of the cache or by the registry, is the answer to
  -- every other for the same host, repository and tag that comes at once, whatever its headers and its
  -- URL are and whatever the registry would answer to it; and for 10 seconds, when the registry was asked
  -- for the first.
  pub answer-ignores_headers :
      (req req2 : ManifestRequest) (v : V) (now later : ℕ) (s : cache.State)
      → AreSame req req2
      → (answer cache send req now s).0 ≡ some v
      → now ≤ later
      → (later ≡ now) ⊎ ((cache.get (key_of req) now s ≡ none) × (later ≤ now + 10))
      → (answer cache send req2 later (answer cache send req now s).1).0 ≡ some v
  unfolding Hits
  answer-ignores_headers req req2 v now later s same answered le when =
      let (at_once, soon) = answer-Hits req v now s answered in
      let s' = (answer cache send req now s).1 in
      let hit : cache.get (key_of req) later s' ≡ some v = elim when [
        | inl e ↦ ap (λ m. cache.get (key_of req) m s') e ∙ at_once
        | inr (missing, near) ↦ soon missing later le near
      ] in
      answer-found req2 v later s'
        (ap (λ k. cache.get k later s') (sym (AreSame-key req req2 same)) ∙ hit)
