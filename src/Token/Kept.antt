-- ===== src/Token/Kept.antt =====
-- servicetoken.go: which tokens are kept, and for how long.
use Prim.Native.Nat.{ℕ, ◌+◌, ◌≤◌, ◌<◌, min}
use accelerboat.Base.{
  ◌≡◌, refl, ap, ◌∙◌, ◌⊎◌, inl, inr, Bool, true, false, Option, none, some, List, [], ◌∷◌, arith,
  ltb, if◌then◌else◌, Bool-cases, opt_else_ind,
}
use accelerboat.Base.Int.{ℤ, pos, ltb_ℤ}
use accelerboat.Base.Keys.{insert}
use accelerboat.Base.Text.{Text, codes}
use accelerboat.Options.{RegistryAuth}
use accelerboat.Token.{
  RegistryAuthToken, Headers, GetServiceTokenRequest, AuthCache, Checked, panicked, checked, Reply,
  replied, build_auth_token_key, get_service_token_with_check, expire_of, shortened,
  save_auth_token, basic, try_users, after_first, without, get_service_token,
}

expire_eq : (t : RegistryAuthToken) (e : ℕ) → t.expires_in ≡ pos e → expire_of t ≡ pos (min 180 e)
unfolding expire_of
expire_eq t e te = ap (λ d. if ltb_ℤ (pos 180) d then pos 180 else d) te ∙ ground arith

module _ (cache : AuthCache) (fetch : Headers → Option RegistryAuthToken)
    (probe : Text → Text → Option ℕ) (encode : Text → Text) where
  open cache use {State, get, set}

  abbrev pub key_of : GetServiceTokenRequest → Text
  key_of req = build_auth_token_key req.original_host req.service req.scope

  -- The call keeps nothing, or it keeps and answers with a token that has passed the check.
  abbrev pub IsKept : Text → Text → ℕ → State → Reply × State → Type 0
  IsKept key scope now s (reply, s') =
      (s' ≡ s)
      ⊎ (t : RegistryAuthToken) × (hs : Headers) × (get_service_token_with_check fetch probe scope
            hs
          ≡ checked (some t) true)
        × (reply ≡ replied (shortened t))
        × (s' ≡ save_auth_token cache fetch probe encode key t now s)

  by_check :
      (P : Reply × State → Type 0) (c : Checked) (x rest : Reply × State)
      (f : RegistryAuthToken → Reply × State)
      → P x
      → P rest
      → ((t : RegistryAuthToken) → c ≡ checked (some t) true → P (f t))
      → P (elim c [
        | panicked ↦ x
        | checked none ok ↦ rest
        | checked (some t) false ↦ rest
        | checked (some t) true ↦ f t
      ])
  by_check P panicked x rest f px pr pf = px
  by_check P (checked none ok) x rest f px pr pf = pr
  by_check P (checked (some t) false) x rest f px pr pf = pr
  by_check P (checked (some t) true) x rest f px pr pf = pf t refl

  try_users-IsKept :
      (key scope : Text) (original : Option RegistryAuthToken) (now : ℕ) (us : List RegistryAuth)
      (hs : Headers) (s : State)
      → IsKept key scope now s (try_users cache fetch probe encode key scope original now us hs s)
  unfolding try_users
  try_users-IsKept key scope original now [] hs s = inl refl
  try_users-IsKept key scope original now (u ∷ us) none s = inl refl
  try_users-IsKept key scope original now (u ∷ us) (some hs) s =
      let hs' = insert (codes "Authorization") (basic cache fetch probe encode u ∷ []) hs in
      by_check (IsKept key scope now s) (get_service_token_with_check fetch probe scope (some hs'))
        _ _ _ (inl refl) (try_users-IsKept key scope original now us (some hs') s)
        (λ t e. inr (t, some hs', e, refl, refl))

  by_first :
      (P : Reply × State → Type 0) (c : Checked) (x : Reply × State)
      (f : Option RegistryAuthToken → Bool → Reply × State)
      → P x
      → ((o : Option RegistryAuthToken) (ok : Bool) → c ≡ checked o ok → P (f o ok))
      → P (elim c [ panicked ↦ x | checked o ok ↦ f o ok ])
  by_first P panicked x f px pf = px
  by_first P (checked o ok) x f px pf = pf o ok refl

  after_first-IsKept :
      (key scope : Text) (us : List RegistryAuth) (now : ℕ) (hs : Headers) (s : State)
      (o : Option RegistryAuthToken) (ok : Bool)
      → get_service_token_with_check fetch probe scope hs ≡ checked o ok
      → IsKept key scope now s (after_first cache fetch probe encode key scope us now hs s o ok)
  unfolding after_first
  after_first-IsKept key scope us now hs s none ok e = try_users-IsKept key scope none now us hs s
  after_first-IsKept key scope us now hs s (some t) false e =
      try_users-IsKept key scope (some t) now us hs s
  after_first-IsKept key scope us now hs s (some t) true e = inr (t, hs, e, refl, refl)

  -- GetServiceToken keeps a token only if it has passed the check, or needs none, and then answers with
  -- it. In every other case, answers from the cache included, it leaves the cache as it was.
  pub get_service_token-IsKept :
      (req : GetServiceTokenRequest) (us : List RegistryAuth) (now : ℕ) (s : State)
      → IsKept
          (key_of req)
          req.scope
          now
          s
          (get_service_token cache fetch probe encode req us now s)
  unfolding get_service_token
  get_service_token-IsKept req us now s =
      opt_else_ind (IsKept (key_of req) req.scope now s) (get (key_of req) now s) _ _
        (λ n.
          by_first (IsKept (key_of req) req.scope now s)
            (get_service_token_with_check fetch probe req.scope
              (without (codes "Accept-Encoding") req.headers))
            _ _ (inl refl) (after_first-IsKept (key_of req) req.scope us now _ s))
        (λ t e. inl refl)

  get_service_token-hit :
      (req : GetServiceTokenRequest) (us : List RegistryAuth) (now : ℕ) (s : State)
      (t : RegistryAuthToken)
      → get (key_of req) now s ≡ some t
      → get_service_token cache fetch probe encode req us now s ≡ (replied t, s)
  unfolding get_service_token
  get_service_token-hit req us now s t e = rw (e, get_service_token) refl

  saved-get :
      (key : Text) (t : RegistryAuthToken) (d : ℤ) (now later : ℕ) (s : State)
      → expire_of t ≡ d
      → get key later (save_auth_token cache fetch probe encode key t now s)
        ≡ get key later (set key (shortened t) d now s)
  unfolding save_auth_token
  saved-get key t d now later s e = ap (λ d. get key later (set key (shortened t) d now s)) e

  -- A token without an expires_in is kept for good: at every later time GetServiceToken answers with it
  -- from the cache.
  pub save_auth_token-forever :
      (req : GetServiceTokenRequest) (us : List RegistryAuth) (now later : ℕ) (s : State)
      (t : RegistryAuthToken)
      → t.expires_in ≡ pos 0
      → now ≤ later
      → let s' = save_auth_token cache fetch probe encode (key_of req) t now s in
        get_service_token cache fetch probe encode req us later s' ≡ (replied (shortened t), s')
  unfolding expire_of
  save_auth_token-forever req us now later s t e le =
      get_service_token-hit req us later _ (shortened t) (
        saved-get (key_of req) t (pos 0) now later s zero
        ∙ cache.set_default (key_of req) (shortened t) now later s le)
    where
      zero : expire_of t ≡ pos 0
      zero = ap (λ d. if ltb_ℤ (pos 180) d then pos 180 else d) e

  -- A token that expires is answered from the cache for its time, at most 180 seconds, and not after:
  -- then the cache has none.
  pub save_auth_token-expires :
      (req : GetServiceTokenRequest) (us : List RegistryAuth) (now later e : ℕ) (s : State)
      (t : RegistryAuthToken)
      → t.expires_in ≡ pos e
      → 0 < e
      → now ≤ later
      → let s' = save_auth_token cache fetch probe encode (key_of req) t now s in
        ((later ≤ now + min 180 e)
          × (get_service_token cache fetch probe encode req us later s'
              ≡ (replied (shortened t), s')))
        ⊎ (now + min 180 e < later) × (get (key_of req) later s' ≡ none)
  save_auth_token-expires req us now later e s t te lt le =
      elim (Bool-cases (ltb (now + min 180 e) later)) [
        | inl over ↦
            inr (ground (arith, over), kept ∙ ap (λ b. if b then none else some (shortened t)) over)
        | inr fresh ↦ inl (
          ground (arith, fresh),
          get_service_token-hit req us later _ (shortened t)
              (kept ∙ ap (λ b. if b then none else some (shortened t)) fresh),
        )
      ]
    where
      kept :
          get (key_of req) later (save_auth_token cache fetch probe encode (key_of req) t now s)
          ≡ (if ltb (now + min 180 e) later then none else some (shortened t))
      kept =
          saved-get (key_of req) t (pos (min 180 e)) now later s (expire_eq t e te)
          ∙ cache.set_for (key_of req) (shortened t) (min 180 e) now later s (ground arith) le
