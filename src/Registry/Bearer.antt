-- ===== src/Registry/Bearer.antt =====
-- pkg/utils/registry.go: the rewritten Www-Authenticate header, read back.
use accelerboat.Base.{
  ◌≡◌, refl, sym, ap, ◌∙◌, ◌⊎◌, inl, inr, false, not, ◌||◌, Option, none, some, [], ◌∷◌, ◌++◌,
  arith, if◌then◌else◌, Bool-cases, Option-cases, if_ind, append_assoc,
}
use accelerboat.Base.Text.{
  Text, codes, text_eq, has_prefix, trim_space, trim_left, trim_space-ends, Lacks, Lacks-append,
}
use accelerboat.Base.Text.Split.{join}
use accelerboat.Registry.{
  quote, find_value, realm_key, service_key, scope_key, or_empty, parse_authenticate_header,
  is_empty, parse_auth_request, quoted, build_authenticate_header, change_authenticate_header,
}
use accelerboat.Registry.Find.{has_tail, block, find_value-Lacks, find_value-block, has_tail-Lacks}

-- An empty value is left out.
opt_block : Text → Text → Text → Text
opt_block key [] s = s
opt_block key (c ∷ v) s = block key (c ∷ v) s

or_value : Text → Option Text → Text
or_value [] o = or_empty o
or_value (c ∷ v) o = c ∷ v

find_value-opt_block :
    (k key v s : Text)
    → Lacks quote k
    → Lacks quote key
    → Lacks quote v
    → has_tail k v ≡ false
    → or_empty (find_value k (opt_block key v s))
      ≡ (if has_tail k key then or_value v (find_value k s) else or_empty (find_value k s))
unfolding opt_block or_value
find_value-opt_block k key [] s hk hkey hv clean = elim (Bool-cases (has_tail k key)) [
  | inl e ↦ rw e refl
  | inr e ↦ rw e refl
]
find_value-opt_block k key (c ∷ v) s hk hkey hv clean =
    ap or_empty (find_value-block k key (c ∷ v) s hk hkey hv clean)
    ∙ elim (Bool-cases (has_tail k key)) [ inl e ↦ rw e refl | inr e ↦ rw e refl ]

quoted-append : (key v s : Text) → quoted key v ++ s ≡ block key v s
unfolding block
quoted-append key v s =
    append_assoc key (quote ∷ (v ++ (quote ∷ []))) s
    ∙ ap (λ t. key ++ (quote ∷ t)) (append_assoc v (quote ∷ []) s)

abbrev bearer : Text
bearer = codes "Bearer realm="

abbrev comma_service : Text
comma_service = codes ",service="

abbrev comma_scope : Text
comma_scope = codes ",scope="

shape : Text → Text → Text → Text
shape realm service scope =
    block bearer realm (opt_block comma_service service (opt_block comma_scope scope []))

build-shape :
    (realm service scope : Text)
    → build_authenticate_header realm service scope ≡ shape realm service scope
unfolding build_authenticate_header shape opt_block block join
build-shape realm [] [] = refl
build-shape realm [] (d ∷ scope) = quoted-append bearer realm (quoted comma_scope (d ∷ scope))
build-shape realm (c ∷ service) [] = quoted-append bearer realm (quoted comma_service (c ∷ service))
build-shape realm (c ∷ service) (d ∷ scope) =
    quoted-append bearer realm
      (quoted comma_service (c ∷ service) ++ quoted comma_scope (d ∷ scope))
    ∙ ap (block bearer realm)
        (quoted-append comma_service (c ∷ service) (quoted comma_scope (d ∷ scope)))

Ends : Text → Type 0
Ends s = (m : Text) × (s ≡ m ++ (quote ∷ []))

block-Ends : (key v s : Text) → (s ≡ []) ⊎ Ends s → Ends (block key v s)
unfolding Ends block
block-Ends key v s (inl e) = (
  key ++ (quote ∷ v),
  ap (λ t. key ++ (quote ∷ (v ++ (quote ∷ t)))) e ∙ sym (append_assoc key (quote ∷ v) (quote ∷ [])),
)
block-Ends key v s (inr (m, e)) = (
  block key v m,
  ap (block key v) e
      ∙ sym (
          append_assoc key (quote ∷ (v ++ (quote ∷ m))) (quote ∷ [])
          ∙ ap (λ t. key ++ (quote ∷ t)) (append_assoc v (quote ∷ m) (quote ∷ []))),
)

opt_block-Ends :
    (key v s : Text) → (s ≡ []) ⊎ Ends s → (opt_block key v s ≡ []) ⊎ Ends (opt_block key v s)
unfolding opt_block
opt_block-Ends key [] s h = h
opt_block-Ends key (c ∷ v) s h = inr (block-Ends key (c ∷ v) s h)

shape-Ends : (realm service scope : Text) → Ends (shape realm service scope)
unfolding shape
shape-Ends realm service scope =
    block-Ends bearer realm (opt_block comma_service service (opt_block comma_scope scope [])) (
      opt_block-Ends comma_service service (opt_block comma_scope scope [])
        (opt_block-Ends comma_scope scope [] (inl refl)))

-- No quote and no '='.
abbrev pub IsClean : Text → Type 0
IsClean v = Lacks quote v × Lacks b'=' v

shape-realm :
    (realm service scope : Text)
    → IsClean realm
    → find_value realm_key (shape realm service scope) ≡ some realm
unfolding shape text_eq
shape-realm realm service scope (hq, he) =
    find_value-block realm_key bearer realm _ (omega arith) (omega arith) hq
      (has_tail-Lacks (codes "realm") realm he)

nothing_found : (k : Text) → find_value k [] ≡ none
unfolding find_value
nothing_found k = refl

or_value_lem : (v : Text) (o : Option Text) → or_empty o ≡ [] → or_value v o ≡ v
unfolding or_value
or_value_lem [] o e = e
or_value_lem (c ∷ v) o e = refl

after_realm :
    (k0 realm s : Text)
    → Lacks quote (k0 ++ (b'=' ∷ []))
    → IsClean realm
    → has_tail (k0 ++ (b'=' ∷ [])) bearer ≡ false
    → find_value (k0 ++ (b'=' ∷ [])) (block bearer realm s) ≡ find_value (k0 ++ (b'=' ∷ [])) s
after_realm k0 realm s hk (rq, re) other =
    find_value-block (k0 ++ (b'=' ∷ [])) bearer realm s hk (omega arith) rq
      (has_tail-Lacks k0 realm re)
    ∙ ap (λ b. if b then some realm else find_value (k0 ++ (b'=' ∷ [])) s) other

shape-service :
    (realm service scope : Text)
    → IsClean realm
    → IsClean service
    → IsClean scope
    → or_empty (find_value service_key (shape realm service scope)) ≡ service
unfolding shape text_eq
shape-service realm service scope rc (vq, ve) (sq, se) =
    ap or_empty (after_realm (codes "service") realm _ (omega arith) rc refl)
    ∙ find_value-opt_block service_key comma_service service (opt_block comma_scope scope [])
        (omega arith) (omega arith) vq (has_tail-Lacks (codes "service") service ve)
    ∙ or_value_lem service (find_value service_key (opt_block comma_scope scope [])) (
        find_value-opt_block service_key comma_scope scope [] (omega arith) (omega arith) sq
          (has_tail-Lacks (codes "service") scope se)
        ∙ ap or_empty (nothing_found service_key))

shape-scope :
    (realm service scope : Text)
    → IsClean realm
    → IsClean service
    → IsClean scope
    → or_empty (find_value scope_key (shape realm service scope)) ≡ scope
unfolding shape text_eq
shape-scope realm service scope rc (vq, ve) (sq, se) =
    ap or_empty (after_realm (codes "scope") realm _ (omega arith) rc refl)
    ∙ find_value-opt_block scope_key comma_service service (opt_block comma_scope scope [])
        (omega arith) (omega arith) vq (has_tail-Lacks (codes "scope") service ve)
    ∙ find_value-opt_block scope_key comma_scope scope [] (omega arith) (omega arith) sq
        (has_tail-Lacks (codes "scope") scope se)
    ∙ or_value_lem scope (find_value scope_key []) (ap or_empty (nothing_found scope_key))

trim_left-shape :
    (realm service scope : Text) → trim_left (shape realm service scope) ≡ shape realm service scope
unfolding shape block trim_left
trim_left-shape realm service scope = refl

starts :
    (realm service scope : Text)
    → (if is_empty (shape realm service scope)
          || not (has_prefix (shape realm service scope) (codes "Bearer realm"))
        then ([], [], [])
        else parse_authenticate_header (shape realm service scope))
      ≡ parse_authenticate_header (shape realm service scope)
unfolding shape block has_prefix
starts realm service scope = refl

shape-trim :
    (realm service scope : Text)
    → trim_space (shape realm service scope) ≡ shape realm service scope
unfolding Ends
shape-trim realm service scope =
    let (m, e) = shape-Ends realm service scope in
    trim_space-ends (shape realm service scope) m quote (trim_left-shape realm service scope) e refl

parse_shape :
    (realm service scope : Text)
    → parse_auth_request (shape realm service scope)
      ≡ parse_authenticate_header (shape realm service scope)
unfolding parse_auth_request
parse_shape realm service scope =
    ap
      (λ t.
        if is_empty t || not (has_prefix t (codes "Bearer realm"))
        then ([], [], [])
        else parse_authenticate_header t)
      (shape-trim realm service scope)
    ∙ starts realm service scope

-- What build writes, parse reads.
parse-build :
    (realm service scope : Text)
    → IsClean realm
    → IsClean service
    → IsClean scope
    → parse_auth_request (build_authenticate_header realm service scope) ≡ (realm, service, scope)
unfolding parse_authenticate_header
parse-build realm service scope rc vc sc =
    ap parse_auth_request (build-shape realm service scope)
    ∙ parse_shape realm service scope
    ∙ (λ i. (
      ap or_empty (shape-realm realm service scope rc) i,
      shape-service realm service scope rc vc sc i,
      shape-scope realm service scope rc vc sc i,
    ))

AllLack : Text × Text × Text → Type 0
AllLack p = Lacks quote p.0 × Lacks quote p.1 × Lacks quote p.2

or_empty-Lacks : (key s : Text) → Lacks quote (or_empty (find_value key s))
or_empty-Lacks key s = elim (Option-cases (find_value key s)) [
  | inl none' ↦ rw none' tt
  | inr (v, some') ↦ rw some' (find_value-Lacks key s v some')
]

parsed-AllLack : (v : Text) → AllLack (parse_auth_request v)
unfolding parse_auth_request parse_authenticate_header AllLack
parsed-AllLack v =
    let t = trim_space v in
    if_ind AllLack (is_empty t || not (has_prefix t (codes "Bearer realm"))) _ _ (λ e. (tt, tt, tt))
      (λ e. (or_empty-Lacks realm_key t, or_empty-Lacks service_key t, or_empty-Lacks scope_key t))

empty_header : (parse_auth_request []).0 ≡ []
unfolding parse_auth_request trim_space trim_left
empty_header = refl

change-eq :
    (proxy_host v : Text)
    → is_empty (parse_auth_request v).0 ≡ false
    → change_authenticate_header proxy_host v
      ≡ build_authenticate_header
          (proxy_host ++ codes "/service/token")
          (parse_auth_request v).1
          (parse_auth_request v).2
unfolding change_authenticate_header
change-eq proxy_host [] e = absurd (cc (e, ap is_empty empty_header))
change-eq proxy_host (c ∷ v) e = rw e refl

-- The header that the proxy sends on names the proxy's own token service, and the service and the
-- scope that the registry's header names, where that header names a realm. So a client that reads it
-- asks the proxy for the token that the registry asked for. The host, the service and the scope have
-- no '=', and the host has no quote.
pub change_authenticate_header-parse :
    (proxy_host v : Text)
    → is_empty (parse_auth_request v).0 ≡ false
    → IsClean proxy_host
    → Lacks b'=' (parse_auth_request v).1
    → Lacks b'=' (parse_auth_request v).2
    → parse_auth_request (change_authenticate_header proxy_host v)
      ≡ (proxy_host ++ codes "/service/token", (parse_auth_request v).1, (parse_auth_request v).2)
unfolding AllLack
change_authenticate_header-parse proxy_host v e (hq, he) hs hc =
    ap parse_auth_request (change-eq proxy_host v e)
    ∙ parse-build (proxy_host ++ codes "/service/token") (parse_auth_request v).1
        (parse_auth_request v).2
        (
          Lacks-append quote proxy_host (codes "/service/token") hq (omega arith),
          Lacks-append b'=' proxy_host (codes "/service/token") he (omega arith),
        )
        ((parsed-AllLack v).1, hs) ((parsed-AllLack v).2, hc)
