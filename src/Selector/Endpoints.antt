-- ===== src/Selector/Endpoints.antt =====
-- selector.go: which addresses getServiceEndpoints returns.
use Prim.Native.Nat.{ℕ}
use accelerboat.Base.{
  ◌≡◌, refl, sym, ap, ◌∙◌, inl, inr, Bool, true, false, ◌&&◌, ◌||◌, not, Option, some, List, [],
  ◌∷◌, ◌++◌, map, arith, if◌then◌else◌, Bool-cases, Option-cases, some_inj,
}
use accelerboat.Base.Keys.{mem, add_key, mem-add_key, mem-append}
use accelerboat.Base.Text.{Text, text_eq, text_eq→eq}
use accelerboat.Selector.{
  is_nil, ep_map, intersection, chosen_ips, with_port, get_service_endpoints, PreferConfig,
  AddressType, preferred,
}

mem-eq : (x y : Text) (xs : List Text) → text_eq x y ≡ true → mem x xs ≡ mem y xs
mem-eq x y xs e = ap (λ t. mem t xs) (text_eq→eq x y e)

mem-ep_map : (x : Text) (ips : List Text) → mem x (ep_map ips) ≡ mem x ips
unfolding ep_map mem
mem-ep_map x [] = refl
mem-ep_map x (ip ∷ ips) =
    mem-add_key x ip (ep_map ips) ∙ ap (λ b. text_eq ip x || b) (mem-ep_map x ips)

mem-intersection :
    (x : Text) (prefer ips : List Text)
    → mem x (intersection prefer ips) ≡ (mem x ips && mem x prefer)
unfolding intersection mem
mem-intersection x prefer [] = refl
mem-intersection x prefer (ip ∷ ips) = elim (Bool-cases (text_eq ip x)) [
  | inl same ↦ ground (
    arith,
    same,
    mem-eq ip x prefer same,
    mem-intersection x prefer ips,
    mem-add_key x ip (intersection prefer ips),
  )
  | inr differ ↦
      ground
        (arith, differ, mem-intersection x prefer ips, mem-add_key x ip (intersection prefer ips))
]

-- One of the addresses is preferred.
abbrev pub meet : List Text → List Text → Bool
meet prefer [] = false
meet prefer (ip ∷ ips) = mem ip prefer || meet prefer ips

is_nil-add_key : (x : Text) (xs : List Text) → is_nil (add_key x xs) ≡ false
unfolding add_key mem
is_nil-add_key x [] = refl
is_nil-add_key x (y ∷ ys) = elim (Bool-cases (text_eq y x || mem x ys)) [
  | inl e ↦ rw e refl
  | inr e ↦ rw e refl
]

is_nil-intersection :
    (prefer ips : List Text) → is_nil (intersection prefer ips) ≡ not (meet prefer ips)
unfolding intersection
is_nil-intersection prefer [] = refl
is_nil-intersection prefer (ip ∷ ips) = elim (Bool-cases (mem ip prefer)) [
  | inl e ↦ rw e (is_nil-add_key ip (intersection prefer ips))
  | inr e ↦ rw e (is_nil-intersection prefer ips)
]

-- The addresses that getServiceEndpoints is to return.
abbrev pub wanted : Text → List Text → List Text → Text → Bool
wanted master_ip prefer ips x =
    mem x ips
    && (if meet prefer ips
        then mem x prefer || (not (is_nil master_ip) && text_eq master_ip x)
        else true)

-- The last step: the configured master comes in if it is an endpoint and not in the result.
mem-with_master :
    (master_ip : Text) (ips result : List Text) (x : Text)
    → mem x (
        if is_nil master_ip
        then result
        else if not (mem master_ip (ep_map ips))
        then result
        else if mem master_ip result
        then result
        else result ++ (master_ip ∷ []))
      ≡ (mem x result || (not (is_nil master_ip) && mem x ips && text_eq master_ip x))
unfolding mem
mem-with_master master_ip ips result x = elim (Bool-cases (text_eq master_ip x)) [
  | inl same ↦ ground (
    arith,
    same,
    mem-eq master_ip x ips same,
    mem-eq master_ip x result same,
    mem-ep_map master_ip ips,
    mem-append x result (master_ip ∷ []),
  )
  | inr differ ↦ ground (arith, differ, mem-append x result (master_ip ∷ []))
]

mem-chosen_ips :
    (master_ip : Text) (prefer ips : List Text) (x : Text)
    → mem x (chosen_ips master_ip prefer ips) ≡ wanted master_ip prefer ips x
unfolding chosen_ips
mem-chosen_ips master_ip prefer ips x =
    let both = intersection prefer ips in
    let result = if is_nil both then ep_map ips else both in
    mem-with_master master_ip ips result x ∙ elim (Bool-cases (meet prefer ips)) [
      | inl e ↦
          let shut : is_nil both ≡ false = is_nil-intersection prefer ips ∙ ap not e in
          rw (shut, e, mem-intersection x prefer ips) (ground arith)
      | inr e ↦
          let open_ : is_nil both ≡ true = is_nil-intersection prefer ips ∙ ap not e in
          rw (open_, e, mem-ep_map x ips) (ground arith)
    ]

pub record IsResult (cfg : PreferConfig) (port : ℕ) (nodes : Option (List (AddressType × Text)))
    (eps : Option (List Text)) (r : List Text) : Type 0 where
  pub prefer : List Text
  pub ips : List Text
  pub chosen : List Text
  pub prefer_eq : preferred cfg nodes ≡ some prefer
  pub eps_eq : eps ≡ some ips
  pub result : r ≡ map (with_port port) chosen
  pub chosen_lem : (x : Text) → mem x chosen ≡ wanted cfg.master_ip prefer ips x

-- When getServiceEndpoints succeeds, the nodes that the selector asks for and the service's endpoints
-- were read, and the result is, with the port, exactly these addresses of the endpoints: all of them
-- if none is a preferred node's, and else the preferred ones and the configured master.
pub get_service_endpoints_lem :
    (cfg : PreferConfig) (port : ℕ) (nodes : Option (List (AddressType × Text)))
    (eps : Option (List Text)) (r : List Text)
    → get_service_endpoints cfg port nodes eps ≡ some r
    → IsResult cfg port nodes eps r
unfolding get_service_endpoints
get_service_endpoints_lem cfg port nodes eps r e = elim (Option-cases (preferred cfg nodes)) [
  | inl none' ↦ absurd (cc (rw (none', get_service_endpoints) at e))
  | inr (prefer, some') ↦ elim (Option-cases eps) [
    | inl gone ↦ absurd (cc (rw (some', gone, get_service_endpoints) at e))
    | inr (ips, got) ↦ record {
      prefer = prefer;
      ips = ips;
      chosen = chosen_ips cfg.master_ip prefer ips;
      prefer_eq = some';
      eps_eq = got;
      result = sym (some_inj (rw (some', got, get_service_endpoints) at e));
      chosen_lem = mem-chosen_ips cfg.master_ip prefer ips;
    }
  ]
]
