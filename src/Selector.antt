-- ===== src/Selector.antt =====
-- cmd/accelerboat/options/leaderselector/selector.go and pkg/utils/strings.go: which nodes there are,
-- and which of them is the master. What Kubernetes answers is an argument, `none` for an error.
pub mod Master
pub mod Endpoints
pub mod Tests
use Prim.Native.Nat.{ℕ, ◌+◌}
use accelerboat.Base.{
  ◌≡◌, Bool, true, false, ◌&&◌, not, Option, none, some, List, [], ◌∷◌, ◌++◌, map, ltb,
  if◌then◌else◌,
}
use accelerboat.Base.Keys.{mem, add_key}
use accelerboat.Base.Text.{Text, codes, text_eq, has_prefix}
use accelerboat.Base.Text.Decimal.{print_nat}

-- The loop of StringASCII on an ASCII text, from index i on. The sum of a text of less than two
-- gigabytes stays below 2 ^ 63.
unfoldable pub ascii_from : ℕ → Text → ℕ
ascii_from i [] = 0
ascii_from i (c ∷ s) = (i + c) + ascii_from (i + 1) s

unfoldable pub string_ascii : Text → ℕ
unfolding ascii_from
string_ascii s = ascii_from 0 s

abbrev pub is_nil {ℓ} : {A : Type ℓ} → List A → Bool
is_nil [] = true
is_nil (x ∷ xs) = false

-- masterIP != "" && strings.HasPrefix(ep, masterIP+":")
abbrev pub is_preferred : Text → Text → Bool
is_preferred master_ip ep = not (is_nil master_ip) && has_prefix ep (master_ip ++ (b':' ∷ []))

-- The loop of CurrentMaster, with currentASCII and currentEndpoint.
unfoldable pub master_loop : Text → List Text → ℕ → Text → Text
master_loop master_ip [] ascii best = best
master_loop master_ip (ep ∷ eps) ascii best =
    let better = ltb ascii (string_ascii ep) in
    let rest =
      master_loop master_ip eps (if better then string_ascii ep else ascii)
        (if better then ep else best) in
    if is_preferred master_ip ep then ep else rest

unfoldable pub current_master : Text → List Text → Text
unfolding master_loop
current_master master_ip endpoints = master_loop master_ip endpoints 0 []

pub data AddressType : Type 0 where
  internal_ip other_address : AddressType

abbrev is_internal : AddressType → Bool
is_internal internal_ip = true
is_internal other_address = false

pub record PreferConfig : Type 0 where
  pub master_ip : Text
  pub label_selectors : Text

-- The addresses of all nodes, in one list.
unfoldable pub prefer_nodes : List (AddressType × Text) → List Text
prefer_nodes [] = []
prefer_nodes ((t, address) ∷ rest) =
    if is_internal t then add_key address (prefer_nodes rest) else prefer_nodes rest

-- The keys of epMap.
unfoldable pub ep_map : List Text → List Text
ep_map [] = []
ep_map (ip ∷ ips) = add_key ip (ep_map ips)

-- The keys of intersection.
unfoldable pub intersection : List Text → List Text → List Text
intersection prefer [] = []
intersection prefer (ip ∷ ips) =
    let rest = intersection prefer ips in if mem ip prefer then add_key ip rest else rest

-- The IPs of the result, before the ports.
unfoldable pub chosen_ips : Text → List Text → List Text → List Text
unfolding ep_map intersection
chosen_ips master_ip prefer ips =
    let both = intersection prefer ips in
    let result = if is_nil both then ep_map ips else both in
    if is_nil master_ip
    then result
    else if not (mem master_ip (ep_map ips))
    then result
    else if mem master_ip result
    then result
    else result ++ (master_ip ∷ [])

unfoldable pub with_port : ℕ → Text → Text
with_port port ip = ip ++ (b':' ∷ print_nat port)

-- preferNodes, from the answer to the list of the nodes by the selector; `none` is an error.
unfoldable pub preferred : PreferConfig → Option (List (AddressType × Text)) → Option (List Text)
unfolding prefer_nodes
preferred cfg nodes =
    if is_nil cfg.label_selectors
    then some []
    else elim nodes [ none ↦ none | some addresses ↦ some (prefer_nodes addresses) ]

-- getServiceEndpoints: `eps` answers the get of the service's endpoints, the addresses of all subsets
-- in one list.
unfoldable pub get_service_endpoints :
    PreferConfig → ℕ → Option (List (AddressType × Text)) → Option (List Text) → Option (List Text)
get_service_endpoints cfg port nodes eps = elim (preferred cfg nodes) [
  | none ↦ none
  | some prefer ↦ elim eps [
    | none ↦ none
    | some ips ↦ some (map (with_port port) (chosen_ips cfg.master_ip prefer ips))
  ]
]

-- The global variable endpoints, and what the watch remembers as the master.
pub record Watch : Type 0 where
  pub endpoints : List Text
  pub prev_master : Text

-- changeMaster, on an event of the watch.
unfoldable pub change_master : Text → Option (List Text) → Watch → Watch
unfolding current_master
change_master master_ip result w = elim result [
  | none ↦ w
  | some eps ↦ record { endpoints = eps; prev_master = current_master master_ip eps }
]
