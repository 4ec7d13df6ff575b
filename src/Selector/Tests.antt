-- ===== src/Selector/Tests.antt =====
-- selector.go: runs of the election and of the lookup of the endpoints.
use Prim.Native.Nat.{◌<◌, ◌≤◌}
use accelerboat.Base.{◌≡◌, refl, ◌⊎◌, true, false, Option, none, some, List, [], ◌∷◌, arith}
use accelerboat.Base.Sort.{All, In}
use accelerboat.Base.Text.{Text, codes, has_prefix, text_eq}
use accelerboat.Selector.{
  current_master, is_preferred, string_ascii, AddressType, internal_ip, other_address, PreferConfig,
  get_service_endpoints, preferred, prefer_nodes, chosen_ips, ep_map, intersection, with_port,
  change_master, Watch,
}
use accelerboat.Base.Keys.{mem, add_key}
use accelerboat.Base.Text.Decimal.{print_nat}
use accelerboat.Selector.Master.{current_master_lem}

abbrev a : Text
a = codes "10.0.0.12:80"

abbrev b : Text
b = codes "10.0.0.21:80"

abbrev two_nodes : List Text
two_nodes = a ∷ b ∷ []

elects_preferred : current_master (codes "10.0.0.21") two_nodes ≡ b
unfolding current_master has_prefix
elects_preferred = refl

elects_none : current_master [] [] ≡ []
unfolding current_master
elects_none = refl

keeps_on_error : (w : Watch) → change_master [] none w ≡ w
unfolding change_master
keeps_on_error w = refl

current_master_lem_example :
    let r = current_master (codes "10.0.0.21") two_nodes in
    (In r two_nodes × (is_preferred (codes "10.0.0.21") r ≡ true))
    ⊎ All (λ ep. is_preferred (codes "10.0.0.21") ep ≡ false) two_nodes
      × All (λ ep. string_ascii ep ≤ string_ascii r) two_nodes
      × (In r two_nodes ⊎ (r ≡ []))
current_master_lem_example = current_master_lem (codes "10.0.0.21") two_nodes

a_weighs : 0 < string_ascii a
unfolding string_ascii
a_weighs = omega arith

abbrev cfg : PreferConfig
cfg = record { master_ip = codes "10.0.0.12"; label_selectors = codes "role=cache" }

abbrev nodes : Option (List (AddressType × Text))
nodes = some ((internal_ip, codes "10.0.0.21") ∷ (other_address, codes "n1") ∷ [])

abbrev eps : Option (List Text)
eps = some (codes "10.0.0.12" ∷ codes "10.0.0.21" ∷ codes "10.0.0.30" ∷ [])

gets : get_service_endpoints cfg 80 nodes eps ≡ some (b ∷ a ∷ [])
unfolding get_service_endpoints preferred prefer_nodes chosen_ips ep_map intersection with_port mem
    add_key text_eq print_nat
gets = refl
