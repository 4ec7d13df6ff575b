-- ===== src/Kube.antt =====
-- cmd/cli/kube/kube.go: how the commands find a pod by its name or its node, and the worker nodes. The
-- answers of Kubernetes are parameters.
pub mod Unique
pub mod Tests
use Prim.Native.Nat.{ℕ}
use accelerboat.Base.{
  ◌≡◌, Bool, true, false, ◌||◌, Option, none, some, List, [], ◌∷◌, if◌then◌else◌,
}
use accelerboat.Base.Keys.{mem}
use accelerboat.Base.Text.{Text, codes, text_eq, has_prefix}

pub record Pod : Type 0 where
  pub name : Text
  pub node_name : Text

-- What the loops of GetPod and GetPodByNode end with; `ambiguous` and `not_found` are errors.
pub data Found : Type 0 where
  found : Pod → Found
  required list_failed ambiguous not_found : Found

abbrev pub or_not_found : Option Pod → Found
or_not_found none = not_found
or_not_found (some p) = found p

-- The loop, with prefixMatch; `field` is the name or the node name of a pod.
unfoldable pub match_pods : (Pod → Text) → Text → List Pod → Option Pod → Found
match_pods field name [] prefix_match = or_not_found prefix_match
match_pods field name (p ∷ ps) prefix_match =
    let keep = match_pods field name ps prefix_match in
    let take = match_pods field name ps (some p) in
    if text_eq (field p) name
    then found p
    else if has_prefix (field p) name
    then (elim prefix_match as (λ o. Found) [ none ↦ take | some q ↦ ambiguous ])
    else keep

-- `list` is the answer of ListPods.
unfoldable pub get_pod : Option (List Pod) → Text → Found
unfolding match_pods
get_pod list name =
    if text_eq name []
    then required
    else elim list [ none ↦ list_failed | some ps ↦ match_pods (λ p. p.name) name ps none ]

unfoldable pub get_pod_by_node : Option (List Pod) → Text → Found
unfolding match_pods
get_pod_by_node list node_name = if text_eq node_name [] then required else elim list [
  | none ↦ list_failed
  | some ps ↦ match_pods (λ p. p.node_name) node_name ps none
]

-- A node with the names of its labels.
pub record KubeNode : Type 0 where
  pub name : Text
  pub labels : List Text

unfoldable pub worker_names : List KubeNode → List Text
worker_names [] = []
worker_names (n ∷ ns) =
    let rest = worker_names ns in
    if mem (codes "node-role.kubernetes.io/control-plane") n.labels
      || mem (codes "node-role.kubernetes.io/master") n.labels
    then rest
    else n.name ∷ rest

unfoldable pub list_worker_node_names : Option (List KubeNode) → Option (List Text)
unfolding worker_names
list_worker_node_names none = none
list_worker_node_names (some ns) = some (worker_names ns)
