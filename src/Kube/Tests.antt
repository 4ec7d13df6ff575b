-- ===== src/Kube/Tests.antt =====
-- kube.go: pods by name, exact and by prefix.
use accelerboat.Base.{◌≡◌, refl, false, some, List, [], ◌∷◌}
use accelerboat.Base.Text.{Text, codes, text_eq, has_prefix}
use accelerboat.Kube.{Pod, found, ambiguous, get_pod, get_pod_by_node, list_worker_node_names}
use accelerboat.Kube.Unique.{Shape, get_pod_lem}
use accelerboat.Base.Keys.{mem}

abbrev pod : Text → Pod
pod name = record { name = name; node_name = codes "n1" }

abbrev pods : List Pod
pods = pod (codes "boat-a") ∷ pod (codes "boat-b") ∷ pod (codes "boat") ∷ []

boat_given : text_eq (codes "boat") [] ≡ false
unfolding text_eq
boat_given = refl

get_pod_lem_example :
    Shape (λ p. p.name) (codes "boat") pods (get_pod (some pods) (codes "boat"))
    × Shape (λ p. p.node_name) (codes "boat") pods (get_pod_by_node (some pods) (codes "boat"))
get_pod_lem_example = get_pod_lem pods (codes "boat") boat_given

by_prefix : get_pod (some pods) (codes "boat-a") ≡ found (pod (codes "boat-a"))
unfolding get_pod text_eq has_prefix
by_prefix = refl

-- The pod of that very name comes behind two that begin with it.
hidden : get_pod (some pods) (codes "boat") ≡ ambiguous
unfolding get_pod text_eq has_prefix
hidden = refl

same_node : get_pod_by_node (some pods) (codes "n1") ≡ found (pod (codes "boat-a"))
unfolding get_pod_by_node text_eq has_prefix
same_node = refl

workers :
    list_worker_node_names (
      some (
        record { name = codes "m"; labels = codes "node-role.kubernetes.io/master" ∷ [] }
        ∷ record { name = codes "w"; labels = [] }
        ∷ []))
    ≡ some (codes "w" ∷ [])
unfolding list_worker_node_names mem text_eq
workers = refl
