-- ===== src/Layer/Nodes/Balance.antt =====
-- layer.go: which node is chosen, and what the counts of the nodes are.
use accelerboat.Base.{
  ◌≡◌, refl, sym, ◌∙◌, ◌⊎◌, inl, inr, true, false, Option, none, some, List, [], ◌∷◌, arith,
  if◌then◌else◌, Bool-cases, Option-cases, subst,
}
use accelerboat.Base.Int.{ℤ, pos, ◌+ℤ◌, ◌-ℤ◌, ltb_ℤ, +ℤ_cancel}
use accelerboat.Base.Sort.{All, In, All_In}
use accelerboat.Base.Keys.{
  mem, add_key, lookup, insert, Unique, lookup-insert, lookup-In, In-lookup, insert-Unique,
}
use accelerboat.Base.Text.{Text, text_eq, text_eq_iff, text_eq_refl}
use accelerboat.Layer.Nodes.{
  Tasks, add_endpoints, ep_map, drop_missing, pick_node, increment, distribute_node, release_node,
}

-- The count of a node once the endpoints are in: 0 for a new endpoint.
abbrev pub counted : List Text → Tasks → Text → Option ℤ
counted eps t j = elim (lookup j t) [
  | none ↦ if mem j eps then some (pos 0) else none
  | some v ↦ some v
]

lookup-add_endpoints :
    (eps : List Text) (t : Tasks) (j : Text) → lookup j (add_endpoints eps t) ≡ counted eps t j
unfolding add_endpoints mem
lookup-add_endpoints [] t j = ground arith
lookup-add_endpoints (ep ∷ eps) t j = elim (Option-cases (lookup ep t)) [
  | inl none' ↦ ground (
    arith,
    none',
    text_eq_iff ep j,
    lookup-add_endpoints eps (insert ep (pos 0) t) j,
    lookup-insert ep j (pos 0) t,
  )
  | inr (v, some') ↦ ground (arith, some', text_eq_iff ep j, lookup-add_endpoints eps t j)
]

add_endpoints-Unique : (eps : List Text) (t : Tasks) → Unique t → Unique (add_endpoints eps t)
unfolding add_endpoints
add_endpoints-Unique [] t u = u
add_endpoints-Unique (ep ∷ eps) t u = elim (Option-cases (lookup ep t)) [
  | inl none' ↦ rw none' (add_endpoints-Unique eps _ (insert-Unique ep (pos 0) t u))
  | inr (v, some') ↦ rw some' (add_endpoints-Unique eps t u)
]

-- All these keys have a count.
abbrev HasAll : List Text → Tasks → Type 0
HasAll ks t = All (λ k. (v : ℤ) × (lookup k t ≡ some v)) ks

drop_missing-id : (ks : List Text) (t : Tasks) → HasAll ks t → drop_missing ks t ≡ t
unfolding drop_missing
drop_missing-id [] t h = refl
drop_missing-id (k ∷ ks) t ((v, e), h) = rw e (drop_missing-id ks t h)

HasAll-ep_map :
    (eps : List Text) (t : Tasks)
    → ((j : Text) → mem j eps ≡ true → (v : ℤ) × (lookup j t ≡ some v))
    → HasAll (ep_map eps) t
unfolding ep_map mem add_key
HasAll-ep_map [] t h = tt
HasAll-ep_map (ep ∷ eps) t h =
    let rest = HasAll-ep_map eps t (λ j m. h j (ground (arith, m))) in
    elim (Bool-cases (mem ep (ep_map eps))) [
      | inl known ↦ rw known rest
      | inr new ↦ rw new (h ep (ground (arith, text_eq_refl ep)), rest)
    ]

-- The loop that is to drop the nodes that are no endpoints any more drops nothing.
pub drop_missing-add_endpoints :
    (eps : List Text) (t : Tasks)
    → drop_missing (ep_map eps) (add_endpoints eps t) ≡ add_endpoints eps t
drop_missing-add_endpoints eps t =
    drop_missing-id (ep_map eps) (add_endpoints eps t)
      (HasAll-ep_map eps (add_endpoints eps t) counted_all)
  where
    counted_all :
        (j : Text) → mem j eps ≡ true → (v : ℤ) × (lookup j (add_endpoints eps t) ≡ some v)
    counted_all j m = elim (Option-cases (lookup j t)) [
      | inl none' ↦ (pos 0, ground (arith, lookup-add_endpoints eps t j, none', m))
      | inr (v, some') ↦ (v, ground (arith, lookup-add_endpoints eps t j, some'))
    ]

IsPick : Tasks → ℤ → Text → Text × ℤ → Type 0
IsPick t ans result p =
    (ltb_ℤ ans p.1 ≡ false)
    × All (λ e. ltb_ℤ e.1 p.1 ≡ false) t
    × (((p.0 ≡ result) × (p.1 ≡ ans)) ⊎ In p t)

step_less :
    (k : Text) (v : ℤ) (t : Tasks) (ans : ℤ) (result : Text) (p : Text × ℤ)
    → ltb_ℤ v ans ≡ true
    → IsPick t v k p
    → IsPick ((k, v) ∷ t) ans result p
unfolding IsPick
step_less k v t ans result p less (le, all, from) = (
  ground (arith, le, less),
  (le, all),
  elim from [ inl (er, ea) ↦ inr (inl (λ i. (sym er i, sym ea i))) | inr m ↦ inr (inr m) ],
)

step_more :
    (k : Text) (v : ℤ) (t : Tasks) (ans : ℤ) (result : Text) (p : Text × ℤ)
    → ltb_ℤ v ans ≡ false
    → IsPick t ans result p
    → IsPick ((k, v) ∷ t) ans result p
unfolding IsPick
step_more k v t ans result p more (le, all, from) =
    (le, (ground (arith, le, more), all), elim from [ inl e ↦ inl e | inr m ↦ inr (inr m) ])

pick_node_nil : (ans : ℤ) (result : Text) → IsPick [] ans result (pick_node [] ans result)
unfolding pick_node IsPick
pick_node_nil ans result = (ground arith, tt, inl (refl, refl))

pick_node_cons :
    (k : Text) (v : ℤ) (t : Tasks) (ans : ℤ) (result : Text)
    → pick_node ((k, v) ∷ t) ans result
      ≡ pick_node t (if ltb_ℤ v ans then v else ans) (if ltb_ℤ v ans then k else result)
unfolding pick_node
pick_node_cons k v t ans result = refl

pick_node_lem : (t : Tasks) (ans : ℤ) (result : Text) → IsPick t ans result (pick_node t ans result)
pick_node_lem [] ans result = pick_node_nil ans result
pick_node_lem ((k, v) ∷ t) ans result =
    subst (IsPick ((k, v) ∷ t) ans result) (sym (pick_node_cons k v t ans result))
      (elim (Bool-cases (ltb_ℤ v ans)) [
        | inl less ↦ rw less (step_less k v t ans result _ less (pick_node_lem t v k))
        | inr more ↦ rw more (step_more k v t ans result _ more (pick_node_lem t ans result))
      ])

-- With the endpoints counted in, fewer than 100000 tasks on one node at least, distributeNode returns
-- a node with the fewest tasks of all that have a count, adds one to its count, and leaves the counts
-- of the others. The nodes stay without doubles.
pub distribute_node-least :
    (eps : List Text) (tasks : Tasks) (idle : Text) (n : ℤ)
    → Unique tasks
    → counted eps tasks idle ≡ some n
    → ltb_ℤ n (pos 100000) ≡ true
    → let (r, tasks') = distribute_node eps tasks in
      (v : ℤ) × (counted eps tasks r ≡ some v)
      × ((k : Text) (w : ℤ) → counted eps tasks k ≡ some w → ltb_ℤ w v ≡ false)
      × ((j : Text)
          → lookup j tasks' ≡ (if text_eq r j then some (v +ℤ pos 1) else counted eps tasks j))
      × Unique tasks'
unfolding distribute_node increment IsPick
distribute_node-least eps tasks idle n u e few = rw (drop_missing-add_endpoints eps tasks) body
  where
    t : Tasks
    t = add_endpoints eps tasks

    r : Text
    r = (pick_node t (pos 100000) []).0

    v : ℤ
    v = (pick_node t (pos 100000) []).1

    least :
        (ltb_ℤ (pos 100000) v ≡ false)
        × All (λ e. ltb_ℤ e.1 v ≡ false) t
        × (((r ≡ []) × (v ≡ pos 100000)) ⊎ In (r, v) t)
    least = pick_node_lem t (pos 100000) []

    unique : Unique t
    unique = add_endpoints-Unique eps tasks u

    below : (k : Text) (w : ℤ) → counted eps tasks k ≡ some w → ltb_ℤ w v ≡ false
    below k w h =
        All_In (λ (e : Text × ℤ). ltb_ℤ e.1 v ≡ false) (k, w) t least.1
          (lookup-In k w t (lookup-add_endpoints eps tasks k ∙ h))

    chosen : lookup r t ≡ some v
    chosen = elim least.2 [
      | inl (er, ev) ↦ absurd (cc (below idle n e, few, ev))
      | inr m ↦ In-lookup r v t unique m
    ]

    body :
        (v : ℤ) × (counted eps tasks r ≡ some v)
        × ((k : Text) (w : ℤ) → counted eps tasks k ≡ some w → ltb_ℤ w v ≡ false)
        × ((j : Text)
            → lookup j (increment r t)
              ≡ (if text_eq r j then some (v +ℤ pos 1) else counted eps tasks j))
        × Unique (increment r t)
    body = (
      v,
      sym (lookup-add_endpoints eps tasks r) ∙ chosen,
      below,
      λ j.
          ground
            (arith, chosen, lookup-insert r j (v +ℤ pos 1) t, lookup-add_endpoints eps tasks j),
      insert-Unique r _ t unique,
    )

pub release_node-eq :
    (r : Text) (v : ℤ) (t : Tasks)
    → lookup r t ≡ some v
    → release_node r t ≡ insert r (v -ℤ pos 1) t
unfolding release_node
release_node-eq r v t e = rw (e, release_node) refl

-- releaseNode takes back what distributeNode added: after both, every count is that of before, with
-- the endpoints counted in, and the nodes stay without doubles.
pub release_node-distribute_node :
    (eps : List Text) (tasks : Tasks) (idle : Text) (n : ℤ)
    → Unique tasks
    → counted eps tasks idle ≡ some n
    → ltb_ℤ n (pos 100000) ≡ true
    → let (r, tasks') = distribute_node eps tasks in
      ((j : Text) → lookup j (release_node r tasks') ≡ counted eps tasks j)
      × Unique (release_node r tasks')
release_node-distribute_node eps tasks idle n u e few =
    let (v, chosen, below, counts, unique) = distribute_node-least eps tasks idle n u e few in
    let (r, tasks') = distribute_node eps tasks in
    let here : lookup r tasks' ≡ some (v +ℤ pos 1) = ground (arith, counts r, text_eq_refl r) in
    rw (release_node-eq r (v +ℤ pos 1) tasks' here) (
      λ j. ground (
        arith,
        lookup-insert r j (v +ℤ pos 1 -ℤ pos 1) tasks',
        counts j,
        text_eq_iff r j,
        chosen,
        +ℤ_cancel v (pos 1),
      ),
      insert-Unique r _ tasks' unique,
    )
