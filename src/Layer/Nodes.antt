-- ===== src/Layer/Nodes.antt =====
-- layer.go: distributeNode, releaseNode and distributeDownloadLayer, with nodeDownloadTasks. Each of
-- the first two is one critical section under nodeDownloadLock.
pub mod Balance
pub mod Stale
use Prim.Native.Nat.{ℕ, zero, suc}
use accelerboat.Base.{◌≡◌, Bool, true, false, Option, none, some, List, [], ◌∷◌, if◌then◌else◌}
use accelerboat.Base.Int.{ℤ, pos, ◌+ℤ◌, ◌-ℤ◌, ltb_ℤ}
use accelerboat.Base.Keys.{add_key, lookup, insert, delete}
use accelerboat.Base.Text.{Text}

-- nodeDownloadTasks
abbrev pub Tasks : Type 0
Tasks = List (Text × ℤ)

-- The first loop over the endpoints, without epMap.
unfoldable pub add_endpoints : List Text → Tasks → Tasks
unfolding insert
add_endpoints [] t = t
add_endpoints (ep ∷ eps) t =
    add_endpoints eps (elim (lookup ep t) [ none ↦ insert ep (pos 0) t | some v ↦ t ])

-- epMap, as its keys.
unfoldable pub ep_map : List Text → List Text
ep_map [] = []
ep_map (ep ∷ eps) = add_key ep (ep_map eps)

-- The loop over epMap, which deletes the keys that are not in the tasks.
unfoldable pub drop_missing : List Text → Tasks → Tasks
drop_missing [] t = t
drop_missing (k ∷ ks) t = drop_missing ks (elim (lookup k t) [ none ↦ delete k t | some v ↦ t ])

-- The loop over the tasks, with ans and result.
unfoldable pub pick_node : Tasks → ℤ → Text → Text × ℤ
pick_node [] ans result = (result, ans)
pick_node ((k, v) ∷ t) ans result =
    pick_node t (if ltb_ℤ v ans then v else ans) (if ltb_ℤ v ans then k else result)

-- h.nodeDownloadTasks[node]++
unfoldable pub increment : Text → Tasks → Tasks
increment node t = insert node (elim (lookup node t) [ none ↦ pos 1 | some v ↦ v +ℤ pos 1 ]) t

unfoldable pub distribute_node : List Text → Tasks → Text × Tasks
distribute_node eps tasks =
    let t = drop_missing (ep_map eps) (add_endpoints eps tasks) in
    let result = (pick_node t (pos 100000) []).0 in (result, increment result t)

unfoldable pub release_node : Text → Tasks → Tasks
release_node node t = elim (lookup node t) [ none ↦ t | some v ↦ insert node (v -ℤ pos 1) t ]

-- `endpoints` is leaderselector.Endpoints, and `ask` requester.DownloadLayerFromNode, `none` for an
-- error, both on the state of the world that the nodes make up.
module _ {W R : Type 0} (endpoints : W → List Text) (ask : Text → W → Option R × W) where
  -- The loop of distributeDownloadLayer, with this many rounds to go.
  unfoldable pub distribute_rounds : ℕ → W → Tasks → Option R × W × Tasks
  distribute_rounds zero w t = (none, w, t)
  distribute_rounds (suc n) w t =
      let (node, t1) = distribute_node (endpoints w) t in
      let (resp, w1) = ask node w in
      let t2 = release_node node t1 in
      let rest = distribute_rounds n w1 t2 in elim resp [ none ↦ rest | some r ↦ (some r, w1, t2) ]

  unfoldable pub distribute_download_layer : W → Tasks → Option R × W × Tasks
  unfolding distribute_rounds
  distribute_download_layer w t = distribute_rounds 5 w t
