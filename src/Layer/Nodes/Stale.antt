-- ===== src/Layer/Nodes/Stale.antt =====
-- layer.go: distributeDownloadLayer, its rounds and its counts, and the nodes that have left.
use Prim.Native.Nat.{ℕ, zero, suc}
use accelerboat.Base.{
  ◌≡◌, ◌≢◌, refl, sym, ap, ◌∙◌, ◌⊎◌, inl, inr, true, false, Option, none, some, List, arith,
  Bool-cases, Option-cases, subst,
}
use accelerboat.Base.Int.{ℤ, pos, ltb_ℤ}
use accelerboat.Base.Keys.{mem, lookup, Unique}
use accelerboat.Base.Text.{Text, text_eq, text_eq→eq}
use accelerboat.Layer.Nodes.{
  Tasks, distribute_node, release_node, distribute_rounds, distribute_download_layer,
}
use accelerboat.Layer.Nodes.Balance.{counted, distribute_node-least, release_node-distribute_node}

-- Every node keeps its count, and a new one has 0.
abbrev pub Keeps : Tasks → Tasks → Type 0
Keeps t t' = (j : Text) → elim (lookup j t) [
  | none ↦ (lookup j t' ≡ none) ⊎ (lookup j t' ≡ some (pos 0))
  | some v ↦ lookup j t' ≡ some v
]

Keeps-refl : (t : Tasks) → Keeps t t
Keeps-refl t j = ground arith

Keeps-counted :
    (eps : List Text) (t t1 : Tasks) → ((j : Text) → lookup j t1 ≡ counted eps t j) → Keeps t t1
Keeps-counted eps t t1 h j = ground (arith, h j)

Keeps-trans : (t t1 t2 : Tasks) → Keeps t t1 → Keeps t1 t2 → Keeps t t2
Keeps-trans t t1 t2 h h1 j = ground (arith, h j, h1 j)

module _ {W R : Type 0} (endpoints : W → List Text) (ask : Text → W → Option R × W) where
  -- At most this many asks, each of the world that the one before left, up to the first answer.
  pub data Tries : ℕ → W → Option R → W → Type 0 where
    gave_up : (w : W) → Tries zero w none w
    answered :
        (n : ℕ) (node : Text) (r : R) (w w' : W)
        → ask node w ≡ (some r, w')
        → Tries (suc n) w (some r) w'
    failed :
        (n : ℕ) (node : Text) (o : Option R) (w w1 w' : W)
        → ask node w ≡ (none, w1)
        → Tries n w1 o w'
        → Tries (suc n) w o w'

  -- The count of the round's node is taken back.
  after : W → Tasks → Tasks
  after w t = let (node, t1) = distribute_node (endpoints w) t in release_node node t1

  target : W → Tasks → Text
  target w t = (distribute_node (endpoints w) t).0

  rounds_answered :
      (n : ℕ) (w : W) (t : Tasks) (r : R)
      → (ask (target w t) w).0 ≡ some r
      → distribute_rounds endpoints ask (suc n) w t ≡ (some r, (ask (target w t) w).1, after w t)
  unfolding target after distribute_rounds distribute_node release_node
  rounds_answered n w t r e = rw (e, distribute_rounds) refl

  rounds_failed :
      (n : ℕ) (w : W) (t : Tasks)
      → (ask (target w t) w).0 ≡ none
      → distribute_rounds endpoints ask (suc n) w t
        ≡ distribute_rounds endpoints ask n (ask (target w t) w).1 (after w t)
  unfolding target after distribute_rounds
  rounds_failed n w t e = rw (e, distribute_rounds) refl

  IsRun : ℕ → W → Tasks → Option R × W × Tasks → Type 0
  IsRun n w t (o, w', t') = Tries n w o w' × Keeps t t' × Unique t'

  no_round :
      (w : W) (t : Tasks) → Unique t → IsRun zero w t (distribute_rounds endpoints ask zero w t)
  unfolding IsRun distribute_rounds
  no_round w t u = (gave_up w, Keeps-refl t, u)

  rounds_lem :
      (n : ℕ) (w : W) (t : Tasks) (idle : Text) (c : ℤ)
      → Unique t
      → lookup idle t ≡ some c
      → ltb_ℤ c (pos 100000) ≡ true
      → IsRun n w t (distribute_rounds endpoints ask n w t)
  unfolding IsRun after
  rounds_lem zero w t idle c u e few = no_round w t u
  rounds_lem (suc n) w t idle c u e few =
      let (same, unique) =
        release_node-distribute_node (endpoints w) t idle c u (ground (arith, e)) few in
      elim (Option-cases (ask (target w t) w).0) [
        | inr (r, some') ↦ subst (IsRun (suc n) w t) (sym (rounds_answered n w t r some')) (
          answered n (target w t) r w _ (λ i. (some' i, (ask (target w t) w).1)),
          Keeps-counted (endpoints w) t (after w t) same,
          unique,
        )
        | inl none' ↦
            let (tries, keeps, unique') =
              rounds_lem n (ask (target w t) w).1 (after w t) idle c unique
                (ground (arith, same idle, e)) few in
            subst (IsRun (suc n) w t) (sym (rounds_failed n w t none')) (
              failed n (target w t) _ w _ _ (λ i. (none' i, (ask (target w t) w).1)) tries,
              Keeps-trans t (after w t) _ (Keeps-counted (endpoints w) t (after w t) same) keeps,
              unique',
            )
      ]

  -- With fewer than 100000 tasks on one node at least, distributeDownloadLayer asks nodes one behind
  -- the other, at most five, up to the first that answers, returns that answer or the failure of the
  -- fifth, and leaves every node's count as it was, with 0 for new nodes.
  pub distribute_download_layer_lem :
      (w : W) (t : Tasks) (idle : Text) (c : ℤ)
      → Unique t
      → lookup idle t ≡ some c
      → ltb_ℤ c (pos 100000) ≡ true
      → let (o, w', t') = distribute_download_layer endpoints ask w t in
        Tries 5 w o w' × Keeps t t' × Unique t'
  unfolding distribute_download_layer IsRun
  distribute_download_layer_lem w t idle c u e few = rounds_lem 5 w t idle c u e few

  -- This node has this count, every other counted node a higher one, and all endpoints are counted.
  pub record IsIdlest (gone : Text) (c : ℤ) (t : Tasks) : Type 0 where
    pub unique : Unique t
    pub here : lookup gone t ≡ some c
    pub others :
        (k : Text) (v : ℤ) → lookup k t ≡ some v → text_eq gone k ≡ false → ltb_ℤ c v ≡ true
    pub known : (w : W) (k : Text) → mem k (endpoints w) ≡ true → lookup k t ≢ none

  counted_known :
      (gone : Text) (c : ℤ) (t : Tasks) (w : W) (k : Text)
      → IsIdlest gone c t
      → counted (endpoints w) t k ≡ lookup k t
  counted_known gone c t w k h = elim (Option-cases (lookup k t)) [
    | inr (v, some') ↦ ground (arith, some')
    | inl none' ↦ elim (Bool-cases (mem k (endpoints w))) [
      | inl m ↦ absurd (h.known w k m none')
      | inr m ↦ ground (arith, none', m)
    ]
  ]

  target-gone :
      (gone : Text) (c : ℤ) (t : Tasks) (w : W)
      → IsIdlest gone c t
      → ltb_ℤ c (pos 100000) ≡ true
      → target w t ≡ gone
  unfolding target
  target-gone gone c t w h few =
      let at_gone = counted_known gone c t w gone h ∙ h.here in
      let (v, chosen, below, counts, unique) =
        distribute_node-least (endpoints w) t gone c h.unique at_gone few in
      let r = (distribute_node (endpoints w) t).0 in
      elim (Bool-cases (text_eq gone r)) [
        | inl same ↦ sym (text_eq→eq gone r same)
        | inr differ ↦ absurd (
            cc (
              below gone c at_gone,
              h.others r v (sym (counted_known gone c t w r h) ∙ chosen) differ,
            ))
      ]

  after-IsIdlest :
      (gone : Text) (c : ℤ) (t : Tasks) (w : W)
      → IsIdlest gone c t
      → ltb_ℤ c (pos 100000) ≡ true
      → IsIdlest gone c (after w t)
  unfolding after
  after-IsIdlest gone c t w h few =
      let (same, unique') =
        release_node-distribute_node (endpoints w) t gone c h.unique
          (counted_known gone c t w gone h ∙ h.here) few in
      let kept : (j : Text) → lookup j (after w t) ≡ lookup j t =
        λ j. same j ∙ counted_known gone c t w j h in
      record {
        unique = unique';
        here = kept gone ∙ h.here;
        others = λ k v e ne. h.others k v (sym (kept k) ∙ e) ne;
        known = λ v k m e. h.known v k m (sym (kept k) ∙ e);
      }

  nothing : (w : W) (t : Tasks) → (distribute_rounds endpoints ask zero w t).0 ≡ none
  unfolding distribute_rounds
  nothing w t = refl

  rounds-stale :
      (n : ℕ) (w : W) (gone : Text) (c : ℤ) (t : Tasks)
      → IsIdlest gone c t
      → ltb_ℤ c (pos 100000) ≡ true
      → ((v : W) → (ask gone v).0 ≡ none)
      → (distribute_rounds endpoints ask n w t).0 ≡ none
  rounds-stale zero w gone c t h few dead = nothing w t
  rounds-stale (suc n) w gone c t h few dead =
      let failed' : (ask (target w t) w).0 ≡ none =
        ap (λ node. (ask node w).0) (target-gone gone c t w h few) ∙ dead w in
      ap (λ (p : Option R × W × Tasks). p.0) (rounds_failed n w t failed')
      ∙ rounds-stale n (ask (target w t) w).1 gone c (after w t) (after-IsIdlest gone c t w h few)
          few dead

  -- A node that has left stays in the tasks. While all other nodes are busier than it and it answers
  -- none of the requests, distributeDownloadLayer fails, whatever the endpoints answer.
  pub distribute_download_layer-stale :
      (w : W) (gone : Text) (c : ℤ) (t : Tasks)
      → IsIdlest gone c t
      → ltb_ℤ c (pos 100000) ≡ true
      → ((v : W) → (ask gone v).0 ≡ none)
      → (distribute_download_layer endpoints ask w t).0 ≡ none
  unfolding distribute_download_layer
  distribute_download_layer-stale w gone c t h few dead = rounds-stale 5 w gone c t h few dead
