-- ===== src/Kube/Unique.antt =====
-- kube.go: which pod GetPod and GetPodByNode find.
use accelerboat.Base.{
  ◌≡◌, refl, sym, ap, ◌∙◌, ◌⊎◌, inl, inr, true, false, Option, none, some, List, [], ◌∷◌, ◌++◌,
  arith, Bool-cases, subst,
}
use accelerboat.Base.Sort.{All}
use accelerboat.Base.Text.{Text, text_eq, has_prefix}
use accelerboat.Kube.{
  Pod, Found, found, ambiguous, not_found, or_not_found, match_pods, get_pod, get_pod_by_node,
}

module _ (field : Pod → Text) (name : Text) where
  abbrev pub IsOther : Pod → Type 0
  IsOther p = (text_eq (field p) name ≡ false) × (has_prefix (field p) name ≡ false)

  -- No exact match, and a prefix match.
  abbrev pub IsPrefixed : Pod → Type 0
  IsPrefixed p = (text_eq (field p) name ≡ false) × (has_prefix (field p) name ≡ true)

  -- A list of pods that has the name or, with no exact match before, one or two prefix matches.
  pub data Shape : List Pod → Found → Type 0 where
    none_there : (ps : List Pod) → All IsOther ps → Shape ps not_found
    exact :
        (ps qs : List Pod) (p : Pod)
        → All IsOther ps
        → text_eq (field p) name ≡ true
        → Shape (ps ++ (p ∷ qs)) (found p)
    unique :
        (ps qs : List Pod) (p : Pod)
        → All IsOther ps
        → IsPrefixed p
        → All IsOther qs
        → Shape (ps ++ (p ∷ qs)) (found p)
    exact_after :
        (ps qs rs : List Pod) (p q : Pod)
        → All IsOther ps
        → IsPrefixed p
        → All IsOther qs
        → text_eq (field q) name ≡ true
        → Shape (ps ++ (p ∷ (qs ++ (q ∷ rs)))) (found q)
    two :
        (ps qs rs : List Pod) (p q : Pod)
        → All IsOther ps
        → IsPrefixed p
        → All IsOther qs
        → IsPrefixed q
        → Shape (ps ++ (p ∷ (qs ++ (q ∷ rs)))) ambiguous

  -- A first pod that the loop looks at, if there is one.
  Split : List Pod → Type 0
  Split l =
      All IsOther l
      ⊎ ((ps : List Pod) × (qs : List Pod) × (p : Pod) × (l ≡ ps ++ (p ∷ qs))
          × All IsOther ps
          × ((text_eq (field p) name ≡ true) ⊎ IsPrefixed p))

  split_lem : (l : List Pod) → Split l
  unfolding Split
  split_lem [] = inl tt
  split_lem (x ∷ l) = elim (Bool-cases (text_eq (field x) name)) [
    | inl same ↦ inr ([], l, x, refl, tt, inl same)
    | inr other ↦ elim (Bool-cases (has_prefix (field x) name)) [
      | inl prefix ↦ inr ([], l, x, refl, tt, inr (other, prefix))
      | inr differs ↦ elim (split_lem l) [
        | inl all ↦ inl ((other, differs), all)
        | inr (ps, qs, p, e, all, kind) ↦
            inr (x ∷ ps, qs, p, ap (λ r. x ∷ r) e, ((other, differs), all), kind)
      ]
    ]
  ]

  match_pods-append :
      (ps qs : List Pod) (o : Option Pod)
      → All IsOther ps
      → match_pods field name (ps ++ qs) o ≡ match_pods field name qs o
  unfolding match_pods
  match_pods-append [] qs o all = refl
  match_pods-append (p ∷ ps) qs o ((other, differs), all) =
      ground (arith, other, differs, match_pods-append ps qs o all)

  match_pods-exact :
      (ps qs : List Pod) (p : Pod) (o : Option Pod)
      → All IsOther ps
      → text_eq (field p) name ≡ true
      → match_pods field name (ps ++ (p ∷ qs)) o ≡ found p
  unfolding match_pods
  match_pods-exact ps qs p o all same = match_pods-append ps (p ∷ qs) o all ∙ ground (arith, same)

  match_pods-nil :
      (ps : List Pod) (o : Option Pod)
      → All IsOther ps
      → match_pods field name ps o ≡ or_not_found o
  unfolding match_pods
  match_pods-nil [] o all = refl
  match_pods-nil (p ∷ ps) o ((other, differs), all) =
      ground (arith, other, differs, match_pods-nil ps o all)

  match_pods-prefixed :
      (ps qs : List Pod) (p : Pod)
      → All IsOther ps
      → IsPrefixed p
      → match_pods field name (ps ++ (p ∷ qs)) none ≡ match_pods field name qs (some p)
  unfolding match_pods
  match_pods-prefixed ps qs p all (other, prefix) =
      match_pods-append ps (p ∷ qs) none all ∙ ground (arith, other, prefix)

  match_pods-second :
      (ps qs : List Pod) (p q : Pod)
      → All IsOther ps
      → IsPrefixed q
      → match_pods field name (ps ++ (q ∷ qs)) (some p) ≡ ambiguous
  unfolding match_pods
  match_pods-second ps qs p q all (other, prefix) =
      match_pods-append ps (q ∷ qs) (some p) all ∙ ground (arith, other, prefix)

  abbrev IsFound : List Pod → Type 0
  IsFound l = Shape l (match_pods field name l none)

  after_prefixed :
      (ps l : List Pod) (p : Pod) → All IsOther ps → IsPrefixed p → IsFound (ps ++ (p ∷ l))
  unfolding Split
  after_prefixed ps l p all prefixed =
      let step = match_pods-prefixed ps l p all prefixed in
      elim (split_lem l) [
        | inl rest ↦
            subst (Shape (ps ++ (p ∷ l))) (sym (step ∙ match_pods-nil l (some p) rest))
              (unique ps l p all prefixed rest)
        | inr (qs, rs, q, e, between, kind) ↦
            subst (λ r. IsFound (ps ++ (p ∷ r))) (sym e) (second qs rs q between kind)
      ]
    where
      second :
          (qs rs : List Pod) (q : Pod)
          → All IsOther qs
          → (text_eq (field q) name ≡ true) ⊎ IsPrefixed q
          → IsFound (ps ++ (p ∷ (qs ++ (q ∷ rs))))
      second qs rs q between (inl same) =
          subst (Shape (ps ++ (p ∷ (qs ++ (q ∷ rs)))))
            (sym (
              match_pods-prefixed ps (qs ++ (q ∷ rs)) p all prefixed
              ∙ match_pods-exact qs rs q (some p) between same))
            (exact_after ps qs rs p q all prefixed between same)
      second qs rs q between (inr again) =
          subst (Shape (ps ++ (p ∷ (qs ++ (q ∷ rs)))))
            (sym (
              match_pods-prefixed ps (qs ++ (q ∷ rs)) p all prefixed
              ∙ match_pods-second qs rs p q between again))
            (two ps qs rs p q all prefixed between again)

  -- The loop, from the start.
  match_pods_lem : (l : List Pod) → Shape l (match_pods field name l none)
  unfolding Split
  match_pods_lem l = elim (split_lem l) [
    | inl all ↦ subst (Shape l) (sym (match_pods-nil l none all)) (none_there l all)
    | inr (ps, qs, p, e, all, kind) ↦ elim kind [
      | inl same ↦ subst IsFound (sym e) (
          subst (Shape (ps ++ (p ∷ qs))) (sym (match_pods-exact ps qs p none all same))
            (exact ps qs p all same))
      | inr prefixed ↦ subst IsFound (sym e) (after_prefixed ps qs p all prefixed)
    ]
  ]

-- With a name that is not empty and an answer of ListPods, GetPod and GetPodByNode, each by its field of
-- a pod, find nothing where no pod has the name as a prefix; they find the first pod of just this name
-- if at most one pod with the prefix comes before it in the list; without one of this name they find
-- the only pod with the prefix; and with two that only have the prefix before any of this name they fail
-- as ambiguous, so one of this name further on is not found.
pub get_pod_lem :
    (l : List Pod) (name : Text)
    → text_eq name [] ≡ false
    → Shape (λ p. p.name) name l (get_pod (some l) name)
      × Shape (λ p. p.node_name) name l (get_pod_by_node (some l) name)
unfolding get_pod get_pod_by_node
get_pod_lem l name given = (
  rw (given, get_pod) (match_pods_lem (λ p. p.name) name l),
  rw (given, get_pod_by_node) (match_pods_lem (λ p. p.node_name) name l),
)
