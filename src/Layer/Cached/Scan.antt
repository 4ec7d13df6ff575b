-- ===== src/Layer/Cached/Scan.antt =====
-- layer.go: a loop over sorted locations ends at the best one that passes.
use accelerboat.Base.{
  ◌≡◌, refl, sym, ◌⊎◌, inl, inr, false, Option, none, some, List, [], ◌∷◌, arith, Option-cases,
  subst,
}
use accelerboat.Base.Sort.{All, In, All_In, All-of, All-sort_by, In-sort_by, Sorted, sort_by}
use accelerboat.Store.{LayerLocatedInfo}
use accelerboat.Layer.Cached.{CheckLayerResponse, less_referred}

-- Whether a location passes, and with which answer.
abbrev pub Check : Type 0
Check = LayerLocatedInfo → Option CheckLayerResponse

-- A location that passes, such that none that is answered for less often does.
abbrev pub IsBest : Check → List LayerLocatedInfo → LayerLocatedInfo → CheckLayerResponse → Type 0
IsBest check layers l a =
    In l layers
    × (check l ≡ some a)
    × All (λ i. (check i ≡ none) ⊎ (less_referred i l ≡ false)) layers

abbrev pub AllFail : Check → List LayerLocatedInfo → Type 0
AllFail check layers = All (λ i. check i ≡ none) layers

unfoldable pub scan : Check → List LayerLocatedInfo → Option (LayerLocatedInfo × CheckLayerResponse)
scan check [] = none
scan check (l ∷ ls) =
    let rest = scan check ls in elim (check l) [ none ↦ rest | some a ↦ some (l, a) ]

abbrev pub IsScan :
    Check → List LayerLocatedInfo → Option (LayerLocatedInfo × CheckLayerResponse) → Type 0
IsScan check layers none = AllFail check layers
IsScan check layers (some (l, a)) = IsBest check layers l a

not_less :
    (xs : List LayerLocatedInfo) (x : LayerLocatedInfo) (check : Check)
    → All (λ y. less_referred y x ≡ false) xs
    → All (λ i. (check i ≡ none) ⊎ (less_referred i x ≡ false)) xs
not_less [] x check h = tt
not_less (y ∷ ys) x check (hy, h) = (inr hy, not_less ys x check h)

IsScan-cons :
    (check : Check) (l : LayerLocatedInfo) (ls : List LayerLocatedInfo)
    (o : Option (LayerLocatedInfo × CheckLayerResponse))
    → check l ≡ none
    → IsScan check ls o
    → IsScan check (l ∷ ls) o
IsScan-cons check l ls none e h = (e, h)
IsScan-cons check l ls (some (m, a)) e (i, c, h) = (inr i, c, (inl e, h))

pub scan_lem :
    (check : Check) (ls : List LayerLocatedInfo)
    → Sorted less_referred ls
    → IsScan check ls (scan check ls)
unfolding scan
scan_lem check [] s = tt
scan_lem check (l ∷ ls) (h, s) = elim (Option-cases (check l)) [
  | inl none' ↦
      subst (IsScan check (l ∷ ls)) (sym (skip none'))
        (IsScan-cons check l ls _ none' (scan_lem check ls s))
  | inr (a, some') ↦
      subst (IsScan check (l ∷ ls)) (sym (take_it a some'))
        (inl refl, some', (inr (ground arith), not_less ls l check h))
]
  where
    skip : check l ≡ none → scan check (l ∷ ls) ≡ scan check ls
    skip e = rw (e, scan) refl

    take_it : (a : CheckLayerResponse) → check l ≡ some a → scan check (l ∷ ls) ≡ some (l, a)
    take_it a e = rw (e, scan) refl

-- The order of the locations does not matter to what is best.
pub IsScan-sort_by :
    (check : Check) (ls : List LayerLocatedInfo)
    (o : Option (LayerLocatedInfo × CheckLayerResponse))
    → IsScan check (sort_by less_referred ls) o
    → IsScan check ls o
IsScan-sort_by check ls none h =
    All-of (λ i. check i ≡ none) ls
      (λ i m.
        All_In (λ i. check i ≡ none) i (sort_by less_referred ls) h
          (In-sort_by less_referred i ls m))
IsScan-sort_by check ls (some (l, a)) (m, c, h) = (
  All_In (λ i. In i ls) l (sort_by less_referred ls)
      (All-sort_by less_referred (λ i. In i ls) ls (All-of (λ i. In i ls) ls (λ i k. k))) m,
  c,
  All-of (λ i. (check i ≡ none) ⊎ (less_referred i l ≡ false)) ls
      (λ i k.
        All_In (λ i. (check i ≡ none) ⊎ (less_referred i l ≡ false)) i (sort_by less_referred ls) h
          (In-sort_by less_referred i ls k)),
)
