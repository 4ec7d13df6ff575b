-- ===== src/Base/Sort.antt =====
-- Predicates on the elements of a list, and sort.Slice. Go leaves the order of equal elements open;
-- here they keep theirs, and no theorem of the development reads that order.
use Prim.Native.Nat.{ℕ, zero, suc}
use mathlib.Core.Path.{◌≡◌, refl, ap, ◌∙◌, subst}
use mathlib.Core.Logic.{◌⊎◌, inl, inr}
use mathlib.Core.Bool.{Bool, true, false}
use mathlib.Core.List.{List, [], ◌∷◌, ◌++◌}
use native.Mathlib.Omega.{arith}
use accelerboat.Base.Tests.{if◌then◌else◌, Bool-cases}
use accelerboat.Base.Lists.{length, take}

abbrev pub All : {A : Type 0} → (A → Type 0) → List A → Type 0
All P [] = Unit
All P (x ∷ xs) = P x × All P xs

-- Membership, with the place kept.
abbrev pub In : {A : Type 0} → A → List A → Type 0
In x [] = ⊥
In x (y ∷ ys) = (y ≡ x) ⊎ In x ys

module _ {A : Type 0} (P : A → Type 0) where
  pub All_In : (x : A) (xs : List A) → All P xs → In x xs → P x
  All_In x [] h m = absurd m
  All_In x (y ∷ ys) (hy, h) (inl e) = subst P e hy
  All_In x (y ∷ ys) (hy, h) (inr m) = All_In x ys h m

  pub All-take : (n : ℕ) (xs : List A) → All P xs → All P (take n xs)
  All-take zero xs h = tt
  All-take (suc n) [] h = tt
  All-take (suc n) (x ∷ xs) (hx, h) = (hx, All-take n xs h)

  pub All-append : (xs ys : List A) → All P xs → All P ys → All P (xs ++ ys)
  All-append [] ys h k = k
  All-append (x ∷ xs) ys (hx, h) k = (hx, All-append xs ys h k)

  pub All-of : (xs : List A) → ((x : A) → In x xs → P x) → All P xs
  All-of [] f = tt
  All-of (x ∷ xs) f = (f x (inl refl), All-of xs (λ y m. f y (inr m)))

module _ {A : Type 0} where
  pub In-append_left : (a : A) (xs ys : List A) → In a xs → In a (xs ++ ys)
  In-append_left a [] ys m = absurd m
  In-append_left a (x ∷ xs) ys (inl e) = inl e
  In-append_left a (x ∷ xs) ys (inr m) = inr (In-append_left a xs ys m)

  pub In-append_right : (a : A) (xs ys : List A) → In a ys → In a (xs ++ ys)
  In-append_right a [] ys m = m
  In-append_right a (x ∷ xs) ys m = inr (In-append_right a xs ys m)

module _ {A : Type 0} (less : A → A → Bool) where
  unfoldable pub insert_by : A → List A → List A
  insert_by x [] = x ∷ []
  insert_by x (y ∷ ys) = let rest = insert_by x ys in if less x y then x ∷ y ∷ ys else y ∷ rest

  unfoldable pub sort_by : List A → List A
  unfolding insert_by
  sort_by [] = []
  sort_by (x ∷ xs) = insert_by x (sort_by xs)

  -- No element is less than one before it.
  abbrev pub Sorted : List A → Type 0
  Sorted [] = Unit {0}
  Sorted (x ∷ xs) = All (λ y. less y x ≡ false) xs × Sorted xs

  length-insert_by : (x : A) (xs : List A) → length (insert_by x xs) ≡ suc (length xs)
  unfolding insert_by
  length-insert_by x [] = refl
  length-insert_by x (y ∷ ys) = ground (arith, length-insert_by x ys)

  pub length-sort_by : (xs : List A) → length (sort_by xs) ≡ length xs
  unfolding sort_by
  length-sort_by [] = refl
  length-sort_by (x ∷ xs) = length-insert_by x (sort_by xs) ∙ ap suc (length-sort_by xs)

  All-insert_by : (P : A → Type 0) (x : A) (xs : List A) → P x → All P xs → All P (insert_by x xs)
  unfolding insert_by
  All-insert_by P x [] px h = (px, tt)
  All-insert_by P x (y ∷ ys) px (py, h) = elim (Bool-cases (less x y)) [
    | inl e ↦ rw (e, insert_by) (px, (py, h))
    | inr e ↦ rw (e, insert_by) (py, All-insert_by P x ys px h)
  ]

  pub All-sort_by : (P : A → Type 0) (xs : List A) → All P xs → All P (sort_by xs)
  unfolding sort_by
  All-sort_by P [] h = tt
  All-sort_by P (x ∷ xs) (px, h) = All-insert_by P x (sort_by xs) px (All-sort_by P xs h)

  In-insert_by : (a x : A) (xs : List A) → (x ≡ a) ⊎ In a xs → In a (insert_by x xs)
  unfolding insert_by
  In-insert_by a x [] h = h
  In-insert_by a x (y ∷ ys) h = elim (Bool-cases (less x y)) [
    | inl e ↦ rw (e, insert_by) h
    | inr e ↦ rw (e, insert_by) (moved a x y ys (In-insert_by a x ys) h)
  ]
    where
      moved :
          (a x y : A) (ys : List A)
          → ((x ≡ a) ⊎ In a ys → In a (insert_by x ys))
          → (x ≡ a) ⊎ ((y ≡ a) ⊎ In a ys)
          → (y ≡ a) ⊎ In a (insert_by x ys)
      moved a x y ys ih (inl p) = inr (ih (inl p))
      moved a x y ys ih (inr (inl q)) = inl q
      moved a x y ys ih (inr (inr m)) = inr (ih (inr m))

  pub In-sort_by : (a : A) (xs : List A) → In a xs → In a (sort_by xs)
  unfolding sort_by
  In-sort_by a [] m = m
  In-sort_by a (x ∷ xs) (inl e) = In-insert_by a x (sort_by xs) (inl e)
  In-sort_by a (x ∷ xs) (inr m) = In-insert_by a x (sort_by xs) (inr (In-sort_by a xs m))

  module _ (asym : (a b : A) → less a b ≡ true → less b a ≡ false)
      (trans : (a b c : A) → less b a ≡ false → less c b ≡ false → less c a ≡ false) where
    All-trans :
        (x y : A) (ys : List A)
        → less y x ≡ false
        → All (λ z. less z y ≡ false) ys
        → All (λ z. less z x ≡ false) ys
    All-trans x y [] e h = tt
    All-trans x y (z ∷ zs) e (hz, h) = (trans x y z e hz, All-trans x y zs e h)

    insert_by-Sorted : (x : A) (xs : List A) → Sorted xs → Sorted (insert_by x xs)
    unfolding insert_by
    insert_by-Sorted x [] h = (tt, tt)
    insert_by-Sorted x (y ∷ ys) (hy, h) = elim (Bool-cases (less x y)) [
      | inl e ↦ rw (e, insert_by) ((asym x y e, All-trans x y ys (asym x y e) hy), (hy, h))
      | inr e ↦
          rw (e, insert_by)
            (All-insert_by (λ z. less z y ≡ false) x ys e hy, insert_by-Sorted x ys h)
    ]

    pub sort_by-Sorted : (xs : List A) → Sorted (sort_by xs)
    unfolding sort_by
    sort_by-Sorted [] = tt
    sort_by-Sorted (x ∷ xs) = insert_by-Sorted x (sort_by xs) (sort_by-Sorted xs)

  pub Sorted-take : (n : ℕ) (xs : List A) → Sorted xs → Sorted (take n xs)
  Sorted-take zero xs h = tt
  Sorted-take (suc n) [] h = tt
  Sorted-take (suc n) (x ∷ xs) (hx, h) =
      (All-take (λ y. less y x ≡ false) n xs hx, Sorted-take n xs h)

module _ {A : Type 0} (less : A → A → Bool) where
  -- An element that a cut sorted list leaves out is not less than any that it keeps.
  pub In-take :
      (a : A) (n : ℕ) (xs : List A)
      → Sorted less xs
      → In a xs
      → In a (take n xs) ⊎ (length (take n xs) ≡ n) × All (λ y. less a y ≡ false) (take n xs)
  In-take a zero xs s m = inr (refl, tt)
  In-take a (suc n) [] s m = absurd m
  In-take a (suc n) (x ∷ xs) (hx, s) (inl e) = inl (inl e)
  In-take a (suc n) (x ∷ xs) (hx, s) (inr m) = elim (In-take a n xs s m) [
    | inl kept ↦ inl (inr kept)
    | inr (full, above) ↦ inr (ap suc full, (All_In (λ y. less y x ≡ false) a xs hx m, above))
  ]
