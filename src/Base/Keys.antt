-- ===== src/Base/Keys.antt =====
-- Go maps with string keys, as lists of entries, and sets of strings. Go leaves the order of an
-- iteration open: here it is the order of the list, and theorems hold for every list.
use mathlib.Core.Path.{◌≡◌, refl}
use mathlib.Core.Bool.{Bool, false, ◌||◌}
use mathlib.Core.List.{List, [], ◌∷◌, ◌++◌}
use mathlib.Core.Option.{Option, none, some}
use native.Mathlib.Omega.{arith}
use accelerboat.Base.Tests.{if◌then◌else◌, Bool-cases, some_inj}
use accelerboat.Base.Sort.{In}
use mathlib.Core.Path.{ap}
use mathlib.Core.Logic.{inl, inr}
use accelerboat.Base.Text.{Text, text_eq, text_eq_iff, text_eq→eq}

unfoldable pub mem : Text → List Text → Bool
mem x [] = false
mem x (y ∷ ys) = text_eq y x || mem x ys

unfoldable pub add_key : Text → List Text → List Text
add_key x xs = if mem x xs then xs else x ∷ xs

pub mem-add_key : (x y : Text) (xs : List Text) → mem x (add_key y xs) ≡ (text_eq y x || mem x xs)
unfolding mem add_key
mem-add_key x y xs = ground (arith, text_eq_iff y x)

pub mem-append : (x : Text) (xs ys : List Text) → mem x (xs ++ ys) ≡ (mem x xs || mem x ys)
unfolding mem
mem-append x [] ys = refl
mem-append x (y ∷ xs) ys = ground (arith, mem-append x xs ys)

module _ {V : Type 0} where
  unfoldable pub lookup : Text → List (Text × V) → Option V
  lookup k [] = none
  lookup k ((j, v) ∷ m) = if text_eq j k then some v else lookup k m

  unfoldable pub insert : Text → V → List (Text × V) → List (Text × V)
  insert k v [] = (k, v) ∷ []
  insert k v ((j, w) ∷ m) = if text_eq j k then (j, v) ∷ m else (j, w) ∷ insert k v m

  unfoldable pub delete : Text → List (Text × V) → List (Text × V)
  delete k [] = []
  delete k ((j, w) ∷ m) = let rest = delete k m in if text_eq j k then rest else (j, w) ∷ rest

  pub lookup-insert :
      (k j : Text) (v : V) (m : List (Text × V))
      → lookup j (insert k v m) ≡ (if text_eq k j then some v else lookup j m)
  unfolding lookup insert
  lookup-insert k j v [] = refl
  lookup-insert k j v ((i, w) ∷ m) =
      ground (arith, text_eq_iff k j, text_eq_iff i k, text_eq_iff i j, lookup-insert k j v m)

  pub lookup-delete :
      (k j : Text) (m : List (Text × V))
      → lookup j (delete k m) ≡ (if text_eq k j then none else lookup j m)
  unfolding lookup delete
  lookup-delete k j [] = ground arith
  lookup-delete k j ((i, w) ∷ m) =
      ground (arith, text_eq_iff k j, text_eq_iff i k, text_eq_iff i j, lookup-delete k j m)

  -- No key twice.
  abbrev pub Unique : List (Text × V) → Type 0
  Unique [] = Unit {0}
  Unique ((k, v) ∷ m) = (lookup k m ≡ none) × Unique m

  pub lookup-In : (k : Text) (v : V) (m : List (Text × V)) → lookup k m ≡ some v → In (k, v) m
  unfolding lookup
  lookup-In k v [] h = absurd cc
  lookup-In k v ((j, w) ∷ m) h = elim (Bool-cases (text_eq j k)) [
    | inl hit ↦ inl (λ i. (text_eq→eq j k hit i, some_inj (rw hit at h) i))
    | inr miss ↦ inr (lookup-In k v m (rw miss at h))
  ]

  pub In-lookup :
      (k : Text) (v : V) (m : List (Text × V)) → Unique m → In (k, v) m → lookup k m ≡ some v
  unfolding lookup
  In-lookup k v [] u h = elim h [ ]
  In-lookup k v ((j, w) ∷ m) u (inl e) =
      ground (arith, text_eq_iff j k, ap (λ (p : Text × V). p.0) e, ap (λ (p : Text × V). p.1) e)
  In-lookup k v ((j, w) ∷ m) (new, u) (inr h) = ground (arith, text_eq_iff j k, In-lookup k v m u h)

  pub insert-Unique : (k : Text) (v : V) (m : List (Text × V)) → Unique m → Unique (insert k v m)
  unfolding insert lookup
  insert-Unique k v [] u = (refl, tt)
  insert-Unique k v ((j, w) ∷ m) (new, u) = elim (Bool-cases (text_eq j k)) [
    | inl hit ↦ rw hit (new, u)
    | inr miss ↦ rw miss (
      ground (arith, text_eq_iff k j, text_eq_iff j k, lookup-insert k j v m),
      insert-Unique k v m u,
    )
  ]
