-- ===== src/Base/Text/Split.antt =====
-- strings.Split and strings.Join for a separator of one byte.
use Prim.Native.Nat.{ℕ}
use mathlib.Core.Path.{◌≡◌, refl, sym, ap, ◌∙◌}
use mathlib.Core.Logic.{◌≢◌, inl, inr}
use mathlib.Core.List.{List, [], ◌∷◌, ◌++◌}
use native.Mathlib.Omega.{arith}
use accelerboat.Base.Tests.{◌==◌, if◌then◌else◌, Bool-cases, ==→eq}
use accelerboat.Base.Text.{Text, Lacks}

unfoldable pub push_first : ℕ → List Text → List Text
push_first c [] = (c ∷ []) ∷ []
push_first c (p ∷ ps) = (c ∷ p) ∷ ps

unfoldable pub split : Text → ℕ → List Text
unfolding push_first
split [] sep = [] ∷ []
split (c ∷ s) sep = let rest = split s sep in if c == sep then [] ∷ rest else push_first c rest

unfoldable pub join : List Text → Text → Text
join [] sep = []
join (p ∷ []) sep = p
join (p ∷ q ∷ ps) sep = p ++ (sep ++ join (q ∷ ps) sep)

-- A text without the separator is one part.
pub split-eq_self : (s : Text) (sep : ℕ) → Lacks sep s → split s sep ≡ s ∷ []
unfolding split
split-eq_self [] sep h = refl
split-eq_self (c ∷ s) sep (hc, hs) = ground (arith, split-eq_self s sep hs)

-- The first separator ends the first part.
pub split-append :
    (p s : Text) (sep : ℕ) → Lacks sep p → split (p ++ (sep ∷ s)) sep ≡ p ∷ split s sep
unfolding split
split-append [] s sep h = ground arith
split-append (c ∷ p) s sep (hc, hp) = ground (arith, split-append p s sep hp)

pub split_pair :
    (p q : Text) (sep : ℕ) → Lacks sep p → Lacks sep q → split (p ++ (sep ∷ q)) sep ≡ p ∷ q ∷ []
split_pair p q sep hp hq = split-append p q sep hp ∙ ap (λ r. p ∷ r) (split-eq_self q sep hq)

split-ne-nil : (s : Text) (sep : ℕ) → split s sep ≢ []
unfolding split
split-ne-nil [] sep = λ e. cc
split-ne-nil (c ∷ s) sep = push-ne-nil (split s sep)
  where
    push-ne-nil : (ps : List Text) → (if c == sep then [] ∷ ps else push_first c ps) ≢ []
    push-ne-nil [] = ground arith
    push-ne-nil (p ∷ ps) = ground arith

join_head :
    (sep : ℕ) (ps : List Text) → ps ≢ [] → join ([] ∷ ps) (sep ∷ []) ≡ sep ∷ join ps (sep ∷ [])
unfolding join
join_head sep [] h = absurd (h refl)
join_head sep (p ∷ ps) h = refl

join-push_first :
    (c sep : ℕ) (ps : List Text)
    → ps ≢ []
    → join (push_first c ps) (sep ∷ []) ≡ c ∷ join ps (sep ∷ [])
unfolding join push_first
join-push_first c sep [] h = absurd (h refl)
join-push_first c sep (p ∷ []) h = refl
join-push_first c sep (p ∷ q ∷ ps) h = refl

-- Joining the parts of a split gives the text back.
pub join-split : (s : Text) (sep : ℕ) → join (split s sep) (sep ∷ []) ≡ s
unfolding split
join-split [] sep = unfold join in refl
join-split (c ∷ s) sep = elim (Bool-cases (c == sep)) [
  | inl hit ↦
      rw (hit, split)
        (join_head sep (split s sep) (split-ne-nil s sep)
          ∙ (λ i. sym (==→eq c sep hit) i ∷ join-split s sep i))
  | inr miss ↦
      rw (miss, split)
        (join-push_first c sep (split s sep) (split-ne-nil s sep)
          ∙ ap (λ r. c ∷ r) (join-split s sep))
]

-- A text of two parts is the first, the separator and the second.
pub split_two : (s p q : Text) (sep : ℕ) → split s sep ≡ p ∷ q ∷ [] → s ≡ p ++ (sep ∷ q)
unfolding join
split_two s p q sep e = sym (join-split s sep) ∙ ap (λ ps. join ps (sep ∷ [])) e
