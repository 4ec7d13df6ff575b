-- ===== src/Registry/Find.antt =====
-- pkg/utils/registry.go: what the search for a quoted value finds.
use accelerboat.Base.{
  ◌≡◌, refl, sym, ap, ◌∙◌, inl, inr, Bool, true, false, ◌&&◌, ◌||◌, Option, some, [], ◌∷◌, ◌++◌,
  arith, ◌==◌, if◌then◌else◌, Bool-cases, Option-cases, subst, some_inj, append_assoc,
}
use accelerboat.Base.Text.{
  Text, text_eq, text_eq→eq, has_prefix, drop_prefix, drop_prefix-append, Lacks,
}
use accelerboat.Registry.{quote, until_quote, find_value}

until_quote-append : (v s : Text) → Lacks quote v → until_quote (v ++ (quote ∷ s)) ≡ some v
unfolding until_quote
until_quote-append [] s h = refl
until_quote-append (c ∷ v) s (hc, h) = ground (arith, hc, until_quote-append v s h)

until_quote-Lacks : (s v : Text) → until_quote s ≡ some v → Lacks quote v
unfolding until_quote
until_quote-Lacks [] v e = absurd cc
until_quote-Lacks (c ∷ s) v e = elim (Bool-cases (c == quote)) [
  | inl hit ↦ subst (Lacks quote) (some_inj (rw hit at e)) tt
  | inr miss ↦ elim (Option-cases (until_quote s)) [
    | inl none' ↦ absurd (cc (rw (miss, none') at e))
    | inr (w, some') ↦
        subst (Lacks quote) (some_inj (rw (miss, some') at e))
          (ground (arith, miss), until_quote-Lacks s w some')
  ]
]

pub find_value-Lacks : (key s v : Text) → find_value key s ≡ some v → Lacks quote v
unfolding find_value
find_value-Lacks key [] v e = absurd cc
find_value-Lacks key (c ∷ s) v e = elim (Bool-cases (has_prefix (c ∷ s) (key ++ (quote ∷ [])))) [
  | inl hit ↦ until_quote-Lacks (drop_prefix (c ∷ s) (key ++ (quote ∷ []))) v (rw hit at e)
  | inr miss ↦ find_value-Lacks key s v (rw miss at e)
]

has_prefix-quote :
    (u k s : Text)
    → Lacks quote u
    → Lacks quote k
    → has_prefix (u ++ (quote ∷ s)) (k ++ (quote ∷ [])) ≡ text_eq u k
unfolding has_prefix text_eq
has_prefix-quote [] [] s hu hk = ground arith
has_prefix-quote [] (d ∷ k) s hu (hd, hk) = ground (arith, hd)
has_prefix-quote (c ∷ u) [] s (hc, hu) hk = ground (arith, hc)
has_prefix-quote (c ∷ u) (d ∷ k) s (hc, hu) (hd, hk) =
    ap (λ b. c == d && b) (has_prefix-quote u k s hu hk)

-- A tail of the text is the key.
abbrev pub has_tail : Text → Text → Bool
has_tail k [] = text_eq [] k
has_tail k (c ∷ u) = text_eq (c ∷ u) k || has_tail k u

drop_prefix-quote :
    (u k s : Text) → text_eq u k ≡ true → drop_prefix (u ++ (quote ∷ s)) (k ++ (quote ∷ [])) ≡ s
drop_prefix-quote u k s e =
    ap (λ t. drop_prefix t (k ++ (quote ∷ [])))
      ((λ i. text_eq→eq u k e i ++ (quote ∷ s)) ∙ sym (append_assoc k (quote ∷ []) s))
    ∙ drop_prefix-append (k ++ (quote ∷ [])) s

step_eq :
    (k u s rest : Text) (o : Option Text)
    → Lacks quote u
    → Lacks quote k
    → (if has_prefix (u ++ (quote ∷ s)) (k ++ (quote ∷ []))
        then until_quote (drop_prefix (u ++ (quote ∷ s)) (k ++ (quote ∷ [])))
        else o)
      ≡ (if text_eq u k then until_quote s else o)
step_eq k u s rest o hu hk =
    ap (λ b. if b then until_quote (drop_prefix (u ++ (quote ∷ s)) (k ++ (quote ∷ []))) else o)
      (has_prefix-quote u k s hu hk)
    ∙ elim (Bool-cases (text_eq u k)) [
      | inl e ↦ rw e (ap until_quote (drop_prefix-quote u k s e))
      | inr e ↦ rw e refl
    ]

find_value-quote :
    (k u s : Text)
    → Lacks quote u
    → Lacks quote k
    → find_value k (u ++ (quote ∷ s)) ≡ (if has_tail k u then until_quote s else find_value k s)
unfolding find_value
find_value-quote k [] s hu hk = step_eq k [] s s (find_value k s) hu hk
find_value-quote k (c ∷ u) s (hc, hu) hk =
    step_eq k (c ∷ u) s s (find_value k (u ++ (quote ∷ s))) (hc, hu) hk
    ∙ ground (arith, find_value-quote k u s hu hk)

-- key"value" and what follows.
unfoldable pub block : Text → Text → Text → Text
block key value s = key ++ (quote ∷ (value ++ (quote ∷ s)))

pub find_value-block :
    (k key value s : Text)
    → Lacks quote k
    → Lacks quote key
    → Lacks quote value
    → has_tail k value ≡ false
    → find_value k (block key value s) ≡ (if has_tail k key then some value else find_value k s)
unfolding block
find_value-block k key value s hk hkey hv clean =
    find_value-quote k key (value ++ (quote ∷ s)) hkey hk ∙ (λ i.
      if has_tail k key
      then until_quote-append value s hv i
      else (find_value-quote k value s hv hk
            ∙ ap (λ b. if b then until_quote s else find_value k s) clean)
          i)

key-ne : (k u : Text) → Lacks b'=' u → text_eq u (k ++ (b'=' ∷ [])) ≡ false
unfolding text_eq
key-ne [] [] h = refl
key-ne (d ∷ k) [] h = refl
key-ne [] (c ∷ u) (hc, h) = ground (arith, hc)
key-ne (d ∷ k) (c ∷ u) (hc, h) = ground (arith, key-ne k u h)

-- A text without '=' has no tail that ends in '='.
pub has_tail-Lacks : (k u : Text) → Lacks b'=' u → has_tail (k ++ (b'=' ∷ [])) u ≡ false
has_tail-Lacks k [] h = key-ne k [] h
has_tail-Lacks k (c ∷ u) h = ground (arith, key-ne k (c ∷ u) h, has_tail-Lacks k u h.1)
