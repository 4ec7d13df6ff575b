-- ===== src/Api/Wrap.antt =====
-- sys_recorder.go: wrapMessage.
use Prim.Native.Nat.{ℕ, zero, suc, ◌≤◌, ◌<◌}
use accelerboat.Base.{
  ◌≡◌, refl, sym, ap, ◌∙◌, ◌||◌, List, [], ◌∷◌, ◌++◌, arith, leb, ◌==◌, if◌then◌else◌, length, take,
  drop, length-take, length-drop, take-append-drop, Bool-cases, inl, inr, append-nil,
}
use accelerboat.Base.Sort.{All}
use accelerboat.Base.Text.{Text, codes}
use accelerboat.Base.Text.Split.{join}
use accelerboat.Api.Lines.{
  is_break, after_last_break, skip_breaks, line_length, wrap_lines, wrap_message,
}

-- The text without blanks and line breaks.
abbrev pub unbroken : Text → Text
unbroken [] = []
unbroken (c ∷ s) = let rest = unbroken s in if is_break c then rest else c ∷ rest

abbrev pub unbroken_lines : List Text → Text
unbroken_lines [] = []
unbroken_lines (l ∷ ls) = unbroken l ++ unbroken_lines ls

unbroken-append : (s t : Text) → unbroken (s ++ t) ≡ unbroken s ++ unbroken t
unbroken-append [] t = refl
unbroken-append (c ∷ s) t = ground (arith, unbroken-append s t)

unbroken-skip : (s : Text) → unbroken (skip_breaks s) ≡ unbroken s
unbroken-skip [] = refl
unbroken-skip (c ∷ s) = ground (arith, unbroken-skip s)

length-skip : (s : Text) → length (skip_breaks s) ≤ length s
length-skip [] = omega arith
length-skip (c ∷ s) = ground (arith, length-skip s)

after_last_break-le : (s : Text) → after_last_break s ≤ length s
after_last_break-le [] = omega arith
after_last_break-le (c ∷ s) = ground (arith, after_last_break-le s)

line_length_bounds :
    (width : ℕ) (c : ℕ) (s : Text)
    → 0 < width
    → (0 < line_length width (c ∷ s)) × (line_length width (c ∷ s) ≤ width)
line_length_bounds width c s h =
    ground (arith, after_last_break-le (take width (c ∷ s)), length-take width (c ∷ s))

-- Every round takes a part of the text, so its length is enough fuel.
wrap_lines_lem :
    (fuel width : ℕ) (s : Text)
    → 0 < width
    → length s ≤ fuel
    → let (lines, rest) = wrap_lines fuel width s in
      (rest ≡ []) × All (λ l. length l ≤ width) lines × (unbroken_lines lines ≡ unbroken s)
unfolding wrap_lines
wrap_lines_lem fuel width [] h le = (refl, tt, refl)
wrap_lines_lem zero width (c ∷ s) h le = absurd (omega arith)
wrap_lines_lem (suc fuel) width (c ∷ s) h le =
    let n = line_length width (c ∷ s) in
    let (pos_n, small) = line_length_bounds width c s h in
    let (all_done, short, same) =
      wrap_lines_lem fuel width (skip_breaks (drop n (c ∷ s))) h
        (omega (arith, length-skip (drop n (c ∷ s)), length-drop n (c ∷ s))) in
    (
      all_done,
      (omega (arith, length-take n (c ∷ s)), short),
      ap (λ r. unbroken (take n (c ∷ s)) ++ r) (same ∙ unbroken-skip (drop n (c ∷ s)))
          ∙ sym (unbroken-append (take n (c ∷ s)) (drop n (c ∷ s)))
          ∙ ap unbroken (take-append-drop n (c ∷ s)),
    )

-- wrapMessage to a positive width ends, and its result is lines, each of at most that width, that hold
-- every rune of the message in its order, but for blanks and line breaks.
pub wrap_message_lem :
    (msg : Text) (width : ℕ)
    → 0 < width
    → (lines : List Text) × (wrap_message msg width ≡ join lines (codes "\n"))
      × All (λ l. length l ≤ width) lines
      × (unbroken_lines lines ≡ unbroken msg)
unfolding wrap_message join
wrap_message_lem msg width h = elim (Bool-cases (width == 0 || leb (length msg) width)) [
  | inl short ↦ (
    msg ∷ [],
    rw (short, wrap_message) refl,
    (ground (arith, short), tt),
    append-nil (unbroken msg),
  )
  | inr long ↦
      let (all_done, small, same) = wrap_lines_lem (length msg) width msg h (omega arith) in
      ((wrap_lines (length msg) width msg).0, rw (long, wrap_message) refl, small, same)
]
