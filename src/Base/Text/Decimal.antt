-- ===== src/Base/Text/Decimal.antt =====
-- strconv.ParseInt in base 10, and the verb %d, for numbers that are not negative.
use Prim.Native.Nat.{ℕ, zero, suc, ◌+◌, ◌-◌, ◌*◌, ◌/◌, ◌%◌, ◌^◌, ◌<◌}
use mathlib.Core.Path.{◌≡◌, refl, ap, ◌∙◌}
use mathlib.Core.Logic.{◌≢◌, inl, inr}
use mathlib.Core.Bool.{◌&&◌}
use mathlib.Core.Option.{Option, none, some}
use mathlib.Core.List.{[], ◌∷◌, ◌++◌}
use native.Mathlib.Omega.{arith}
use accelerboat.Base.Tests.{◌==◌, ltb, leb, if◌then◌else◌, Bool-cases}
use accelerboat.Base.Int.{ℤ, pos, negsuc}
use accelerboat.Base.Text.{Text, Lacks, Lacks-append}

-- Base ten, most significant digit first; the fuel is above the number.
unfoldable pub digits : ℕ → ℕ → Text
digits zero n = []
digits (suc f) n =
    let rest = digits f (n / 10) in if ltb n 10 then (48 + n) ∷ [] else rest ++ ((48 + n % 10) ∷ [])

unfoldable pub print_nat : ℕ → Text
unfolding digits
print_nat n = digits (suc n) n

unfoldable pub scan : ℕ → Text → Option ℕ
scan n [] = some n
scan n (c ∷ s) = if leb 48 c && leb c 57 then scan (n * 10 + (c - 48)) s else none

unfoldable pub parse_nat : Text → Option ℕ
unfolding scan
parse_nat [] = none
parse_nat (c ∷ s) = scan 0 (c ∷ s)

scan-append : (s t : Text) (n m : ℕ) → scan n s ≡ some m → scan n (s ++ t) ≡ scan m t
unfolding scan
scan-append [] t n m h = ground arith
scan-append (c ∷ s) t n m h = ground (arith, scan-append s t (n * 10 + (c - 48)) m)

scan_digit : (n d : ℕ) → d < 10 → scan n ((48 + d) ∷ []) ≡ some (n * 10 + d)
unfolding scan
scan_digit n d h = ground arith

scan-digits : (f n : ℕ) → n < f → scan 0 (digits f n) ≡ some n
unfolding digits
scan-digits zero n h = absurd (omega arith)
scan-digits (suc f) n h = elim (Bool-cases (ltb n 10)) [
  | inl small ↦ rw small (scan_digit 0 n (ground arith) ∙ ap (λ (k : ℕ). some k) (omega arith))
  | inr big ↦ rw big (
      scan-append (digits f (n / 10)) _ 0 (n / 10) (scan-digits f (n / 10) (ground arith))
      ∙ scan_digit (n / 10) (n % 10) (omega arith)
      ∙ ap (λ (k : ℕ). some k) (omega arith))
]

parse_nat-eq-scan : (s : Text) → s ≢ [] → parse_nat s ≡ scan 0 s
unfolding parse_nat
parse_nat-eq-scan [] h = absurd (h refl)
parse_nat-eq-scan (c ∷ s) h = refl

snoc-ne-nil : (s : Text) (c : ℕ) → s ++ (c ∷ []) ≢ []
snoc-ne-nil [] c = λ e. cc
snoc-ne-nil (d ∷ s) c = λ e. cc

print_nat-ne-nil : (n : ℕ) → print_nat n ≢ []
unfolding print_nat
print_nat-ne-nil n = ground (arith, snoc-ne-nil (digits n (n / 10)) (48 + n % 10))

-- A printed number is read back.
pub parse_nat-print_nat : (n : ℕ) → parse_nat (print_nat n) ≡ some n
unfolding print_nat
parse_nat-print_nat n =
    parse_nat-eq-scan (digits (suc n) n) (print_nat-ne-nil n) ∙ scan-digits (suc n) n (omega arith)

digits-Lacks : (f n c : ℕ) → 57 < c → Lacks c (digits f n)
unfolding digits
digits-Lacks zero n c h = tt
digits-Lacks (suc f) n c h = elim (Bool-cases (ltb n 10)) [
  | inl small ↦ rw small ((ground arith, tt))
  | inr big ↦
      rw big (Lacks-append c (digits f (n / 10)) _ (digits-Lacks f (n / 10) c h) (omega arith, tt))
]

-- A printed number holds no byte behind '9'.
pub print_nat-Lacks : (n c : ℕ) → 57 < c → Lacks c (print_nat n)
unfolding print_nat
print_nat-Lacks n c h = digits-Lacks (suc n) n c h

-- strconv.ParseInt(s, 10, 64)
abbrev in_range_pos : ℕ → Option ℤ
in_range_pos n = if ltb n (2 ^ 63) then some (pos n) else none

abbrev in_range_neg : ℕ → Option ℤ
in_range_neg n =
    if n == 0 then some (pos 0) else (if leb n (2 ^ 63) then some (negsuc (n - 1)) else none)

unfoldable pub parse_int : Text → Option ℤ
unfolding parse_nat
parse_int [] = none
parse_int (c ∷ s) =
    if c == b'-'
    then elim (parse_nat s) [ none ↦ none | some n ↦ in_range_neg n ]
    else if c == b'+'
    then elim (parse_nat s) [ none ↦ none | some n ↦ in_range_pos n ]
    else elim (parse_nat (c ∷ s)) [ none ↦ none | some n ↦ in_range_pos n ]

scan_no_sign : (c : ℕ) (s : Text) (n : ℕ) → parse_nat (c ∷ s) ≡ some n → 47 < c
unfolding parse_nat
scan_no_sign c s n h = ground arith

parse_int_of_nat :
    (s : Text) (n : ℕ) → parse_nat s ≡ some n → n < 2 ^ 63 → parse_int s ≡ some (pos n)
unfolding parse_int
parse_int_of_nat [] n h lt = cc
parse_int_of_nat (c ∷ s) n h lt = ground (arith, h, scan_no_sign c s n h)

-- A printed number in the range of int64 is read back.
pub parse_int-print_nat : (n : ℕ) → n < 2 ^ 63 → parse_int (print_nat n) ≡ some (pos n)
parse_int-print_nat n lt = parse_int_of_nat (print_nat n) n (parse_nat-print_nat n) lt
