-- ===== src/Api/Lines.antt =====
-- sys_recorder.go: wrapMessage, which breaks a message into lines.
use Prim.Native.Nat.{ℕ, zero, suc}
use accelerboat.Base.{Bool, ◌||◌, List, [], ◌∷◌, ltb, leb, ◌==◌, if◌then◌else◌, length, take, drop}
use accelerboat.Base.Text.{Text, codes}
use accelerboat.Base.Text.Split.{join}

-- A rune that wrapMessage breaks at.
abbrev pub is_break : ℕ → Bool
is_break c = c == 32 || c == 10

-- The index behind the last break of a chunk, 0 if there is none.
abbrev pub after_last_break : Text → ℕ
after_last_break [] = 0
after_last_break (c ∷ s) =
    let n = after_last_break s in if ltb 0 n then suc n else if is_break c then 1 else 0

abbrev pub skip_breaks : Text → Text
skip_breaks [] = []
skip_breaks (c ∷ s) = let rest = skip_breaks s in if is_break c then rest else c ∷ s

-- The length of the next line.
abbrev pub line_length : ℕ → Text → ℕ
line_length width runes =
    let n = after_last_break (take width runes) in
    if ltb (length runes) width then length runes else if ltb 0 n then n else width

-- The lines, on fuel; the rest of the text that is left when it runs out is the second part.
unfoldable pub wrap_lines : ℕ → ℕ → Text → List Text × Text
wrap_lines fuel width [] = ([], [])
wrap_lines zero width (c ∷ s) = ([], c ∷ s)
wrap_lines (suc fuel) width (c ∷ s) =
    let n = line_length width (c ∷ s) in
    let (lines, rest) = wrap_lines fuel width (skip_breaks (drop n (c ∷ s))) in
    (take n (c ∷ s) ∷ lines, rest)

-- On ASCII texts, whose runes are their bytes.
unfoldable pub wrap_message : Text → ℕ → Text
unfolding wrap_lines
wrap_message msg width =
    if width == 0 || leb (length msg) width
    then msg
    else join (wrap_lines (length msg) width msg).0 (codes "\n")
