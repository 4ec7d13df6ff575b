-- ===== src/Torrent/Loop.antt =====
-- torrent.go: the loop of downloadTorrent comes to an end.
use Prim.Native.Nat.{ℕ, zero, suc, ◌+◌, ◌*◌, ◌≤◌, ◌<◌}
use accelerboat.Base.{
  ◌≡◌, ◌≢◌, refl, sym, ap, ◌∙◌, ◌⊎◌, inl, inr, true, false, List, [], ◌∷◌, arith, ltb, ◌==◌,
  if◌then◌else◌, length, get_or, drop, length-drop, Bool-cases, ltb→lt, ==→eq,
}
use accelerboat.Base.Slices.{get_or-drop}
use accelerboat.Torrent.{
  Outcome, Progress, Signal, tick, recorder_tick, cancelled, done, running, completed, failed,
  panicked, is_stalled, rounds, started,
}

-- The number of bytes completed never falls, and never exceeds the length of the torrent.
abbrev pub IsRising : ℕ → ℕ → List Signal → Type 0
IsRising low total [] = low ≤ total
IsRising low total (tick c ∷ xs) = (low ≤ c) × IsRising c total xs
IsRising low total (recorder_tick ∷ xs) = IsRising low total xs
IsRising low total (cancelled ∷ xs) = IsRising low total xs
IsRising low total (done ∷ xs) = IsRising low total xs

abbrev pub ticks : List Signal → ℕ
ticks [] = 0
ticks (tick c ∷ xs) = suc (ticks xs)
ticks (recorder_tick ∷ xs) = ticks xs
ticks (cancelled ∷ xs) = ticks xs
ticks (done ∷ xs) = ticks xs

-- Every point was no stall when it was the newest, and no point is below an older one.
abbrev Going : List ℕ → Type 0
Going [] = Unit {0}
Going (c ∷ s) = (is_stalled c (c ∷ s) ≡ false) × (get_or s 0 0 ≤ c) × Going s

IsRising-le : (low total : ℕ) (xs : List Signal) → IsRising low total xs → low ≤ total
IsRising-le low total [] h = h
IsRising-le low total (tick c ∷ xs) (h, r) = omega (arith, IsRising-le c total xs r)
IsRising-le low total (recorder_tick ∷ xs) h = IsRising-le low total xs h
IsRising-le low total (cancelled ∷ xs) h = IsRising-le low total xs h
IsRising-le low total (done ∷ xs) h = IsRising-le low total xs h

Going-drop : (n : ℕ) (s : List ℕ) → Going s → Going (drop n s)
Going-drop zero s g = g
Going-drop (suc n) [] g = tt
Going-drop (suc n) (c ∷ s) g = Going-drop n s g.2

get_or-le : (s : List ℕ) (i : ℕ) → Going s → get_or s i 0 ≤ get_or s 0 0
get_or-le [] i g = omega arith
get_or-le (c ∷ s) zero g = omega arith
get_or-le (c ∷ s) (suc i) g = omega (arith, get_or-le s i g.2, g.1)

-- A point beyond the first 36 is above the one 11 before it.
moved : (c : ℕ) (s : List ℕ) → Going (c ∷ s) → 36 < length (c ∷ s) → get_or s 10 0 < c
unfolding is_stalled
moved c s g h = ground (arith, g.0, get_or-le (c ∷ s) 35 g, get_or-le (c ∷ s) 11 g)

-- In each window of 12 points a byte has come, but in the first 36.
length-le : (n : ℕ) (s : List ℕ) → length s ≤ n → Going s → length s ≤ 11 * get_or s 0 0 + 36
length-le n [] h g = omega arith
length-le zero (c ∷ s) h g = absurd (omega arith)
length-le (suc n) (c ∷ s) h g = elim (Bool-cases (ltb 36 (length (c ∷ s)))) [
  | inl long ↦ omega (
    arith,
    ltb→lt 36 (length (c ∷ s)) long,
    moved c s g (ltb→lt 36 (length (c ∷ s)) long),
    get_or-drop 10 s 0 0,
    length-drop 10 s,
    length-le n (drop 10 s) (omega (arith, length-drop 10 s)) (Going-drop 10 s g.2),
  )
  | inr short ↦ ground arith
]

-- Of a run that still goes on: how many ticks there were.
module _ (total : ℕ) (p' : Progress) where
  abbrev Bounded : ℕ → Progress → List Signal → Type 0
  Bounded low p xs =
      (p.closed ≡ true → ticks xs ≡ 0)
      × (p.closed ≡ false → ticks xs + length p.slice ≤ 11 * total + 37)

  -- What a tick did, after which the run goes on.
  abbrev After : ℕ → Progress → List Signal → Type 0
  After c p xs =
      ((c ≡ total)
        × (p.closed ≡ false)
        × (rounds total xs (record p { closed = true }) ≡ running p'))
      ⊎ ((c ≢ total)
          × (is_stalled c (c ∷ p.slice) ≡ false)
          × (rounds total xs (record p { slice = c ∷ p.slice }) ≡ running p'))

  tick-After :
      (c : ℕ) (p : Progress) (xs : List Signal)
      → rounds total (tick c ∷ xs) p ≡ running p'
      → After c p xs
  unfolding rounds
  tick-After c p xs e = elim (Bool-cases (c == total)) [
    | inl full ↦ elim (Bool-cases p.closed) [
      | inl shut ↦ absurd (cc (rw (full, shut, rounds) at e))
      | inr open_yet ↦ inl (==→eq c total full, open_yet, rw (full, open_yet, rounds) at e)
    ]
    | inr below ↦ elim (Bool-cases (is_stalled c (c ∷ p.slice))) [
      | inl stalled ↦ absurd (cc (rw (below, stalled, rounds) at e))
      | inr going ↦ inr (ground arith, going, rw (below, going, rounds) at e)
    ]
  ]

  done_waits :
      (xs : List Signal) (p : Progress)
      → p.closed ≡ false
      → rounds total (done ∷ xs) p ≡ rounds total xs p
  unfolding rounds
  done_waits xs p e =
      ap
        (λ b. elim (if b then completed else running p) [
          | running q ↦ rounds total xs q
          | completed ↦ completed
          | failed ↦ failed
          | panicked ↦ panicked
        ])
        e

  rounds-Bounded :
      (low : ℕ) (xs : List Signal) (p : Progress)
      → IsRising low total xs
      → Going p.slice
      → get_or p.slice 0 0 ≤ low
      → (p.closed ≡ true → low ≡ total)
      → rounds total xs p ≡ running p'
      → Bounded low p xs
  unfolding rounds
  rounds-Bounded low [] p r g le full e =
      (λ c. refl, λ c. omega (arith, length-le (length p.slice) p.slice (omega arith) g, r))
  rounds-Bounded low (tick c ∷ xs) p (h, r) g le full e = elim (tick-After c p xs e) [
    | inl (eq, open_yet, e') ↦
        let ih = rounds-Bounded c xs (record p { closed = true }) r g (omega arith) (λ q. eq) e' in
        (
          λ q. absurd (cc),
          λ q. omega (
            arith,
            ih.0 refl,
            length-le (length p.slice) p.slice (omega arith) g,
            IsRising-le c total xs r,
          ),
        )
    | inr (ne, going, e') ↦
        let ih =
          rounds-Bounded c xs (record p { slice = c ∷ p.slice }) r (going, omega arith, g)
            (omega arith) (λ q. absurd (ne (omega (arith, full q, IsRising-le c total xs r)))) e' in
        (
          λ q. absurd (ne (omega (arith, full q, IsRising-le c total xs r))),
          λ q. omega (arith, ih.1 q),
        )
  ]
  rounds-Bounded low (recorder_tick ∷ xs) p r g le full e = rounds-Bounded low xs p r g le full e
  rounds-Bounded low (cancelled ∷ xs) p r g le full e = absurd (cc e)
  rounds-Bounded low (done ∷ xs) p r g le full e = elim (Bool-cases p.closed) [
    | inl shut ↦ absurd (cc (rw (shut, rounds) at e))
    | inr open_yet ↦ rounds-Bounded low xs p r g le full (sym (done_waits xs p open_yet) ∙ e)
  ]

never_running :
    (total : ℕ) (xs : List Signal)
    → IsRising 0 total xs
    → 11 * total + 37 < ticks xs
    → (p' : Progress) → rounds total xs started ≢ running p'
never_running total xs r long p' e =
    let bound = rounds-Bounded total p' 0 xs started r tt (omega arith) (λ q. absurd (cc)) e in
    absurd (omega (arith, bound.1 refl))

-- The loop has returned, or the process has panicked.
abbrev pub IsEnded : Outcome → Type 0
IsEnded o = (o ≡ completed) ⊎ (o ≡ failed) ⊎ (o ≡ panicked)

ended : (o : Outcome) → ((p' : Progress) → o ≢ running p') → IsEnded o
ended (running p') h = absurd (h p' refl)
ended completed h = inl refl
ended failed h = inr (inl refl)
ended panicked h = inr (inr refl)

-- The download of a torrent ends: while the number of bytes completed never falls and stays within the
-- length of the torrent, every run of the loop with more than 11 ticks for each byte and 37 has
-- completed, failed or panicked, in whatever order the select takes the ticks, the recorder's ticks, the
-- context and the closed channel.
pub rounds_end :
    (total : ℕ) (xs : List Signal)
    → IsRising 0 total xs
    → 11 * total + 37 < ticks xs
    → IsEnded (rounds total xs started)
rounds_end total xs r long =
    ended (rounds total xs started) (λ p' e. never_running total xs r long p' e)
