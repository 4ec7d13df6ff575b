-- ===== src/Api/Ago.antt =====
-- sys_recorder.go: what a relative time says.
use Prim.Native.Nat.{ℕ, ◌+◌, ◌*◌, ◌≤◌, ◌<◌}
use accelerboat.Base.{List, [], ◌∷◌, arith, ltb, if◌then◌else◌}
use accelerboat.Api.Duration.{TimeUnit, milli, sec, minute, hour, day, year, relative_time}

-- The nanoseconds that it says.
abbrev pub said : List (ℕ × TimeUnit) → ℕ
said [] = 0
said ((n, u) ∷ us) = n * u.nanos + said us

-- The smallest unit that a duration of this length is shown in.
abbrev pub precision : ℕ → TimeUnit
precision t =
    if ltb t sec.nanos
    then milli
    else if ltb t hour.nanos
    then sec
    else if ltb t day.nanos
    then minute
    else if ltb t year.nanos
    then hour
    else day

-- What formatRelativeTime says is not more than the time, and falls short of it by less than one of
-- the smallest unit for its length: a millisecond below a second, a second below an hour, a minute
-- below a day, an hour below a year, and a day from then on.
pub relative_time_bounds :
    (t : ℕ) → (said (relative_time t) ≤ t) × (t < said (relative_time t) + (precision t).nanos)
unfolding relative_time
relative_time_bounds t = ground arith
