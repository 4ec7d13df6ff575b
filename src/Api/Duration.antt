-- ===== src/Api/Duration.antt =====
-- sys_recorder.go: formatRelativeTime.
use Prim.Native.Nat.{ℕ, ◌/◌, ◌%◌}
use accelerboat.Base.{List, [], ◌∷◌, ◌++◌, ltb, ◌==◌, if◌then◌else◌}
use accelerboat.Base.Int.{ℤ, pos, negsuc}
use accelerboat.Base.Text.{Text, codes}
use accelerboat.Base.Text.Decimal.{print_nat}

-- A duration as it is shown: numbers of units.
pub record TimeUnit : Type 0 where
  pub symbol : Text
  pub nanos : ℕ

abbrev pub milli : TimeUnit
milli = record { symbol = codes "ms"; nanos = 1000000 }

abbrev pub sec : TimeUnit
sec = record { symbol = codes "s"; nanos = 1000000000 }

abbrev pub minute : TimeUnit
minute = record { symbol = codes "m"; nanos = 60000000000 }

abbrev pub hour : TimeUnit
hour = record { symbol = codes "h"; nanos = 3600000000000 }

abbrev pub day : TimeUnit
day = record { symbol = codes "d"; nanos = 86400000000000 }

abbrev pub year : TimeUnit
year = record { symbol = codes "y"; nanos = 31536000000000000 }

-- A number of a unit, and of a smaller one unless that is 0.
abbrev two_units : ℕ → TimeUnit → ℕ → TimeUnit → List (ℕ × TimeUnit)
two_units n u k v = if k == 0 then (n, u) ∷ [] else (n, u) ∷ (k, v) ∷ []

-- formatRelativeTime, for the nanoseconds since, which are not negative; the code divides whole hours,
-- minutes and seconds as floats. A negative time is shown as 0s.
unfoldable pub relative_time : ℕ → List (ℕ × TimeUnit)
relative_time t =
    if ltb t sec.nanos
    then (t / milli.nanos, milli) ∷ []
    else if ltb t minute.nanos
    then (t / sec.nanos, sec) ∷ []
    else if ltb t hour.nanos
    then two_units (t / minute.nanos) minute (t / sec.nanos % 60) sec
    else if ltb t day.nanos
    then two_units (t / hour.nanos) hour (t / minute.nanos % 60) minute
    else if ltb t year.nanos
    then two_units (t / day.nanos) day (t / hour.nanos % 24) hour
    else two_units (t / year.nanos) year (t / day.nanos % 365) day

abbrev pub show_units : List (ℕ × TimeUnit) → Text
show_units [] = []
show_units ((n, u) ∷ us) = print_nat n ++ (u.symbol ++ show_units us)

unfoldable pub format_relative_time : ℤ → Text
unfolding relative_time
format_relative_time (negsuc n) = codes "0s"
format_relative_time (pos t) = show_units (relative_time t)
