-- ===== src/Recorder/File.antt =====
-- pkg/recorder/recorder.go: List with an event file. The operating system and encoding/json are
-- parameters: `scan_file` gives the lines that the scanner yields for a path, `none` where the file
-- does not open, and `unmarshal` the event of a line.
pub mod Window
use Prim.Native.Nat.{ℕ, zero, suc, ◌+◌, ◌-◌, ◌≤◌, ◌<◌}
use mathlib.Core.List.{filter_map, filter_map-append, filter_map-cons-none, filter_map-cons-some}
use accelerboat.Base.{
  ◌≡◌, refl, sym, ap, ◌∙◌, inl, inr, List, [], ◌∷◌, ◌++◌, append_assoc, append-nil, arith, ltb,
  ◌==◌, Bool, true, false, ◌||◌, if◌then◌else◌, length, drop, length-append, Option, some, none,
  Bool-cases, Option-cases,
}
use accelerboat.Base.Int.{ℤ, pos}
use accelerboat.Base.Slices.{last, last-append, last_short, length-last}
use accelerboat.Base.Text.{Text, codes, contains}
use accelerboat.Base.Text.Decimal.{print_nat}
use accelerboat.Recorder.{Event, Recorder, positive_or, default_limit, list_buffer}

unfoldable pub any_contains : Text → List Text → Bool
any_contains line [] = false
any_contains line (q ∷ qs) = contains line q || any_contains line qs

abbrev pub is_empty {ℓ} : {A : Type ℓ} → List A → Bool
is_empty [] = true
is_empty (x ∷ xs) = false

abbrev pub is_before : Event → Option ℕ → Bool
is_before ev none = false
is_before ev (some t) = ltb ev.timestamp t

-- eventFile.i, ..., eventFile.1
unfoldable pub backups : Text → ℕ → List Text
backups event_file zero = []
backups event_file (suc i) = (event_file ++ (b'.' ∷ print_nat (suc i))) ∷ backups event_file i

module _ (scan_file : Text → Option (List Text)) (unmarshal : Text → Option Event) (limit : ℕ)
    (query : List Text) (start_time : Option ℕ) where
  -- One round of the loop of readEventsFromPath.
  unfoldable pub read_line : Text → List Event → List Event
  unfolding any_contains
  read_line line events =
      if is_empty line
      then events
      else if (if is_empty query then false else (if any_contains line query then false else true))
      then events
      else elim (unmarshal line) [
        | none ↦ events
        | some ev ↦
            if is_before ev start_time
            then events
            else (let events' = events ++ (ev ∷ []) in
                if ltb limit (length events') then drop 1 events' else events')
      ]

  unfoldable pub read_lines : List Text → List Event → List Event
  unfolding read_line
  read_lines [] events = events
  read_lines (line ∷ lines) events = read_lines lines (read_line line events)

  unfoldable pub read_events_from_path : Text → List Event → List Event
  unfolding read_lines
  read_events_from_path path events = elim (scan_file path) [
    | none ↦ events
    | some lines ↦ read_lines lines events
  ]

  unfoldable pub read_paths : List Text → List Event → List Event
  unfolding read_events_from_path
  read_paths [] events = events
  read_paths (path ∷ paths) events = read_paths paths (read_events_from_path path events)

-- listFromFile
unfoldable pub list_from_file :
    (Text → Option (List Text))
    → (Text → Option Event)
    → ℤ
    → List Text
    → Option ℕ
    → Text
    → ℕ
    → List Event
unfolding read_paths backups
list_from_file scan_file unmarshal limit query start_time event_file max_backups =
    let n = positive_or default_limit limit in
    let events =
      read_events_from_path scan_file unmarshal n query start_time event_file
        (read_paths scan_file unmarshal n query start_time (backups event_file max_backups) []) in
    if ltb n (length events) then drop (length events - n) events else events

-- List
unfoldable pub list :
    (Text → Option (List Text))
    → (Text → Option Event)
    → ℤ
    → List Text
    → Option ℕ
    → Recorder
    → List Event
unfolding list_from_file list_buffer
list scan_file unmarshal limit query start_time r =
    if is_empty r.event_file_path
    then list_buffer limit r
    else list_from_file scan_file unmarshal limit query start_time r.event_file_path
        r.event_file_max_backups
