-- ===== src/Recorder/File/Window.antt =====
-- pkg/recorder/recorder.go: the sliding window of readEventsFromPath.
use Prim.Native.Nat.{ℕ, zero, suc, ◌+◌, ◌-◌, ◌≤◌}
use mathlib.Core.List.{filter_map, filter_map-append, filter_map-cons-none, filter_map-cons-some}
use accelerboat.Base.{
  ◌≡◌, refl, sym, ap, ◌∙◌, inl, inr, List, [], ◌∷◌, ◌++◌, append_assoc, append-nil, arith, ltb,
  true, false, if◌then◌else◌, length, drop, length-append, Option, some, none, Option-cases,
}
use accelerboat.Base.Int.{ℤ}
use accelerboat.Base.Slices.{last, last-append, last_short, length-last}
use accelerboat.Base.Text.{Text}
use accelerboat.Base.Text.Decimal.{print_nat}
use accelerboat.Recorder.File.{
  any_contains, is_empty, is_before, backups, read_line, read_lines, read_events_from_path,
  read_paths, list_from_file,
}
use accelerboat.Recorder.{Event, positive_or, default_limit}

-- The event that a line stands for, if the query and the start time let it through.
abbrev pub accepted : (Text → Option Event) → List Text → Option ℕ → Text → Option Event
accepted unmarshal query start_time line =
    if is_empty line
    then none
    else if (if is_empty query then false else (if any_contains line query then false else true))
    then none
    else elim (unmarshal line) [
      | none ↦ none
      | some ev ↦ if is_before ev start_time then none else some ev
    ]

module _ (scan_file : Text → Option (List Text)) where
  unfoldable pub path_lines : Text → List Text
  path_lines path = elim (scan_file path) [ none ↦ [] | some lines ↦ lines ]

  -- The lines of the files that open, in the order of the paths.
  abbrev pub all_lines : List Text → List Text
  all_lines [] = []
  all_lines (path ∷ paths) = path_lines path ++ all_lines paths

module _ (scan_file : Text → Option (List Text)) (unmarshal : Text → Option Event) (limit : ℕ)
    (query : List Text) (start_time : Option ℕ) where
  abbrev ok : Text → Option Event
  ok = accepted unmarshal query start_time

  abbrev slide : Option Event → List Event → List Event
  slide none events = events
  slide (some ev) events =
      let events' = events ++ (ev ∷ []) in
      if ltb limit (length events') then drop 1 events' else events'

  read_line-eq-slide :
      (line : Text) (events : List Event)
      → read_line scan_file unmarshal limit query start_time line events ≡ slide (ok line) events
  unfolding read_line
  read_line-eq-slide line events = ground arith

  slide-eq-last :
      (events : List Event) (ev : Event)
      → length events ≤ limit
      → slide (some ev) events ≡ last limit (events ++ (ev ∷ []))
  slide-eq-last events ev h =
      ground (arith, length-append events (ev ∷ []), last_short limit (events ++ (ev ∷ [])))

  read_line_lem :
      (line : Text) (events : List Event)
      → length events ≤ limit
      → read_line scan_file unmarshal limit query start_time line events
        ≡ last limit (events ++ filter_map ok (line ∷ []))
  unfolding filter_map
  read_line_lem line events h = elim (Option-cases (ok line)) [
    | inl e ↦
        read_line-eq-slide line events
        ∙ ap (λ o. slide o events) e
        ∙ sym (
            ap (λ xs. last limit (events ++ xs)) (filter_map-cons-none ok line [] e)
            ∙ ap (last limit) (append-nil events)
            ∙ last_short limit events h)
    | inr (ev, e) ↦
        read_line-eq-slide line events
        ∙ ap (λ o. slide o events) e
        ∙ slide-eq-last events ev h
        ∙ sym (ap (λ xs. last limit (events ++ xs)) (filter_map-cons-some ok line [] e))
  ]

  -- The window over what is read so far and what comes next.
  joined :
      (events xs ys : List Event)
      → last limit (last limit (events ++ xs) ++ ys) ≡ last limit (events ++ (xs ++ ys))
  joined events xs ys =
      last-append limit (events ++ xs) ys ∙ ap (last limit) (append_assoc events xs ys)

  read_lines_lem :
      (lines : List Text) (events : List Event)
      → length events ≤ limit
      → read_lines scan_file unmarshal limit query start_time lines events
        ≡ last limit (events ++ filter_map ok lines)
  unfolding read_lines filter_map
  read_lines_lem [] events h = sym (ap (last limit) (append-nil events) ∙ last_short limit events h)
  read_lines_lem (line ∷ lines) events h =
      ap (read_lines scan_file unmarshal limit query start_time lines) (read_line_lem line events h)
      ∙ read_lines_lem lines _ (length-last limit (events ++ filter_map ok (line ∷ [])))
      ∙ joined events (filter_map ok (line ∷ [])) (filter_map ok lines)
      ∙ ap (λ xs. last limit (events ++ xs)) (sym (filter_map-append ok (line ∷ []) lines))

  read_path_lem :
      (path : Text) (events : List Event)
      → length events ≤ limit
      → read_events_from_path scan_file unmarshal limit query start_time path events
        ≡ last limit (events ++ filter_map ok (path_lines scan_file path))
  unfolding read_events_from_path path_lines filter_map
  read_path_lem path events h = elim (Option-cases (scan_file path)) [
    | inl e ↦
        rw (e, read_events_from_path, path_lines)
          (sym (ap (last limit) (append-nil events) ∙ last_short limit events h))
    | inr (lines, e) ↦ rw (e, read_events_from_path, path_lines) (read_lines_lem lines events h)
  ]

  read_paths_lem :
      (paths : List Text) (events : List Event)
      → length events ≤ limit
      → read_paths scan_file unmarshal limit query start_time paths events
        ≡ last limit (events ++ filter_map ok (all_lines scan_file paths))
  unfolding read_paths filter_map
  read_paths_lem [] events h = sym (ap (last limit) (append-nil events) ∙ last_short limit events h)
  read_paths_lem (path ∷ paths) events h =
      ap (read_paths scan_file unmarshal limit query start_time paths) (read_path_lem path events h)
      ∙ read_paths_lem paths _
          (length-last limit (events ++ filter_map ok (path_lines scan_file path)))
      ∙ joined events (filter_map ok (path_lines scan_file path))
          (filter_map ok (all_lines scan_file paths))
      ∙ ap (λ xs. last limit (events ++ xs))
          (sym (filter_map-append ok (path_lines scan_file path) (all_lines scan_file paths)))

-- The number, after the name and a dot, of the file that the code reads in the place `i` of `n` backups:
-- the first is the one with the highest number.
abbrev pub numbered : Text → ℕ → ℕ → Text
numbered event_file n i = event_file ++ (b'.' ∷ print_nat (n - i))

-- The names in the places from `i` on, `k` of them.
abbrev pub names_from : Text → ℕ → ℕ → ℕ → List Text
names_from event_file n i zero = []
names_from event_file n i (suc k) = numbered event_file n i ∷ names_from event_file n (suc i) k

pub backups-eq-names :
    (event_file : Text) (n i k : ℕ) → i + k ≡ n → backups event_file k ≡ names_from event_file n i k
unfolding backups
backups-eq-names event_file n i zero e = refl
backups-eq-names event_file n i (suc k) e =
    let number : suc k ≡ n - i = omega (arith, e) in
    λ j.
      (event_file ++ (b'.' ∷ print_nat (number j)))
      ∷ backups-eq-names event_file n (suc i) k (omega (arith, e)) j

-- With an event file, List returns the most recent `limit` events (100 where the limit is not
-- positive) of those that pass the query and the start time and that parse, of the lines that the
-- scanner gives for event_file.N, ..., event_file.1 and event_file, in this order; N is the number of
-- backups, and a file that does not open is left out. Files with other names are not read, so not what
-- the rotating writer has renamed by a time stamp.
pub list_from_file-eq-last :
    (scan_file : Text → Option (List Text)) (unmarshal : Text → Option Event) (limit : ℤ)
    (query : List Text) (start_time : Option ℕ) (event_file : Text) (max_backups : ℕ)
    → let n = positive_or default_limit limit in
      list_from_file scan_file unmarshal limit query start_time event_file max_backups
      ≡ last n (
          filter_map (accepted unmarshal query start_time) (
            all_lines scan_file (names_from event_file max_backups 0 max_backups)
            ++ path_lines scan_file event_file))
unfolding list_from_file
list_from_file-eq-last scan_file unmarshal limit query start_time event_file max_backups =
    trimmed _ ∙ ap (last n) whole ∙ last_last _ ∙ (λ i. last n (
      filter_map (accepted unmarshal query start_time) (
        all_lines scan_file (backups-eq-names event_file max_backups 0 max_backups (omega arith) i)
        ++ path_lines scan_file event_file)))
  where
    n : ℕ
    n = positive_or default_limit limit

    trimmed :
        (events : List Event)
        → (if ltb n (length events) then drop (length events - n) events else events)
          ≡ last n events
    trimmed events = ground (arith, last_short n events)

    last_last : (events : List Event) → last n (last n events) ≡ last n events
    last_last events = last_short n (last n events) (length-last n events)

    ok : Text → Option Event
    ok = accepted unmarshal query start_time

    before : List Text
    before = all_lines scan_file (backups event_file max_backups)

    whole :
        read_events_from_path scan_file unmarshal n query start_time event_file
          (read_paths scan_file unmarshal n query start_time (backups event_file max_backups) [])
        ≡ last n (filter_map ok (before ++ path_lines scan_file event_file))
    whole =
        ap (read_events_from_path scan_file unmarshal n query start_time event_file) (
          read_paths_lem scan_file unmarshal n query start_time (backups event_file max_backups) []
            (omega arith))
        ∙ read_path_lem scan_file unmarshal n query start_time event_file _
            (length-last n (filter_map ok before))
        ∙ last-append n (filter_map ok before) (filter_map ok (path_lines scan_file event_file))
        ∙ ap (last n) (sym (filter_map-append ok before (path_lines scan_file event_file)))
