-- ===== src/Api.antt =====
-- pkg/server/customapi/sys_recorder.go: the recorded events as the API shows them. Details hold a number
-- as an integer where the code also takes a float.
pub mod Filter
pub mod Lines
pub mod Wrap
pub mod Duration
pub mod Ago
pub mod Cells
pub mod Tests
use Prim.Native.Nat.{ℕ, zero, suc, ◌+◌, ◌-◌, ◌*◌, ◌/◌, ◌%◌}
use accelerboat.Base.{
  ◌≡◌, Bool, true, false, not, ◌&&◌, ◌||◌, Option, none, some, List, [], ◌∷◌, ◌++◌, map, ltb, leb,
  ◌==◌, if◌then◌else◌, length, take, drop,
}
use Prim.Native.String.{String}
use accelerboat.Base.Int.{ℤ, pos, negsuc, ltb_ℤ}
use accelerboat.Base.Keys.{lookup}
use accelerboat.Base.Text.{Text, codes, text_eq, contains, trim_space, to_lower, to_upper}
use accelerboat.Base.Text.Split.{split, join}
use accelerboat.Base.Text.Decimal.{print_nat, parse_int}
use accelerboat.Recorder.{Event, Value, str, int, other, Details}

abbrev pub recorder_limit_default : ℤ
recorder_limit_default = pos 300

-- The query parameter; [] where there is none.
unfoldable pub recorder_limit_from_query : Text → ℤ
recorder_limit_from_query s = if text_eq s [] then recorder_limit_default else elim (parse_int s) [
  | none ↦ recorder_limit_default
  | some n ↦ if ltb_ℤ (pos 0) n then n else recorder_limit_default
]

abbrev pub capitalize : Text → Text
capitalize [] = []
capitalize (c ∷ s) = to_upper (c ∷ []) ++ to_lower s

unfoldable pub format_event_type : Text → Text
format_event_type type_str =
    if text_eq type_str [] then type_str else join (map capitalize (split type_str b'_')) []

unfoldable pub detail_str : Details → Text → Text
detail_str d key = elim (lookup key d) [
  | none ↦ []
  | some v ↦ elim v [ str s ↦ s | int n ↦ [] | other ↦ [] ]
]

-- Whole milliseconds, as seconds with three decimals.
unfoldable pub detail_duration_sec : Details → Text
detail_duration_sec d = elim (lookup (codes "duration_ms") d) [
  | none ↦ codes "-"
  | some v ↦ elim v [
    | str s ↦ codes "-"
    | other ↦ codes "-"
    | int n ↦ elim n [
      | negsuc m ↦ codes "-"
      | pos ms ↦
          let ms' = ms % 1000 in
          print_nat (ms / 1000)
          ++ (b'.' ∷ print_nat (ms' / 100) ++ (print_nat (ms' / 10 % 10) ++ print_nat (ms' % 10)))
    ]
  ]
]

-- A value that is no string panics.
unfoldable pub convert_string : Option Value → Option Text
convert_string none = some []
convert_string (some (str s)) = some s
convert_string (some (int n)) = none
convert_string (some other) = none

unfoldable pub convert_int64 : Option Value → ℤ
convert_int64 none = pos 0
convert_int64 (some (int n)) = n
convert_int64 (some (str s)) = pos 0
convert_int64 (some other) = pos 0

-- key=value, for a value that must be there.
abbrev field_text : Details → Text → Option Text
field_text d key = elim (convert_string (lookup key d)) [
  | none ↦ none
  | some v ↦ some (key ++ (b'=' ∷ v))
]

abbrev optional_text : Details → Text → Option (List Text)
optional_text d key = elim (lookup key d) [
  | none ↦ some []
  | some v ↦ elim (field_text d key) [ none ↦ none | some t ↦ some (t ∷ []) ]
]

-- The parts, if none of them panics.
abbrev all_of : List (Option Text) → Option (List Text)
all_of [] = some []
all_of (none ∷ ts) = none
all_of (some t ∷ ts) = elim (all_of ts) [ none ↦ none | some us ↦ some (t ∷ us) ]

abbrev pub joined : Option (List Text) → Option Text
joined none = none
joined (some ts) = some (join ts (codes "\n"))

-- `format_size` is FormatSize, whose numbers are floats. None where a detail of another type panics.
unfoldable pub build_extra : (ℤ → Text) → Event → Option Text
unfolding convert_string convert_int64
build_extra format_size e =
    let d = e.details in
    let is = λ (kind : String). text_eq e.kind (codes kind) in
    let size_text = codes "size=" ++ format_size (convert_int64 (lookup (codes "size") d)) in
    if is "reverse_proxy"
    then joined (all_of (field_text d (codes "method") ∷ field_text d (codes "path") ∷ []))
    else if is "service_token"
    then joined (all_of (field_text d (codes "master") ∷ field_text d (codes "scope") ∷ []))
    else if is "head_manifest" || is "get_manifest"
    then joined (all_of (field_text d (codes "master") ∷ field_text d (codes "tag") ∷ []))
    else if is "serve_blob_from_local"
    then joined (all_of (field_text d (codes "digest") ∷ some size_text ∷ []))
    else if is "get_blob_from_master"
    then joined (elim (field_text d (codes "digest")) [
      | none ↦ none
      | some digest ↦ elim (optional_text d (codes "target")) [
        | none ↦ none
        | some target ↦ elim (optional_text d (codes "file")) [
          | none ↦ none
          | some file ↦
              let size : List Text = elim (lookup (codes "size") d) [
                | none ↦ []
                | some v ↦ size_text ∷ []
              ] in
              some (digest ∷ (target ++ (file ++ size)))
        ]
      ]
    ])
    else if is "download_blob_by_tcp" || is "download_blob_by_torrent"
    then joined (
        all_of (
          field_text d (codes "digest")
          ∷ field_text d (codes "target")
          ∷ field_text d (codes "file")
          ∷ some size_text
          ∷ []))
    else some []

module _ (format_size : ℤ → Text) where
  -- None where buildExtra panics.
  unfoldable pub event_matches_filter : Event → Text → Text → Option Bool
  event_matches_filter e registry query =
      if not (text_eq registry [])
        && not (text_eq (detail_str e.details (codes "registry")) registry)
      then some false
      else if text_eq query []
      then some true
      else elim (build_extra format_size e) [
        | none ↦ none
        | some extra ↦
            some (contains extra query || contains (detail_str e.details (codes "repo")) query)
      ]

  -- The loop of filterRecorderEvents.
  unfoldable pub filter_rounds : List Event → Text → Text → Option (List Event)
  filter_rounds [] registry query = some []
  filter_rounds (e ∷ es) registry query =
      let rest = filter_rounds es registry query in
      let out = elim rest as (λ o. Option (List Event)) [
        | none ↦ none
        | some out ↦ some (e ∷ out)
      ] in
      if not (text_eq registry [])
        && not (text_eq (detail_str e.details (codes "registry")) registry)
      then rest
      else if text_eq query []
      then out
      else elim (build_extra format_size e) [
        | none ↦ none
        | some extra ↦
            if not (contains extra query)
              && not (contains (detail_str e.details (codes "repo")) query)
            then rest
            else out
      ]

  unfoldable pub filter_recorder_events : List Event → Text → Text → Option (List Event)
  unfolding filter_rounds
  filter_recorder_events events registry query =
      if text_eq registry [] && text_eq query []
      then some events
      else filter_rounds events registry query

  -- The events of the loop of recorderStream, on what its channel gives.
  unfoldable pub follow_rounds : List Event → Text → Text → Option (List Event)
  unfolding event_matches_filter
  follow_rounds [] registry query = some []
  follow_rounds (e ∷ es) registry query =
      let rest = follow_rounds es registry query in
      elim (event_matches_filter e registry query) [
        | none ↦ none
        | some matches ↦
            if matches then elim rest [ none ↦ none | some out ↦ some (e ∷ out) ] else rest
      ]

  -- The events that recorderStream writes: those of List that pass, and those that come.
  unfoldable pub recorder_stream : List Event → List Event → Text → Text → Option (List Event)
  recorder_stream events new registry query =
      let registry' = trim_space registry in
      let search' = trim_space query in
      elim (filter_recorder_events events registry' search') [
        | none ↦ none
        | some shown ↦ elim (follow_rounds new registry' search') [
          | none ↦ none
          | some more ↦ some (shown ++ more)
        ]
      ]
