-- ===== src/Api/Tests.antt =====
-- sys_recorder.go: events of two registries, a message of two lines, and a time.
use Prim.Native.Nat.{◌≤◌}
use accelerboat.Base.{◌≡◌, refl, none, some, List, [], ◌∷◌, ◌++◌, arith, length}
use accelerboat.Base.Int.{ℤ, pos}
use accelerboat.Base.Sort.{All}
use accelerboat.Base.Keys.{lookup}
use accelerboat.Base.Text.{Text, codes, text_eq, trim_space, to_lower, to_upper}
use accelerboat.Base.Text.Split.{join, split}
use accelerboat.Base.Text.Decimal.{print_nat, parse_int}
use accelerboat.Recorder.{Event, str, int, zero_event}
use accelerboat.Api.{
  recorder_limit_from_query, format_event_type, detail_duration_sec, build_extra,
  filter_recorder_events, recorder_stream,
}
use accelerboat.Api.Lines.{wrap_message}
use accelerboat.Api.Duration.{format_relative_time}
use accelerboat.Api.Filter.{recorder_stream_lem}
use accelerboat.Api.Wrap.{unbroken, unbroken_lines, wrap_message_lem}

limits : recorder_limit_from_query (codes "-3") ≡ pos 300
unfolding recorder_limit_from_query text_eq parse_int
limits = refl

pascal : format_event_type (codes "serve_blob__from_local") ≡ codes "ServeBlobFromLocal"
unfolding format_event_type text_eq split join to_upper to_lower
pascal = refl

abbrev size_text : ℤ → Text
size_text n = codes "1B"

abbrev served : Event
served = record zero_event {
  kind = codes "serve_blob_from_local";
  details =
      (codes "registry", str (codes "docker.io"))
      ∷ (codes "repo", str (codes "nginx"))
      ∷ (codes "digest", str (codes "ab"))
      ∷ (codes "duration_ms", int (pos 1042))
      ∷ [];
}

abbrev elsewhere : Event
elsewhere = record served { details = (codes "registry", str (codes "quay.io")) ∷ [] }

took : detail_duration_sec served.details ≡ codes "1.042"
unfolding detail_duration_sec lookup text_eq print_nat
took = refl

extra : build_extra size_text served ≡ some (codes "digest=ab\nsize=1B")
unfolding build_extra lookup text_eq join
extra = refl

-- A method that is no string panics.
crashes :
    build_extra size_text (record zero_event {
      kind = codes "reverse_proxy";
      details = (codes "method", int (pos 1)) ∷ [];
    })
    ≡ none
unfolding build_extra lookup text_eq
crashes = refl

recorder_stream_lem_example :
    recorder_stream size_text
      (served ∷ elsewhere ∷ [])
      (elsewhere ∷ served ∷ [])
      (codes " docker.io")
      (codes "digest=ab")
    ≡ filter_recorder_events size_text
        ((served ∷ elsewhere ∷ []) ++ (elsewhere ∷ served ∷ []))
        (trim_space (codes " docker.io"))
        (trim_space (codes "digest=ab"))
recorder_stream_lem_example =
    recorder_stream_lem size_text (served ∷ elsewhere ∷ []) (elsewhere ∷ served ∷ [])
      (codes " docker.io") (codes "digest=ab")

ago : format_relative_time (pos 7380000000000) ≡ codes "2h3m"
unfolding format_relative_time print_nat
ago = refl

wraps : wrap_message (codes "get blob failed") 9 ≡ codes "get blob \nfailed"
unfolding wrap_message join
wraps = refl

wrap_message_lem_example :
    (lines : List Text) × (wrap_message (codes "get blob failed") 9 ≡ join lines (codes "\n"))
    × All (λ l. length l ≤ 9) lines
    × (unbroken_lines lines ≡ unbroken (codes "get blob failed"))
wrap_message_lem_example = wrap_message_lem (codes "get blob failed") 9 (omega arith)
