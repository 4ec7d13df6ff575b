-- ===== src/Api/Cells.antt =====
-- sys_recorder.go: the cells of an event in the table and the stream.
use accelerboat.Base.{List, [], ◌∷◌, if◌then◌else◌}
use accelerboat.Base.Text.{Text, codes, text_eq}
use accelerboat.Recorder.{Event}
use accelerboat.Api.{format_event_type, detail_str, detail_duration_sec}
use accelerboat.Api.Lines.{wrap_message}

-- The cells of an event, without its time and extra cell, as the table and the stream show it.
unfoldable pub row_cells : Event → List Text
unfolding format_event_type detail_str wrap_message detail_duration_sec
row_cells e =
    let repo = detail_str e.details (codes "repo") in
    format_event_type e.kind
    ∷ e.event_status
    ∷ detail_str e.details (codes "registry")
    ∷ (if text_eq repo [] then codes "-" else wrap_message repo 50)
    ∷ detail_duration_sec e.details
    ∷ (if text_eq e.message [] then codes "-" else wrap_message e.message 120)
    ∷ []
