-- ===== src/Recorder/Writer/Tests.antt =====
-- recorder.go: two calls of Record with an event file, with a flush between them.
use accelerboat.Base.{
  ◌≡◌, refl, sym, subst, map, Option, none, some, List, [], ◌∷◌, ◌++◌, arith, if◌then◌else◌,
}
use accelerboat.Base.Int.{pos}
use accelerboat.Base.Slices.{last}
use accelerboat.Base.Sort.{All}
use accelerboat.Base.Text.{Text, codes, text_eq}
use accelerboat.Base.Text.Decimal.{print_nat}
use accelerboat.Recorder.{
  Event, Recorder, zero_event, new, positive_or, default_limit, record_event, push, stamp,
  enqueue_file, offer_queue, notify,
}
use accelerboat.Recorder.Ring.{Call, stamped, record_all}
use accelerboat.Recorder.File.{backups, list}
use accelerboat.Recorder.Writer.{
  FileSignal, file_event, flush_tick, file_closed, run_file_writer, scan_lines, close_event_file,
}
use accelerboat.Recorder.Writer.Kept.{AreCoded, events_of}
use accelerboat.Recorder.Writer.Recorded.{IsQueued, list-record_all}

abbrev event_of : Text → Event
event_of name = record zero_event { kind = name }

abbrev marshal : Event → Option Text
marshal ev = some ev.kind

abbrev one : Event
one = record (event_of (codes "a")) { timestamp = 1; request_id = codes "r1" }

abbrev two : Event
two = record (event_of (codes "b")) { timestamp = 2; request_id = codes "r2" }

abbrev signals : List FileSignal
signals = file_event one ∷ flush_tick ∷ file_event two ∷ []

abbrev file : Text
file =
    (run_file_writer marshal (signals ++ (file_closed ∷ []))
      (record { written = []; buffer = [] })).written

writes : file ≡ codes "a\nb\n"
unfolding run_file_writer
writes = refl

abbrev scan : Text → Option (List Text)
scan path = if text_eq path (codes "f") then some (scan_lines file) else none

opens : scan (codes "f") ≡ some (scan_lines file)
unfolding text_eq
opens = refl

no_backup : All (λ p. scan p ≡ none) (backups (codes "f") 1)
unfolding backups text_eq print_nat
no_backup = (refl, tt)

abbrev calls : List Call
calls = (1, codes "r1", event_of (codes "a")) ∷ (2, codes "r2", event_of (codes "b")) ∷ []

abbrev unmarshal : Text → Option Event
unmarshal line = if text_eq line (codes "a") then some one else some two

stamps : map stamped calls ≡ one ∷ two ∷ []
unfolding stamp
stamps = refl

back_one : unmarshal (codes "a") ≡ some one
unfolding text_eq
back_one = refl

back_two : unmarshal (codes "b") ≡ some two
unfolding text_eq
back_two = refl

are_coded : AreCoded marshal unmarshal (map stamped calls) (codes "a" ∷ codes "b" ∷ [])
are_coded =
    subst (λ es. AreCoded marshal unmarshal es (codes "a" ∷ codes "b" ∷ [])) (sym stamps)
      (
        refl,
        back_one,
        (omega arith, tt),
        (omega arith, tt),
        omega arith,
        omega arith,
        (refl, back_two, (omega arith, tt), (omega arith, tt), omega arith, omega arith, tt),
      )

abbrev start : Recorder
start = record (new (pos 2)) {
  file_ch = some [];
  event_file_path = codes "f";
  event_file_max_backups = 1;
}

abbrev after : Recorder
after = record (push (push start one) two) { file_ch = some (one ∷ two ∷ []) }

runs : record_all calls start ≡ some after
unfolding record_all record_event push stamp enqueue_file offer_queue notify new
runs = refl

is_queued : IsQueued (codes "f") 1 [] start
unfolding new
is_queued = record { queued = refl; open_still = refl; same_path = refl; same_backups = refl }

received : events_of signals ≡ (close_event_file after).0
unfolding close_event_file push new
received = refl

list-record_all_example :
    list scan unmarshal (pos 1) [] none (close_event_file after).1
    ≡ last (positive_or default_limit (pos 1)) (map stamped calls)
list-record_all_example =
    list-record_all (codes "f") 1 marshal unmarshal scan calls start after signals
      (codes "a" ∷ codes "b" ∷ []) (pos 1) refl is_queued (omega arith) runs received are_coded
      opens no_backup

-- A second close does nothing.
closes_once :
    close_event_file (close_event_file (record (new (pos 2)) { file_ch = some [] })).1
    ≡ ([], (close_event_file (record (new (pos 2)) { file_ch = some [] })).1)
unfolding close_event_file new
closes_once = refl
