-- ===== src/Recorder/Tests.antt =====
-- pkg/recorder/recorder.go: a small recorder, its runs, and the theorems at it.
use Prim.Native.Nat.{ℕ}
use accelerboat.Base.{◌≡◌, refl, true, Option, none, some, List, [], ◌∷◌, ◌++◌, map, if◌then◌else◌}
use mathlib.Core.List.{filter_map}
use accelerboat.Base.Int.{pos}
use accelerboat.Base.Slices.{last}
use accelerboat.Base.Text.{Text, codes}
use accelerboat.Recorder.{Event, Recorder, zero_event, new, record_event, subscribe, stamp, push}
use accelerboat.Recorder.Ring.{
  IsRing, contents, Call, stamped, record_all, new-IsRing, contents-record_all,
}
use accelerboat.Recorder.Follow.{has, find_chan, deliver, IsFollowed, record_event-delivers}
use accelerboat.Recorder.Follow.Subs.{subscribe-IsFollowed}
use accelerboat.Recorder.Follow.Race.{running, panicked, Reach, Reach-panicked}
use accelerboat.Recorder.File.{list_from_file}
use accelerboat.Recorder.File.Window.{
  accepted, names_from, all_lines, path_lines, list_from_file-eq-last,
}

abbrev event_of : Text → Event
event_of name = record zero_event { kind = name }

abbrev calls : List Call
calls =
    (1, codes "r1", event_of (codes "a"))
    ∷ (2, codes "r2", event_of (codes "b"))
    ∷ (3, codes "r3", event_of (codes "c"))
    ∷ []

abbrev full : Recorder
full =
    push
      (push (push (new (pos 2)) (stamped (1, codes "r1", event_of (codes "a"))))
        (stamped (2, codes "r2", event_of (codes "b"))))
      (stamped (3, codes "r3", event_of (codes "c")))

runs : record_all calls (new (pos 2)) ≡ some full
unfolding record_all record_event new
runs = refl

contents-record_all_example :
    IsRing full
    × (contents full ≡ last (new (pos 2)).size (contents (new (pos 2)) ++ map stamped calls))
contents-record_all_example = contents-record_all calls (new (pos 2)) full (new-IsRing (pos 2)) runs

new-IsFollowed : IsFollowed (new (pos 2))
unfolding new
new-IsFollowed = record { live = tt; distinct = tt; below = tt }

abbrev followed : Recorder
followed = (subscribe (new (pos 2))).1

followed-IsFollowed : IsFollowed followed
followed-IsFollowed = (subscribe-IsFollowed (new (pos 2)) new-IsFollowed).0

follows : has 0 followed.subs ≡ true
unfolding subscribe new
follows = refl

record_event-delivers_example :
    (r' : Recorder) × (record_event 7 (codes "r") (event_of (codes "a")) followed ≡ some r')
    × IsFollowed r'
    × (r'.subs ≡ followed.subs)
    × ((j : ℕ)
        → find_chan j r'.chans ≡ (
            if has j followed.subs
            then deliver (stamp 7 (codes "r") (event_of (codes "a"))) (find_chan j followed.chans)
            else find_chan j followed.chans))
record_event-delivers_example =
    record_event-delivers 7 (codes "r") (event_of (codes "a")) followed followed-IsFollowed

Reach-panicked_example : Reach (running followed none) panicked
Reach-panicked_example =
    Reach-panicked 0 followed (event_of (codes "a")) followed-IsFollowed follows

abbrev scan : Text → Option (List Text)
scan path = some (codes "a" ∷ [] ∷ codes "b" ∷ path ∷ [])

abbrev parse : Text → Option Event
parse line = some (event_of line)

list_from_file-eq-last_example :
    list_from_file scan parse (pos 2) [] none (codes "f") 1
    ≡ last 2 (
        filter_map
          (accepted parse [] none)
          (all_lines scan (names_from (codes "f") 1 0 1) ++ path_lines scan (codes "f")))
list_from_file-eq-last_example = list_from_file-eq-last scan parse (pos 2) [] none (codes "f") 1
