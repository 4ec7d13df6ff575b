-- ===== src/Recorder/Writer.antt =====
-- pkg/recorder/recorder.go: the event file (InitEventFile, runFileWriter, CloseEventFile). The rotating
-- writer and encoding/json are parameters: `written` is all that the rotating writer has been given, and
-- `marshal` the text of an event, none where it fails. The lines of a file are read by a bufio.Scanner.
pub mod Kept
pub mod Recorded
pub mod Tests
use Prim.Native.Nat.{ℕ, ◌+◌, ◌-◌}
use accelerboat.Base.{
  ◌≡◌, Bool, true, false, ◌||◌, Option, none, some, List, [], ◌∷◌, ◌++◌, leb, ltb, ◌==◌,
  if◌then◌else◌, length, take, drop,
}
use accelerboat.Base.Int.{ℤ, pos}
use accelerboat.Base.Text.{Text, codes, text_eq}
use accelerboat.Base.Text.Split.{split}
use accelerboat.Recorder.{Event, Recorder, positive_or}

abbrev pub default_event_file_max_backups : ℕ
default_event_file_max_backups = 5

-- `made` is whether the directory can be made.
unfoldable pub init_event_file : Bool → Text → ℤ → Recorder → Option Recorder
init_event_file made event_file max_backups r =
    if text_eq event_file []
    then some r
    else if made
    then some (record r {
      file_ch = some [];
      event_file_path = event_file;
      event_file_max_backups = positive_or default_event_file_max_backups max_backups;
    })
    else none

-- CloseEventFile closes the channel; what is queued is left to the file writer, which it waits for.
unfoldable pub close_event_file : Recorder → List Event × Recorder
close_event_file r = if r.file_closed then ([], r) else elim r.file_ch [
  | none ↦ ([], record r { file_closed = true })
  | some queue ↦ (queue, record r { file_closed = true; file_ch = none })
]

-- The bufio.Writer of 64 KiB.
pub record FileWriter : Type 0 where
  pub written : Text
  pub buffer : Text

abbrev pub writer_size : ℕ
writer_size = 65536

abbrev pub flush : FileWriter → FileWriter
flush w = record { written = w.written ++ w.buffer; buffer = [] }

-- Into an empty buffer, or past it.
abbrev pub write_fresh : Text → Text → FileWriter
write_fresh written p =
    if leb (length p) writer_size
    then record { written = written; buffer = p }
    else record { written = written ++ p; buffer = [] }

-- A text that does not fit: it goes past a buffer that is empty; else the buffer is filled and flushed
-- before the rest goes on.
unfoldable pub write_past : ℕ → Text → Text → Text → FileWriter
write_past available p written [] = record { written = written ++ p; buffer = [] }
write_past available p written (c ∷ s) =
    write_fresh (written ++ ((c ∷ s) ++ take available p)) (drop available p)

-- Write of the bufio.Writer.
unfoldable pub write : Text → FileWriter → FileWriter
unfolding write_past
write p w =
    let available = writer_size - length w.buffer in
    if leb (length p) available
    then record { written = w.written; buffer = w.buffer ++ p }
    else write_past available p w.written w.buffer

-- What the select of runFileWriter takes.
pub data FileSignal : Type 0 where
  file_event : Event → FileSignal
  flush_tick file_closed : FileSignal

module _ (marshal : Event → Option Text) where
  unfoldable pub write_event : Event → FileWriter → FileWriter
  unfolding write
  write_event ev w = elim (marshal ev) [ none ↦ w | some raw ↦ write (codes "\n") (write raw w) ]

  unfoldable pub run_file_writer : List FileSignal → FileWriter → FileWriter
  unfolding write_event
  run_file_writer [] w = w
  run_file_writer (file_event ev ∷ xs) w = run_file_writer xs (write_event ev w)
  run_file_writer (flush_tick ∷ xs) w = run_file_writer xs (flush w)
  run_file_writer (file_closed ∷ xs) w = flush w

-- ScanLines takes a carriage return off the end of a line.
unfoldable pub drop_cr : Text → Text
drop_cr [] = []
drop_cr (c ∷ []) = if c == 13 then [] else c ∷ []
drop_cr (c ∷ d ∷ s) = c ∷ drop_cr (d ∷ s)

-- The scanner stops at a line of 1 MiB; after the last line end it gives no empty line.
unfoldable pub scan_parts : List Text → List Text
unfolding drop_cr
scan_parts [] = []
scan_parts (l ∷ []) = if length l == 0 || leb 1048576 (length l) then [] else drop_cr l ∷ []
scan_parts (l ∷ m ∷ ls) =
    let rest = scan_parts (m ∷ ls) in if leb 1048576 (length l) then [] else drop_cr l ∷ rest

unfoldable pub scan_lines : Text → List Text
unfolding scan_parts
scan_lines t = scan_parts (split t 10)
