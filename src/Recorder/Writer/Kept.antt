-- ===== src/Recorder/Writer/Kept.antt =====
-- recorder.go: what is recorded into the event file is what List reads from it.
use Prim.Native.Nat.{ℕ, ◌-◌, ◌<◌}
use mathlib.Core.List.{filter_map, filter_map-cons-some}
use accelerboat.Base.{
  ◌≡◌, refl, sym, ap, ◌∙◌, Option, none, some, List, [], ◌∷◌, ◌++◌, append_assoc, append-nil, arith,
  leb, length, take, drop, take-append-drop, if_ind, subst,
}
use accelerboat.Base.Int.{ℤ}
use accelerboat.Base.Slices.{last}
use accelerboat.Base.Text.{Text, codes, Lacks}
use accelerboat.Base.Text.Split.{split, split-append}
use accelerboat.Base.Sort.{All}
use accelerboat.Recorder.{Event, positive_or, default_limit}
use accelerboat.Recorder.File.{backups, list_from_file}
use accelerboat.Recorder.File.Window.{
  accepted, path_lines, all_lines, names_from, backups-eq-names, list_from_file-eq-last,
}
use accelerboat.Recorder.Writer.{
  FileWriter, writer_size, flush, write_fresh, write_past, write, FileSignal, file_event,
  flush_tick, file_closed, write_event, run_file_writer, drop_cr, scan_parts, scan_lines,
}

-- All that has been given to the writer.
abbrev total : FileWriter → Text
total w = w.written ++ w.buffer

write_fresh_lem : (written p : Text) → total (write_fresh written p) ≡ written ++ p
write_fresh_lem written p =
    if_ind (λ (w : FileWriter). total w ≡ written ++ p) (leb (length p) writer_size) _ _
      (λ fits. refl) (λ large. append-nil (written ++ p))

write_past_lem :
    (available : ℕ) (p written buffer : Text)
    → total (write_past available p written buffer) ≡ (written ++ buffer) ++ p
unfolding write_past
write_past_lem available p written [] =
    append-nil (written ++ p) ∙ ap (λ t. t ++ p) (sym (append-nil written))
write_past_lem available p written (c ∷ s) =
    write_fresh_lem (written ++ ((c ∷ s) ++ take available p)) (drop available p)
    ∙ append_assoc written ((c ∷ s) ++ take available p) (drop available p)
    ∙ ap (λ t. written ++ t)
        (append_assoc (c ∷ s) (take available p) (drop available p)
          ∙ ap (λ t. (c ∷ s) ++ t) (take-append-drop available p))
    ∙ sym (append_assoc written (c ∷ s) p)

write_lem : (p : Text) (w : FileWriter) → total (write p w) ≡ total w ++ p
unfolding write
write_lem p w =
    let available = writer_size - length w.buffer in
    if_ind (λ (v : FileWriter). total v ≡ total w ++ p) (leb (length p) available)
      (record { written = w.written; buffer = w.buffer ++ p })
      (write_past available p w.written w.buffer) (λ fits. sym (append_assoc w.written w.buffer p))
      (λ large. write_past_lem available p w.written w.buffer)

-- Each line with its end.
abbrev pub unlines : List Text → Text
unlines [] = []
unlines (l ∷ ls) = l ++ (10 ∷ unlines ls)

-- The events that are received before the channel is closed.
abbrev pub events_of : List FileSignal → List Event
events_of [] = []
events_of (file_event ev ∷ xs) = ev ∷ events_of xs
events_of (flush_tick ∷ xs) = events_of xs
events_of (file_closed ∷ xs) = []

module _ (marshal : Event → Option Text) (unmarshal : Text → Option Event) where
  -- The lines are the texts of the events: each gives its event back, is not empty and shorter than
  -- 1 MiB, and has no line end and no carriage return in it.
  abbrev pub AreCoded : List Event → List Text → Type 0
  AreCoded [] [] = Unit {0}
  AreCoded [] (l ∷ ls) = ⊥
  AreCoded (ev ∷ evs) [] = ⊥
  AreCoded (ev ∷ evs) (l ∷ ls) =
      (marshal ev ≡ some l)
      × (unmarshal l ≡ some ev)
      × Lacks 10 l
      × Lacks 13 l
      × (0 < length l)
      × (length l < 1048576)
      × AreCoded evs ls

  run-total :
      (xs : List FileSignal) (lines : List Text) (w : FileWriter)
      → AreCoded (events_of xs) lines
      → (run_file_writer marshal (xs ++ (file_closed ∷ [])) w).written ≡ total w ++ unlines lines
  unfolding run_file_writer write_event
  run-total [] [] w coded = sym (append-nil (total w))
  run-total [] (l ∷ ls) w coded = absurd coded
  run-total (file_event ev ∷ xs) [] w coded = absurd coded
  run-total (file_event ev ∷ xs) (l ∷ ls) w (e, _, _, _, _, _, rest) =
      let w' = write (codes "\n") (write l w) in
      let step : write_event marshal ev w ≡ w' = rw (e, write_event) refl in
      ap (λ v. (run_file_writer marshal (xs ++ (file_closed ∷ [])) v).written) step
      ∙ run-total xs ls w' rest
      ∙ ap (λ t. t ++ unlines ls)
          (write_lem (codes "\n") (write l w) ∙ ap (λ t. t ++ codes "\n") (write_lem l w))
      ∙ append_assoc (total w ++ l) (codes "\n") (unlines ls)
      ∙ append_assoc (total w) l (10 ∷ unlines ls)
  run-total (flush_tick ∷ xs) lines w coded =
      run-total xs lines (flush w) coded ∙ ap (λ t. t ++ unlines lines) (append-nil (total w))
  run-total (file_closed ∷ xs) [] w coded = sym (append-nil (total w))
  run-total (file_closed ∷ xs) (l ∷ ls) w coded = absurd coded

  drop_cr-Lacks : (l : Text) → Lacks 13 l → drop_cr l ≡ l
  unfolding drop_cr
  drop_cr-Lacks [] h = refl
  drop_cr-Lacks (c ∷ []) (hc, h) = ground arith
  drop_cr-Lacks (c ∷ d ∷ s) (hc, h) = ap (λ t. c ∷ t) (drop_cr-Lacks (d ∷ s) h)

  split_nil : split [] 10 ≡ [] ∷ []
  unfolding split
  split_nil = refl

  scan-unlines :
      (evs : List Event) (lines : List Text)
      → AreCoded evs lines
      → scan_lines (unlines lines) ≡ lines
  unfolding scan_lines scan_parts
  scan-unlines evs [] coded = ap scan_parts split_nil
  scan-unlines [] (l ∷ ls) coded = absurd coded
  scan-unlines (ev ∷ evs) (l ∷ []) (_, _, plain, no_cr, _, short, rest) =
      ap scan_parts (split-append l [] 10 plain ∙ ap (λ t. l ∷ t) split_nil)
      ∙ ground (arith, short, drop_cr-Lacks l no_cr)
  scan-unlines (ev ∷ []) (l ∷ m ∷ ls) (_, _, plain, no_cr, _, short, rest) = absurd rest
  scan-unlines (ev ∷ ev2 ∷ evs) (l ∷ m ∷ ls) (_, _, plain, no_cr, _, short, rest) =
      let (_, _, plain2, _, _, _, _) = rest in
      let next = split-append m (unlines ls) 10 plain2 in
      ap scan_parts (split-append l (unlines (m ∷ ls)) 10 plain ∙ ap (λ t. l ∷ t) next)
      ∙ ground (
        arith,
        short,
        drop_cr-Lacks l no_cr,
        sym (ap scan_parts next) ∙ scan-unlines (ev2 ∷ evs) (m ∷ ls) rest,
      )

  accepted-lines :
      (evs : List Event) (lines : List Text)
      → AreCoded evs lines
      → filter_map (accepted unmarshal [] none) lines ≡ evs
  unfolding filter_map
  accepted-lines [] [] coded = refl
  accepted-lines [] (l ∷ ls) coded = absurd coded
  accepted-lines (ev ∷ evs) [] coded = absurd coded
  accepted-lines (ev ∷ evs) ([] ∷ ls) (_, _, _, _, filled, _, _) = absurd (omega arith)
  accepted-lines (ev ∷ evs) ((c ∷ l) ∷ ls) (_, back, _, _, _, _, rest) =
      let ok : accepted unmarshal [] none (c ∷ l) ≡ some ev = rw (back) refl in
      filter_map-cons-some (accepted unmarshal [] none) (c ∷ l) ls ok
      ∙ ap (λ t. ev ∷ t) (accepted-lines evs ls rest)

  no_lines :
      (scan_file : Text → Option (List Text)) (paths : List Text)
      → All (λ p. scan_file p ≡ none) paths
      → all_lines scan_file paths ≡ []
  unfolding path_lines
  no_lines scan_file [] all = refl
  no_lines scan_file (p ∷ ps) (e, all) = rw (e, path_lines) (no_lines scan_file ps all)

  -- The events that the file writer receives before the channel is closed are what List, with no query
  -- and no start time, gives after it has returned, the last `limit` of them (100 where the limit is not positive) in their order, whatever
  -- flushes come between and however the buffer fills: when each event's text is one line that gives it
  -- back, the rotating writer began empty and has put all in the event file, and there are no backups.
  pub list_from_file-run :
      (xs : List FileSignal) (lines : List Text) (scan_file : Text → Option (List Text)) (limit : ℤ)
      (event_file : Text) (max_backups : ℕ)
      → AreCoded (events_of xs) lines
      → (scan_file event_file
          ≡ some (
              scan_lines
                (run_file_writer marshal
                  (xs ++ (file_closed ∷ []))
                  (record { written = []; buffer = [] })).written))
      → All (λ p. scan_file p ≡ none) (backups event_file max_backups)
      → list_from_file scan_file unmarshal limit [] none event_file max_backups
        ≡ last (positive_or default_limit limit) (events_of xs)
  unfolding path_lines
  list_from_file-run xs lines scan_file limit event_file max_backups coded kept no_backups =
      let start : FileWriter = record { written = []; buffer = [] } in
      let read : path_lines scan_file event_file ≡ lines =
        rw (kept, path_lines)
          (ap scan_lines (run-total xs lines start coded)
            ∙ scan-unlines (events_of xs) lines coded) in
      list_from_file-eq-last scan_file unmarshal limit [] none event_file max_backups
      ∙ (λ i. last (positive_or default_limit limit) (
          filter_map (accepted unmarshal [] none) (
            no_lines scan_file (names_from event_file max_backups 0 max_backups)
              (subst (All (λ p. scan_file p ≡ none))
                (backups-eq-names event_file max_backups 0 max_backups (omega arith)) no_backups)
              i
            ++ read i)))
      ∙ ap (last (positive_or default_limit limit)) (accepted-lines (events_of xs) lines coded)
