-- ===== src/Recorder/Writer/Recorded.antt =====
-- recorder.go: calls of Record, the event file and List, one behind the other.
use Prim.Native.Nat.{ℕ, ◌+◌, ◌≤◌, ◌<◌}
use accelerboat.Base.{
  ◌≡◌, sym, ap, ◌∙◌, inl, inr, false, Option, none, some, List, [], ◌∷◌, ◌++◌, append_assoc,
  append-nil, arith, length, length-append, map, Option-cases, subst, some_inj,
}
use accelerboat.Base.Int.{ℤ}
use accelerboat.Base.Slices.{last}
use accelerboat.Base.Sort.{All}
use accelerboat.Base.Text.{Text}
use accelerboat.Recorder.{
  Event, Recorder, positive_or, default_limit, event_file_chan_cap, stamp, push, offer_queue,
  enqueue_file, record_event,
}
use accelerboat.Recorder.Ring.{Call, stamped, record_all}
use accelerboat.Recorder.File.{is_empty, backups, list}
use accelerboat.Recorder.Writer.{
  FileSignal, file_closed, close_event_file, run_file_writer, scan_lines,
}
use accelerboat.Recorder.Writer.Kept.{AreCoded, events_of, list_from_file-run}

-- The event file is open, with these events in its channel.
pub record IsQueued (path : Text) (max_backups : ℕ) (queue : List Event) (r : Recorder)
    : Type 0 where
  pub queued : r.file_ch ≡ some queue
  pub open_still : r.file_closed ≡ false
  pub same_path : r.event_file_path ≡ path
  pub same_backups : r.event_file_max_backups ≡ max_backups

module _ (path : Text) (max_backups : ℕ) where
  enqueue-IsQueued :
      (queue : List Event) (r : Recorder) (ev : Event)
      → length queue < event_file_chan_cap
      → IsQueued path max_backups queue r
      → IsQueued path max_backups (queue ++ (ev ∷ [])) (enqueue_file r ev)
  unfolding enqueue_file offer_queue
  enqueue-IsQueued queue r ev room h = record {
    queued = ground (arith, h.queued, h.open_still, room);
    open_still = ground (arith, h.queued, h.open_still);
    same_path = ground (arith, h.queued, h.open_still, h.same_path);
    same_backups = ground (arith, h.queued, h.open_still, h.same_backups);
  }

  push-IsQueued :
      (queue : List Event) (r : Recorder) (ev : Event)
      → IsQueued path max_backups queue r
      → IsQueued path max_backups queue (push r ev)
  unfolding push
  push-IsQueued queue r ev h = record {
    queued = h.queued;
    open_still = h.open_still;
    same_path = h.same_path;
    same_backups = h.same_backups;
  }

  record_event-same :
      (now : ℕ) (request_id : Text) (ev : Event) (r r' : Recorder)
      → record_event now request_id ev r ≡ some r'
      → let e = stamp now request_id ev in
        let p = enqueue_file (push r e) e in
        (r'.file_ch ≡ p.file_ch)
        × (r'.file_closed ≡ p.file_closed)
        × (r'.event_file_path ≡ p.event_file_path)
        × (r'.event_file_max_backups ≡ p.event_file_max_backups)
  unfolding record_event
  record_event-same now request_id ev r r' h = ground arith

  record_event-IsQueued :
      (now : ℕ) (request_id : Text) (ev : Event) (queue : List Event) (r r' : Recorder)
      → length queue < event_file_chan_cap
      → record_event now request_id ev r ≡ some r'
      → IsQueued path max_backups queue r
      → IsQueued path max_backups (queue ++ (stamp now request_id ev ∷ [])) r'
  record_event-IsQueued now request_id ev queue r r' room e h =
      let (ch, closed, same, number) = record_event-same now request_id ev r r' e in
      let p =
        enqueue-IsQueued queue (push r (stamp now request_id ev)) (stamp now request_id ev) room
          (push-IsQueued queue r (stamp now request_id ev) h) in
      record {
        queued = ch ∙ p.queued;
        open_still = closed ∙ p.open_still;
        same_path = same ∙ p.same_path;
        same_backups = number ∙ p.same_backups;
      }

  record_all-IsQueued :
      (calls : List Call) (queue : List Event) (r r' : Recorder)
      → length queue + length calls ≤ event_file_chan_cap
      → record_all calls r ≡ some r'
      → IsQueued path max_backups queue r
      → IsQueued path max_backups (queue ++ map stamped calls) r'
  unfolding record_all
  record_all-IsQueued [] queue r r' room e h =
      subst (λ q. IsQueued path max_backups q r') (sym (append-nil queue))
        (subst (IsQueued path max_backups queue) (some_inj e) h)
  record_all-IsQueued ((now, request_id, ev) ∷ calls) queue r r' room e h =
      elim (Option-cases (record_event now request_id ev r)) [
        | inl none' ↦ absurd (cc (rw (none', record_all) at e))
        | inr (r1, some') ↦
            let one = stamp now request_id ev in
            let step = record_event-IsQueued now request_id ev queue r r1 (omega arith) some' h in
            subst (λ q. IsQueued path max_backups q r')
              (append_assoc queue (one ∷ []) (map stamped calls))
              (record_all-IsQueued calls (queue ++ (one ∷ [])) r1 r'
                (omega (arith, length-append queue (one ∷ []))) (rw (some', record_all) at e) step)
      ]

  close-IsQueued :
      (queue : List Event) (r : Recorder)
      → IsQueued path max_backups queue r
      → ((close_event_file r).0 ≡ queue)
        × ((close_event_file r).1.event_file_path ≡ path)
        × ((close_event_file r).1.event_file_max_backups ≡ max_backups)
  unfolding close_event_file
  close-IsQueued queue r h = (
    ground (arith, h.queued, h.open_still),
    ground (arith, h.queued, h.open_still, h.same_path),
    ground (arith, h.queued, h.open_still, h.same_backups),
  )

  -- With an event file that is open and has nothing in its channel, at most 10000 calls of Record, the
  -- close of the file, and the file writer that receives what was queued, flushing at any times: then
  -- List, with no query and no start time, gives the stamped events of the calls, the last `limit` of
  -- them (100 where the limit is not positive) in their order. The text of each event is one line that
  -- gives it back; the rotating writer began empty and has put all in the event file; there are no
  -- backups; and no call panics.
  pub list-record_all :
      (marshal : Event → Option Text) (unmarshal : Text → Option Event)
      (scan_file : Text → Option (List Text)) (calls : List Call) (r r' : Recorder)
      (xs : List FileSignal) (lines : List Text) (limit : ℤ)
      → is_empty path ≡ false
      → IsQueued path max_backups [] r
      → length calls ≤ event_file_chan_cap
      → record_all calls r ≡ some r'
      → events_of xs ≡ (close_event_file r').0
      → AreCoded marshal unmarshal (map stamped calls) lines
      → (scan_file path
          ≡ some (
              scan_lines
                (run_file_writer marshal
                  (xs ++ (file_closed ∷ []))
                  (record { written = []; buffer = [] })).written))
      → All (λ p. scan_file p ≡ none) (backups path max_backups)
      → list scan_file unmarshal limit [] none (close_event_file r').1
        ≡ last (positive_or default_limit limit) (map stamped calls)
  unfolding list
  list-record_all marshal unmarshal scan_file calls r r' xs lines limit named h room e received
        coded kept none_kept =
      let (queue, same_path, same_backups) =
        close-IsQueued (map stamped calls) r'
          (record_all-IsQueued calls [] r r' (omega (arith, room)) e h) in
      let all : events_of xs ≡ map stamped calls = received ∙ queue in
      rw (same_path, same_backups, named, list)
        (list_from_file-run marshal unmarshal xs lines scan_file limit path max_backups
            (subst (λ es. AreCoded marshal unmarshal es lines) (sym all) coded) kept none_kept
          ∙ ap (last (positive_or default_limit limit)) all)
