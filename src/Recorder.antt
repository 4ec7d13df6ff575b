-- ===== src/Recorder.antt =====
-- pkg/recorder/recorder.go: events, the bounded ring buffer, the channels of the followers.
-- Times are nanoseconds since the zero time. A channel is its buffer, and whether it is open.
pub mod Ring
pub mod Listing
pub mod Follow
pub mod File
pub mod Writer
pub mod Tests
use Prim.Native.Nat.{ℕ, zero, suc, ◌+◌, ◌-◌, ◌%◌, min}
use accelerboat.Base.{
  ◌≡◌, Bool, true, false, ◌&&◌, not, Option, none, some, List, [], ◌∷◌, ◌++◌, ltb, ◌==◌,
  if◌then◌else◌, length, set, get_or, replicate,
}
use accelerboat.Base.Int.{ℤ, pos, negsuc}
use accelerboat.Base.Text.{Text, codes, text_eq}

abbrev pub default_buffer_size : ℕ
default_buffer_size = 1000

abbrev pub event_file_chan_cap : ℕ
event_file_chan_cap = 10000

abbrev pub follower_cap : ℕ
follower_cap = 256

abbrev pub default_limit : ℕ
default_limit = 100

-- A value of the map Details, as far as the program tells them apart.
pub data Value : Type 0 where
  str : Text → Value
  int : ℤ → Value
  other : Value

abbrev pub Details : Type 0
Details = List (Text × Value)

pub record Event : Type 0 where
  pub kind : Text
  pub timestamp : ℕ
  pub request_id : Text
  pub event_status : Text
  pub details : Details
  pub message : Text

-- The zero value of an Event, as make([]Event, size) holds it.
abbrev pub zero_event : Event
zero_event = record {
  kind = [];
  timestamp = 0;
  request_id = [];
  event_status = [];
  details = [];
  message = [];
}

pub record Chan : Type 0 where
  pub id : ℕ
  pub queue : List Event
  pub is_open : Bool

pub record Recorder : Type 0 where
  pub events : List Event
  pub size : ℕ
  pub next : ℕ
  pub count : ℕ
  pub file_ch : Option (List Event)
  pub file_closed : Bool
  pub subs : List ℕ
  pub chans : List Chan
  pub next_chan : ℕ
  pub event_file_path : Text
  pub event_file_max_backups : ℕ

abbrev positive_or : ℕ → ℤ → ℕ
positive_or d (pos zero) = d
positive_or d (pos (suc n)) = suc n
positive_or d (negsuc n) = d

unfoldable pub new : ℤ → Recorder
new n =
    let size = positive_or default_buffer_size n in
    record {
      events = replicate size zero_event;
      size = size;
      next = 0;
      count = 0;
      file_ch = none;
      file_closed = false;
      subs = [];
      chans = [];
      next_chan = 0;
      event_file_path = [];
      event_file_max_backups = 0;
    }

-- ev.Timestamp and ev.RequestID, from the clock and the request's context.
unfoldable pub stamp : ℕ → Text → Event → Event
stamp now request_id ev = record ev {
  timestamp = (if ev.timestamp == 0 then now else ev.timestamp);
  request_id = request_id;
}

-- The critical section over mu.
unfoldable pub push : Recorder → Event → Recorder
push r ev = record r {
  events = set r.events r.next ev;
  next = (r.next + 1) % r.size;
  count = (if ltb r.count r.size then r.count + 1 else r.count);
}

-- select { case ch <- ev: default: } on a buffered channel with no waiting reader.
unfoldable pub offer_queue : ℕ → List Event → Event → List Event
offer_queue cap queue ev = if ltb (length queue) cap then queue ++ (ev ∷ []) else queue

unfoldable pub enqueue_file : Recorder → Event → Recorder
unfolding offer_queue
enqueue_file r ev = elim r.file_ch [
  | none ↦ r
  | some queue ↦
      if not r.file_closed
      then record r { file_ch = some (offer_queue event_file_chan_cap queue ev) }
      else r
]

-- A send to a closed channel panics, with a default case too: `none`.
unfoldable pub offer : ℕ → Event → List Chan → Option (List Chan)
unfolding offer_queue
offer id ev [] = some []
offer id ev (c ∷ cs) =
    let rest = offer id ev cs in
    if c.id == id
    then (if c.is_open
        then some (record c { queue = offer_queue follower_cap c.queue ev } ∷ cs)
        else none)
    else elim rest [ none ↦ none | some cs' ↦ some (c ∷ cs') ]

-- The loop over the copy of subs.
unfoldable pub notify : List ℕ → Event → List Chan → Option (List Chan)
unfolding offer
notify [] ev cs = some cs
notify (id ∷ ids) ev cs = elim (offer id ev cs) [ none ↦ none | some cs' ↦ notify ids ev cs' ]

-- Record, when no other call runs between its critical sections.
unfoldable pub record_event : ℕ → Text → Event → Recorder → Option Recorder
unfolding stamp push enqueue_file notify
record_event now request_id ev r =
    let e = stamp now request_id ev in
    let r' = enqueue_file (push r e) e in
    elim (notify r'.subs e r'.chans) [ none ↦ none | some cs ↦ some (record r' { chans = cs }) ]

unfoldable pub subscribe : Recorder → ℕ × Recorder
subscribe r =
    let c = r.next_chan in
    (
      c,
      record r {
        subs = r.subs ++ (c ∷ []);
        chans = record { id = c; queue = []; is_open = true } ∷ r.chans;
        next_chan = c + 1;
      },
    )

unfoldable pub close_chan : ℕ → List Chan → List Chan
close_chan id [] = []
close_chan id (c ∷ cs) =
    if c.id == id then record c { is_open = false } ∷ cs else c ∷ close_chan id cs

unfoldable pub remove_sub : ℕ → List ℕ → Option (List ℕ)
remove_sub id [] = none
remove_sub id (s ∷ ss) =
    let rest = remove_sub id ss in
    if s == id then some ss else elim rest [ none ↦ none | some ss' ↦ some (s ∷ ss') ]

-- The function that Subscribe returns.
unfoldable pub unsubscribe : ℕ → Recorder → Recorder
unfolding remove_sub close_chan
unsubscribe id r = elim (remove_sub id r.subs) [
  | none ↦ r
  | some ss ↦ record r { subs = ss; chans = close_chan id r.chans }
]

-- for i := 0; i < n; i++ { out[i] = r.events[(start + i) % r.size] }, from round i on
unfoldable pub copy_out : Recorder → ℕ → ℕ → ℕ → List Event
copy_out r start i zero = []
copy_out r start i (suc n) =
    get_or r.events ((start + i) % r.size) zero_event ∷ copy_out r start (i + 1) n

-- List without an event file.
unfoldable pub list_buffer : ℤ → Recorder → List Event
unfolding copy_out
list_buffer limit r =
    let n = min r.count (positive_or default_limit limit) in
    let start = if r.count == r.size then (r.next + r.size - r.count) % r.size else 0 in
    copy_out r start 0 n
