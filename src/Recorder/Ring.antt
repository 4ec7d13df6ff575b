-- ===== src/Recorder/Ring.antt =====
-- pkg/recorder/recorder.go: the ring buffer of Record holds the latest events, oldest first.
use Prim.Native.Nat.{ℕ, zero, suc, ◌+◌, ◌%◌, ◌≤◌, ◌<◌}
use accelerboat.Base.{
  ◌≡◌, refl, sym, some_inj, ap, map, none, Option, Option-cases, subst, ◌∙◌, ◌⊎◌, inl, inr, some,
  List, [], ◌∷◌, ◌++◌, arith, ◌==◌, if◌then◌else◌, length, set, take, drop, length-set,
  length-append, length-take, length-drop, length-replicate, get_or, append-nil, append_assoc,
  Bool-cases,
}
use accelerboat.Base.Int.{ℤ, pos, negsuc}
use accelerboat.Base.Slices.{
  last, last-append, last_short, take-set, drop-set, drop-cons, take_all, drop_all,
}
use native.Mathlib.Numerals.{add-one}
use accelerboat.Base.Text.{Text}
use accelerboat.Recorder.{Event, Recorder, zero_event, new, push, stamp, record_event}

pub record IsRing (r : Recorder) : Type 0 where
  pub size_pos : 0 < r.size
  pub sized : length r.events ≡ r.size
  pub next_lt : r.next < r.size
  pub count_le : r.count ≤ r.size
  pub unwrapped : r.count < r.size → r.next ≡ r.count

-- What the buffer holds, oldest first.
abbrev pub contents : Recorder → List Event
contents r =
    if r.count == r.size
    then drop r.next r.events ++ take r.next r.events
    else take r.count r.events

empty-IsRing :
    (r : Recorder) → 0 < r.size → length r.events ≡ r.size → r.next ≡ 0 → r.count ≡ 0 → IsRing r
empty-IsRing r p s n c = record {
  size_pos = p;
  sized = s;
  next_lt = omega arith;
  count_le = omega arith;
  unwrapped = λ _. omega arith;
}

pub new-IsRing : (n : ℤ) → IsRing (new n)
unfolding new
new-IsRing (pos zero) =
    empty-IsRing (new (pos zero)) (omega arith) (length-replicate 1000 zero_event) refl refl
new-IsRing (pos (suc n)) =
    empty-IsRing (new (pos (suc n))) (omega arith) (length-replicate (suc n) zero_event) refl refl
new-IsRing (negsuc n) =
    empty-IsRing (new (negsuc n)) (omega arith) (length-replicate 1000 zero_event) refl refl

next_cases :
    (n s : ℕ) → n < s → ((n + 1 < s) × ((n + 1) % s ≡ n + 1)) ⊎ ((n + 1 ≡ s) × ((n + 1) % s ≡ 0))
next_cases n s h = grind arith

pub push-IsRing : (r : Recorder) (ev : Event) → IsRing r → IsRing (push r ev)
unfolding push
push-IsRing r ev h = record {
  size_pos = h.size_pos;
  sized = length-set r.events r.next ev ∙ h.sized;
  next_lt = ground (arith, next_cases r.next r.size h.next_lt);
  count_le = ground arith;
  unwrapped = λ lt. ground (arith, next_cases r.next r.size h.next_lt, h.unwrapped);
}

module _ (r : Recorder) (ev : Event) (h : IsRing r) where
  -- The buffer is not full yet.
  filling :
      r.count < r.size
      → take (r.count + 1) (set r.events r.next ev) ≡ take r.count r.events ++ (ev ∷ [])
  filling lt =
      ap (λ k. take k (set r.events r.next ev))
        (let e : r.count + 1 ≡ suc r.next = omega (arith, h.unwrapped lt) in e)
      ∙ take-set r.next r.events ev (omega (arith, h.next_lt, h.sized))
      ∙ ap (λ k. take k r.events ++ (ev ∷ [])) (h.unwrapped lt)

  -- The buffer is full: the write takes the place of the oldest event.
  turning :
      r.count ≡ r.size
      → drop (r.next + 1) (set r.events r.next ev) ++ take (r.next + 1) (set r.events r.next ev)
        ≡ drop 1 (drop r.next r.events ++ take r.next r.events ++ (ev ∷ []))
  turning full =
      rw (head, writing, behind)
        (sym (append_assoc (drop (r.next + 1) r.events) (take r.next r.events) (ev ∷ [])))
    where
      bound : r.next < length r.events
      bound = omega (arith, h.next_lt, h.sized)

      head : drop r.next r.events ≡ get_or r.events r.next zero_event ∷ drop (r.next + 1) r.events
      head = drop-cons r.next r.events zero_event bound

      writing : take (r.next + 1) (set r.events r.next ev) ≡ take r.next r.events ++ (ev ∷ [])
      writing = rw add-one (take-set r.next r.events ev bound)

      behind : drop (r.next + 1) (set r.events r.next ev) ≡ drop (r.next + 1) r.events
      behind = rw add-one (drop-set r.next r.events ev)

pub length-contents : (r : Recorder) → IsRing r → length (contents r) ≡ r.count
length-contents r h = elim (Bool-cases (r.count == r.size)) [
  | inl full ↦ rw full (
      ground (
        arith,
        length-append (drop r.next r.events) (take r.next r.events),
        length-drop r.next r.events,
        length-take r.next r.events,
        h.sized,
        h.next_lt,
      ))
  | inr part ↦ rw part (omega (arith, length-take r.count r.events, h.sized, h.count_le))
]

-- A push keeps the last `size` events of what was held and the new one.
pub contents-push :
    (r : Recorder) (ev : Event)
    → IsRing r
    → contents (push r ev) ≡ last r.size (contents r ++ (ev ∷ []))
unfolding push
contents-push r ev h = elim (next_cases r.count (r.size + 1) (omega (arith, h.count_le))) [
  | inl (part, _) ↦ ground (
    arith,
    filling r ev h,
    h.unwrapped,
    wrapped,
    length-contents r h,
    length-append (contents r) (ev ∷ []),
    last_short r.size (contents r ++ (ev ∷ [])),
    next_cases r.next r.size h.next_lt,
    take_all (r.count + 1) (set r.events r.next ev),
  )
  | inr (full, _) ↦ ground (
    arith,
    turning r ev h,
    wrapped,
    length-contents r h,
    length-append (contents r) (ev ∷ []),
    next_cases r.next r.size h.next_lt,
    take_all (r.next + 1) (set r.events r.next ev),
    drop_all (r.next + 1) (set r.events r.next ev),
  )
]
  where
    wrapped :
        (length (set r.events r.next ev) ≡ r.size)
        × (drop 0 (set r.events r.next ev) ++ take 0 (set r.events r.next ev)
            ≡ set r.events r.next ev)
    wrapped = (length-set r.events r.next ev ∙ h.sized, append-nil (set r.events r.next ev))

-- Record keeps the ring well formed, and its other parts leave the buffer alone.
record_event-ring :
    (now : ℕ) (request_id : Text) (ev : Event) (r : Recorder) {r' : Recorder}
    → record_event now request_id ev r ≡ some r'
    → let p = push r (stamp now request_id ev) in
      (r'.events ≡ p.events) × (r'.size ≡ p.size) × (r'.next ≡ p.next) × (r'.count ≡ p.count)
unfolding record_event
record_event-ring now request_id ev r h = ground arith

-- A call of Record: the clock, the request's id and the event.
abbrev pub Call : Type 0
Call = ℕ × Text × Event

abbrev pub stamped : Call → Event
stamped (now, request_id, ev) = stamp now request_id ev

-- Calls of Record, one behind the other; `none` is a panic.
unfoldable pub record_all : List Call → Recorder → Option Recorder
record_all [] r = some r
record_all ((now, request_id, ev) ∷ calls) r = elim (record_event now request_id ev r) [
  | none ↦ none
  | some r' ↦ record_all calls r'
]

size-push : (r : Recorder) (ev : Event) → (push r ev).size ≡ r.size
unfolding push
size-push r ev = refl

module _ (p r : Recorder) (events : r.events ≡ p.events) (size : r.size ≡ p.size)
    (next : r.next ≡ p.next) (count : r.count ≡ p.count) where
  IsRing-same : IsRing p → IsRing r
  IsRing-same h = record {
    size_pos = omega (arith, h.size_pos);
    sized = ap length events ∙ h.sized ∙ sym size;
    next_lt = omega (arith, h.next_lt);
    count_le = omega (arith, h.count_le);
    unwrapped = λ lt. omega (arith, h.unwrapped (omega arith));
  }

  contents-same : contents r ≡ contents p
  contents-same = rw (events, size, next, count) refl

record_event-contents :
    (now : ℕ) (request_id : Text) (ev : Event) (r r' : Recorder)
    → IsRing r
    → record_event now request_id ev r ≡ some r'
    → IsRing r'
      × (r'.size ≡ r.size)
      × (contents r' ≡ last r.size (contents r ++ (stamp now request_id ev ∷ [])))
record_event-contents now request_id ev r r' h e =
    let p = push r (stamp now request_id ev) in
    let (events, size, next, count) = record_event-ring now request_id ev r e in
    (
      IsRing-same p r' events size next count (push-IsRing r (stamp now request_id ev) h),
      size ∙ size-push r (stamp now request_id ev),
      contents-same p r' events size next count ∙ contents-push r (stamp now request_id ev) h,
    )

-- After any calls of Record that do not panic, on a well-formed recorder, the buffer is well formed
-- and holds the last `size` of the events it held and the stamped events of the calls, oldest first.
pub contents-record_all :
    (calls : List Call) (r r' : Recorder)
    → IsRing r
    → record_all calls r ≡ some r'
    → IsRing r' × (contents r' ≡ last r.size (contents r ++ map stamped calls))
unfolding record_all
contents-record_all [] r r' h e =
    subst (λ q. IsRing q × (contents q ≡ last r.size (contents r ++ []))) (some_inj e)
      (
        h,
        sym (
            last_short r.size (contents r ++ [])
              (rw append-nil (omega (arith, length-contents r h, h.count_le)))
            ∙ append-nil (contents r)),
      )
contents-record_all ((now, request_id, ev) ∷ calls) r r' h e =
    elim (Option-cases (record_event now request_id ev r)) [
      | inl none' ↦ absurd (cc (rw (none', record_all) at e))
      | inr (r1, some') ↦
          let (h1, size1, contents1) = record_event-contents now request_id ev r r1 h some' in
          let (h2, contents2) = contents-record_all calls r1 r' h1 (rw (some', record_all) at e) in
          (
            h2,
            contents2
                ∙ (λ i. last (size1 i) (contents1 i ++ map stamped calls))
                ∙ last-append r.size (contents r ++ (stamp now request_id ev ∷ []))
                    (map stamped calls)
                ∙ ap (last r.size)
                    (append_assoc (contents r) (stamp now request_id ev ∷ []) (map stamped calls)),
          )
    ]
