-- ===== src/Recorder/Follow.antt =====
-- pkg/recorder/recorder.go: the followers, that is the channels that Subscribe returns.
pub mod Subs
pub mod Race
use Prim.Native.Nat.{ℕ, zero, suc, ◌+◌, ◌≤◌, ◌<◌}
use accelerboat.Base.{
  ◌≡◌, ◌≢◌, refl, sym, ap, subst, ◌∙◌, inl, inr, List, [], ◌∷◌, ◌++◌, arith, ◌==◌, if◌then◌else◌,
  Bool, true, false, ◌||◌, Bool-cases, Option, some, none, Option-cases,
}
use accelerboat.Base.Text.{Text}
use accelerboat.Recorder.{
  Event, Recorder, Chan, follower_cap, stamp, offer_queue, offer, notify, record_event, subscribe,
  remove_sub, close_chan, unsubscribe, push, enqueue_file,
}

abbrev pub has : ℕ → List ℕ → Bool
has j [] = false
has j (i ∷ is) = i == j || has j is

abbrev pub find_chan : ℕ → List Chan → Option Chan
find_chan j [] = none
find_chan j (c ∷ cs) = if c.id == j then some c else find_chan j cs

abbrev pub is_live : Option Chan → Bool
is_live none = false
is_live (some c) = c.is_open

-- The buffer of a follower after one more event: dropped when the buffer is full.
abbrev pub deliver : Event → Option Chan → Option Chan
deliver ev none = none
deliver ev (some c) = some (record c { queue = offer_queue follower_cap c.queue ev })

abbrev pub AllLive : List ℕ → List Chan → Type 0
AllLive [] cs = Unit {0}
AllLive (i ∷ is) cs = (is_live (find_chan i cs) ≡ true) × AllLive is cs

abbrev pub Distinct : List ℕ → Type 0
Distinct [] = Unit {0}
Distinct (i ∷ is) = (has i is ≡ false) × Distinct is

abbrev pub Below : ℕ → List Chan → Type 0
Below n [] = Unit {0}
Below n (c ∷ cs) = (c.id < n) × Below n cs

-- The followers have their own, open channels, and the next channel is new.
pub record IsFollowed (r : Recorder) : Type 0 where
  pub live : AllLive r.subs r.chans
  pub distinct : Distinct r.subs
  pub below : Below r.next_chan r.chans

offer_lem :
    (i : ℕ) (ev : Event) (cs : List Chan)
    → is_live (find_chan i cs) ≡ true
    → (cs' : List Chan) × (offer i ev cs ≡ some cs')
      × ((j : ℕ)
          → find_chan j cs' ≡ (if i == j then deliver ev (find_chan j cs) else find_chan j cs))
unfolding offer
offer_lem i ev [] h = cc
offer_lem i ev (c ∷ cs) h = elim (Bool-cases (c.id == i)) [
  | inl hit ↦ (
    record c { queue = offer_queue follower_cap c.queue ev } ∷ cs,
    ground arith,
    λ j. ground arith,
  )
  | inr miss ↦
      let (cs', e, look) = offer_lem i ev cs (ground arith) in
      (c ∷ cs', ground (arith, e), λ j. ground (arith, look j))
]

offer-AllLive :
    (i : ℕ) (ev : Event) (cs cs' : List Chan) (is : List ℕ)
    → ((j : ℕ) → find_chan j cs' ≡ (if i == j then deliver ev (find_chan j cs) else find_chan j cs))
    → AllLive is cs
    → AllLive is cs'
offer-AllLive i ev cs cs' [] look h = tt
offer-AllLive i ev cs cs' (k ∷ is) look (hk, h) =
    (ground (arith, look k), offer-AllLive i ev cs cs' is look h)

notify_lem :
    (is : List ℕ) (ev : Event) (cs : List Chan)
    → AllLive is cs
    → Distinct is
    → (cs' : List Chan) × (notify is ev cs ≡ some cs')
      × ((j : ℕ)
          → find_chan j cs' ≡ (if has j is then deliver ev (find_chan j cs) else find_chan j cs))
unfolding notify
notify_lem [] ev cs h d = (cs, refl, λ j. refl)
notify_lem (i ∷ is) ev cs (hi, h) (new, d) =
    let (cs1, e1, look1) = offer_lem i ev cs hi in
    let (cs2, e2, look2) = notify_lem is ev cs1 (offer-AllLive i ev cs cs1 is look1 h) d in
    (cs2, ground (arith, e1, e2), λ j. ground (arith, look1 j, look2 j, new))

offer-Below :
    (i n : ℕ) (ev : Event) (cs cs' : List Chan)
    → offer i ev cs ≡ some cs'
    → Below n cs
    → Below n cs'
unfolding offer
offer-Below i n ev [] cs' e h = ground arith
offer-Below i n ev (c ∷ cs) cs' e (hc, h) = elim (Option-cases (offer i ev cs)) [
  | inl none' ↦ ground (arith, none')
  | inr (cs1, e1) ↦ ground (arith, e1, offer-Below i n ev cs cs1 e1 h)
]

notify-Below :
    (is : List ℕ) (n : ℕ) (ev : Event) (cs cs' : List Chan)
    → notify is ev cs ≡ some cs'
    → Below n cs
    → Below n cs'
unfolding notify
notify-Below [] n ev cs cs' e h = ground arith
notify-Below (i ∷ is) n ev cs cs' e h = elim (Option-cases (offer i ev cs)) [
  | inl none' ↦ absurd (cc (rw (none', notify) at e))
  | inr (cs1, e1) ↦
      notify-Below is n ev cs1 cs' (rw (e1, notify) at e) (offer-Below i n ev cs cs1 e1 h)
]

deliver-live : (ev : Event) (o : Option Chan) → is_live (deliver ev o) ≡ is_live o
deliver-live ev none = refl
deliver-live ev (some c) = refl

notify-AllLive :
    (js is : List ℕ) (ev : Event) (cs cs' : List Chan)
    → ((j : ℕ)
        → find_chan j cs' ≡ (if has j is then deliver ev (find_chan j cs) else find_chan j cs))
    → AllLive js cs
    → AllLive js cs'
notify-AllLive [] is ev cs cs' look h = tt
notify-AllLive (j ∷ js) is ev cs cs' look (hj, h) = (
  ground (arith, look j, deliver-live ev (find_chan j cs)),
  notify-AllLive js is ev cs cs' look h,
)

enqueue_file-push :
    (r : Recorder) (e : Event)
    → ((enqueue_file (push r e) e).subs ≡ r.subs)
      × ((enqueue_file (push r e) e).chans ≡ r.chans)
      × ((enqueue_file (push r e) e).next_chan ≡ r.next_chan)
unfolding enqueue_file push
enqueue_file-push r e = ground arith

-- On a recorder whose followers have their own open channels, Record does not panic: every
-- follower's channel gets the stamped event, or drops it when it holds 256 events, no other channel
-- changes, the followers stay, and their channels stay open.
pub record_event-delivers :
    (now : ℕ) (request_id : Text) (ev : Event) (r : Recorder)
    → IsFollowed r
    → (r' : Recorder) × (record_event now request_id ev r ≡ some r')
      × IsFollowed r'
      × (r'.subs ≡ r.subs)
      × ((j : ℕ)
          → find_chan j r'.chans ≡ (
              if has j r.subs
              then deliver (stamp now request_id ev) (find_chan j r.chans)
              else find_chan j r.chans))
unfolding record_event
record_event-delivers now request_id ev r h =
    let e = stamp now request_id ev in
    let (cs, sent, look) = notify_lem r.subs e r.chans h.live h.distinct in
    let same = enqueue_file-push r e in
    (
      record (enqueue_file (push r e) e) { chans = cs },
      ground (arith, sent),
      record {
        live =
            subst (λ is. AllLive is cs) (sym same.0)
              (notify-AllLive r.subs r.subs e r.chans cs look h.live);
        distinct = subst Distinct (sym same.0) h.distinct;
        below =
            subst (λ n. Below n cs) (sym same.2)
              (notify-Below r.subs r.next_chan e r.chans cs sent h.below);
      },
      same.0,
      look,
    )
