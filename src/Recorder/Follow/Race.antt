-- ===== src/Recorder/Follow/Race.antt =====
-- pkg/recorder/recorder.go: Record copies the followers under subsMu and sends after it has given
-- the lock back, so calls of the returned functions come between. Each step below is one critical
-- section or one send.
use Prim.Native.Nat.{ℕ}
use accelerboat.Base.{
  ◌≡◌, ◌≢◌, refl, subst, inl, inr, List, [], ◌∷◌, arith, true, false, ◌==◌, Option, some, none,
  Bool-cases, Option-cases,
}
use accelerboat.Recorder.{Event, Recorder, Chan, offer, unsubscribe}
use accelerboat.Recorder.Follow.{has, find_chan, IsFollowed}
use accelerboat.Recorder.Follow.Subs.{close_chan_lem, remove_sub_missing, live_of_has}

-- A call of Record on its way: the copy of subs that is left to serve, and the event.
pub record Sending : Type 0 where
  pub left : List ℕ
  pub event : Event

pub data World : Type 0 where
  running : Recorder → Option Sending → World
  panicked : World

-- What one send makes of the world.
unfoldable pub send : Recorder → List ℕ → Event → World
unfolding offer
send r [] ev = running r none
send r (i ∷ is) ev = elim (offer i ev r.chans) [
  | none ↦ panicked
  | some cs ↦ running (record r { chans = cs }) (some (record { left = is; event = ev }))
]

pub data Step : World → World → Type 0 where
  copy :
      (r : Recorder) (ev : Event)
      → Step (running r none) (running r (some (record { left = r.subs; event = ev })))
  deliver : (r : Recorder) (s : Sending) → Step (running r (some s)) (send r s.left s.event)
  leave :
      (r : Recorder) (o : Option Sending) (i : ℕ) → Step (running r o) (running (unsubscribe i r) o)

pub data Reach (w : World) : World → Type 0 where
  here : Reach w w
  next : {u v : World} → Reach w u → Step u v → Reach w v

-- The channel of this number was closed.
IsClosed : ℕ → List Chan → Type 0
IsClosed i cs = (c : Chan) × (find_chan i cs ≡ some c) × (c.is_open ≡ false)

offer_closed : (i : ℕ) (ev : Event) (cs : List Chan) → IsClosed i cs → offer i ev cs ≡ none
unfolding offer IsClosed
offer_closed i ev [] (c, e, shut) = cc
offer_closed i ev (d ∷ cs) (c, e, shut) = elim (Bool-cases (d.id == i)) [
  | inl hit ↦ ground arith
  | inr miss ↦ ground (arith, offer_closed i ev cs (c, ground arith, shut))
]

offer_other :
    (k i : ℕ) (ev : Event) (cs cs' : List Chan)
    → offer k ev cs ≡ some cs'
    → k ≢ i
    → find_chan i cs' ≡ find_chan i cs
unfolding offer
offer_other k i ev [] cs' e ne = ground arith
offer_other k i ev (d ∷ cs) cs' e ne = elim (Option-cases (offer k ev cs)) [
  | inl none' ↦ ground (arith, none')
  | inr (cs1, e1) ↦ ground (arith, e1, offer_other k i ev cs cs1 e1 ne)
]

-- A send loop that has a closed channel ahead panics.
sends_panic :
    (w : World) (i : ℕ) (is : List ℕ) (ev : Event) (r : Recorder)
    → has i is ≡ true
    → IsClosed i r.chans
    → Reach w (running r (some (record { left = is; event = ev })))
    → Reach w panicked
unfolding send IsClosed
sends_panic w i [] ev r h shut reach = cc
sends_panic w i (k ∷ is) ev r h (c, e, off) reach =
    let reached = next reach (deliver r (record { left = k ∷ is; event = ev })) in
    elim (Option-cases (offer k ev r.chans)) [
      | inl none' ↦ subst (Reach w) (rw (none', send) refl) reached
      | inr (cs, e') ↦
          let k_ne_i : k ≢ i = λ same. ground (arith, offer_closed i ev r.chans (c, e, off)) in
          sends_panic w i is ev (record r { chans = cs }) (ground arith)
            (c, ground (arith, offer_other k i ev r.chans cs e' k_ne_i), off)
            (subst (Reach w) (rw (e', send) refl) reached)
    ]

unsubscribe-IsClosed :
    (i : ℕ) (r : Recorder) → IsFollowed r → has i r.subs ≡ true → IsClosed i (unsubscribe i r).chans
unfolding unsubscribe IsClosed
unsubscribe-IsClosed i r h e =
    let (is', e') = remove_sub_missing i r.subs e in
    elim (Option-cases (find_chan i r.chans)) [
      | inl none' ↦ absurd (ground (arith, none', live_of_has r.subs i r.chans h.live e))
      | inr (c, some') ↦
          rw (e', unsubscribe)
            (record c { is_open = false }, ground (arith, some', close_chan_lem i i r.chans), refl)
    ]

-- For every recorder whose followers have their own open channels, every follower of it and every
-- event, there is an order of steps in which Record panics: it copies the followers, the follower
-- leaves, and the send meets a closed channel.
pub Reach-panicked :
    (i : ℕ) (r : Recorder) (ev : Event)
    → IsFollowed r
    → has i r.subs ≡ true
    → Reach (running r none) panicked
Reach-panicked i r ev h e =
    sends_panic (running r none) i r.subs ev (unsubscribe i r) e (unsubscribe-IsClosed i r h e)
      (next (next here (copy r ev)) (leave r _ i))
