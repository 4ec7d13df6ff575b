-- ===== src/Recorder/Follow/Subs.antt =====
-- pkg/recorder/recorder.go: Subscribe, and the function that it returns.
use Prim.Native.Nat.{ℕ, ◌+◌, ◌≤◌}
use accelerboat.Base.{
  ◌≡◌, ◌≢◌, refl, inl, inr, List, [], ◌∷◌, ◌++◌, arith, ◌==◌, if◌then◌else◌, true, false, ◌||◌,
  Bool-cases, some, none, Option-cases,
}
use accelerboat.Recorder.{Recorder, Chan, subscribe, remove_sub, close_chan, unsubscribe}
use accelerboat.Recorder.Follow.{has, find_chan, is_live, AllLive, Distinct, Below, IsFollowed}

find_chan_above : (n j : ℕ) (cs : List Chan) → Below n cs → n ≤ j → find_chan j cs ≡ none
find_chan_above n j [] h le = refl
find_chan_above n j (c ∷ cs) (hc, h) le = ground (arith, find_chan_above n j cs h le)

Below-mono : (n m : ℕ) (cs : List Chan) → n ≤ m → Below n cs → Below m cs
Below-mono n m [] le h = tt
Below-mono n m (c ∷ cs) le (hc, h) = (omega arith, Below-mono n m cs le h)

AllLive-fresh :
    (is : List ℕ) (n : ℕ) (cs : List Chan)
    → Below n cs
    → AllLive is cs
    → AllLive is (record { id = n; queue = []; is_open = true } ∷ cs) × (has n is ≡ false)
AllLive-fresh [] n cs b h = (tt, refl)
AllLive-fresh (i ∷ is) n cs b (hi, h) =
    let (live, new) = AllLive-fresh is n cs b h in
    let i_ne_n : i ≢ n = λ e. ground (arith, find_chan_above n i cs b (omega arith)) in
    ((ground arith, live), ground arith)

AllLive-snoc :
    (is : List ℕ) (n : ℕ) (cs : List Chan)
    → AllLive is cs
    → is_live (find_chan n cs) ≡ true
    → AllLive (is ++ (n ∷ [])) cs
AllLive-snoc [] n cs h hn = (hn, tt)
AllLive-snoc (i ∷ is) n cs (hi, h) hn = (hi, AllLive-snoc is n cs h hn)

has-snoc : (is : List ℕ) (n j : ℕ) → has j (is ++ (n ∷ [])) ≡ (has j is || n == j)
has-snoc [] n j = ground arith
has-snoc (i ∷ is) n j = ground (arith, has-snoc is n j)

Distinct-snoc : (is : List ℕ) (n : ℕ) → Distinct is → has n is ≡ false → Distinct (is ++ (n ∷ []))
Distinct-snoc [] n d new = (refl, tt)
Distinct-snoc (i ∷ is) n (di, d) new =
    (ground (arith, has-snoc is n i), Distinct-snoc is n d (ground arith))

-- Subscribe gives a new, open, empty channel, which follows from now on beside the others.
pub subscribe-IsFollowed :
    (r : Recorder)
    → IsFollowed r
    → let (c, r') = subscribe r in
      IsFollowed r'
      × (has c r.subs ≡ false)
      × ((j : ℕ) → has j r'.subs ≡ (has j r.subs || c == j))
      × (find_chan c r'.chans ≡ some (record { id = c; queue = []; is_open = true }))
unfolding subscribe
subscribe-IsFollowed r h =
    let (live, new) = AllLive-fresh r.subs r.next_chan r.chans h.below h.live in
    (
      record {
        live = AllLive-snoc r.subs r.next_chan _ live (ground arith);
        distinct = Distinct-snoc r.subs r.next_chan h.distinct new;
        below =
            (omega arith, Below-mono r.next_chan (r.next_chan + 1) r.chans (omega arith) h.below);
      },
      new,
      has-snoc r.subs r.next_chan,
      ground arith,
    )

remove_sub_lem :
    (i : ℕ) (is is' : List ℕ)
    → remove_sub i is ≡ some is'
    → Distinct is
    → Distinct is' × ((j : ℕ) → has j is' ≡ (if i == j then false else has j is))
unfolding remove_sub
remove_sub_lem i [] is' e d = cc
remove_sub_lem i (k ∷ is) is' e (dk, d) = elim (Bool-cases (k == i)) [
  | inl hit ↦ (ground arith, λ j. ground arith)
  | inr miss ↦ elim (Option-cases (remove_sub i is)) [
    | inl none' ↦ absurd (ground (arith, none'))
    | inr (is1, e1) ↦
        let (d1, look) = remove_sub_lem i is is1 e1 d in
        (ground (arith, e1, look k), λ j. ground (arith, e1, look j))
  ]
]

pub remove_sub_missing :
    (i : ℕ) (is : List ℕ) → has i is ≡ true → (is' : List ℕ) × (remove_sub i is ≡ some is')
unfolding remove_sub
remove_sub_missing i [] h = cc
remove_sub_missing i (k ∷ is) h = elim (Bool-cases (k == i)) [
  | inl hit ↦ (is, ground arith)
  | inr miss ↦ let (is', e) = remove_sub_missing i is (ground arith) in (k ∷ is', ground (arith, e))
]

pub close_chan_lem :
    (i j : ℕ) (cs : List Chan)
    → find_chan j (close_chan i cs) ≡ (
        if i == j
        then elim (find_chan j cs) [ none ↦ none | some c ↦ some (record c { is_open = false }) ]
        else find_chan j cs)
unfolding close_chan
close_chan_lem i j [] = ground arith
close_chan_lem i j (c ∷ cs) = ground (arith, close_chan_lem i j cs)

close_chan-Below : (i n : ℕ) (cs : List Chan) → Below n cs → Below n (close_chan i cs)
unfolding close_chan
close_chan-Below i n [] h = tt
close_chan-Below i n (c ∷ cs) (hc, h) = ground (arith, close_chan-Below i n cs h)

close_chan-AllLive :
    (is : List ℕ) (i : ℕ) (cs : List Chan)
    → has i is ≡ false
    → AllLive is cs
    → AllLive is (close_chan i cs)
close_chan-AllLive [] i cs new h = tt
close_chan-AllLive (k ∷ is) i cs new (hk, h) =
    (ground (arith, close_chan_lem i k cs), close_chan-AllLive is i cs (ground arith) h)

pub live_of_has :
    (is : List ℕ) (k : ℕ) (cs : List Chan)
    → AllLive is cs
    → has k is ≡ true
    → is_live (find_chan k cs) ≡ true
live_of_has [] k cs h e = cc
live_of_has (i ∷ is) k cs (hi, h) e = ground (arith, live_of_has is k cs h)

AllLive-sub :
    (is is' : List ℕ) (cs : List Chan)
    → ((j : ℕ) → has j is' ≡ true → has j is ≡ true)
    → AllLive is cs
    → AllLive is' cs
AllLive-sub is [] cs sub h = tt
AllLive-sub is (k ∷ is') cs sub h = (
  live_of_has is k cs h (sub k (ground arith)),
  AllLive-sub is is' cs (λ j hj. sub j (ground arith)) h,
)

-- The returned function takes its own follower out and closes that channel: no other follower is
-- taken out, no other channel changes, and the followers still have their own open channels.
pub unsubscribe-IsFollowed :
    (i : ℕ) (r : Recorder)
    → IsFollowed r
    → has i r.subs ≡ true
    → let r' = unsubscribe i r in
      IsFollowed r'
      × ((j : ℕ) → has j r'.subs ≡ (if i == j then false else has j r.subs))
      × (is_live (find_chan i r'.chans) ≡ false)
      × ((j : ℕ) → i ≢ j → find_chan j r'.chans ≡ find_chan j r.chans)
unfolding unsubscribe
unsubscribe-IsFollowed i r h e =
    let (is', e') = remove_sub_missing i r.subs e in
    let (d, look) = remove_sub_lem i r.subs is' e' h.distinct in
    rw (e', unsubscribe)
      (
        record {
          live =
              close_chan-AllLive is' i r.chans (ground (arith, look i))
                (AllLive-sub r.subs is' r.chans (λ j hj. ground (arith, look j)) h.live);
          distinct = d;
          below = close_chan-Below i r.next_chan r.chans h.below;
        },
        look,
        ground (arith, close_chan_lem i i r.chans),
        λ j ne. ground (arith, close_chan_lem i j r.chans),
      )
