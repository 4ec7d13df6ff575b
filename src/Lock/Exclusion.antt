-- ===== src/Lock/Exclusion.antt =====
-- locallock.go: mutual exclusion for each key.
use Prim.Native.Nat.{ℕ}
use accelerboat.Base.{
  ◌≡◌, ◌≢◌, ◌⊎◌, inl, inr, true, false, none, some, arith, if◌then◌else◌, Bool-cases, Option-cases,
  subst, sym,
}
use accelerboat.Base.Keys.{lookup, insert, lookup-insert}
use accelerboat.Base.Text.{Text, text_eq, text_eq_iff, text_eq_refl}
use accelerboat.Lock.{
  Mutexes, load_or_store, try_lock, unlocked, unlock, idle, wants, holds, System, update, Step, ask,
  take, release, Reach, start, next,
}

-- A key's mutex is locked exactly while one goroutine holds the key.
pub record IsExclusive (s : System) : Type 0 where
  pub locked : (i : ℕ) (key : Text) → s.pc i ≡ holds key → lookup key s.mutexes ≡ some true
  pub unique : (i j : ℕ) (key : Text) → s.pc i ≡ holds key → s.pc j ≡ holds key → i ≡ j
  pub owned : (key : Text) → lookup key s.mutexes ≡ some true → (i : ℕ) × (s.pc i ≡ holds key)
  pub known : (i : ℕ) (key : Text) → s.pc i ≡ wants key → lookup key s.mutexes ≢ none

load_or_store_lem :
    (key j : Text) (m : Mutexes)
    → lookup j (load_or_store key m)
      ≡ elim (lookup j m) [ some b ↦ some b | none ↦ if text_eq key j then some false else none ]
unfolding load_or_store
load_or_store_lem key j m = ground (arith, lookup-insert key j false m, text_eq_iff key j)

ask-IsExclusive :
    (s : System) (i : ℕ) (key : Text)
    → s.pc i ≡ idle
    → IsExclusive s
    → IsExclusive (record { mutexes = load_or_store key s.mutexes; pc = update s.pc i (wants key) })
ask-IsExclusive s i key e v = record {
  locked = λ j k h. ground (arith, v.locked j k, load_or_store_lem key k s.mutexes);
  unique = λ a b k h g. ground (arith, v.unique a b k);
  owned = λ k h.
      let (j, q) = v.owned k (ground (arith, load_or_store_lem key k s.mutexes)) in
      (j, ground arith);
  known =
      λ j k h. ground (arith, v.known j k, load_or_store_lem key k s.mutexes, text_eq_iff key k);
}

try_lock_lem :
    (key : Text) (ms m : Mutexes)
    → try_lock key ms ≡ some m
    → (lookup key ms ≡ some false) × (m ≡ insert key true ms)
unfolding try_lock
try_lock_lem key ms m e = ground arith

unlock_lem :
    (key : Text) (ms m : Mutexes)
    → unlock key ms ≡ unlocked m
    → (lookup key ms ≡ some true) × (m ≡ insert key false ms)
unfolding unlock
unlock_lem key ms m e = ground arith

take-IsExclusive :
    (s : System) (i : ℕ) (key : Text)
    → s.pc i ≡ wants key
    → lookup key s.mutexes ≡ some false
    → IsExclusive s
    → IsExclusive (record { mutexes = insert key true s.mutexes; pc = update s.pc i (holds key) })
take-IsExclusive s i key e free v = record {
  locked =
      λ j k h. ground (arith, v.locked j k, lookup-insert key k true s.mutexes, text_eq_iff key k);
  unique =
      λ a b k h g. ground (arith, v.unique a b k, v.locked a k, v.locked b k, text_eq_iff key k);
  owned = λ k h. elim (Bool-cases (text_eq key k)) [
    | inl same ↦ (i, ground (arith, text_eq_iff key k))
    | inr other ↦
        let (j, q) = v.owned k (ground (arith, lookup-insert key k true s.mutexes)) in
        (j, ground arith)
  ];
  known = λ j k h. ground (arith, v.known j k, lookup-insert key k true s.mutexes);
}

release-IsExclusive :
    (s : System) (i : ℕ) (key : Text)
    → s.pc i ≡ holds key
    → IsExclusive s
    → IsExclusive (record { mutexes = insert key false s.mutexes; pc = update s.pc i idle })
release-IsExclusive s i key e v = record {
  locked = λ j k h.
      ground (
        arith,
        v.locked j k,
        v.unique i j k,
        lookup-insert key k false s.mutexes,
        text_eq_iff key k,
      );
  unique = λ a b k h g. ground (arith, v.unique a b k);
  owned = λ k h.
      let (j, q) = v.owned k (ground (arith, lookup-insert key k false s.mutexes)) in
      (j, ground (arith, lookup-insert key k false s.mutexes, text_eq_iff key k));
  known = λ j k h. ground (arith, v.known j k, lookup-insert key k false s.mutexes);
}

Step-IsExclusive : {s t : System} → Step s t → IsExclusive s → IsExclusive t
Step-IsExclusive {s} (ask i key e) v = ask-IsExclusive s i key e v
Step-IsExclusive {s} (take i key m e h) v =
    let (free, same) = try_lock_lem key s.mutexes m h in
    subst (λ m. IsExclusive (record { mutexes = m; pc = update s.pc i (holds key) })) (sym same)
      (take-IsExclusive s i key e free v)
Step-IsExclusive {s} (release i key m e h) v =
    let (shut, same) = unlock_lem key s.mutexes m h in
    subst (λ m. IsExclusive (record { mutexes = m; pc = update s.pc i idle })) (sym same)
      (release-IsExclusive s i key e v)

pub Reach-IsExclusive : {s : System} → Reach s → IsExclusive s
unfolding lookup
Reach-IsExclusive start = record {
  locked = λ i k h. cc;
  unique = λ i j k h g. cc;
  owned = λ k h. absurd (cc);
  known = λ i k h. cc;
}
Reach-IsExclusive (next r st) = Step-IsExclusive st (Reach-IsExclusive r)

-- In every state that the goroutines can reach, two that hold one key are the same, and an UnLock by a
-- goroutine that holds the key finds the mutex locked: it neither warns nor is fatal.
pub lock_exclusion :
    {s : System} (r : Reach s) (i : ℕ) (key : Text)
    → s.pc i ≡ holds key
    → ((j : ℕ) → s.pc j ≡ holds key → i ≡ j) × (m : Mutexes) × (unlock key s.mutexes ≡ unlocked m)
unfolding unlock
lock_exclusion {s} r i key h =
    let v = Reach-IsExclusive r in
    (λ j g. v.unique i j key h g, insert key false s.mutexes, rw (v.locked i key h, unlock))

can_take :
    (s : System) (i : ℕ) (key : Text)
    → s.pc i ≡ wants key
    → lookup key s.mutexes ≡ some false
    → (t : System) × Step s t × (t.pc i ≡ holds key)
unfolding try_lock
can_take s i key h free = (
  record { mutexes = insert key true s.mutexes; pc = update s.pc i (holds key) },
  take i key (insert key true s.mutexes) h (rw (free, try_lock)),
  ground arith,
)

-- A goroutine that waits in Lock is not stuck: it can take the mutex at once, or some goroutine holds
-- the key, and as soon as that one has released it, the first can take it.
pub lock_progress :
    {s : System} (r : Reach s) (i : ℕ) (key : Text)
    → s.pc i ≡ wants key
    → ((t : System) × Step s t × (t.pc i ≡ holds key))
      ⊎ (j : ℕ) × (t : System) × (u : System) × (s.pc j ≡ holds key)
        × Step s t
        × Step t u
        × (u.pc i ≡ holds key)
unfolding unlock
lock_progress {s} r i key h = elim (Option-cases (lookup key s.mutexes)) [
  | inl absent ↦ absurd ((Reach-IsExclusive r).known i key h absent)
  | inr (shut, e) ↦ elim (Bool-cases shut) [
    | inr free ↦ inl (can_take s i key h (rw free at e))
    | inl taken ↦
        let locked : lookup key s.mutexes ≡ some true = rw taken at e in
        let (j, held) = (Reach-IsExclusive r).owned key locked in
        let m = insert key false s.mutexes in
        let t : System = record { mutexes = m; pc = update s.pc j idle } in
        let (u, st, has) =
          can_take t i key (ground arith)
            (ground (arith, lookup-insert key key false s.mutexes, text_eq_refl key)) in
        inr (j, t, u, held, release j key m held (rw (locked, unlock)), st, has)
  ]
]
