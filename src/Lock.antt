-- ===== src/Lock.antt =====
-- pkg/utils/lock/locallock.go: a mutex for each key, and goroutines that hold one key at a time, as the
-- proxies, the handlers of the master and the torrent handler do (Lock, and UnLock deferred).
pub mod Exclusion
pub mod Tests
use Prim.Native.Nat.{ℕ}
use accelerboat.Base.{◌≡◌, Bool, true, false, Option, none, some, List, [], ◌==◌, if◌then◌else◌}
use accelerboat.Base.Keys.{lookup, insert}
use accelerboat.Base.Text.{Text}

-- keyedMutex.mutexes, with whether each mutex is locked.
abbrev pub Mutexes : Type 0
Mutexes = List (Text × Bool)

-- LoadOrStore of a new mutex.
unfoldable pub load_or_store : Text → Mutexes → Mutexes
load_or_store key m = elim (lookup key m) [ none ↦ insert key false m | some locked ↦ m ]

-- mtx.Lock() of the key's mutex: `none` while it waits.
unfoldable pub try_lock : Text → Mutexes → Option Mutexes
try_lock key m = elim (lookup key m) [
  | none ↦ none
  | some locked ↦ if locked then none else some (insert key true m)
]

-- UnLock warns when there is no mutex; the unlock of a mutex that is not locked is fatal.
pub data Unlocked : Type 0 where
  warned fatal : Unlocked
  unlocked : Mutexes → Unlocked

unfoldable pub unlock : Text → Mutexes → Unlocked
unlock key m = elim (lookup key m) [
  | none ↦ warned
  | some locked ↦ if locked then unlocked (insert key false m) else fatal
]

-- Where a goroutine is: outside, in Lock, or between Lock and UnLock.
pub data Pc : Type 0 where
  idle : Pc
  wants holds : Text → Pc

pub record System : Type 0 where
  pub mutexes : Mutexes
  pub pc : ℕ → Pc

abbrev pub update : (ℕ → Pc) → ℕ → Pc → ℕ → Pc
update f i a j = if i == j then a else f j

pub data Step (s : System) : System → Type 0 where
  ask :
      (i : ℕ) (key : Text)
      → s.pc i ≡ idle
      → Step s (record { mutexes = load_or_store key s.mutexes; pc = update s.pc i (wants key) })
  take :
      (i : ℕ) (key : Text) (m : Mutexes)
      → s.pc i ≡ wants key
      → try_lock key s.mutexes ≡ some m
      → Step s (record { mutexes = m; pc = update s.pc i (holds key) })
  release :
      (i : ℕ) (key : Text) (m : Mutexes)
      → s.pc i ≡ holds key
      → unlock key s.mutexes ≡ unlocked m
      → Step s (record { mutexes = m; pc = update s.pc i idle })

abbrev pub fresh : System
fresh = record { mutexes = []; pc = λ i. idle }

pub data Reach : System → Type 0 where
  start : Reach fresh
  next : {s t : System} → Reach s → Step s t → Reach t
