-- ===== src/Lock/Tests.antt =====
-- locallock.go: two goroutines that want one key.
use Prim.Native.Nat.{ℕ}
use accelerboat.Base.{◌≡◌, refl, ◌⊎◌, true, [], ◌∷◌}
use accelerboat.Base.Keys.{lookup, insert}
use accelerboat.Base.Text.{Text, codes, text_eq}
use accelerboat.Lock.{
  Mutexes, load_or_store, try_lock, unlocked, unlock, idle, wants, holds, System, update, Step, ask,
  take, Reach, start, next,
}
use accelerboat.Lock.Exclusion.{lock_exclusion, lock_progress}

abbrev key : Text
key = codes "ab"

abbrev asked : System
asked = record { mutexes = load_or_store key []; pc = update (λ i. idle) 1 (wants key) }

abbrev both : System
both = record { mutexes = load_or_store key asked.mutexes; pc = update asked.pc 2 (wants key) }

abbrev taken : System
taken = record { mutexes = (key, true) ∷ []; pc = update both.pc 1 (holds key) }

taken-Reach : Reach taken
unfolding load_or_store try_lock lookup insert text_eq
taken-Reach =
    next (next (next start (ask 1 key refl)) (ask 2 key refl))
      (take 1 key ((key, true) ∷ []) refl refl)

lock_exclusion_example :
    ((j : ℕ) → taken.pc j ≡ holds key → ◌≡◌ {A = ℕ} 1 j)
    × (m : Mutexes) × (unlock key taken.mutexes ≡ unlocked m)
lock_exclusion_example = lock_exclusion taken-Reach 1 key refl

lock_progress_example :
    ((t : System) × Step taken t × (t.pc 2 ≡ holds key))
    ⊎ (j : ℕ) × (t : System) × (u : System) × (taken.pc j ≡ holds key)
      × Step taken t
      × Step t u
      × (u.pc 2 ≡ holds key)
lock_progress_example = lock_progress taken-Reach 2 key refl
