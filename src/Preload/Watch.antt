-- ===== src/Preload/Watch.antt =====
-- image_preload.go: how the wait for the jobs ends.
use Prim.Native.Nat.{◌<◌}
use accelerboat.Base.{
  ◌≡◌, refl, ap, ◌∙◌, ◌⊎◌, inl, inr, Bool, true, false, List, [], ◌∷◌, ◌++◌, arith, ltb,
  if◌then◌else◌, map,
}
use accelerboat.Base.Text.{Text}
use accelerboat.Preload.{
  JobStatus, count_jobs, Round, listed, Watched, completed, jobs_failed, watch_preload_jobs,
}

-- No job of the list is active.
abbrev pub Settled : List JobStatus → Type 0
Settled [] = Unit {0}
Settled (j ∷ js) = (j.active ≡ 0) × Settled js

-- Some job of each list is active.
abbrev pub HasActive : List JobStatus → Type 0
HasActive [] = ⊥
HasActive (j ∷ js) = (0 < j.active) ⊎ HasActive js

abbrev pub AllBusy : List (List JobStatus) → Type 0
AllBusy [] = Unit {0}
AllBusy (js ∷ rounds) = HasActive js × AllBusy rounds

-- The names of the jobs with failed pods, in the order of the list.
abbrev pub names_of_failed : List JobStatus → List Text
names_of_failed [] = []
names_of_failed (j ∷ js) =
    let rest = names_of_failed js in if ltb 0 j.failed then j.name ∷ rest else rest

abbrev pub verdict : List Text → Watched
verdict [] = completed
verdict (n ∷ ns) = jobs_failed (n ∷ ns)

count_busy : (js : List JobStatus) → HasActive js → 0 < (count_jobs js).active
unfolding count_jobs
count_busy [] h = absurd h
count_busy (j ∷ js) (inl h) = ground arith
count_busy (j ∷ js) (inr h) = ground (arith, count_busy js h)

count-Settled :
    (js : List JobStatus)
    → Settled js
    → ((count_jobs js).active ≡ 0) × ((count_jobs js).failed_names ≡ names_of_failed js)
unfolding count_jobs
count-Settled [] h = (refl, refl)
count-Settled (j ∷ js) (h, hs) = ground (arith, count-Settled js hs)

abbrev has_some : List Text → Bool
has_some [] = false
has_some (n ∷ ns) = true

count_failed :
    (js : List JobStatus) → ltb 0 (count_jobs js).failed ≡ has_some (count_jobs js).failed_names
unfolding count_jobs
count_failed [] = refl
count_failed (j ∷ js) = ground (arith, count_failed js)

verdict_lem :
    (ns : List Text) (b : Bool)
    → b ≡ has_some ns
    → (if b then jobs_failed ns else completed) ≡ verdict ns
verdict_lem [] b e = rw e
verdict_lem (n ∷ ns) b e = rw e

Settled-round :
    (js : List JobStatus) (rest : List Round)
    → Settled js
    → watch_preload_jobs (listed js ∷ rest) ≡ verdict (names_of_failed js)
unfolding watch_preload_jobs
Settled-round js rest h =
    let (none_active, names) = count-Settled js h in
    rw (none_active, watch_preload_jobs)
      (verdict_lem (count_jobs js).failed_names (ltb 0 (count_jobs js).failed) (count_failed js)
        ∙ ap verdict names)

busy_round :
    (js : List JobStatus) (rest : List Round)
    → HasActive js
    → watch_preload_jobs (listed js ∷ rest) ≡ watch_preload_jobs rest
unfolding watch_preload_jobs
busy_round js rest h = ground (arith, count_busy js h)

-- While each round lists an active job, the wait goes on, and it ends at the first round that lists
-- none, with the names of the jobs that then have failed pods, or as completed if there is none. A job
-- that has not begun counts as one that succeeded.
pub watch_preload_jobs_lem :
    (busy : List (List JobStatus)) (js : List JobStatus) (rest : List Round)
    → AllBusy busy
    → Settled js
    → watch_preload_jobs (map listed busy ++ (listed js ∷ rest)) ≡ verdict (names_of_failed js)
watch_preload_jobs_lem [] js rest b h = Settled-round js rest h
watch_preload_jobs_lem (k ∷ ks) js rest (b, bs) h =
    busy_round k (map listed ks ++ (listed js ∷ rest)) b ∙ watch_preload_jobs_lem ks js rest bs h
