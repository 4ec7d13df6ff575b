-- ===== src/Preload.antt =====
-- cmd/cli/image_preload.go: the names of the preload jobs, the creation of the jobs and the wait for
-- their end. The Kubernetes client is a parameter.
pub mod Names
pub mod Watch
pub mod Tests
use Prim.Native.Nat.{ℕ, zero, suc, ◌-◌}
use accelerboat.Base.{
  ◌≡◌, Bool, true, false, not, ◌&&◌, ◌||◌, Option, none, some, List, [], ◌∷◌, ◌++◌, map, ltb, leb,
  ◌==◌, if◌then◌else◌, length, take,
}
use mathlib.Core.List.{reverse}
use accelerboat.Base.Text.{Text, codes, to_lower, trim_space, text_eq}
use accelerboat.Base.Text.Split.{split}

abbrev non_empty : List Text → List Text
non_empty [] = []
non_empty (v ∷ vs) =
    let rest = non_empty vs in let v' = trim_space v in if text_eq v' [] then rest else v' ∷ rest

unfoldable pub parse_comma_list : Text → List Text
parse_comma_list s = if text_eq s [] then [] else non_empty (split s b',')

-- [a-z0-9-]; node names are ASCII.
abbrev pub is_name_char : ℕ → Bool
is_name_char c = (leb b'a' c && leb c b'z') || (leb b'0' c && leb c b'9') || c == b'-'

-- ReplaceAllString of [^a-z0-9-]+ by "-"; `in_run` says that the byte before was replaced.
unfoldable pub replace_runs : Bool → Text → Text
replace_runs in_run [] = []
replace_runs in_run (c ∷ s) =
    let good = is_name_char c in
    let rest = replace_runs (not good) s in
    if good then c ∷ rest else if in_run then rest else b'-' ∷ rest

unfoldable pub trim_left_dashes : Text → Text
trim_left_dashes [] = []
trim_left_dashes (c ∷ s) = let rest = trim_left_dashes s in if c == b'-' then rest else c ∷ s

-- strings.Trim(name, "-")
unfoldable pub trim_dashes : Text → Text
unfolding trim_left_dashes
trim_dashes s = reverse (trim_left_dashes (reverse (trim_left_dashes s)))

-- `max_len` is not negative where it is called.
unfoldable pub sanitize_job_name : Text → ℕ → Text
unfolding replace_runs trim_dashes
sanitize_job_name name max_len =
    let name' = trim_dashes (replace_runs false (to_lower name)) in
    if ltb max_len (length name') then take max_len name' else name'

-- A task name of at most 61 bytes; runImagePreload makes one of 27.
unfoldable pub build_job_name : Text → Text → Text
unfolding sanitize_job_name
build_job_name task_name node_name =
    let prefix = task_name ++ codes "-" in
    let safe_node = sanitize_job_name node_name (63 - length prefix) in
    if text_eq safe_node [] then prefix ++ codes "node" else prefix ++ safe_node

-- A preload job, as far as its fields differ.
pub record Job : Type 0 where
  pub name : Text
  pub task_name : Text
  pub node_name : Text
  pub images : List Text
  pub pull_secrets : List Text

unfoldable pub build_preload_job : Text → Text → Text → List Text → List Text → Job
build_preload_job job_name task_name node_name images pull_secrets = record {
  name = job_name;
  task_name = task_name;
  node_name = node_name;
  images = images;
  pull_secrets = pull_secrets;
}

-- The names of the jobs that were created, and whether all were. `create` is CreateJob.
module _ {W : Type 0} (create : Job → W → Bool × W) where
  unfoldable pub create_preload_jobs :
      Text → List Text → List Text → List Text → W → List Text × (Bool × W)
  unfolding build_job_name build_preload_job
  create_preload_jobs task_name images pull_secrets [] w = ([], (true, w))
  create_preload_jobs task_name images pull_secrets (node_name ∷ nodes) w =
      let job_name = build_job_name task_name node_name in
      let (ok, w') =
        create (build_preload_job job_name task_name node_name images pull_secrets) w in
      let (created, r) = create_preload_jobs task_name images pull_secrets nodes w' in
      if ok then (job_name ∷ created, r) else ([], (false, w'))

-- The status of a job in a list.
pub record JobStatus : Type 0 where
  pub name : Text
  pub active : ℕ
  pub failed : ℕ

-- succeeded, active, failedCount, failedNames
pub record Counts : Type 0 where
  pub succeeded : ℕ
  pub active : ℕ
  pub failed : ℕ
  pub failed_names : List Text

unfoldable pub count_jobs : List JobStatus → Counts
count_jobs [] = record { succeeded = 0; active = 0; failed = 0; failed_names = [] }
count_jobs (j ∷ js) =
    let c = count_jobs js in
    if ltb 0 j.active
    then record c { active = suc c.active }
    else if ltb 0 j.failed
    then record c { failed = suc c.failed; failed_names = j.name ∷ c.failed_names }
    else record c { succeeded = suc c.succeeded }

-- What a round receives: the end of the context, or the answer to the list of the jobs.
pub data Round : Type 0 where
  cancelled list_failed : Round
  listed : List JobStatus → Round

pub data Watched : Type 0 where
  waiting completed stopped : Watched
  jobs_failed : List Text → Watched

-- watchPreloadJobs, on the rounds of its loop.
unfoldable pub watch_preload_jobs : List Round → Watched
unfolding count_jobs
watch_preload_jobs [] = waiting
watch_preload_jobs (cancelled ∷ rs) = stopped
watch_preload_jobs (list_failed ∷ rs) = stopped
watch_preload_jobs (listed js ∷ rs) =
    let c = count_jobs js in
    let rest = watch_preload_jobs rs in
    if c.active == 0
    then (if ltb 0 c.failed then jobs_failed c.failed_names else completed)
    else rest
