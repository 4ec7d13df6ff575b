-- ===== src/Preload/Tests.antt =====
-- image_preload.go: names at the limit, and a wait of two rounds.
use accelerboat.Base.{◌≡◌, refl, [], ◌∷◌}
use accelerboat.Base.Text.{codes, to_lower, trim_space, text_eq}
use accelerboat.Base.Text.Split.{split}
use accelerboat.Preload.{
  parse_comma_list, sanitize_job_name, JobStatus, listed, jobs_failed, watch_preload_jobs,
}

two_images : parse_comma_list (codes "a:1,b:2 ,") ≡ codes "a:1" ∷ codes "b:2" ∷ []
unfolding parse_comma_list split trim_space text_eq
two_images = refl

cleaned : sanitize_job_name (codes "Node_1..Zone--") 35 ≡ codes "node-1-zone"
unfolding sanitize_job_name to_lower
cleaned = refl

-- The cut comes after the trim, so a name may end in a dash.
cut_at_dash : sanitize_job_name (codes "node-1") 5 ≡ codes "node-"
unfolding sanitize_job_name to_lower
cut_at_dash = refl

abbrev runs : JobStatus
runs = record { name = codes "a"; active = 1; failed = 0 }

abbrev broken : JobStatus
broken = record { name = codes "b"; active = 0; failed = 2 }

abbrev not_begun : JobStatus
not_begun = record { name = codes "c"; active = 0; failed = 0 }

fails :
    watch_preload_jobs (listed (runs ∷ []) ∷ listed (broken ∷ not_begun ∷ []) ∷ [])
    ≡ jobs_failed (codes "b" ∷ [])
unfolding watch_preload_jobs
fails = refl
