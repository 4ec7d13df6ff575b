-- ===== src/Preload/Names.antt =====
-- image_preload.go: the names of the jobs fit Kubernetes, and lists have no empty items.
use Prim.Native.Nat.{ℕ, zero, suc, ◌+◌, ◌-◌, ◌≤◌, ◌<◌}
use mathlib.Core.List.{reverse, reverse-append}
use accelerboat.Base.{
  ◌≡◌, refl, ap, ◌∙◌, Bool, true, false, not, ◌&&◌, [], ◌∷◌, ◌++◌, arith, ltb, length, take,
  length-append, length-take, if_ind,
}
use accelerboat.Base.Text.{Text, codes, to_lower, text_eq, has_prefix, has_prefix-append}
use accelerboat.Preload.{
  is_name_char, replace_runs, trim_left_dashes, trim_dashes, sanitize_job_name, build_job_name,
}

-- Only bytes of [a-z0-9-].
abbrev pub all_name : Text → Bool
all_name [] = true
all_name (c ∷ s) = is_name_char c && all_name s

all_name-append : (s t : Text) → all_name (s ++ t) ≡ (all_name s && all_name t)
all_name-append [] t = refl
all_name-append (c ∷ s) t = ground (arith, all_name-append s t)

all_name-reverse : (s : Text) → all_name (reverse s) ≡ all_name s
all_name-reverse [] = refl
all_name-reverse (c ∷ s) =
    ap all_name (reverse-append (c ∷ []) s)
    ∙ ground (arith, all_name-append (reverse s) (c ∷ []), all_name-reverse s)

all_name-replace_runs : (in_run : Bool) (s : Text) → all_name (replace_runs in_run s) ≡ true
unfolding replace_runs
all_name-replace_runs in_run [] = refl
all_name-replace_runs in_run (c ∷ s) =
    ground (arith, all_name-replace_runs (not (is_name_char c)) s)

all_name-trim_left : (s : Text) → all_name s ≡ true → all_name (trim_left_dashes s) ≡ true
unfolding trim_left_dashes
all_name-trim_left [] h = refl
all_name-trim_left (c ∷ s) h = ground (arith, all_name-trim_left s)

all_name-trim_dashes : (s : Text) → all_name s ≡ true → all_name (trim_dashes s) ≡ true
unfolding trim_dashes
all_name-trim_dashes s h =
    all_name-reverse (trim_left_dashes (reverse (trim_left_dashes s)))
    ∙ all_name-trim_left (reverse (trim_left_dashes s))
        (all_name-reverse (trim_left_dashes s) ∙ all_name-trim_left s h)

all_name-take : (n : ℕ) (s : Text) → all_name s ≡ true → all_name (take n s) ≡ true
all_name-take zero s h = refl
all_name-take (suc n) [] h = refl
all_name-take (suc n) (c ∷ s) h = ground (arith, all_name-take n s)

-- A name of at most so many bytes of [a-z0-9-].
sanitize_job_name_lem :
    (name : Text) (max_len : ℕ)
    → (all_name (sanitize_job_name name max_len) ≡ true)
      × (length (sanitize_job_name name max_len) ≤ max_len)
unfolding sanitize_job_name
sanitize_job_name_lem name max_len =
    if_ind (λ r. (all_name r ≡ true) × (length r ≤ max_len)) (ltb max_len (length clean)) _ _
      (λ h. (all_name-take max_len clean good, omega (arith, length-take max_len clean)))
      (λ h. (good, ground arith))
  where
    clean : Text
    clean = trim_dashes (replace_runs false (to_lower name))

    good : all_name clean ≡ true
    good =
        all_name-trim_dashes (replace_runs false (to_lower name))
          (all_name-replace_runs false (to_lower name))

non_empty_lem : (s : Text) → text_eq s [] ≡ false → 0 < length s
unfolding text_eq
non_empty_lem [] h = absurd (cc)
non_empty_lem (c ∷ s) h = omega arith

-- For a task name of at most 58 bytes of [a-z0-9-], the name of a node's job has at most 63 bytes, all
-- of [a-z0-9-], begins with the task name and a dash, and goes on behind that.
pub build_job_name_lem :
    (task_name node_name : Text)
    → all_name task_name ≡ true
    → length task_name ≤ 58
    → let name = build_job_name task_name node_name in
      (all_name name ≡ true)
      × (length name ≤ 63)
      × (has_prefix name (task_name ++ codes "-") ≡ true)
      × (length task_name + 1 < length name)
unfolding build_job_name
build_job_name_lem task_name node_name good short =
    let safe = sanitize_job_name node_name (63 - length prefix) in
    let lem = sanitize_job_name_lem node_name (63 - length prefix) in
    if_ind P (text_eq safe []) _ _
      (λ h. (
        all_name-append prefix (codes "node") ∙ rw prefix_good,
        omega (arith, length-append prefix (codes "node"), length-append task_name (codes "-")),
        has_prefix-append prefix (codes "node"),
        omega (arith, length-append prefix (codes "node"), length-append task_name (codes "-")),
      ))
      (λ h. (
        all_name-append prefix safe ∙ ground (arith, prefix_good, lem.0),
        omega (arith, length-append prefix safe, length-append task_name (codes "-"), lem.1),
        has_prefix-append prefix safe,
        omega (
          arith,
          length-append prefix safe,
          length-append task_name (codes "-"),
          non_empty_lem safe h,
        ),
      ))
  where
    prefix : Text
    prefix = task_name ++ codes "-"

    prefix_good : all_name prefix ≡ true
    prefix_good = all_name-append task_name (codes "-") ∙ rw good

    P : Text → Type 0
    P name =
        (all_name name ≡ true)
        × (length name ≤ 63)
        × (has_prefix name (task_name ++ codes "-") ≡ true)
        × (length task_name + 1 < length name)
