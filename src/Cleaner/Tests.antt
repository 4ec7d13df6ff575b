-- ===== src/Cleaner/Tests.antt =====
-- cleaner.go: runs of the cleaner on two files, and the theorems at them.
use Prim.Native.Nat.{ℕ, ◌*◌, ◌<◌}
use accelerboat.Base.{◌≡◌, refl, Bool, true, false, Option, none, some, List, [], ◌∷◌, arith}
use accelerboat.Base.Int.{ℤ, pos}
use accelerboat.Base.Keys.{lookup}
use accelerboat.Base.Sort.{Sorted, sort_by}
use accelerboat.Base.Text.{
  Text, codes, text_eq, has_prefix, has_suffix, trim_prefix, trim_suffix, trim_space, drop_prefix,
}
use accelerboat.Recorder.{Event, zero_event, str}
use accelerboat.Cleaner.{
  Entry, file, LayerFile, LastUsed, older, bytes_per_gb, total_disk_used, collect_layer_files,
  run_clean, remove_until, used_at, build_digest_last_used, list_events_limit, blob_types,
  normalize_digest, digest_from_layer_file_name,
}
use accelerboat.Cleaner.Removal.{IsCut, total_size, run_clean-IsCut}
use accelerboat.Cleaner.Usage.{IsLatest, start_time, build_digest_last_used-IsLatest}

abbrev all_go : Text → Bool
all_go path = true

abbrev dirs : List (Bool × List Entry)
dirs =
    (
      false,
      file (codes "/t/ab.tar.gzip") (codes "ab.tar.gzip") (some 2000000000)
          ∷ file (codes "/t/cd.tar.gzip") (codes "cd.tar.gzip") (some 1500000000)
          ∷ [],
    )
    ∷ []

abbrev used : LastUsed
used = (codes "sha256:ab", 7) ∷ []

abbrev oldest : LayerFile
oldest = record { path = codes "/t/cd.tar.gzip"; size = 1500000000; last_used = 0 }

removes_none : run_clean all_go used (some 5 ∷ none ∷ []) dirs 1 0 ≡ some []
unfolding run_clean
removes_none = refl

removes_oldest : run_clean all_go used (some 3500000000 ∷ []) dirs 2 3 ≡ some (oldest ∷ [])
unfolding run_clean collect_layer_files remove_until sort_by has_suffix used_at lookup
    normalize_digest digest_from_layer_file_name text_eq has_prefix trim_prefix trim_suffix
    trim_space drop_prefix
removes_oldest = refl

too_much : 2 * bytes_per_gb < total_disk_used (some 3500000000 ∷ [])
unfolding total_disk_used
too_much = omega arith

run_clean-IsCut_example :
    (files : List LayerFile) × (collect_layer_files used dirs ≡ some files)
    × Sorted older (sort_by older files)
    × IsCut all_go
        (total_disk_used (some 3500000000 ∷ []))
        (2 * bytes_per_gb)
        0
        (sort_by older files)
        (total_size (oldest ∷ []), oldest ∷ [])
run_clean-IsCut_example =
    run_clean-IsCut all_go used (some 3500000000 ∷ []) dirs 2 3 (oldest ∷ []) removes_oldest
      too_much

abbrev served : Event
served = record zero_event {
  kind = codes "serve_blob_from_local";
  timestamp = 9;
  details = (codes "digest", str (codes "ab")) ∷ [];
}

abbrev recorded : ℤ → List Text → Option ℕ → List Event
recorded limit query start = served ∷ []

build_digest_last_used-IsLatest_example :
    IsLatest
      (codes "sha256:ab")
      (recorded (pos list_events_limit) blob_types (start_time 1000000 3))
      0
      (used_at (codes "sha256:ab") (build_digest_last_used recorded 1000000 (codes "/e") 3))
build_digest_last_used-IsLatest_example =
    build_digest_last_used-IsLatest recorded 1000000 (codes "/e") 3 (codes "sha256:ab") refl
