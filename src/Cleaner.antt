-- ===== src/Cleaner.antt =====
-- pkg/cleaner/cleaner.go: which layer files a run of the cleaner removes. Sizes are bytes where the
-- code has gigabytes as floating-point numbers. The file system is a parameter.
pub mod Removal
pub mod Usage
pub mod Tests
use Prim.Native.Nat.{ℕ, ◌+◌, ◌-◌, ◌*◌}
use accelerboat.Base.{
  ◌≡◌, Bool, true, false, not, ◌&&◌, Option, none, some, List, [], ◌∷◌, ◌++◌, ltb, leb, ◌==◌,
  if◌then◌else◌,
}
use accelerboat.Base.Int.{ℤ, pos}
use accelerboat.Base.Keys.{mem, lookup, insert}
use accelerboat.Base.Sort.{sort_by}
use accelerboat.Base.Text.{
  Text, codes, text_eq, has_prefix, has_suffix, trim_prefix, trim_suffix, trim_space,
}
use accelerboat.Recorder.{Event, Value, str, int, other, Details}

abbrev pub sha256 : Text
sha256 = codes "sha256:"

abbrev pub tar_gzip : Text
tar_gzip = codes ".tar.gzip"

unfoldable pub normalize_digest : Text → Text
normalize_digest d = let t = trim_space d in if has_prefix t sha256 then t else sha256 ++ t

-- s, _ := v.(string)
abbrev pub text_of : Value → Text
text_of (str s) = s
text_of (int n) = []
text_of other = []

unfoldable pub digest_from_details : Details → Text
digest_from_details details = elim (lookup (codes "digest") details) [
  | none ↦ []
  | some v ↦ trim_space (text_of v)
]

-- The code does not read its second argument.
unfoldable pub digest_from_layer_file_name : Text → Bool → Text
digest_from_layer_file_name base is_oci =
    let name = trim_suffix base tar_gzip in
    if text_eq name base then [] else sha256 ++ trim_prefix name sha256

abbrev pub blob_types : List Text
blob_types =
    codes "serve_blob_from_local"
    ∷ codes "get_blob_from_master"
    ∷ codes "download_blob_by_tcp"
    ∷ codes "download_blob_by_torrent"
    ∷ []

-- digest -> time; a digest that is missing has the zero time.
abbrev pub LastUsed : Type 0
LastUsed = List (Text × ℕ)

unfoldable pub used_at : Text → LastUsed → ℕ
used_at d out = elim (lookup d out) [ none ↦ 0 | some t ↦ t ]

-- One round of the loop over the events.
unfoldable pub note_event : LastUsed → Event → LastUsed
note_event out e =
    let norm = normalize_digest (digest_from_details e.details) in
    if not (mem e.kind blob_types)
    then out
    else if text_eq (digest_from_details e.details) []
    then out
    else if ltb (used_at norm out) e.timestamp
    then insert norm e.timestamp out
    else out

unfoldable pub note_events : LastUsed → List Event → LastUsed
unfolding note_event
note_events out [] = out
note_events out (e ∷ es) = note_events (note_event out e) es

abbrev pub list_events_limit : ℕ
list_events_limit = 500000

abbrev pub is_empty : Text → Bool
is_empty [] = true
is_empty (c ∷ s) = false

-- `list` is the recorder's List, and `now` the clock in seconds, later than the days that it goes back.
unfoldable pub build_digest_last_used :
    (ℤ → List Text → Option ℕ → List Event) → ℕ → Text → ℕ → LastUsed
unfolding note_events
build_digest_last_used list now event_file retain_days =
    let start = if retain_days == 0 then none else some (now - retain_days * 86400) in
    note_events []
      (if is_empty event_file then [] else list (pos list_events_limit) blob_types start)

pub record LayerFile : Type 0 where
  pub path : Text
  pub size : ℕ
  pub last_used : ℕ

-- What WalkDir passes to the function: an error, a directory, or a file with its name and, if the
-- information can be had, its size.
pub data Entry : Type 0 where
  missing unreadable directory : Entry
  file : Text → Text → Option ℕ → Entry

-- One directory; `none` is an error.
unfoldable pub collect_dir : LastUsed → Bool → List Entry → Option (List LayerFile)
collect_dir used is_oci [] = some []
collect_dir used is_oci (unreadable ∷ es) = none
collect_dir used is_oci (missing ∷ es) = collect_dir used is_oci es
collect_dir used is_oci (directory ∷ es) = collect_dir used is_oci es
collect_dir used is_oci (file path name size ∷ es) =
    let rest = collect_dir used is_oci es in
    if not (has_suffix name tar_gzip) then rest else elim size [
      | none ↦ rest
      | some n ↦ elim rest [
        | none ↦ none
        | some out ↦ some (
            record {
              path = path;
              size = n;
              last_used = used_at (normalize_digest (digest_from_layer_file_name name is_oci)) used;
            }
            ∷ out)
      ]
    ]

-- The directories, each with whether it is the one of the container runtimes' layers.
unfoldable pub collect_layer_files : LastUsed → List (Bool × List Entry) → Option (List LayerFile)
unfolding collect_dir
collect_layer_files used [] = some []
collect_layer_files used ((is_oci, es) ∷ dirs) =
    let rest = collect_layer_files used dirs in
    elim (collect_dir used is_oci es) [
      | none ↦ none
      | some out ↦ elim rest [ none ↦ none | some more ↦ some (out ++ more) ]
    ]

abbrev pub older : LayerFile → LayerFile → Bool
older a b = ltb a.last_used b.last_used

-- The loop over the candidates, with the bytes freed so far. `remove` tells whether os.Remove
-- succeeds. The result is the bytes freed and the files removed.
unfoldable pub remove_until : (Text → Bool) → ℕ → ℕ → List LayerFile → ℕ → ℕ × List LayerFile
remove_until remove total target [] freed = (freed, [])
remove_until remove total target (c ∷ cs) freed =
    let kept = remove_until remove total target cs freed in
    let (more, removed) = remove_until remove total target cs (freed + c.size) in
    if leb total (freed + target)
    then (freed, [])
    else if not (remove c.path)
    then kept
    else (more, c ∷ removed)

abbrev pub bytes_per_gb : ℕ
bytes_per_gb = 1000000000

-- totalDiskUsed, from the sizes of the directories that can be read.
unfoldable pub total_disk_used : List (Option ℕ) → ℕ
total_disk_used [] = 0
total_disk_used (none ∷ ds) = total_disk_used ds
total_disk_used (some n ∷ ds) = n + total_disk_used ds

-- runClean, which ends with `none` on an error: the files that it removes, oldest first.
unfoldable pub run_clean :
    (Text → Bool)
    → LastUsed
    → List (Option ℕ)
    → List (Bool × List Entry)
    → ℕ
    → ℕ
    → Option (List LayerFile)
unfolding total_disk_used
run_clean remove used sizes dirs threshold retain_days =
    let total = total_disk_used sizes in
    let target = threshold * bytes_per_gb in
    if retain_days == 0 && not (ltb target total)
    then some []
    else elim (collect_layer_files used dirs) [
      | none ↦ none
      | some files ↦ some (remove_until remove total target (sort_by older files) 0).1
    ]
