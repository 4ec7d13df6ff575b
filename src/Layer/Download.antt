-- ===== src/Layer/Download.antt =====
-- layer.go: requestDownloadLayer, with the files of the node. The registry and the operating system
-- are parameters.
pub mod Stored
pub mod Ticks
use Prim.Native.Nat.{ℕ}
use accelerboat.Base.{
  ◌≡◌, ◌≢◌, refl, sym, ◌⊎◌, inl, inr, Bool, true, false, not, Option, none, some, List, ◌∷◌, ◌++◌,
  arith, ◌==◌, if◌then◌else◌, Option-cases, Bool-cases, if_ind, subst, ==→eq,
}
use accelerboat.Base.Keys.{lookup, insert, delete, lookup-insert, lookup-delete}
use accelerboat.Base.Text.{Text, codes, text_eq, text_eq_iff, text_eq_refl, trim_prefix}
use accelerboat.Layer.Cached.{DownloadLayerRequest}

-- The files of the node, with what they hold.
abbrev pub Files : Type 0
Files = List (Text × Text)

-- A response whose body is read: the bytes that came, and whether that was all of it.
pub record Response : Type 0 where
  pub status_code : ℕ
  pub body : Text
  pub is_complete : Bool

-- Which calls the operating system lets through.
pub record Os : Type 0 where
  pub can_create : Text → Bool
  pub can_rename : Text → Text → Bool

-- When a tick of the progress goroutine sets the `err` that requestDownloadLayer shares with it, and to
-- what: whether its Stat of the open file fails. Only a tick between an assignment of err and a read of
-- it counts: before the test of io.Copy's, while the file is removed after that, before the test of
-- os.Rename's, and before that is wrapped.
pub record Progress : Type 0 where
  pub after_copy : Option Bool
  pub in_remove : Option Bool
  pub after_rename : Option Bool
  pub in_wrap : Option Bool

-- No tick comes then.
abbrev pub quiet : Progress
quiet = record { after_copy = none; in_remove = none; after_rename = none; in_wrap = none }

-- Whether err is an error where it is read.
abbrev pub read_err : Option Bool → Bool → Bool
read_err none err = err
read_err (some stat_failed) err = stat_failed

-- The operating system of a node that downloads from the original registry.
pub record LayerOs : Type 0 where
  pub os : Os
  pub can_stat : Text → Bool
  pub progress : Progress

-- path.Join of a clean directory and a name without '/'.
unfoldable pub path_join : Text → Text → Text
path_join dir name = dir ++ (b'/' ∷ name)

-- LayerFileName
unfoldable pub layer_file_name : Text → Text
layer_file_name digest = trim_prefix digest (codes "sha256:") ++ codes ".tar.gzip"

-- os.Rename on files
unfoldable pub rename : Text → Text → Files → Files
rename from to fs = elim (lookup from fs) [
  | none ↦ fs
  | some bytes ↦ insert to bytes (delete from fs)
]

-- The part after the status is checked: `true` where it returns no error.
unfoldable pub store_body : Os → Progress → Response → Text → Text → Files → Bool × Files
store_body os progress resp full_path dest fs =
    let removed = delete full_path fs in
    let written = insert full_path resp.body removed in
    let can_rename = os.can_rename full_path dest in
    let moved = if can_rename then rename full_path dest written else written in
    if not (os.can_create full_path)
    then (false, removed)
    else if read_err progress.after_copy (not resp.is_complete)
    then (not (read_err progress.in_remove true), delete full_path written)
    else if read_err progress.after_rename (not can_rename)
    then (not (read_err progress.in_wrap true), moved)
    else (true, moved)

-- `send` is the request to the original registry; `none` is an error.
unfoldable pub request_download_layer :
    (DownloadLayerRequest → Option Response)
    → LayerOs
    → Text
    → DownloadLayerRequest
    → Text
    → Files
    → Bool × Files
request_download_layer send los download_path req dest fs = elim (send req) [
  | none ↦ (false, fs)
  | some resp ↦
      if not (resp.status_code == 200)
      then (false, fs)
      else store_body los.os los.progress resp
          (path_join download_path (layer_file_name req.digest)) dest fs
]
