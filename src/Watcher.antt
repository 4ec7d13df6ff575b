-- ===== src/Watcher.antt =====
-- pkg/staticwatcher/watcher.go: the layer files of the node and their locations in the store. The file
-- system and fsnotify are parameters: what a walk meets, and which events come.
pub mod Log
pub mod Tests
use Prim.Native.Nat.{ℕ}
use accelerboat.Base.{
  ◌≡◌, Bool, true, false, not, ◌&&◌, ◌||◌, Option, none, some, List, [], ◌∷◌, if◌then◌else◌,
}
use accelerboat.Base.Text.{Text, codes, has_suffix, trim_suffix}
use accelerboat.Base.Text.Split.{split}
use accelerboat.Store.{Redis, RedisStore, save_static_layer, delete_static_layer}

abbrev pub suffix : Text
suffix = codes ".tar.gzip"

-- What filepath.Walk calls its function with: an error, or a file.
pub data Visit : Type 0 where
  visit_failed : Visit
  visit : Text → Text → Bool → Visit

pub data Op : Type 0 where
  create remove other_op : Op

-- What the select of Watch receives, with the time of day where it is read.
pub data Signal : Type 0 where
  event : Text → Op → ℕ → Signal
  -- the ticker, with the walks of the static paths
  tick : List (List Visit) → ℕ → Signal
  watch_error events_closed errors_closed cancelled : Signal

-- path.Base of a path that does not end in '/'
abbrev last_part : List Text → Text
last_part [] = []
last_part (p ∷ []) = p
last_part (p ∷ q ∷ rest) = last_part (q ∷ rest)

unfoldable pub base : Text → Text
base name = last_part (split name b'/')

module _ (redis : Redis) where
  -- An error is logged.
  unfoldable pub try_save : Text → Text → ℕ → RedisStore redis.Server → RedisStore redis.Server
  try_save digest file_path now r = elim (save_static_layer redis digest file_path now r) [
    | none ↦ r
    | some r' ↦ r'
  ]

  unfoldable pub try_delete : Text → RedisStore redis.Server → RedisStore redis.Server
  try_delete digest r = elim (delete_static_layer redis digest r) [ none ↦ r | some r' ↦ r' ]

  -- The walk ends at the first error.
  unfoldable pub init_layer_files :
      List Visit → ℕ → RedisStore redis.Server → Bool × RedisStore redis.Server
  unfolding try_save
  init_layer_files [] now r = (true, r)
  init_layer_files (visit_failed ∷ vs) now r = (false, r)
  init_layer_files (visit fp name is_dir ∷ vs) now r = init_layer_files vs now (
      if is_dir || not (has_suffix name suffix)
      then r
      else try_save (trim_suffix name suffix) fp now r)

  -- Init ends at the first path whose walk fails.
  unfoldable pub init :
      List (List Visit) → ℕ → RedisStore redis.Server → Bool × RedisStore redis.Server
  unfolding init_layer_files
  init [] now r = (true, r)
  init (walk ∷ walks) now r =
      let (ok, r') = init_layer_files walk now r in
      let rest = init walks now r' in if ok then rest else (false, r')

  -- The case of the ticker, which goes on to the next path after an error.
  unfoldable pub tick_all :
      List (List Visit) → ℕ → RedisStore redis.Server → RedisStore redis.Server
  unfolding init_layer_files
  tick_all [] now r = r
  tick_all (walk ∷ walks) now r = tick_all walks now (init_layer_files walk now r).1

  unfoldable pub on_event : Text → Op → ℕ → RedisStore redis.Server → RedisStore redis.Server
  unfolding try_save try_delete base
  on_event name op now r =
      let digest = trim_suffix (base name) suffix in
      if not (has_suffix name suffix) then r else elim op [
        | create ↦ try_save digest name now r
        | remove ↦ try_delete digest r
        | other_op ↦ r
      ]

  -- The loop of Watch, on what it receives.
  unfoldable pub watch : List Signal → RedisStore redis.Server → RedisStore redis.Server
  unfolding on_event tick_all
  watch [] r = r
  watch (event name op now ∷ xs) r = watch xs (on_event name op now r)
  watch (tick walks now ∷ xs) r = watch xs (tick_all walks now r)
  watch (watch_error ∷ xs) r = watch xs r
  watch (events_closed ∷ xs) r = r
  watch (errors_closed ∷ xs) r = r
  watch (cancelled ∷ xs) r = r
